-- ===== src/RfdCheck/Patterns/OldCitations.antt =====
-- What `OLD_CITE_RE` of scripts/check-rfd-numbers.py finds: citations in the old decimal form.
use mathlib.Core.Bool.{xor}
use mathlib.Core.List.{Memᴰ, append_cancel_left}
use multiplayer_fabric_manua.Common.{
  ℕ, Bool, true, false, [], ◌∷◌, ◌++◌, Option, none, some, ◌≡◌, refl, arith, ◌↔◌, ◌∙◌, sym, ap, inl,
  inr,
}
use multiplayer_fabric_manua.Common.Tests.{◌==◌, ==_iff, Bool-cases}
use multiplayer_fabric_manua.Common.Lists.{append-cancel_length}
use multiplayer_fabric_manua.Common.Text.{Text, codes}
use multiplayer_fabric_manua.Regex.{
  one, assert, group_open, group_close, Regex, Mark, mark, open_group, close_group, note, notes,
  Found, group_of, match_at, find_all,
}
use multiplayer_fabric_manua.Regex.Sound.{Accepts, group-match_at}
use multiplayer_fabric_manua.Regex.Fields.{lit-inv, lit-intro}
use multiplayer_fabric_manua.Regex.Search.{Avoids}
use multiplayer_fabric_manua.Regex.Hits.{Hit, char_before, mem-find_all_assert}
use multiplayer_fabric_manua.Regex.Classes.{lit, word_boundary, class_of, first}
use multiplayer_fabric_manua.RfdCheck.Patterns.{Unicode, is_word, old_cite_re}

-- What the pattern relies on in Python's tables: `R` and the decimal digits are word characters, and
-- `R` is no digit.
pub record HasLetters (u : Unicode) : Type 0 where
  pub letter : is_word u b'R' ≡ true
  pub digit : (c : ℕ) → u.decimal c ≡ true → is_word u c ≡ true
  pub not_digit : u.decimal b'R' ≡ false

-- A zero and three decimal digits.
abbrev pub IsOld : Unicode → Text → Type 0
IsOld u num =
    (a : ℕ) × (b : ℕ) × (c : ℕ) × (num ≡ b'0' ∷ a ∷ b ∷ c ∷ [])
    × (u.decimal a ≡ true)
    × (u.decimal b ≡ true)
    × (u.decimal c ≡ true)

-- The text cites the number, as a word of its own on both sides.
abbrev pub CitesOld : Unicode → Text → Text → Type 0
CitesOld u s num =
    (v : Text) × (t : Text) × (s ≡ v ++ (codes "RFD " ++ (num ++ t)))
    × IsOld u num
    × (class_of (is_word u) (char_before none v) ≡ false)
    × (class_of (is_word u) (first t) ≡ false)

-- Beside a word character there is a boundary exactly where no word character stands.
edge_front :
    (word : ℕ → Bool) (b : Option ℕ) (c : ℕ) (s : Text)
    → word c ≡ true
    → (word_boundary word b (c ∷ s) ≡ true) ↔ (class_of word b ≡ false)
unfolding xor
edge_front word b c s h = ground arith

edge_back :
    (word : ℕ → Bool) (c : ℕ) (s : Text)
    → word c ≡ true
    → (word_boundary word (some c) s ≡ true) ↔ (class_of word (first s) ≡ false)
unfolding xor
edge_back word c s h = ground arith

module _ (u : Unicode) (h : HasLetters u) where
  abbrev edge : Option ℕ → Text → Bool
  edge = word_boundary (is_word u)

  abbrev digits : Regex
  digits = one u.decimal ∷ one u.decimal ∷ one u.decimal ∷ group_close ∷ assert edge ∷ []

  abbrev ReadsOld : Option ℕ → Text → Text → Type 0
  ReadsOld b s num =
      (t : Text) × (s ≡ codes "RFD " ++ (num ++ t))
      × IsOld u num
      × (class_of (is_word u) b ≡ false)
      × (class_of (is_word u) (first t) ≡ false)

  old-inv :
      (b : Option ℕ) (s : Text) (f : Found)
      → Accepts (old_cite_re u) s (mark b) f
      → ReadsOld b s f.0.group
  unfolding old_cite_re
  old-inv b s f (k, a) =
      let (t, e, a') =
        lit-inv (codes "RFD ") (group_open ∷ (lit (codes "0") ++ digits)) s (mark b) f a in
      let m : Mark = notes (mark b) (codes "RFD ") in
      let (t₀, e₀, (x, t₁, e₁, k₁, (y, t₂, e₂, k₂, (z, t₃, e₃, k₃, (k₄, q))))) =
        lit-inv (codes "0") digits t (open_group m) f a' in
      let num : Text = b'0' ∷ x ∷ y ∷ z ∷ [] in
      let g : f.0.group ≡ num = ap (λ (w : Found). w.0.group) q in
      let number : t ≡ num ++ t₃ =
        e₀ ∙ ap (λ w. b'0' ∷ w) (e₁ ∙ ap (λ w. x ∷ w) (e₂ ∙ ap (λ w. y ∷ w) e₃)) in
      let front : class_of (is_word u) b ≡ false =
        (edge_front (is_word u) b b'R' (codes "FD " ++ t) h.letter).0 (rw e at k) in
      let back : class_of (is_word u) (first t₃) ≡ false =
        (edge_back (is_word u) z t₃ (h.digit z k₃)).0 k₄ in
      rw g (t₃, e ∙ ap (λ w. codes "RFD " ++ w) number, (x, y, z, refl, k₁, k₂, k₃), front, back)

  old-intro :
      (b : Option ℕ) (s num : Text)
      → ReadsOld b s num
      → (f : Found) × Accepts (old_cite_re u) s (mark b) f
  unfolding old_cite_re
  old-intro b s num (t, e, (x, y, z, e', k₁, k₂, k₃), front, back) =
      let m : Mark = notes (mark b) (codes "RFD ") in
      let m' : Mark = close_group (notes (open_group m) (b'0' ∷ x ∷ y ∷ z ∷ [])) in
      let f : Found = (m', t) in
      let last : word_boundary (is_word u) (some z) t ≡ true =
        (edge_back (is_word u) z t (h.digit z k₃)).1 back in
      let tail : Accepts digits (x ∷ y ∷ z ∷ t) (note (open_group m) b'0') f =
        (x, y ∷ z ∷ t, refl, k₁, (y, z ∷ t, refl, k₂, (z, t, refl, k₃, (last, refl)))) in
      let accepted : Accepts (old_cite_re u) (codes "RFD " ++ (b'0' ∷ x ∷ y ∷ z ∷ t)) (mark b) f = (
        (edge_front (is_word u) b b'R' (codes "FD " ++ (b'0' ∷ x ∷ y ∷ z ∷ t)) h.letter).1 front,
        lit-intro (codes "RFD ") (group_open ∷ (lit (codes "0") ++ digits)) (b'0' ∷ x ∷ y ∷ z ∷ t)
            (mark b) f (lit-intro (codes "0") digits (x ∷ y ∷ z ∷ t) (open_group m) f tail),
      ) in
      (f, rw (e, e') accepted)

  ReadsOld-unique : (b : Option ℕ) (s x y : Text) → ReadsOld b s x → ReadsOld b s y → x ≡ y
  ReadsOld-unique b s x y (t, e, (_, _, _, p, _, _, _), _, _)
        (t', e', (_, _, _, p', _, _, _), _, _) =
      append-cancel_length x y t t' (rw (p, p') refl)
        (append_cancel_left (codes "RFD ") _ _ (sym e ∙ e'))

  is_r : ℕ → Bool
  is_r d = d == b'R'

  decimal-not_r : (c : ℕ) → u.decimal c ≡ true → is_r c ≡ false
  unfolding is_r
  decimal-not_r c k = elim (Bool-cases (c == b'R')) [
    | inl e ↦ cc (ap u.decimal ((==_iff c b'R').0 e), h.not_digit)
    | inr e ↦ e
  ]

  abbrev cite_rest : Regex
  cite_rest = lit (codes "FD ") ++ group_open ∷ (lit (codes "0") ++ digits)

  cite-Avoids : Avoids is_r cite_rest
  unfolding is_r
  cite-Avoids =
      let tail : Avoids is_r digits = (decimal-not_r, (decimal-not_r, (decimal-not_r, tt))) in
      (
        λ c k. ground arith,
        (λ c k. ground arith, (λ c k. ground arith, (λ c k. ground arith, tail))),
      )

  cite-Hit : (s num : Text) → Memᴰ num (find_all (old_cite_re u) s) ↔ Hit (old_cite_re u) none s num
  unfolding old_cite_re is_r
  cite-Hit s num = mem-find_all_assert is_r cite_rest cite-Avoids s num edge

  group-cite :
      (b : Option ℕ) (s num : Text)
      → (group_of (match_at (old_cite_re u) s (mark b)) ≡ some num) ↔ ReadsOld b s num
  group-cite b s num =
      group-match_at (old_cite_re u) s (mark b) (ReadsOld b s) (old-inv b s) (old-intro b s)
        (ReadsOld-unique b s) num

  -- `OLD_CITE_RE.finditer` finds a number exactly when the text cites it in the old decimal form, a
  -- word of its own, where Python's tables are as `HasLetters` says.
  pub find_all-old_cite : (s num : Text) → Memᴰ num (find_all (old_cite_re u) s) ↔ CitesOld u s num
  find_all-old_cite s num = (found, finds)
    where
      found : Memᴰ num (find_all (old_cite_re u) s) → CitesOld u s num
      found k =
          let (v, t, e, g) = (cite-Hit s num).0 k in
          let (t', e', o, front, back) = (group-cite (char_before none v) t num).0 g in
          (v, t', e ∙ ap (λ x. v ++ x) e', o, front, back)

      finds : CitesOld u s num → Memᴰ num (find_all (old_cite_re u) s)
      finds (v, t, e, o, front, back) =
          let rest : Text = codes "RFD " ++ (num ++ t) in
          (cite-Hit s num).1
            (v, rest, e, (group-cite (char_before none v) rest num).1 (t, refl, o, front, back))
