-- ===== src/Regex/Fields.antt =====
-- Patterns made of a literal text, a group of four characters of one class, and a literal text:
-- what they accept, and that the matcher finds just that.
use mathlib.Core.Path.{subst}
use mathlib.Core.List.{append-nil, append_assoc, append_cancel_left}
use multiplayer_fabric_manua.Common.{
  ℕ, Bool, true, false, [], ◌∷◌, ◌++◌, some, ◌≡◌, refl, sym, ap, ◌∙◌, arith, ◌↔◌,
}
use multiplayer_fabric_manua.Common.Tests.{==_iff}
use multiplayer_fabric_manua.Common.Lists.{length, all, append-cancel_length}
use multiplayer_fabric_manua.Common.Text.{Text}
use multiplayer_fabric_manua.Regex.{
  one, group_open, group_close, Regex, Mark, note, notes, open_group, close_group, Found, group_of,
  match_at,
}
use multiplayer_fabric_manua.Regex.Sound.{Accepts, group-match_at}
use multiplayer_fabric_manua.Regex.Classes.{lit, four}

-- A literal text is accepted where it stands.
pub lit-inv :
    (w : Text) (r : Regex) (s : Text) (m : Mark) (f : Found)
    → Accepts (lit w ++ r) s m f
    → (t : Text) × (s ≡ w ++ t) × Accepts r t (notes m w) f
lit-inv [] r s m f a = (s, refl, a)
lit-inv (c ∷ w) r s m f (d, s', e, k, a) =
    let same : d ≡ c = (==_iff d c).0 k in
    let (t, e', a') = lit-inv w r s' (note m d) f a in
    (t, ground arith, subst (λ x. Accepts r t (notes (note m x) w) f) same a')

pub lit-intro :
    (w : Text) (r : Regex) (t : Text) (m : Mark) (f : Found)
    → Accepts r t (notes m w) f
    → Accepts (lit w ++ r) (w ++ t) m f
lit-intro [] r t m f a = a
lit-intro (c ∷ w) r t m f a = (c, w ++ t, refl, (==_iff c c).1 refl, lit-intro w r t (note m c) f a)

-- Four characters of a class.
pub four-inv :
    (p : ℕ → Bool) (r : Regex) (s : Text) (m : Mark) (f : Found)
    → Accepts (four p ++ r) s m f
    → (n : Text) × (t : Text) × (s ≡ n ++ t)
      × (length n ≡ 4)
      × (all p n ≡ true)
      × Accepts r t (notes m n) f
four-inv p r s m f (a, t₁, e₁, k₁, (b, t₂, e₂, k₂, (c, t₃, e₃, k₃, (d, t₄, e₄, k₄, acc)))) =
    (a ∷ b ∷ c ∷ d ∷ [], t₄, cc, refl, ground arith, acc)

pub four-intro :
    (p : ℕ → Bool) (r : Regex) (n t : Text) (m : Mark) (f : Found)
    → length n ≡ 4
    → all p n ≡ true
    → Accepts r t (notes m n) f
    → Accepts (four p ++ r) (n ++ t) m f
four-intro p r (a ∷ b ∷ c ∷ d ∷ []) t m f l k acc =
    let tail : Accepts (one p ∷ one p ∷ r) (c ∷ d ∷ t) (note (note m a) b) f =
      (c, d ∷ t, refl, ground arith, (d, t, refl, ground arith, acc)) in
    (a, b ∷ c ∷ d ∷ t, refl, ground arith, (b, c ∷ d ∷ t, refl, ground arith, tail))
four-intro p r _ t m f l k acc = absurd (omega arith)

pub inside-notes : (m : Mark) (w : Text) → (notes m w).inside ≡ m.inside
inside-notes m [] = refl
inside-notes m (c ∷ w) = inside-notes (note m c) w

pub group-notes_outside : (m : Mark) (w : Text) → m.inside ≡ false → (notes m w).group ≡ m.group
group-notes_outside m [] h = refl
group-notes_outside m (c ∷ w) h = ground (arith, group-notes_outside (note m c) w)

pub group-notes_inside : (m : Mark) (w : Text) → m.inside ≡ true → (notes m w).group ≡ m.group ++ w
group-notes_inside m [] h = sym (append-nil m.group)
group-notes_inside m (c ∷ w) h =
    let e : (note m c).group ≡ m.group ++ c ∷ [] = rw h refl in
    group-notes_inside (note m c) w h ∙ (ap (λ x. x ++ w) e ∙ append_assoc m.group (c ∷ []) w)

-- `pre`, four characters of class `p` that are `n`, and `suf`, at the start of `s`.
abbrev pub Reads : (ℕ → Bool) → Text → Text → Text → Text → Type 0
Reads p pre suf s n =
    (t : Text) × (s ≡ pre ++ (n ++ (suf ++ t))) × (length n ≡ 4) × (all p n ≡ true)

abbrev pub field_re : (ℕ → Bool) → Text → Text → Regex
field_re p pre suf = lit pre ++ group_open ∷ (four p ++ group_close ∷ (lit suf ++ []))

module _ (p : ℕ → Bool) (pre suf : Text) where
  abbrev behind : Regex
  behind = group_close ∷ (lit suf ++ [])

  field-inv :
      (s : Text) (m : Mark) (f : Found)
      → Accepts (field_re p pre suf) s m f
      → Reads p pre suf s f.0.group
  field-inv s m f a =
      let (t, e, b) = lit-inv pre (group_open ∷ (four p ++ behind)) s m f a in
      let m₁ : Mark = open_group (notes m pre) in
      let (n, t', e', l, k, c) = four-inv p behind t m₁ f b in
      let m₂ : Mark = close_group (notes m₁ n) in
      let (t'', e'', d) = lit-inv suf [] t' m₂ f c in
      let g : f.0.group ≡ n =
        ap (λ (x : Found). x.0.group) d
        ∙ (group-notes_outside m₂ suf refl ∙ group-notes_inside m₁ n refl) in
      rw g (t'', e ∙ ap (λ x. pre ++ x) (e' ∙ ap (λ x. n ++ x) e''), l, k)

  field-intro :
      (n t : Text) (m : Mark)
      → length n ≡ 4
      → all p n ≡ true
      → (f : Found) × Accepts (field_re p pre suf) (pre ++ (n ++ (suf ++ t))) m f
  field-intro n t m l k =
      let m₁ : Mark = open_group (notes m pre) in
      let m₂ : Mark = close_group (notes m₁ n) in
      let f : Found = (notes m₂ suf, t) in
      (
        f,
        lit-intro pre (group_open ∷ (four p ++ behind)) (n ++ (suf ++ t)) m f
            (four-intro p behind n (suf ++ t) m₁ f l k (lit-intro suf [] t m₂ f refl)),
      )

  -- A text can be read in one way.
  Reads-unique : {s n n' : Text} → Reads p pre suf s n → Reads p pre suf s n' → n ≡ n'
  Reads-unique (t, e, l, k) (t', e', l', k') =
      append-cancel_length _ _ _ _ (l ∙ sym l') (append_cancel_left pre _ _ (sym e ∙ e'))

  -- The matcher's group is what can be read.
  pub field-group :
      (s : Text) (m : Mark) (n : Text)
      → (group_of (match_at (field_re p pre suf) s m) ≡ some n) ↔ Reads p pre suf s n
  field-group s m n =
      group-match_at (field_re p pre suf) s m (Reads p pre suf s) (field-inv s m)
        (λ n (t, e, l, k). let (f, a) = field-intro n t m l k in (f, rw e a))
        (λ n n' q q'. Reads-unique q q') n
