-- ===== src/RfdCheck/Patterns/DirNames.antt =====
-- What `DIR_RE` of scripts/check-rfd-numbers.py accepts.
use multiplayer_fabric_manua.Common.{
  ℕ, true, [], ◌∷◌, ◌++◌, Option, none, some, ◌≡◌, ◌≢◌, refl, arith, ◌↔◌, ◌⊎◌, inl, inr, ◌∙◌, sym,
  ap,
}
use multiplayer_fabric_manua.Common.Lists.{length, all, append-cancel_length}
use multiplayer_fabric_manua.Common.Text.{Text, codes}
use multiplayer_fabric_manua.Regex.{
  assert, group_close, Regex, Mark, mark, open_group, close_group, notes, Found, group_of,
  match_start,
}
use multiplayer_fabric_manua.Regex.Sound.{Accepts, group-match_at}
use multiplayer_fabric_manua.Regex.Fields.{
  four-inv, four-intro, group-notes_inside, group-notes_outside,
}
use multiplayer_fabric_manua.Regex.Slugs.{dash_slug, slug-inv, slug-intro}
use multiplayer_fabric_manua.Regex.Classes.{is_hex, is_slug, text_end}
use multiplayer_fabric_manua.RfdCheck.Patterns.{dir_re}

-- `num`, a dash and a slug; `$` lets one newline follow.
abbrev pub DirName : Text → Text → Type 0
DirName d num =
    (slug : Text) × (end : Text) × (d ≡ num ++ b'-' ∷ (slug ++ end))
    × (length num ≡ 4)
    × (all is_hex num ≡ true)
    × (slug ≢ [])
    × (all is_slug slug ≡ true)
    × ((end ≡ []) ⊎ (end ≡ codes "\n"))

abbrev at_end : Regex
at_end = assert text_end ∷ []

abbrev behind : Regex
behind = group_close ∷ dash_slug at_end

text_end-inv : (b : Option ℕ) (t : Text) → text_end b t ≡ true → (t ≡ []) ⊎ (t ≡ codes "\n")
text_end-inv b [] h = inl refl
text_end-inv b (c ∷ []) h = inr (ground arith)
text_end-inv b (c ∷ d ∷ t) h = cc

text_end-intro : (b : Option ℕ) (t : Text) → (t ≡ []) ⊎ (t ≡ codes "\n") → text_end b t ≡ true
text_end-intro b t (inl e) = rw e
text_end-intro b t (inr e) = rw e

dir-inv : (s : Text) (f : Found) → Accepts dir_re s (mark none) f → DirName s f.0.group
unfolding dir_re
dir-inv s f (_, b) =
    let m₁ : Mark = open_group (mark none) in
    let (num, t₁, e₁, l, k, c) = four-inv is_hex behind s m₁ f b in
    let m₂ : Mark = close_group (notes m₁ num) in
    let (slug, t₂, e₂, ne, k', (h, q)) = slug-inv at_end t₁ m₂ f c in
    let g : f.0.group ≡ num =
      ap (λ (x : Found). x.0.group) q
      ∙ (group-notes_outside m₂ (b'-' ∷ slug) refl ∙ group-notes_inside m₁ num refl) in
    rw g (
      slug,
      t₂,
      e₁ ∙ ap (λ x. num ++ x) e₂,
      l,
      k,
      ne,
      k',
      text_end-inv (notes m₂ (b'-' ∷ slug)).before t₂ h,
    )

dir-intro : (s num : Text) → DirName s num → (f : Found) × Accepts dir_re s (mark none) f
unfolding dir_re
dir-intro s num (slug, t, e, l, k, ne, k', h) =
    let m₁ : Mark = open_group (mark none) in
    let m₂ : Mark = close_group (notes m₁ num) in
    let m₃ : Mark = notes m₂ (b'-' ∷ slug) in
    let f : Found = (m₃, t) in
    let accepted : Accepts dir_re (num ++ b'-' ∷ (slug ++ t)) (mark none) f = (
      refl,
      four-intro is_hex behind num (b'-' ∷ (slug ++ t)) m₁ f l k
          (slug-intro at_end slug t m₂ f ne k' (text_end-intro m₃.before t h, refl)),
    ) in
    (f, rw e accepted)

DirName-unique : (s a b : Text) → DirName s a → DirName s b → a ≡ b
DirName-unique s a b (x, t, e, l, _, _, _, _) (x', t', e', l', _, _, _, _) =
    append-cancel_length a b _ _ (l ∙ sym l') (sym e ∙ e')

-- `DIR_RE.match` gives a number exactly to the names that are four hexadecimal digits, a dash and
-- a slug.
pub group-dir_re : (d num : Text) → (group_of (match_start dir_re d) ≡ some num) ↔ DirName d num
unfolding match_start
group-dir_re d num =
    group-match_at dir_re d (mark none) (DirName d) (dir-inv d) (dir-intro d) (DirName-unique d) num
