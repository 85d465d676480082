-- ===== src/RfdCheck/Patterns/LinkTargets.antt =====
-- What `re.finditer` of scripts/check-rfd-numbers.py finds of the relative links on a page.
use mathlib.Core.List.{Memᴰ, append_assoc, append_cancel_left}
use multiplayer_fabric_manua.Common.{
  ℕ, Bool, true, false, not, [], ◌∷◌, ◌++◌, none, some, ◌≡◌, refl, arith, ◌↔◌, ◌∙◌, sym, ap,
}
use multiplayer_fabric_manua.Common.Tests.{◌==◌}
use multiplayer_fabric_manua.Common.Lists.{all}
use multiplayer_fabric_manua.Common.Text.{Text, codes}
use multiplayer_fabric_manua.Regex.{
  one, group_open, group_close, Regex, Mark, mark, open_group, close_group, notes, Found, group_of,
  match_at, find_all,
}
use multiplayer_fabric_manua.Regex.Sound.{Accepts, group-match_at}
use multiplayer_fabric_manua.Regex.Fields.{
  lit-inv, lit-intro, four-inv, four-intro, group-notes_inside,
}
use multiplayer_fabric_manua.Regex.Slugs.{
  Slugged, dash_slug, slug-inv, slug-intro, notes-append, before_unique,
}
use multiplayer_fabric_manua.Regex.Search.{Avoids, all-append, all_mono}
use multiplayer_fabric_manua.Regex.Hits.{Hit, char_before, mem-find_all}
use multiplayer_fabric_manua.Regex.Classes.{is_alnum, is_slug, lit, four}
use multiplayer_fabric_manua.RfdCheck.Patterns.{link_re}

-- A folder name that a link can name.
abbrev pub IsTarget : Text → Type 0
IsTarget target = (num : Text) × Slugged is_alnum num target

abbrev ReadsLink : Text → Text → Type 0
ReadsLink s target = (t : Text) × (s ≡ codes "](../" ++ (target ++ b'/' ∷ t)) × IsTarget target

-- The page holds `](../`, the target, and a slash.
abbrev pub PointsTo : Text → Text → Type 0
PointsTo s target =
    (u : Text) × (t : Text) × (s ≡ u ++ (codes "](../" ++ (target ++ b'/' ∷ t))) × IsTarget target

abbrev slash : Regex
slash = one (λ d. d == b'/') ∷ []

abbrev behind : Regex
behind = dash_slug (group_close ∷ slash)

is_slash : ℕ → Bool
is_slash d = d == b'/'

abbrev not_slash : ℕ → Bool
not_slash d = not (is_slash d)

alnum-not_slash : (c : ℕ) → is_alnum c ≡ true → not_slash c ≡ true
unfolding is_slash is_alnum
alnum-not_slash c h = ground arith

slug-not_slash : (c : ℕ) → is_slug c ≡ true → not_slash c ≡ true
unfolding is_slash is_slug
slug-not_slash c h = ground arith

target-no_slash : (target : Text) → IsTarget target → all not_slash target ≡ true
unfolding is_slash
target-no_slash target (num, (slug, e, l, k, ne, k')) = rw e (
    all-append not_slash num (b'-' ∷ slug) (all_mono is_alnum not_slash num alnum-not_slash k)
      (all_mono is_slug not_slash slug slug-not_slash k'))

link-inv : (s : Text) (m : Mark) (f : Found) → Accepts link_re s m f → ReadsLink s f.0.group
unfolding link_re
link-inv s m f a =
    let pre : Text = codes "](../" in
    let (t, e, b) = lit-inv pre (group_open ∷ (four is_alnum ++ behind)) s m f a in
    let m₁ : Mark = open_group (notes m pre) in
    let (num, t₁, e₁, l, k, c) = four-inv is_alnum behind t m₁ f b in
    let (slug, t₂, e₂, ne, k', d) = slug-inv (group_close ∷ slash) t₁ (notes m₁ num) f c in
    let target : Text = num ++ b'-' ∷ slug in
    let (t₃, e₃, q) =
      lit-inv (codes "/") [] t₂ (close_group (notes (notes m₁ num) (b'-' ∷ slug))) f d in
    let g : f.0.group ≡ target =
      ap (λ (x : Found). x.0.group) q
      ∙ (ap (λ (x : Mark). x.group) (sym (notes-append m₁ num (b'-' ∷ slug)))
          ∙ group-notes_inside m₁ target refl) in
    let tail : t₁ ≡ b'-' ∷ (slug ++ b'/' ∷ t₃) = e₂ ∙ ap (λ x. b'-' ∷ (slug ++ x)) e₃ in
    let whole : t ≡ target ++ b'/' ∷ t₃ =
      e₁ ∙ (ap (λ x. num ++ x) tail ∙ sym (append_assoc num (b'-' ∷ slug) (b'/' ∷ t₃))) in
    rw g (t₃, e ∙ ap (λ x. pre ++ x) whole, (num, (slug, refl, l, k, ne, k')))

link-intro : (s target : Text) (m : Mark) → ReadsLink s target → (f : Found) × Accepts link_re s m f
unfolding link_re
link-intro s target m (t, e, (num, (slug, e', l, k, ne, k'))) =
    let pre : Text = codes "](../" in
    let m₁ : Mark = open_group (notes m pre) in
    let m₂ : Mark = close_group (notes (notes m₁ num) (b'-' ∷ slug)) in
    let f : Found = (notes m₂ (codes "/"), t) in
    let whole : target ++ b'/' ∷ t ≡ num ++ b'-' ∷ (slug ++ b'/' ∷ t) =
      ap (λ x. x ++ b'/' ∷ t) e' ∙ append_assoc num (b'-' ∷ slug) (b'/' ∷ t) in
    let accepted : Accepts link_re (pre ++ (num ++ b'-' ∷ (slug ++ b'/' ∷ t))) m f =
      lit-intro pre (group_open ∷ (four is_alnum ++ behind)) (num ++ b'-' ∷ (slug ++ b'/' ∷ t)) m f
        (four-intro is_alnum behind num (b'-' ∷ (slug ++ b'/' ∷ t)) m₁ f l k (
          slug-intro (group_close ∷ slash) slug (b'/' ∷ t) (notes m₁ num) f ne k'
            (lit-intro (codes "/") [] t m₂ f refl))) in
    (f, rw (e, whole) accepted)

ReadsLink-unique : (s a b : Text) → ReadsLink s a → ReadsLink s b → a ≡ b
unfolding is_slash
ReadsLink-unique s a b (t, e, h) (t', e', h') =
    before_unique is_slash a b t t' b'/' refl (target-no_slash a h) (target-no_slash b h')
      (append_cancel_left (codes "](../") _ _ (sym e ∙ e'))

abbrev is_bracket : ℕ → Bool
is_bracket d = d == b']'

abbrev link_rest : Regex
link_rest = lit (codes "(../") ++ group_open ∷ (four is_alnum ++ behind)

alnum-not_bracket : (c : ℕ) → is_alnum c ≡ true → is_bracket c ≡ false
unfolding is_alnum
alnum-not_bracket c h = ground arith

slug-not_bracket : (c : ℕ) → is_slug c ≡ true → is_bracket c ≡ false
unfolding is_slug
slug-not_bracket c h = ground arith

link-Avoids : Avoids is_bracket link_rest
link-Avoids =
    let tail : Avoids is_bracket behind =
      (λ c h. ground arith, (slug-not_bracket, (slug-not_bracket, (λ c h. ground arith, tt)))) in
    let digits : Avoids is_bracket (four is_alnum ++ behind) =
      (alnum-not_bracket, (alnum-not_bracket, (alnum-not_bracket, (alnum-not_bracket, tail)))) in
    (
      λ c h. ground arith,
      (λ c h. ground arith, (λ c h. ground arith, (λ c h. ground arith, digits))),
    )

link-Hit : (s target : Text) → Memᴰ target (find_all link_re s) ↔ Hit link_re none s target
unfolding link_re
link-Hit s target = mem-find_all is_bracket link_rest link-Avoids s target

group-link :
    (t target : Text) (m : Mark)
    → (group_of (match_at link_re t m) ≡ some target) ↔ ReadsLink t target
group-link t target m =
    group-match_at link_re t m (ReadsLink t) (link-inv t m) (λ n q. link-intro t n m q)
      (ReadsLink-unique t) target

-- The links of a page are exactly the places where the text points to a sibling folder.
pub find_all-link : (s target : Text) → Memᴰ target (find_all link_re s) ↔ PointsTo s target
find_all-link s target = (found, finds)
  where
    found : Memᴰ target (find_all link_re s) → PointsTo s target
    found h =
        let (u, t, e, g) = (link-Hit s target).0 h in
        let (t', e', q) = (group-link t target (mark (char_before none u))).0 g in
        (u, t', e ∙ ap (λ x. u ++ x) e', q)

    finds : PointsTo s target → Memᴰ target (find_all link_re s)
    finds (u, t, e, q) =
        let rest : Text = codes "](../" ++ (target ++ b'/' ∷ t) in
        (link-Hit s target).1
          (u, rest, e, (group-link rest target (mark (char_before none u))).1 (t, refl, q))
