-- ===== src/PageMeta/Patterns/Superseded.antt =====
-- What the pattern of a superseded decision's status finds.
use mathlib.Core.List.{append_assoc, append-nil}
use multiplayer_fabric_manua.Common.{
  ℕ, Bool, true, false, not, ◌&&◌, [], ◌∷◌, ◌++◌, Option, none, some, ◌≡◌, ◌≢◌, ◌↔◌, refl, arith,
  sym, ap, ◌∙◌,
}
use multiplayer_fabric_manua.Common.Lists.{all, length, length-append}
use multiplayer_fabric_manua.Common.Text.{Text, codes}
use multiplayer_fabric_manua.Regex.{
  star, assert, group_open, group_close, Regex, Mark, mark, note, notes, open_group, close_group,
  Found, group_of, match_start,
}
use multiplayer_fabric_manua.Regex.Classes.{is_space, plus, text_end}
use multiplayer_fabric_manua.Regex.Search.{all-append}
use multiplayer_fabric_manua.Regex.Sound.{Accepts, group-match_at}
use multiplayer_fabric_manua.Regex.Fields.{group-notes_inside, group-notes_outside, inside-notes}
use multiplayer_fabric_manua.PageMeta.Patterns.{not_space, same_letter, lit_nocase, superseded_re}

-- A text that is a word in upper or lower case.
abbrev pub folds : Text → Text → Bool
folds [] [] = true
folds [] (c ∷ v) = false
folds (a ∷ w) [] = false
folds (a ∷ w) (c ∷ v) = same_letter a c && folds w v

-- The words `superseded by` in upper or lower case, white space, a file name without white space, its
-- extension and white space that may be missing.
pub record Superseded (s stem : Text) : Type 0 where
  pub words : Text
  pub gap : Text
  pub extension : Text
  pub trail : Text
  pub whole : s ≡ words ++ (gap ++ (stem ++ (extension ++ trail)))
  pub words_fold : folds (codes "superseded by") words ≡ true
  pub gap_some : gap ≢ []
  pub gap_space : all is_space gap ≡ true
  pub stem_some : stem ≢ []
  pub stem_solid : all not_space stem ≡ true
  pub extension_fold : folds (codes ".md") extension ≡ true
  pub trail_space : all is_space trail ≡ true

plus-inv :
    (p : ℕ → Bool) (r : Regex) (s : Text) (m : Mark) (f : Found)
    → Accepts (plus p ++ r) s m f
    → (w : Text) × (t : Text) × (s ≡ w ++ t)
      × (w ≢ [])
      × (all p w ≡ true)
      × Accepts r t (notes m w) f
plus-inv p r s m f (c, s₂, e₂, k₂, (w, s₃, e₃, k₃, a)) =
    (c ∷ w, s₃, ground arith, (λ h. cc), ground arith, a)

plus-intro :
    (p : ℕ → Bool) (r : Regex) (w t : Text) (m : Mark) (f : Found)
    → w ≢ []
    → all p w ≡ true
    → Accepts r t (notes m w) f
    → Accepts (plus p ++ r) (w ++ t) m f
plus-intro p r [] t m f ne k a = absurd (ne refl)
plus-intro p r (c ∷ w) t m f ne k a = (c, w ++ t, refl, ground arith, (w, t, refl, ground arith, a))

nocase-inv :
    (w : Text) (r : Regex) (s : Text) (m : Mark) (f : Found)
    → Accepts (lit_nocase w ++ r) s m f
    → (v : Text) × (t : Text) × (s ≡ v ++ t) × (folds w v ≡ true) × Accepts r t (notes m v) f
nocase-inv [] r s m f a = ([], s, refl, refl, a)
nocase-inv (c ∷ w) r s m f (d, s', e, k, a) =
    let (v, t, e', k', a') = nocase-inv w r s' (note m d) f a in
    (d ∷ v, t, e ∙ ap (λ x. d ∷ x) e', rw (k, k') refl, a')

nocase-intro :
    (w v : Text) (r : Regex) (t : Text) (m : Mark) (f : Found)
    → folds w v ≡ true
    → Accepts r t (notes m v) f
    → Accepts (lit_nocase w ++ r) (v ++ t) m f
nocase-intro [] [] r t m f h a = a
nocase-intro [] (d ∷ v) r t m f h a = absurd (ground arith)
nocase-intro (c ∷ w) [] r t m f h a = absurd (ground arith)
nocase-intro (c ∷ w) (d ∷ v) r t m f h a =
    (d, v ++ t, refl, ground arith, nocase-intro w v r t (note m d) f (ground arith) a)

folds-length : (w v : Text) → folds w v ≡ true → length v ≡ length w
folds-length [] [] h = refl
folds-length [] (d ∷ v) h = absurd (ground arith)
folds-length (c ∷ w) [] h = absurd (ground arith)
folds-length (c ∷ w) (d ∷ v) h = let e = folds-length w v (ground arith) in omega arith

abbrev at_end : Regex
at_end = star is_space ∷ assert text_end ∷ []

abbrev behind : Regex
behind = lit_nocase (codes ".md") ++ at_end

text_end-space : (b : Option ℕ) (t : Text) → text_end b t ≡ true → all is_space t ≡ true
unfolding is_space
text_end-space b [] h = refl
text_end-space b (c ∷ []) h = ground arith
text_end-space b (c ∷ d ∷ t) h = cc

abbrev named : Regex
named = group_open ∷ (plus not_space ++ group_close ∷ behind)

superseded_re-inv :
    (s : Text) (f : Found) → Accepts superseded_re s (mark none) f → Superseded s f.0.group
unfolding superseded_re
superseded_re-inv s f (_, b) =
    let (words, t₁, e₁, k₁, b₁) =
      nocase-inv (codes "superseded by") (plus is_space ++ named) s (mark none) f b in
    let m₁ : Mark = notes (mark none) words in
    let (gap, t₂, e₂, ne₂, k₂, b₂) = plus-inv is_space named t₁ m₁ f b₁ in
    let m₂ : Mark = open_group (notes m₁ gap) in
    let (stem, t₃, e₃, ne₃, k₃, b₃) = plus-inv not_space (group_close ∷ behind) t₂ m₂ f b₂ in
    let m₃ : Mark = close_group (notes m₂ stem) in
    let (ext, t₄, e₄, k₄, (w, t₅, e₅, k₅, (h, q))) = nocase-inv (codes ".md") at_end t₃ m₃ f b₃ in
    let g : f.0.group ≡ stem =
      ap (λ (x : Found). x.0.group) q
      ∙ (group-notes_outside (notes m₃ ext) w (inside-notes m₃ ext)
          ∙ (group-notes_outside m₃ ext refl ∙ group-notes_inside m₂ stem refl)) in
    rw g (record {
      words = words;
      gap = gap;
      extension = ext;
      trail = t₄;
      whole = e₁ ∙ ap (λ x. words ++ x) (e₂ ∙ ap (λ x. gap ++ x) (e₃ ∙ ap (λ x. stem ++ x) e₄));
      words_fold = k₁;
      gap_some = ne₂;
      gap_space = k₂;
      stem_some = ne₃;
      stem_solid = k₃;
      extension_fold = k₄;
      trail_space =
          rw e₅ (all-append is_space w t₅ k₅ (text_end-space (notes (notes m₃ ext) w).before t₅ h));
    })

superseded_re-intro :
    (s stem : Text) → Superseded s stem → (f : Found) × Accepts superseded_re s (mark none) f
unfolding superseded_re
superseded_re-intro s stem q =
    let m₁ : Mark = notes (mark none) q.words in
    let m₂ : Mark = open_group (notes m₁ q.gap) in
    let m₃ : Mark = close_group (notes m₂ stem) in
    let m₄ : Mark = notes (notes m₃ q.extension) q.trail in
    let f : Found = (m₄, []) in
    let trail : Accepts at_end q.trail (notes m₃ q.extension) f =
      (q.trail, [], sym (append-nil q.trail), q.trail_space, (refl, refl)) in
    let ext = nocase-intro (codes ".md") q.extension at_end q.trail m₃ f q.extension_fold trail in
    let name =
      plus-intro not_space (group_close ∷ behind) stem (q.extension ++ q.trail) m₂ f q.stem_some
        q.stem_solid ext in
    let gap =
      plus-intro is_space named q.gap (stem ++ (q.extension ++ q.trail)) m₁ f q.gap_some q.gap_space
        name in
    let accepted =
      nocase-intro (codes "superseded by") q.words (plus is_space ++ named)
        (q.gap ++ (stem ++ (q.extension ++ q.trail))) (mark none) f q.words_fold gap in
    (f, rw q.whole (refl, accepted))

cancel_length : (a b x y : Text) → length a ≡ length b → a ++ x ≡ b ++ y → (a ≡ b) × (x ≡ y)
cancel_length [] [] x y l e = (refl, e)
cancel_length [] (d ∷ b) x y l e = absurd (omega arith)
cancel_length (c ∷ a) [] x y l e = absurd (omega arith)
cancel_length (c ∷ a) (d ∷ b) x y l e =
    let (k, k') = cancel_length a b x y (omega arith) (cc) in (cc, k')

-- A text that does not begin with a character of class `p`.
abbrev stops : (ℕ → Bool) → Text → Bool
stops p [] = true
stops p (c ∷ s) = not (p c)

span_unique :
    (p : ℕ → Bool) (a b x y : Text)
    → all p a ≡ true
    → all p b ≡ true
    → stops p x ≡ true
    → stops p y ≡ true
    → a ++ x ≡ b ++ y
    → (a ≡ b) × (x ≡ y)
span_unique p [] [] x y ha hb hx hy e = (refl, e)
span_unique p [] (d ∷ b) x y ha hb hx hy e = absurd (begins x e hx)
  where
    begins : (x : Text) → x ≡ d ∷ (b ++ y) → stops p x ≡ true → ⊥
    begins [] e h = cc
    begins (c ∷ x) e h = ground arith
span_unique p (c ∷ a) [] x y ha hb hx hy e = absurd (begins y (sym e) hy)
  where
    begins : (y : Text) → y ≡ c ∷ (a ++ x) → stops p y ≡ true → ⊥
    begins [] e h = cc
    begins (d ∷ y) e h = ground arith
span_unique p (c ∷ a) (d ∷ b) x y ha hb hx hy e =
    let (k, k') = span_unique p a b x y (ground arith) (ground arith) hx hy cc in (cc, k')

solid-stops : (s t : Text) → s ≢ [] → all not_space s ≡ true → stops is_space (s ++ t) ≡ true
solid-stops [] t ne h = absurd (ne refl)
solid-stops (c ∷ s) t ne h = ground arith

space-stops : (s : Text) → all is_space s ≡ true → stops not_space s ≡ true
space-stops [] h = refl
space-stops (c ∷ s) h = ground arith

extension-solid : (v : Text) → folds (codes ".md") v ≡ true → all not_space v ≡ true
extension-solid (a ∷ b ∷ c ∷ []) h =
    let ka = dot-solid a (ground arith) in
    let kb = m-solid b (ground arith) in let kc = d-solid c (ground arith) in rw (ka, kb, kc) refl
  where
    dot-solid : (c : ℕ) → same_letter b'.' c ≡ true → not_space c ≡ true
    dot-solid c h = unfold is_space same_letter in ground arith

    m-solid : (c : ℕ) → same_letter b'm' c ≡ true → not_space c ≡ true
    m-solid c h = unfold is_space same_letter in ground arith

    d-solid : (c : ℕ) → same_letter b'd' c ≡ true → not_space c ≡ true
    d-solid c h = unfold is_space same_letter in ground arith
extension-solid [] h = refl
extension-solid (a ∷ []) h = absurd (ground arith)
extension-solid (a ∷ b ∷ []) h = absurd (ground arith)
extension-solid (a ∷ b ∷ c ∷ d ∷ v) h = absurd (ground arith)

Superseded-unique : (s a b : Text) → Superseded s a → Superseded s b → a ≡ b
Superseded-unique s a b q q' = (cancel_length a b q.extension q'.extension same_length names).0
  where
    same_fold : (w v v' : Text) → folds w v ≡ true → folds w v' ≡ true → length v ≡ length v'
    same_fold w v v' h h' = folds-length w v h ∙ sym (folds-length w v' h')

    rest : q.gap ++ (a ++ (q.extension ++ q.trail)) ≡ q'.gap ++ (b ++ (q'.extension ++ q'.trail))
    rest =
        (cancel_length q.words q'.words (q.gap ++ (a ++ (q.extension ++ q.trail)))
          (q'.gap ++ (b ++ (q'.extension ++ q'.trail)))
          (same_fold (codes "superseded by") q.words q'.words q.words_fold q'.words_fold)
          (sym q.whole ∙ q'.whole)).1

    solid : a ++ (q.extension ++ q.trail) ≡ b ++ (q'.extension ++ q'.trail)
    solid =
        (span_unique is_space q.gap q'.gap (a ++ (q.extension ++ q.trail))
          (b ++ (q'.extension ++ q'.trail)) q.gap_space q'.gap_space
          (solid-stops a (q.extension ++ q.trail) q.stem_some q.stem_solid)
          (solid-stops b (q'.extension ++ q'.trail) q'.stem_some q'.stem_solid) rest).1

    names : a ++ q.extension ≡ b ++ q'.extension
    names =
        (span_unique not_space (a ++ q.extension) (b ++ q'.extension) q.trail q'.trail
          (all-append not_space a q.extension q.stem_solid
            (extension-solid q.extension q.extension_fold))
          (all-append not_space b q'.extension q'.stem_solid
            (extension-solid q'.extension q'.extension_fold))
          (space-stops q.trail q.trail_space) (space-stops q'.trail q'.trail_space)
          (append_assoc a q.extension q.trail
            ∙ (solid ∙ sym (append_assoc b q'.extension q'.trail)))).0

    same_length : length a ≡ length b
    same_length =
        let e = ap length names in
        let l = length-append a q.extension in
        let l' = length-append b q'.extension in
        let k =
          same_fold (codes ".md") q.extension q'.extension q.extension_fold q'.extension_fold in
        omega arith

-- The pattern gives a file name exactly to the texts that consist of the words `superseded by`, in
-- upper or lower case, white space, that name, `.md` in upper or lower case and white space that may
-- be missing; the name is not empty and holds no white space.
pub group-superseded_re :
    (s stem : Text) → (group_of (match_start superseded_re s) ≡ some stem) ↔ Superseded s stem
unfolding match_start
group-superseded_re s stem =
    group-match_at superseded_re s (mark none) (Superseded s) (superseded_re-inv s)
      (superseded_re-intro s) (Superseded-unique s) stem
