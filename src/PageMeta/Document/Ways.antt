-- ===== src/PageMeta/Document/Ways.antt =====
-- Where the relative links at the top of a page lead, for pages whose paths are lists of names.
use mathlib.Core.Path.{subst}
use mathlib.Core.List.{append-nil}
use multiplayer_fabric_manua.Common.{true, List, [], ◌∷◌, ◌++◌, ◌≡◌, ◌≢◌, refl, arith, ap, ◌∙◌}
use multiplayer_fabric_manua.Common.Lists.{All, length}
use multiplayer_fabric_manua.Common.Text.{Text, codes, split, join_with}
use multiplayer_fabric_manua.PosixPath.{join, normpath, dirname}
use multiplayer_fabric_manua.PosixPath.Components.{
  is_name, IsName, name-IsPart, names-IsPart, slashed, is_relative, slashed_more-is_relative,
  parts-is_relative, split-append, split-slashed, split-parts,
}
use multiplayer_fabric_manua.PosixPath.Keeping.{up_list, normpath-up_again}
use multiplayer_fabric_manua.PosixPath.Folders.{dirname-slashed, join-slashed, join-empty}
use multiplayer_fabric_manua.PageMeta.Document.{ups, prefix_of}

split-ups :
    (fs : List Text) (s : Text)
    → All IsName fs
    → split b'/' (ups fs ++ s) ≡ up_list (length fs) ++ split b'/' s
unfolding ups is_name split
split-ups [] s h = refl
split-ups ([] ∷ fs) s h = absurd (ground arith)
split-ups ((c ∷ f) ∷ fs) s h =
    split-append (codes "..") (ups fs ++ s) ∙ ap (λ l. codes ".." ∷ l) (split-ups fs s h.1)

ups-is_relative :
    (fs : List Text) (s : Text)
    → All IsName fs
    → is_relative s ≡ true
    → is_relative (ups fs ++ s) ≡ true
unfolding ups is_name
ups-is_relative [] s h k = k
ups-is_relative ([] ∷ fs) s h k = absurd (ground arith)
ups-is_relative ((c ∷ f) ∷ fs) s h k = refl

module _ (ts : List Text) (ht : All IsName ts) (ne : ts ≢ []) where
  to_target : is_relative (slashed ts) ≡ true
  to_target =
      subst (λ x. is_relative x ≡ true) (append-nil (slashed ts))
        (parts-is_relative ts [] (names-IsPart ts ht) ne)

  to_parts : split b'/' (slashed ts) ≡ ts
  to_parts = split-parts ts (names-IsPart ts ht) ne

  from_folder :
      (fs : List Text)
      → All IsName fs
      → normpath (join (slashed fs) (ups (split b'/' (slashed fs)) ++ slashed ts)) ≡ slashed ts
  from_folder [] hf =
      unfold join_with split ups in
      ap normpath (join-empty (slashed ts) to_target)
      ∙ normpath-up_again (slashed ts) [] [] ts tt tt ht ne to_target to_parts
  from_folder (f ∷ fs) hf =
      let way = ups (f ∷ fs) ++ slashed ts in
      let k = ups-is_relative (f ∷ fs) (slashed ts) hf to_target in
      let hp = names-IsPart (f ∷ fs) hf in
      rw (split-slashed f fs hp, join-slashed f fs way hp k)
        (normpath-up_again (slashed (f ∷ fs) ++ b'/' ∷ way) [] (f ∷ fs) ts tt hf ht ne
          (slashed_more-is_relative f fs (b'/' ∷ way) hp)
          (split-append (slashed (f ∷ fs)) way
            ∙ rw (split-slashed f fs hp, split-ups (f ∷ fs) (slashed ts) hf, to_parts) refl))

  -- For a page whose path is a list of names, the folder of the page joined with the prefix of its
  -- breadcrumb's links and a path of names, at least one, is that path from the root, in normal form.
  pub prefix_of-normpath :
      (fs : List Text) (n : Text)
      → All IsName fs
      → IsName n
      → normpath (
          join
            (dirname (slashed (fs ++ n ∷ [])))
            (prefix_of (slashed (fs ++ n ∷ [])) ++ slashed ts))
        ≡ slashed ts
  prefix_of-normpath fs n hf h =
      rw (dirname-slashed fs n (names-IsPart fs hf) (name-IsPart n h)) (from_folder fs hf)
