-- ===== src/RfdCheck/Citations/Skipped.antt =====
-- The directories that the walk for old citations passes over, and the path of the root.
use mathlib.Core.Path.{subst}
use mathlib.Core.List.{Memᴰ, append_assoc}
use multiplayer_fabric_manua.Common.{
  Bool, true, false, List, [], ◌∷◌, ◌++◌, ◌≡◌, ◌≢◌, ◌⊎◌, refl, arith, inl, inr, sym, ap, ◌∙◌,
}
use multiplayer_fabric_manua.Common.Tests.{Bool-cases}
use multiplayer_fabric_manua.Common.Lists.{
  All, All-append, any, any_mem, any_of_mem, mem-append_inv, mem-append_left,
}
use multiplayer_fabric_manua.Common.Text.{Text, codes, split, starts_with, text_eq}
use multiplayer_fabric_manua.PosixPath.{join, ends_in_slash}
use multiplayer_fabric_manua.PosixPath.Components.{split-append}
use multiplayer_fabric_manua.RfdCheck.Patterns.{Unicode}
use multiplayer_fabric_manua.RfdCheck.FileTree.{Dir, nil, file, dir, Visit, walk, walk_below}
use multiplayer_fabric_manua.RfdCheck.Citations.{
  skipped_names, is_skipped, visit_citations, citation_problems,
}

ends_in_slash-inv :
    (s : Text) → ends_in_slash s ≡ true → (s ≡ []) ⊎ ((a : Text) × (s ≡ a ++ b'/' ∷ []))
unfolding ends_in_slash
ends_in_slash-inv [] e = inl refl
ends_in_slash-inv (c ∷ []) e = inr ([], ground arith)
ends_in_slash-inv (c ∷ d ∷ s) e = elim (ends_in_slash-inv (d ∷ s) e) [
  | inl q ↦ absurd (ground arith)
  | inr (a, q) ↦ inr (c ∷ a, ap (λ l. c ∷ l) q)
]

-- A component of a path stays one when a name is joined.
mem-split_join :
    (part cur n : Text)
    → part ≢ []
    → starts_with n (codes "/") ≡ false
    → Memᴰ part (split b'/' cur)
    → Memᴰ part (split b'/' (join cur n))
unfolding join
mem-split_join part cur n ne h m = elim (Bool-cases (ends_in_slash cur)) [
  | inr e ↦ rw (h, e, split-append cur n) (mem-append_left (split b'/' n) m)
  | inl e ↦ rw (h, e) (ends_so (ends_in_slash-inv cur e))
]
  where
    only : Memᴰ part ([] ∷ []) → Memᴰ part (split b'/' (cur ++ n))
    only (Memᴰ.head q) = absurd (ne q)
    only (Memᴰ.tail r) = elim r [ ]

    kept : (a : Text) → Memᴰ part (split b'/' a) → Memᴰ part (split b'/' (a ++ b'/' ∷ n))
    kept a r = rw (split-append a n) (mem-append_left (split b'/' n) r)

    shorter :
        (a : Text)
        → cur ≡ a ++ b'/' ∷ []
        → Memᴰ part (split b'/' a ++ ([] ∷ []))
        → Memᴰ part (split b'/' (cur ++ n))
    shorter a q r = elim (mem-append_inv (split b'/' a) r) [
      | inl r' ↦
          let same : cur ++ n ≡ a ++ b'/' ∷ n = ap (λ x. x ++ n) q ∙ append_assoc a (b'/' ∷ []) n in
          subst (λ x. Memᴰ part (split b'/' x)) (sym same) (kept a r')
      | inr r' ↦ only r'
    ]

    ends_so : (cur ≡ []) ⊎ ((a : Text) × (cur ≡ a ++ b'/' ∷ [])) → Memᴰ part (split b'/' (cur ++ n))
    ends_so (inl q) = only (unfold split in subst (λ x. Memᴰ part (split b'/' x)) q m)
    ends_so (inr (a, q)) =
        let whole : Memᴰ part (split b'/' (a ++ b'/' ∷ [])) =
          subst (λ x. Memᴰ part (split b'/' x)) q m in
        let parts : split b'/' (a ++ b'/' ∷ []) ≡ split b'/' a ++ split b'/' [] =
          split-append a [] in
        shorter a q (unfold split in subst (Memᴰ part) parts whole)

not_empty : (part : Text) → any (text_eq part) skipped_names ≡ true → part ≢ []
unfolding text_eq
not_empty [] e q = absurd (ground arith)
not_empty (c ∷ s) e q = cc

is_skipped-join :
    (cur n : Text)
    → starts_with n (codes "/") ≡ false
    → is_skipped cur ≡ true
    → is_skipped (join cur n) ≡ true
unfolding is_skipped
is_skipped-join cur n h e =
    let skips : Text → Bool = λ part. any (text_eq part) skipped_names in
    let (part, m, q) = any_mem skips (split b'/' cur) e in
    any_of_mem skips (mem-split_join part cur n (not_empty part q) h m) q

-- The names of the directories are no absolute paths.
abbrev pub HasNames : Dir → Type 0
HasNames nil = Unit
HasNames (file n f rest) = HasNames rest
HasNames (dir n d rest) = (starts_with n (codes "/") ≡ false) × HasNames d × HasNames rest

abbrev IsSkipped : Visit → Type 0
IsSkipped v = is_skipped v.0 ≡ true

walk_below-IsSkipped :
    (cur : Text) (d : Dir) → HasNames d → is_skipped cur ≡ true → All IsSkipped (walk_below cur d)
unfolding walk_below
walk_below-IsSkipped cur nil h e = tt
walk_below-IsSkipped cur (file n f rest) h e = walk_below-IsSkipped cur rest h e
walk_below-IsSkipped cur (dir n d rest) (k, h, h') e =
    let e' = is_skipped-join cur n k e in
    (
      e',
      All-append IsSkipped (walk_below (join cur n) d) (walk_below cur rest)
          (walk_below-IsSkipped (join cur n) d h e') (walk_below-IsSkipped cur rest h' e),
    )

module _ (u : Unicode) (cwd script : Text) where
  visit_citations-IsSkipped :
      (vs : List Visit) → All IsSkipped vs → visit_citations u cwd script vs ≡ []
  unfolding visit_citations
  visit_citations-IsSkipped [] a = refl
  visit_citations-IsSkipped ((cur, fs) ∷ vs) (e, a) = rw e (visit_citations-IsSkipped vs a)

  -- When the path of the root itself has a component `.git`, `__pycache__` or `_site`, no old
  -- citation is reported, whatever the files of the tree say; its directories have no absolute names.
  pub citation_problems-is_skipped :
      (root : Text) (tree : Dir)
      → HasNames tree
      → is_skipped root ≡ true
      → citation_problems u cwd script root tree ≡ []
  unfolding citation_problems walk
  citation_problems-is_skipped root tree h e =
      visit_citations-IsSkipped (walk root tree) (e, walk_below-IsSkipped root tree h e)
