-- ===== src/RfdCheck/Check/Iff.antt =====
-- The rule of RFD 2000 for a whole tree, and `check` of scripts/check-rfd-numbers.py.
use mathlib.Core.Path.{subst}
use mathlib.Core.List.{Memᴰ}
use multiplayer_fabric_manua.Common.{
  true, List, [], ◌∷◌, ◌++◌, ◌≡◌, ◌≢◌, refl, arith, ◌↔◌, inl, inr, ◌∙◌, sym, ap,
}
use multiplayer_fabric_manua.Common.Tests.{Bool-cases}
use multiplayer_fabric_manua.Common.Lists.{append-eq-nil, All, Distinct}
use multiplayer_fabric_manua.Common.Dict.{keys}
use multiplayer_fabric_manua.Common.Sorting.{mem-sorted, sorted-mem}
use multiplayer_fabric_manua.Common.Text.{Text, codes}
use multiplayer_fabric_manua.PosixPath.{join}
use multiplayer_fabric_manua.RfdCheck.Patterns.{Unicode}
use multiplayer_fabric_manua.RfdCheck.Patterns.OldCitations.{HasLetters}
use multiplayer_fabric_manua.RfdCheck.FileTree.{
  Dir, ok, entry_at, is_directory, listing, walk, Visit,
}
use multiplayer_fabric_manua.RfdCheck.FileTree.Outcomes.{ok-injective, ok-pair, Outcome-cases}
use multiplayer_fabric_manua.RfdCheck.Numbers.{
  Seen, rfd_dirs, none_found, check_dirs, number_problems,
}
use multiplayer_fabric_manua.RfdCheck.Numbers.Loop.{
  Numbered, check_dirs-found_numbers, check_dirs-finds_none,
}
use multiplayer_fabric_manua.RfdCheck.Citations.{citation_problems}
use multiplayer_fabric_manua.RfdCheck.Citations.Clean.{VisitMigrated, citation_problems-eq-nil}
use multiplayer_fabric_manua.RfdCheck.Links.{link_problems}
use multiplayer_fabric_manua.RfdCheck.Links.Clean.{FileLinked, link_problems-eq-nil}
use multiplayer_fabric_manua.RfdCheck.Aliases.{alias_problems}
use multiplayer_fabric_manua.RfdCheck.Aliases.Clean.{HasRows, alias_problems-eq-nil}
use multiplayer_fabric_manua.RfdCheck.Check.{check, check_rfd}

-- The directories of rfd/ have the numbers `nums`, each in order, no two alike.
abbrev pub HasNumbers : Dir → List Text → Type 0
HasNumbers rfd nums = (rfd_dirs rfd ≢ []) × Numbered rfd (rfd_dirs rfd) nums × Distinct nums

none_found-eq-nil : (ds : List Text) → (none_found ds ≡ []) ↔ (ds ≢ [])
unfolding none_found
none_found-eq-nil [] = (λ h. cc, λ h. absurd (h refl))
none_found-eq-nil (d ∷ ds) = (λ h e. cc, λ h. refl)

number_problems-found :
    (rfd : Dir) (seen : Seen)
    → number_problems rfd ≡ ok ([], seen)
    → (nums : List Text) × HasNumbers rfd nums × (keys seen ≡ nums)
unfolding number_problems
number_problems-found rfd seen h = elim (Outcome-cases (check_dirs rfd [] (rfd_dirs rfd))) [
  | inr (x, e) ↦ ground arith
  | inl ((found, seen₁), e) ↦
      let q : ok (none_found (rfd_dirs rfd) ++ found, seen₁) ≡ ok ([], seen) = rw e at h in
      let (empty, same) = ok-pair q in
      let (p, p') = (append-eq-nil (none_found (rfd_dirs rfd)) found).0 empty in
      let clean : check_dirs rfd [] (rfd_dirs rfd) ≡ ok ([], seen) = rw (← p', ← same) e in
      let (nums, n, d, k) = check_dirs-found_numbers rfd (rfd_dirs rfd) seen clean in
      (nums, ((none_found-eq-nil (rfd_dirs rfd)).0 p, n, d), k)
]

number_problems-finds :
    (rfd : Dir) (nums : List Text)
    → HasNumbers rfd nums
    → (seen : Seen) × (number_problems rfd ≡ ok ([], seen)) × (keys seen ≡ nums)
unfolding number_problems
number_problems-finds rfd nums (ne, q, d) =
    let (seen, e, k) = check_dirs-finds_none rfd (rfd_dirs rfd) nums q d in
    (seen, rw (e, (none_found-eq-nil (rfd_dirs rfd)).1 ne), k)

module _ (u : Unicode) (cwd script root : Text) where
  -- The rule for the tree: what stands under `rfd` and in ALIASES.md, and what every file says.
  pub record Conforms (tree : Dir) (nums : List Text) : Type 0 where
    pub rfd_there : is_directory (entry_at tree (codes "rfd")) ≡ true
    pub numbers : HasNumbers (listing (entry_at tree (codes "rfd"))) nums
    pub migrated : All (VisitMigrated u cwd script) (walk root tree)
    pub linked :
        All
          (λ (v : Visit). All (FileLinked (listing (entry_at tree (codes "rfd")))) v.1)
          (walk (join root (codes "rfd")) (listing (entry_at tree (codes "rfd"))))
    pub rows : HasRows (entry_at tree (codes "ALIASES.md")) nums

  module _ (h : HasLetters u) where
    check_rfd-parts :
        (tree rfd : Dir)
        → check_rfd u cwd script root tree rfd ≡ ok []
        → (seen : Seen) × (number_problems rfd ≡ ok ([], seen))
          × (citation_problems u cwd script root tree ≡ [])
          × (link_problems rfd (join root (codes "rfd")) ≡ ok [])
          × (alias_problems (entry_at tree (codes "ALIASES.md")) seen ≡ ok [])
    unfolding check_rfd
    check_rfd-parts tree rfd e = elim (Outcome-cases (number_problems rfd)) [
      | inr (x, e₁) ↦ ground arith
      | inl ((ps, seen), e₁) ↦ elim (Outcome-cases (link_problems rfd (join root (codes "rfd")))) [
        | inr (x, e₂) ↦ ground arith
        | inl (ls, e₂) ↦
            elim (Outcome-cases (alias_problems (entry_at tree (codes "ALIASES.md")) seen)) [
              | inr (x, e₃) ↦ ground arith
              | inl (rs, e₃) ↦
                  let cs = citation_problems u cwd script root tree in
                  let all_empty : ps ++ (cs ++ (ls ++ rs)) ≡ [] =
                    ok-injective (rw (e₁, e₂, e₃) at e) in
                  let (p, q) = (append-eq-nil ps (cs ++ (ls ++ rs))).0 all_empty in
                  let (p', q') = (append-eq-nil cs (ls ++ rs)).0 q in
                  let (p'', q'') = (append-eq-nil ls rs).0 q' in
                  (seen, e₁ ∙ rw p, p', e₂ ∙ ap ok p'', e₃ ∙ ap ok q'')
            ]
      ]
    ]

    check-rfd :
        (tree : Dir)
        → is_directory (entry_at tree (codes "rfd")) ≡ true
        → check u cwd script root tree
          ≡ check_rfd u cwd script root tree (listing (entry_at tree (codes "rfd")))
    unfolding check
    check-rfd tree e = rw e

    check-Conforms :
        (tree : Dir)
        → check u cwd script root tree ≡ ok []
        → (nums : List Text) × Conforms tree nums
    unfolding check
    check-Conforms tree e = elim (Bool-cases (is_directory (entry_at tree (codes "rfd")))) [
      | inr k ↦ absurd (ground arith)
      | inl k ↦
          let rfd = listing (entry_at tree (codes "rfd")) in
          let (seen, n, c, l, a) = check_rfd-parts tree rfd (sym (check-rfd tree k) ∙ e) in
          let (nums, has, same) = number_problems-found rfd seen n in
          let (body, q, rows) =
            (alias_problems-eq-nil (entry_at tree (codes "ALIASES.md")) seen).0 a in
          (
            nums,
            record {
              rfd_there = k;
              numbers = has;
              migrated = (citation_problems-eq-nil u cwd script h root tree).0 c;
              linked = (link_problems-eq-nil rfd (join root (codes "rfd"))).0 l;
              rows = (
                body,
                q,
                λ num m. rows num (sorted-mem num (keys seen) (subst (Memᴰ num) (sym same) m)),
              );
            },
          )
    ]

    Conforms-check :
        (tree : Dir) (nums : List Text) → Conforms tree nums → check u cwd script root tree ≡ ok []
    unfolding check_rfd
    Conforms-check tree nums c =
        let rfd = listing (entry_at tree (codes "rfd")) in
        let (seen, n, same) = number_problems-finds rfd nums c.numbers in
        let (body, q, rows) = c.rows in
        let no_row : alias_problems (entry_at tree (codes "ALIASES.md")) seen ≡ ok [] =
          (alias_problems-eq-nil (entry_at tree (codes "ALIASES.md")) seen).1
            (body, q, λ num m. rows num (subst (Memᴰ num) same (mem-sorted num (keys seen) m))) in
        check-rfd tree c.rfd_there
        ∙ rw (
          n,
          (citation_problems-eq-nil u cwd script h root tree).1 c.migrated,
          (link_problems-eq-nil rfd (join root (codes "rfd"))).1 c.linked,
          no_row,
        )

    -- `check` reports nothing and raises nothing exactly on the trees that follow the rule with some
    -- list of numbers, where Python's tables are as `HasLetters` says.
    pub check_iff :
        (tree : Dir)
        → (check u cwd script root tree ≡ ok []) ↔ ((nums : List Text) × Conforms tree nums)
    check_iff tree = (check-Conforms tree, λ (nums, c). Conforms-check tree nums c)
