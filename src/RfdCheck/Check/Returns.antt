-- ===== src/RfdCheck/Check/Returns.antt =====
-- When `check` of scripts/check-rfd-numbers.py comes back with a list, and when it raises.
use mathlib.Core.Path.{subst}
use multiplayer_fabric_manua.Common.{
  true, false, List, [], ◌∷◌, some, ◌≡◌, refl, arith, ◌↔◌, inl, inr, sym,
}
use multiplayer_fabric_manua.Common.Tests.{Bool-cases, Option-cases}
use multiplayer_fabric_manua.Common.Lists.{All}
use multiplayer_fabric_manua.Common.Text.{Text, codes, ends_with}
use multiplayer_fabric_manua.PosixPath.{join}
use multiplayer_fabric_manua.RfdCheck.Patterns.{Unicode}
use multiplayer_fabric_manua.RfdCheck.Patterns.DirNames.{DirName, group-dir_re}
use multiplayer_fabric_manua.Regex.{find_all}
use multiplayer_fabric_manua.RfdCheck.Patterns.{link_re}
use multiplayer_fabric_manua.RfdCheck.FileTree.{
  File, unreadable, readable, Dir, Entry, missing, is_file, is_dir, Visit, entry_at, is_directory,
  listing, walk, read_file, read_ignore, read_strict,
}
use multiplayer_fabric_manua.RfdCheck.FileTree.Returns.{
  Returns, both-Returns, last-Returns, compose_iff,
}
use multiplayer_fabric_manua.RfdCheck.Numbers.{
  Seen, index_problems, check_number, dir_number, check_dirs, rfd_dirs, number_problems,
}
use multiplayer_fabric_manua.RfdCheck.Links.{
  target_problems, file_links, files_links, visit_links, link_problems,
}
use multiplayer_fabric_manua.RfdCheck.Aliases.{alias_problems}
use multiplayer_fabric_manua.RfdCheck.Check.{check_rfd, check}

-- A file can be opened; an entry is missing or such a file.
abbrev pub OpensFile : File → Type 0
OpensFile unreadable = ⊥
OpensFile (readable utf8 t) = Unit

abbrev pub Opens : Entry → Type 0
Opens missing = Unit
Opens (is_file f) = OpensFile f
Opens (is_dir d) = ⊥

-- The same, and the file is UTF-8 throughout.
abbrev pub OpensStrictly : Entry → Type 0
OpensStrictly (is_file (readable false t)) = ⊥
OpensStrictly e = Opens e

-- The index of a directory whose name has a number can be opened, or there is none.
abbrev pub OpensIndex : Dir → Text → Type 0
OpensIndex rfd d =
    (num : Text) → DirName d num → Opens (entry_at (listing (entry_at rfd d)) (codes "index.md"))

abbrev pub OpensPage : Text × File → Type 0
OpensPage f = ends_with f.0 (codes ".md") ≡ true → OpensFile f.1

index_problems-Returns :
    (d num : Text) (index : Entry) → Returns (index_problems d num index) ↔ Opens index
unfolding index_problems read_ignore read_file
index_problems-Returns d num missing = (λ h. tt, λ h. (_, refl))
index_problems-Returns d num (is_dir x) = (λ (a, e). cc, λ h. absurd h)
index_problems-Returns d num (is_file unreadable) = (λ (a, e). cc, λ h. absurd h)
index_problems-Returns d num (is_file (readable utf8 t)) = (λ h. tt, λ h. (_, refl))

check_some-Returns :
    (rfd : Dir) (seen : Seen) (d num : Text)
    → Returns (check_number rfd seen d (some num))
      ↔ Opens (entry_at (listing (entry_at rfd d)) (codes "index.md"))
unfolding check_number
check_some-Returns rfd seen d num =
    let index = entry_at (listing (entry_at rfd d)) (codes "index.md") in
    compose_iff (last-Returns (index_problems d num index) _) (index_problems-Returns d num index)

-- A round raises or not whatever `seen` holds.
check_number-Returns :
    (rfd : Dir) (seen : Seen) (d : Text)
    → Returns (check_number rfd seen d (dir_number d)) ↔ OpensIndex rfd d
check_number-Returns rfd seen d = (there, back)
  where
    there : Returns (check_number rfd seen d (dir_number d)) → OpensIndex rfd d
    there r num n =
        let e : dir_number d ≡ some num = unfold dir_number in (group-dir_re d num).1 n in
        (check_some-Returns rfd seen d num).0 (subst (λ o. Returns (check_number rfd seen d o)) e r)

    back : OpensIndex rfd d → Returns (check_number rfd seen d (dir_number d))
    back h = elim (Option-cases (dir_number d)) [
      | inl e ↦
          subst (λ o. Returns (check_number rfd seen d o)) (sym e)
            (unfold check_number in (_, refl))
      | inr (num, e) ↦
          let n : DirName d num = (group-dir_re d num).0 (unfold dir_number in e) in
          subst (λ o. Returns (check_number rfd seen d o)) (sym e)
            ((check_some-Returns rfd seen d num).1 (h num n))
    ]

check_dirs-Returns :
    (rfd : Dir) (seen : Seen) (ds : List Text)
    → Returns (check_dirs rfd seen ds) ↔ All (OpensIndex rfd) ds
unfolding check_dirs
check_dirs-Returns rfd seen [] = (λ r. tt, λ h. (_, refl))
check_dirs-Returns rfd seen (d ∷ ds) =
    both-Returns (check_number rfd seen d (dir_number d)) _ (check_number-Returns rfd seen d)
      (λ (here, seen').
        compose_iff (last-Returns (check_dirs rfd seen' ds) _) (check_dirs-Returns rfd seen' ds))

number_problems-Returns :
    (rfd : Dir) → Returns (number_problems rfd) ↔ All (OpensIndex rfd) (rfd_dirs rfd)
unfolding number_problems
number_problems-Returns rfd =
    compose_iff (last-Returns (check_dirs rfd [] (rfd_dirs rfd)) _)
      (check_dirs-Returns rfd [] (rfd_dirs rfd))

file_links-Returns :
    (rfd : Dir) (cur : Text) (f : Text × File) → Returns (file_links rfd cur f) ↔ OpensPage f
unfolding file_links read_file
file_links-Returns rfd cur (f, unreadable) = elim (Bool-cases (ends_with f (codes ".md"))) [
  | inl e ↦ (λ (a, q). absurd (ground arith), λ h. absurd (h e))
  | inr e ↦ (λ r k. absurd (ground arith), λ h. ([], rw e refl))
]
file_links-Returns rfd cur (f, readable utf8 t) = elim (Bool-cases (ends_with f (codes ".md"))) [
  | inl e ↦ (λ r k. tt, λ h. (target_problems rfd (join cur f) (find_all link_re t), rw e refl))
  | inr e ↦ (λ r k. tt, λ h. ([], rw e refl))
]

files_links-Returns :
    (rfd : Dir) (cur : Text) (fs : List (Text × File))
    → Returns (files_links rfd cur fs) ↔ All OpensPage fs
unfolding files_links
files_links-Returns rfd cur [] = (λ r. tt, λ h. ([], refl))
files_links-Returns rfd cur (f ∷ fs) =
    both-Returns (file_links rfd cur f) _ (file_links-Returns rfd cur f) (λ here.
      compose_iff (last-Returns (files_links rfd cur fs) _) (files_links-Returns rfd cur fs))

visit_links-Returns :
    (rfd : Dir) (vs : List Visit)
    → Returns (visit_links rfd vs) ↔ All (λ (v : Visit). All OpensPage v.1) vs
unfolding visit_links
visit_links-Returns rfd [] = (λ r. tt, λ h. ([], refl))
visit_links-Returns rfd ((cur, fs) ∷ vs) =
    both-Returns (files_links rfd cur fs) _ (files_links-Returns rfd cur fs)
      (λ here. compose_iff (last-Returns (visit_links rfd vs) _) (visit_links-Returns rfd vs))

alias_problems-Returns :
    (aliases : Entry) (seen : Seen) → Returns (alias_problems aliases seen) ↔ OpensStrictly aliases
unfolding alias_problems read_strict
alias_problems-Returns missing seen = (λ r. tt, λ h. (_, refl))
alias_problems-Returns (is_dir d) seen = (λ (a, e). cc, λ h. absurd h)
alias_problems-Returns (is_file unreadable) seen = (λ (a, e). cc, λ h. absurd h)
alias_problems-Returns (is_file (readable false t)) seen = (λ (a, e). cc, λ h. absurd h)
alias_problems-Returns (is_file (readable true t)) seen = (λ r. tt, λ h. (_, refl))

module _ (u : Unicode) (cwd script root : Text) where
  -- What `check` has to open below rfd/, and ALIASES.md.
  abbrev pub CanOpen : Dir → Dir → Type 0
  CanOpen tree rfd =
      All (OpensIndex rfd) (rfd_dirs rfd)
      × All (λ (v : Visit). All OpensPage v.1) (walk (join root (codes "rfd")) rfd)
      × OpensStrictly (entry_at tree (codes "ALIASES.md"))

  check_rfd-Returns :
      (tree rfd : Dir) → Returns (check_rfd u cwd script root tree rfd) ↔ CanOpen tree rfd
  unfolding check_rfd link_problems
  check_rfd-Returns tree rfd =
      let q = both-Returns (number_problems rfd) _ (number_problems-Returns rfd) (λ (numbers, seen).
        both-Returns (link_problems rfd (join root (codes "rfd"))) _
          (visit_links-Returns rfd (walk (join root (codes "rfd")) rfd))
          (λ links.
            compose_iff (last-Returns (alias_problems (entry_at tree (codes "ALIASES.md")) seen) _)
              (alias_problems-Returns (entry_at tree (codes "ALIASES.md")) seen))) in
      (λ r. let (a, (b, c)) = q.0 r in (a, b, c), λ (a, b, c). q.1 (a, (b, c)))

  -- `check` comes back with a list exactly when rfd/ is missing, or every index and every page below
  -- rfd/ can be opened, and ALIASES.md is missing or can be opened and is UTF-8; otherwise it raises.
  pub check-Returns :
      (tree : Dir)
      → Returns (check u cwd script root tree) ↔ (
          is_directory (entry_at tree (codes "rfd")) ≡ true
          → CanOpen tree (listing (entry_at tree (codes "rfd"))))
  unfolding check
  check-Returns tree = elim (Bool-cases (is_directory (entry_at tree (codes "rfd")))) [
    | inl e ↦
        let q = check_rfd-Returns tree (listing (entry_at tree (codes "rfd"))) in
        (λ r k. q.0 (rw e at r), λ h. rw e (q.1 (h e)))
    | inr e ↦ (λ r k. absurd (ground arith), λ h. (codes "no rfd/ directory" ∷ [], rw e refl))
  ]
