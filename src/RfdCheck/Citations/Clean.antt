-- ===== src/RfdCheck/Citations/Clean.antt =====
-- Lemmas on the walk for old citations, `citation_problems`.
use multiplayer_fabric_manua.Common.{
  Bool, false, ◌||◌, List, [], ◌∷◌, ◌++◌, ◌≡◌, refl, arith, ◌↔◌, map,
}
use multiplayer_fabric_manua.Common.Tests.{if◌then◌else◌}
use multiplayer_fabric_manua.Common.Lists.{append-eq-nil_both, if-eq-nil, All, eq-nil_iff}
use multiplayer_fabric_manua.Common.Text.{Text, codes, text_eq}
use multiplayer_fabric_manua.PosixPath.{join, abspath}
use multiplayer_fabric_manua.Regex.{find_all}
use multiplayer_fabric_manua.RfdCheck.Patterns.{Unicode, old_cite_re}
use multiplayer_fabric_manua.RfdCheck.Patterns.OldCitations.{
  HasLetters, CitesOld, find_all-old_cite,
}
use multiplayer_fabric_manua.RfdCheck.FileTree.{
  File, unreadable, readable, Dir, Visit, walk, read_file,
}
use multiplayer_fabric_manua.RfdCheck.Citations.{
  is_skipped, cites, file_citations, files_citations, visit_citations, citation_problems,
}

module _ (u : Unicode) (cwd script : Text) where
  -- A file whose citations do not count: the table of aliases and the script itself.
  abbrev pub is_exempt : Text → Text → Bool
  is_exempt cur f =
      text_eq f (codes "ALIASES.md") || text_eq (abspath cwd (join cur f)) (abspath cwd script)

  -- A file that cites no old number, or cannot be read.
  abbrev pub IsMigrated : File → Type 0
  IsMigrated unreadable = Unit
  IsMigrated (readable utf8 body) = (num : Text) → ¬ CitesOld u body num

  abbrev pub FileMigrated : Text → Text × File → Type 0
  FileMigrated cur f = is_exempt cur f.0 ≡ false → IsMigrated f.1

  abbrev pub VisitMigrated : Visit → Type 0
  VisitMigrated v = is_skipped v.0 ≡ false → All (FileMigrated v.0) v.1

  module _ (h : HasLetters u) where
    map-eq-nil : (f : Text → Text) (l : List Text) → (map f l ≡ []) ↔ (l ≡ [])
    map-eq-nil f [] = (λ e. e, λ e. e)
    map-eq-nil f (x ∷ l) = (λ e. cc, λ e. cc)

    cited-eq-nil :
        (f : Text → Text) (body : Text)
        → (map f (find_all (old_cite_re u) body) ≡ []) ↔ ((num : Text) → ¬ CitesOld u body num)
    cited-eq-nil f body =
        let l : List Text = find_all (old_cite_re u) body in
        (
          λ e num c.
              (eq-nil_iff l).0 ((map-eq-nil f l).0 e) num ((find_all-old_cite u h body num).1 c),
          λ n.
              (map-eq-nil f l).1
                ((eq-nil_iff l).1 (λ num m. n num ((find_all-old_cite u h body num).0 m))),
        )

    file_citations-eq-nil :
        (cur : Text) (f : Text × File)
        → (file_citations u cwd script cur f ≡ []) ↔ FileMigrated cur f
    unfolding file_citations read_file
    file_citations-eq-nil cur (f, unreadable) = if-eq-nil (is_exempt cur f) [] (λ e. tt, λ x. refl)
    file_citations-eq-nil cur (f, readable utf8 body) =
        if-eq-nil (is_exempt cur f) _ (cited-eq-nil (cites (join cur f)) body)

    files_citations-eq-nil :
        (cur : Text) (fs : List (Text × File))
        → (files_citations u cwd script cur fs ≡ []) ↔ All (FileMigrated cur) fs
    unfolding files_citations
    files_citations-eq-nil cur [] = (λ e. tt, λ x. refl)
    files_citations-eq-nil cur (f ∷ fs) =
        append-eq-nil_both _ _ (file_citations-eq-nil cur f) (files_citations-eq-nil cur fs)

    one_visit-eq-nil :
        (cur : Text) (fs : List (Text × File))
        → ((if is_skipped cur then [] else files_citations u cwd script cur fs) ≡ [])
          ↔ VisitMigrated (cur, fs)
    one_visit-eq-nil cur fs =
        if-eq-nil (is_skipped cur) (files_citations u cwd script cur fs)
          (files_citations-eq-nil cur fs)

    visit_citations-cons :
        (cur : Text) (fs : List (Text × File)) (vs : List Visit)
        → visit_citations u cwd script ((cur, fs) ∷ vs)
          ≡ (if is_skipped cur then [] else files_citations u cwd script cur fs)
            ++ visit_citations u cwd script vs
    unfolding visit_citations
    visit_citations-cons cur fs vs = ground arith

    visit_citations-eq-nil :
        (vs : List Visit) → (visit_citations u cwd script vs ≡ []) ↔ All VisitMigrated vs
    visit_citations-eq-nil [] = (λ e. tt, λ x. unfold visit_citations in refl)
    visit_citations-eq-nil ((cur, fs) ∷ vs) =
        rw (visit_citations-cons cur fs vs)
          (append-eq-nil_both _ _ (one_visit-eq-nil cur fs) (visit_citations-eq-nil vs))

    -- No citation is reported exactly when every file of every directory that is not skipped is
    -- exempt, unreadable or free of old citations, where Python's tables are as `HasLetters` says.
    pub citation_problems-eq-nil :
        (root : Text) (tree : Dir)
        → (citation_problems u cwd script root tree ≡ []) ↔ All VisitMigrated (walk root tree)
    unfolding citation_problems
    citation_problems-eq-nil root tree = visit_citations-eq-nil (walk root tree)
