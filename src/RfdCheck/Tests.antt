-- ===== src/RfdCheck/Tests.antt =====
-- Runs of the check, and the theorems at concrete inputs.
use mathlib.Core.Bool.{xor}
use mathlib.Core.List.{Memᴰ}
use multiplayer_fabric_manua.Common.{true, List, [], ◌∷◌, none, some, ◌≡◌, ◌≢◌, ◌↔◌, refl, arith}
use multiplayer_fabric_manua.Common.Lists.{All, Distinct}
use multiplayer_fabric_manua.Common.Dict.{keys}
use multiplayer_fabric_manua.Common.Sorting.{sorted}
use multiplayer_fabric_manua.RfdCheck.FileTree.{
  Dir, Entry, Visit, nil, file, dir, readable, is_file,
}
use multiplayer_fabric_manua.RfdCheck.Numbers.{Seen}
use multiplayer_fabric_manua.RfdCheck.Numbers.Rounds.{IsInOrder, check_number-clean}
use multiplayer_fabric_manua.RfdCheck.Numbers.Loop.{Numbered, check_dirs_iff}
use multiplayer_fabric_manua.RfdCheck.Citations.Clean.{VisitMigrated, citation_problems-eq-nil}
use multiplayer_fabric_manua.RfdCheck.Links.Clean.{FileLinked, link_problems-eq-nil}
use multiplayer_fabric_manua.RfdCheck.Aliases.Clean.{HasRows, alias_problems-eq-nil}
use multiplayer_fabric_manua.RfdCheck.Check.Returns.{CanOpen, check-Returns}
use multiplayer_fabric_manua.RfdCheck.FileTree.Returns.{Returns}
use multiplayer_fabric_manua.RfdCheck.FileTree.{is_directory, listing}
use multiplayer_fabric_manua.RfdCheck.Check.Iff.{Conforms, check_iff}
use multiplayer_fabric_manua.RfdCheck.Patterns.OldCitations.{
  HasLetters, CitesOld, find_all-old_cite,
}
use multiplayer_fabric_manua.RfdCheck.Patterns.LinkTargets.{PointsTo, find_all-link}
use multiplayer_fabric_manua.RfdCheck.Citations.Skipped.{citation_problems-is_skipped}
use multiplayer_fabric_manua.RfdCheck.Patterns.AliasRows.{Mentions, find_all-alias}
use multiplayer_fabric_manua.RfdCheck.Patterns.DirNames.{DirName, group-dir_re}
use multiplayer_fabric_manua.RfdCheck.Patterns.Numbered.{first_number}
use multiplayer_fabric_manua.RfdCheck.Patterns.Lines.{search-fm_re, search-title_re}
use multiplayer_fabric_manua.RfdCheck.Main.{main, main-lines_iff, main_iff, repository}
use multiplayer_fabric_manua.RfdCheck.SelfTest.Skipped.{self_test-is_skipped}
use multiplayer_fabric_manua.RfdCheck.SelfTest.Verdicts.{CaseAsExpected, self_test_iff}
use multiplayer_fabric_manua.RfdCheck.SelfTest.{defaults}
use multiplayer_fabric_manua.Common.Dict.{lookup, store}
use multiplayer_fabric_manua.Common.Sorting.{insert, sorted}
use multiplayer_fabric_manua.Common.Tests.{within}
use multiplayer_fabric_manua.Common.Text.{
  Text, codes, ends_with, join_with, split, starts_with, text_eq, text_lt,
}
use multiplayer_fabric_manua.PosixPath.{
  abspath, ends_in_slash, join, keep_component, keep_components, leading_slashes, normpath,
}
use multiplayer_fabric_manua.Regex.{
  group_of, find_all, find_all_from, match_at, match_start, search_from, search_group,
}
use multiplayer_fabric_manua.Regex.Classes.{is_alnum, is_hex, is_slug}
use multiplayer_fabric_manua.RfdCheck.Aliases.{alias_problems, row_problems}
use multiplayer_fabric_manua.RfdCheck.Check.{check, check_rfd}
use multiplayer_fabric_manua.RfdCheck.Citations.{
  citation_problems, file_citations, files_citations, is_skipped, visit_citations,
}
use multiplayer_fabric_manua.RfdCheck.FileTree.{
  dir_names, entry_at, files_of, ok, read_file, read_ignore, read_strict, walk, walk_below,
}
use multiplayer_fabric_manua.RfdCheck.Links.{
  file_links, files_links, link_problems, target_problems, visit_links,
}
use multiplayer_fabric_manua.RfdCheck.Numbers.{
  body_problems, check_dirs, check_number, dir_number, field_problems, index_problems, is_candidate,
  keep_candidates, none_found, number_problems, org_problems, rfd_dirs, serial_problems,
  title_problems,
}
use multiplayer_fabric_manua.RfdCheck.Patterns.{
  Unicode, alias_re, candidate_re, dir_re, fm_re, is_word, link_re, old_cite_re, title_re,
}
use multiplayer_fabric_manua.RfdCheck.SelfTest.{build, cases, page, run_cases, self_test}

-- The tables restricted to ASCII.
abbrev ascii : Unicode
ascii = record { decimal = within b'0' b'9'; alnum = is_alnum }

abbrev here : Text
here = codes "/w"

abbrev script : Text
script = codes "/w/scripts/check-rfd-numbers.py"

self_test_passes : (self_test ascii here script (codes "/tmp/t")).result ≡ ok 0
unfolding self_test match_at is_hex is_slug is_alnum is_word text_eq text_lt starts_with ends_with
    split join_with xor abspath alias_problems alias_re body_problems build candidate_re cases check
    check_dirs check_number check_rfd citation_problems dir_names dir_number dir_re ends_in_slash
    entry_at field_problems file_citations file_links files_citations files_links files_of find_all
    find_all_from fm_re index_problems insert is_candidate is_skipped join keep_candidates
    keep_component keep_components leading_slashes link_problems link_re lookup match_start
    none_found normpath number_problems old_cite_re org_problems page read_file read_ignore
    read_strict rfd_dirs row_problems run_cases search_from search_group serial_problems sorted
    store target_problems title_problems title_re visit_citations visit_links walk walk_below
self_test_passes = refl

ascii-HasLetters : HasLetters ascii
unfolding is_word is_alnum
ascii-HasLetters = record { letter = refl; digit = λ c h. ground arith; not_digit = refl }

abbrev root : Text
root = codes "/tmp/t"

-- A page that `build` writes, and the directory rfd/ around it.
abbrev one_rfd : Dir
one_rfd =
    dir (codes "2001-a-slug") (file (codes "index.md") (readable true (page defaults)) nil) nil

check_iff_example :
    (check ascii here script root (build defaults) ≡ ok [])
    ↔ ((nums : List Text) × Conforms ascii here script root (build defaults) nums)
check_iff_example = check_iff ascii here script root ascii-HasLetters (build defaults)

check_dirs_iff_example :
    ((seen : Seen) × (check_dirs one_rfd [] (codes "2001-a-slug" ∷ []) ≡ ok ([], seen))
      × (keys seen ≡ codes "2001" ∷ []))
    ↔ (Numbered one_rfd (codes "2001-a-slug" ∷ []) (codes "2001" ∷ [])
        × Distinct (codes "2001" ∷ []))
check_dirs_iff_example = check_dirs_iff one_rfd (codes "2001-a-slug" ∷ []) (codes "2001" ∷ [])

check_number-clean_example :
    (check_number one_rfd [] (codes "2001-a-slug") (dir_number (codes "2001-a-slug"))
      ≡ ok ([], (codes "2001", codes "2001-a-slug") ∷ []))
    ↔ ((num : Text) × IsInOrder one_rfd (codes "2001-a-slug") num
        × (lookup {V = Text} num [] ≡ none)
        × ((codes "2001", codes "2001-a-slug") ∷ [] ≡ store num (codes "2001-a-slug") []))
check_number-clean_example =
    check_number-clean one_rfd [] ((codes "2001", codes "2001-a-slug") ∷ []) (codes "2001-a-slug")

citation_problems-eq-nil_example :
    (citation_problems ascii here script root (build defaults) ≡ [])
    ↔ All (VisitMigrated ascii here script) (walk root (build defaults))
citation_problems-eq-nil_example =
    citation_problems-eq-nil ascii here script ascii-HasLetters root (build defaults)

link_problems-eq-nil_example :
    (link_problems one_rfd (codes "/tmp/t/rfd") ≡ ok [])
    ↔ All (λ (v : Visit). All (FileLinked one_rfd) v.1) (walk (codes "/tmp/t/rfd") one_rfd)
link_problems-eq-nil_example = link_problems-eq-nil one_rfd (codes "/tmp/t/rfd")

abbrev aliases : Entry
aliases = is_file (readable true (codes "| RFD 0001 | RFD 2001 |\n"))

alias_problems-eq-nil_example :
    (alias_problems aliases ((codes "2001", codes "2001-a-slug") ∷ []) ≡ ok [])
    ↔ HasRows aliases (sorted (keys ((codes "2001", codes "2001-a-slug") ∷ [])))
alias_problems-eq-nil_example =
    alias_problems-eq-nil aliases ((codes "2001", codes "2001-a-slug") ∷ [])

find_all-old_cite_example :
    Memᴰ (codes "0007") (find_all (old_cite_re ascii) (codes "see RFD 0007, and RFD 2007"))
    ↔ CitesOld ascii (codes "see RFD 0007, and RFD 2007") (codes "0007")
find_all-old_cite_example =
    find_all-old_cite ascii ascii-HasLetters (codes "see RFD 0007, and RFD 2007") (codes "0007")

find_all-link_example :
    Memᴰ (codes "2002-b") (find_all link_re (codes "see [b](../2002-b/index.md)"))
    ↔ PointsTo (codes "see [b](../2002-b/index.md)") (codes "2002-b")
find_all-link_example = find_all-link (codes "see [b](../2002-b/index.md)") (codes "2002-b")

find_all-alias_example :
    Memᴰ (codes "2001") (find_all alias_re (codes "| RFD 0001 | RFD 2001 |"))
    ↔ Mentions (codes "| RFD 0001 | RFD 2001 |") (codes "2001")
find_all-alias_example = find_all-alias (codes "| RFD 0001 | RFD 2001 |") (codes "2001")

group-dir_re_example :
    (group_of (match_start dir_re (codes "2001-a-slug")) ≡ some (codes "2001"))
    ↔ DirName (codes "2001-a-slug") (codes "2001")
group-dir_re_example = group-dir_re (codes "2001-a-slug") (codes "2001")

search-fm_re_example :
    search_group fm_re (page defaults)
    ≡ first_number (codes "rfd: \"") (codes "\"") (split b'\n' (page defaults))
search-fm_re_example = search-fm_re (page defaults)

search-title_re_example :
    search_group title_re (page defaults)
    ≡ first_number (codes "title: \"RFD ") (codes ":") (split b'\n' (page defaults))
search-title_re_example = search-title_re (page defaults)

main_iff_example : ((main ascii here script root [] (build defaults)).result ≡ ok 0) ↔ (
    (nums : List Text) × Conforms ascii here script (repository here script) (build defaults) nums)
unfolding text_eq
main_iff_example = main_iff ascii here script root ascii-HasLetters [] (build defaults) refl

main-lines_iff_example :
    ((main ascii here script root [] (build defaults)).lines ≡ codes "0 problems" ∷ []) ↔ (
      (nums : List Text) × Conforms ascii here script
        (repository here script)
        (build defaults)
        nums)
unfolding text_eq
main-lines_iff_example =
    main-lines_iff ascii here script root ascii-HasLetters [] (build defaults) refl

self_test_iff_example :
    ((self_test ascii here script (codes "/tmp/t")).result ≡ ok 0)
    ↔ All (CaseAsExpected ascii here script (codes "/tmp/t")) cases
self_test_iff_example = self_test_iff ascii here script (codes "/tmp/t") ascii-HasLetters

self_test-is_skipped_example : (self_test ascii here script (codes "/w/_site/t")).result ≢ ok 0
unfolding is_skipped text_eq split
self_test-is_skipped_example =
    self_test-is_skipped ascii here script (codes "/w/_site/t") ascii-HasLetters refl

-- A tree with an old citation.
abbrev unmigrated : Dir
unmigrated = build (record defaults { extra = some (codes "see RFD 0021\n") })

citation_problems-is_skipped_example :
    citation_problems ascii here script (codes "/w/_site/t") unmigrated ≡ []
unfolding is_skipped starts_with split text_eq build
citation_problems-is_skipped_example =
    citation_problems-is_skipped ascii here script (codes "/w/_site/t") unmigrated
      (refl, (refl, tt, tt), tt) refl

check-Returns_example : Returns (check ascii here script root (build defaults)) ↔ (
    is_directory (entry_at (build defaults) (codes "rfd")) ≡ true
    → CanOpen ascii here script root
        (build defaults)
        (listing (entry_at (build defaults) (codes "rfd"))))
check-Returns_example = check-Returns ascii here script root (build defaults)
