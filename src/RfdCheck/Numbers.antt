-- ===== src/RfdCheck/Numbers.antt =====
-- The loop of `check` over the RFD directories: the directory name, the front matter and the title
-- have one number, with the organization's digit, and no number is used twice.
pub mod Rounds
pub mod Loop
use multiplayer_fabric_manua.Common.{
  Bool, true, false, not, List, [], ◌∷◌, ◌++◌, Option, none, some,
}
use multiplayer_fabric_manua.Common.Tests.{if◌then◌else◌}
use multiplayer_fabric_manua.Common.Sorting.{sorted}
use multiplayer_fabric_manua.Common.Dict.{Dict, lookup, store}
use multiplayer_fabric_manua.Common.Text.{Text, codes, text_eq, text_lt}
use multiplayer_fabric_manua.Regex.{group_of, match_start, search_group}
use multiplayer_fabric_manua.RfdCheck.Patterns.{org, dir_re, fm_re, title_re, candidate_re}
use multiplayer_fabric_manua.RfdCheck.FileTree.{
  Dir, Entry, Outcome, ok, ◌>>=◌, entry_at, exists, listing, read_ignore, dir_names,
}

abbrev pub Problems : Type 0
Problems = List Text

abbrev pub is_some {ℓ} : {A : Type ℓ} → Option A → Bool
is_some none = false
is_some (some a) = true

unfoldable pub is_candidate : Text → Bool
is_candidate d = is_some (match_start candidate_re d)

unfoldable pub keep_candidates : List Text → List Text
keep_candidates [] = []
keep_candidates (d ∷ ds) =
    let rest = keep_candidates ds in if is_candidate d then d ∷ rest else rest

-- `dirs`: the RFD directories, sorted.
unfoldable pub rfd_dirs : Dir → List Text
rfd_dirs rfd = sorted (keep_candidates (dir_names rfd))

-- The dictionary `seen`, from a number to the directory that has it.
abbrev pub Seen : Type 0
Seen = Dict Text

-- `if num[0] != ORG`
unfoldable pub org_problems : Text → Text → Problems
org_problems d [] = []
org_problems d (c ∷ rest) =
    if text_eq (c ∷ []) org
    then []
    else (d ++ (codes ": organization digit is " ++ c ∷ (codes ", not " ++ org))) ∷ []

-- `if num in seen`
abbrev taken : Text → Text → Option Text → Problems
taken d num none = []
taken d num (some e) = (d ++ (codes ": serial " ++ (num ++ (codes " already used by " ++ e)))) ∷ []

unfoldable pub serial_problems : Text → Text → Seen → Problems
serial_problems d num seen = taken d num (lookup num seen)

-- What the front matter and the title say.
unfoldable pub field_problems : Text → Text → Option Text → Problems
field_problems d num none = (d ++ codes ": front matter has no four-hex-digit rfd: field") ∷ []
field_problems d num (some g) =
    if text_eq g num
    then []
    else (d ++ (codes ": rfd: is " ++ (g ++ (codes ", directory says " ++ num)))) ∷ []

unfoldable pub title_problems : Text → Text → Option Text → Problems
title_problems d num none = (d ++ codes ": title does not start 'RFD <num>:'") ∷ []
title_problems d num (some g) =
    if text_eq g num
    then []
    else (d ++ (codes ": title says " ++ (g ++ (codes ", directory says " ++ num)))) ∷ []

unfoldable pub body_problems : Text → Text → Text → Problems
body_problems d num body =
    field_problems d num (search_group fm_re body)
    ++ title_problems d num (search_group title_re body)

-- `index.md` of the directory: an index that cannot be opened raises.
unfoldable pub index_problems : Text → Text → Entry → Outcome Problems
index_problems d num index =
    if not (exists index)
    then ok ((d ++ codes ": has no index.md") ∷ [])
    else do body ← read_ignore index; ok (body_problems d num body)

-- One round of the loop, after the match of the name: the problems found and `seen` afterwards.
unfoldable pub check_number : Dir → Seen → Text → Option Text → Outcome (Problems × Seen)
check_number rfd seen d none =
    ok ((d ++ codes ": not four lower-case hex digits and a slug") ∷ [], seen)
check_number rfd seen d (some num) = do
  let index = entry_at (listing (entry_at rfd d)) (codes "index.md")
  rest ← index_problems d num index
  ok (org_problems d num ++ (serial_problems d num seen ++ rest), store num d seen)

-- `m = DIR_RE.match(d)` and `m.group(1)`
unfoldable pub dir_number : Text → Option Text
dir_number d = group_of (match_start dir_re d)

unfoldable pub check_dirs : Dir → Seen → List Text → Outcome (Problems × Seen)
check_dirs rfd seen [] = ok ([], seen)
check_dirs rfd seen (d ∷ ds) = do
  (here, seen') ← check_number rfd seen d (dir_number d)
  (later, seen'') ← check_dirs rfd seen' ds
  ok (here ++ later, seen'')

-- The message for a tree with no RFD directory.
unfoldable pub none_found : List Text → Problems
none_found [] = codes "no RFD directories found, which is never correct here" ∷ []
none_found (d ∷ ds) = []

-- The first loop with its guard.
unfoldable pub number_problems : Dir → Outcome (Problems × Seen)
number_problems rfd = do
  let dirs = rfd_dirs rfd
  (found, seen) ← check_dirs rfd [] dirs
  ok (none_found dirs ++ found, seen)
