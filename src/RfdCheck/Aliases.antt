-- ===== src/RfdCheck/Aliases.antt =====
-- The last part of `check`: ALIASES.md has a row for every number in use.
pub mod Clean
use multiplayer_fabric_manua.Common.{not, List, [], ◌∷◌, ◌++◌}
use multiplayer_fabric_manua.Common.Tests.{if◌then◌else◌}
use multiplayer_fabric_manua.Common.Lists.{any}
use multiplayer_fabric_manua.Common.Dict.{keys}
use multiplayer_fabric_manua.Common.Sorting.{sorted}
use multiplayer_fabric_manua.Common.Text.{Text, codes, text_eq}
use multiplayer_fabric_manua.Regex.{find_all}
use multiplayer_fabric_manua.RfdCheck.Patterns.{alias_re}
use multiplayer_fabric_manua.RfdCheck.FileTree.{Entry, Outcome, ok, ◌>>=◌, exists, read_strict}
use multiplayer_fabric_manua.RfdCheck.Numbers.{Problems, Seen}

-- `mapped` is a set: only membership in it is asked for.
unfoldable pub row_problems : List Text → List Text → Problems
row_problems mapped [] = []
row_problems mapped (num ∷ nums) =
    let later = row_problems mapped nums in
    if any (text_eq num) mapped
    then later
    else (codes "ALIASES.md has no row for RFD " ++ num) ∷ later

unfoldable pub alias_problems : Entry → Seen → Outcome Problems
alias_problems aliases seen =
    if not (exists aliases)
    then ok (codes "ALIASES.md is missing, so old numbers do not resolve" ∷ [])
    else do
      body ← read_strict aliases
      ok (row_problems (find_all alias_re body) (sorted (keys seen)))
