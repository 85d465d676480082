-- ===== src/RfdCheck/Check.antt =====
-- `check`: the four parts in the order in which the script runs them.
pub mod Iff
pub mod Returns
use multiplayer_fabric_manua.Common.{not, [], ◌∷◌, ◌++◌}
use multiplayer_fabric_manua.Common.Tests.{if◌then◌else◌}
use multiplayer_fabric_manua.Common.Text.{Text, codes}
use multiplayer_fabric_manua.PosixPath.{join}
use multiplayer_fabric_manua.RfdCheck.Patterns.{Unicode}
use multiplayer_fabric_manua.RfdCheck.FileTree.{
  Dir, Outcome, ok, ◌>>=◌, entry_at, is_directory, listing,
}
use multiplayer_fabric_manua.RfdCheck.Numbers.{Problems, number_problems}
use multiplayer_fabric_manua.RfdCheck.Citations.{citation_problems}
use multiplayer_fabric_manua.RfdCheck.Links.{link_problems}
use multiplayer_fabric_manua.RfdCheck.Aliases.{alias_problems}

-- `root` is the path of the repository, and `tree` what stands under it.
module _ (u : Unicode) (cwd script root : Text) where
  unfoldable pub check_rfd : Dir → Dir → Outcome Problems
  check_rfd tree rfd = do
    (numbers, seen) ← number_problems rfd
    links ← link_problems rfd (join root (codes "rfd"))
    aliases ← alias_problems (entry_at tree (codes "ALIASES.md")) seen
    ok (numbers ++ (citation_problems u cwd script root tree ++ (links ++ aliases)))

  unfoldable pub check : Dir → Outcome Problems
  check tree =
      let rfd = entry_at tree (codes "rfd") in
      if not (is_directory rfd)
      then ok (codes "no rfd/ directory" ∷ [])
      else check_rfd tree (listing rfd)
