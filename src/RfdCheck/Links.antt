-- ===== src/RfdCheck/Links.antt =====
-- The walk of `check` under rfd/, for relative links to folders that are not there.
pub mod Clean
use multiplayer_fabric_manua.Common.{List, [], ◌∷◌, ◌++◌}
use multiplayer_fabric_manua.Common.Tests.{if◌then◌else◌}
use multiplayer_fabric_manua.Common.Text.{Text, codes, ends_with}
use multiplayer_fabric_manua.PosixPath.{join}
use multiplayer_fabric_manua.Regex.{find_all}
use multiplayer_fabric_manua.RfdCheck.Patterns.{link_re}
use multiplayer_fabric_manua.RfdCheck.FileTree.{
  File, Dir, Outcome, ok, ◌>>=◌, entry_at, is_directory, read_file, Visit, walk,
}
use multiplayer_fabric_manua.RfdCheck.Numbers.{Problems}

abbrev broken : Text → Text → Text
broken p target = p ++ (codes ": links to ../" ++ (target ++ codes "/ which does not exist"))

module _ (rfd : Dir) where
  unfoldable pub target_problems : Text → List Text → Problems
  target_problems p [] = []
  target_problems p (t ∷ ts) =
      let later = target_problems p ts in
      if is_directory (entry_at rfd t) then later else broken p t ∷ later

  -- A page that cannot be opened raises here.
  unfoldable pub file_links : Text → Text × File → Outcome Problems
  file_links cur (f, content) =
      if ends_with f (codes ".md")
      then (do body ← read_file content; ok (target_problems (join cur f) (find_all link_re body)))
      else ok []

  unfoldable pub files_links : Text → List (Text × File) → Outcome Problems
  files_links cur [] = ok []
  files_links cur (f ∷ fs) = do
    here ← file_links cur f
    later ← files_links cur fs
    ok (here ++ later)

  unfoldable pub visit_links : List Visit → Outcome Problems
  visit_links [] = ok []
  visit_links ((cur, fs) ∷ vs) = do
    here ← files_links cur fs
    later ← visit_links vs
    ok (here ++ later)

  unfoldable pub link_problems : Text → Outcome Problems
  link_problems rfd_root = visit_links (walk rfd_root rfd)
