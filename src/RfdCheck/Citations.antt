-- ===== src/RfdCheck/Citations.antt =====
-- The walk of `check` over every file, for citations in the old decimal form.
pub mod Clean
pub mod Skipped
use multiplayer_fabric_manua.Common.{Bool, ◌||◌, List, [], ◌∷◌, ◌++◌, Option, none, some, map}
use multiplayer_fabric_manua.Common.Tests.{if◌then◌else◌}
use multiplayer_fabric_manua.Common.Lists.{any}
use multiplayer_fabric_manua.Common.Text.{Text, codes, text_eq, split}
use multiplayer_fabric_manua.PosixPath.{join, abspath}
use multiplayer_fabric_manua.Regex.{find_all}
use multiplayer_fabric_manua.RfdCheck.Patterns.{Unicode, old_cite_re}
use multiplayer_fabric_manua.RfdCheck.FileTree.{
  File, Dir, Outcome, ok, raised, read_file, Visit, walk,
}
use multiplayer_fabric_manua.RfdCheck.Numbers.{Problems}

-- `".git" in parts or "__pycache__" in parts or "_site" in parts`
abbrev pub skipped_names : List Text
skipped_names = codes ".git" ∷ codes "__pycache__" ∷ codes "_site" ∷ []

unfoldable pub is_skipped : Text → Bool
is_skipped cur = any (λ part. any (text_eq part) skipped_names) (split b'/' cur)

abbrev cites : Text → Text → Text
cites p num = p ++ (codes ": cites RFD " ++ (num ++ codes " in the old decimal form"))

-- A file that cannot be opened is passed over.
abbrev text_of : Outcome Text → Option Text
text_of (ok t) = some t
text_of (raised e) = none

abbrev cited : Unicode → Text → Option Text → Problems
cited u p none = []
cited u p (some body) = map (cites p) (find_all (old_cite_re u) body)

-- The script's own directory and path: `cwd` is `os.getcwd()` and `script` is `__file__`.
module _ (u : Unicode) (cwd script : Text) where
  unfoldable pub file_citations : Text → Text × File → Problems
  file_citations cur (f, content) =
      let p = join cur f in
      if text_eq f (codes "ALIASES.md") || text_eq (abspath cwd p) (abspath cwd script)
      then []
      else cited u p (text_of (read_file content))

  unfoldable pub files_citations : Text → List (Text × File) → Problems
  files_citations cur [] = []
  files_citations cur (f ∷ fs) = file_citations cur f ++ files_citations cur fs

  unfoldable pub visit_citations : List Visit → Problems
  visit_citations [] = []
  visit_citations ((cur, fs) ∷ vs) =
      let later = visit_citations vs in
      if is_skipped cur then later else files_citations cur fs ++ later

  unfoldable pub citation_problems : Text → Dir → Problems
  citation_problems root tree = visit_citations (walk root tree)
