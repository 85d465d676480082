-- ===== src/RfdCheck/FileTree.antt =====
-- A tree of directories as the script sees it, with no symbolic links, and the ways it is read.
-- `os.path.isdir`, `os.path.exists`, `open(...).read()` and `os.walk` are functions of the tree.
pub mod Outcomes
pub mod Returns
use multiplayer_fabric_manua.Common.{Bool, true, false, List, [], ◌∷◌, ◌++◌}
use multiplayer_fabric_manua.Common.Tests.{if◌then◌else◌}
use multiplayer_fabric_manua.Common.Text.{Text, text_eq}
use multiplayer_fabric_manua.PosixPath.{join}

-- An exception that ends the script.
pub data Failure : Type 0 where
  os_error decode_error : Failure

pub data Outcome {ℓ} (A : Type ℓ) : Type ℓ where
  ok : A → Outcome A
  raised : Failure → Outcome A

infixl 5 ◌>>=◌
abbrev pub ◌>>=◌ {ℓ κ} : {A : Type ℓ} {B : Type κ} → Outcome A → (A → Outcome B) → Outcome B
ok a >>= f = f a
raised e >>= f = raised e

-- A file cannot be opened, or holds a text: the one that `errors="ignore"` decodes, with newlines
-- translated, and whether the bytes are UTF-8 throughout, so that a strict reader has the same.
pub data File : Type 0 where
  unreadable : File
  readable : Bool → Text → File

-- The entries of a directory in the order in which the system lists them.
pub data Dir : Type 0 where
  nil : Dir
  file : Text → File → Dir → Dir
  dir : Text → Dir → Dir → Dir

pub data Entry : Type 0 where
  missing : Entry
  is_file : File → Entry
  is_dir : Dir → Entry

-- What stands under a name.
unfoldable pub entry_at : Dir → Text → Entry
entry_at nil n = missing
entry_at (file m f rest) n = if text_eq m n then is_file f else entry_at rest n
entry_at (dir m d rest) n = if text_eq m n then is_dir d else entry_at rest n

abbrev pub exists : Entry → Bool
exists missing = false
exists (is_file f) = true
exists (is_dir d) = true

abbrev pub is_directory : Entry → Bool
is_directory missing = false
is_directory (is_file f) = false
is_directory (is_dir d) = true

-- The entries of an entry: none unless it is a directory.
abbrev pub listing : Entry → Dir
listing missing = nil
listing (is_file f) = nil
listing (is_dir d) = d

-- `open(path, encoding="utf-8", errors="ignore").read()`; a directory cannot be opened.
unfoldable pub read_file : File → Outcome Text
read_file unreadable = raised os_error
read_file (readable utf8 t) = ok t

unfoldable pub read_ignore : Entry → Outcome Text
unfolding read_file
read_ignore missing = raised os_error
read_ignore (is_file f) = read_file f
read_ignore (is_dir d) = raised os_error

-- `open(path, encoding="utf-8").read()`
unfoldable pub read_strict : Entry → Outcome Text
read_strict missing = raised os_error
read_strict (is_file unreadable) = raised os_error
read_strict (is_file (readable true t)) = ok t
read_strict (is_file (readable false t)) = raised decode_error
read_strict (is_dir d) = raised os_error

-- The names of the directories and the files of a listing.
unfoldable pub dir_names : Dir → List Text
dir_names nil = []
dir_names (file n f rest) = dir_names rest
dir_names (dir n d rest) = n ∷ dir_names rest

unfoldable pub files_of : Dir → List (Text × File)
files_of nil = []
files_of (file n f rest) = (n, f) ∷ files_of rest
files_of (dir n d rest) = files_of rest

abbrev pub Visit : Type 0
Visit = Text × List (Text × File)

-- `os.walk(top)`, top down: a directory's path and its files, then its subdirectories in order.
unfoldable pub walk_below : Text → Dir → List Visit
walk_below cur nil = []
walk_below cur (file n f rest) = walk_below cur rest
walk_below cur (dir n d rest) =
    (join cur n, files_of d) ∷ walk_below (join cur n) d ++ walk_below cur rest

unfoldable pub walk : Text → Dir → List Visit
unfolding walk_below files_of
walk top d = (top, files_of d) ∷ walk_below top d
