-- ===== src/PageMeta/Graph.antt =====
-- `_scan` of scripts/decision-meta.py: the titles of the pages and the pages that each one links to.
-- Which files the two calls of `glob.glob` find is a parameter: their paths and contents, in the
-- order in which the set of paths is gone through.
pub mod Invariants
pub mod Keys
pub mod Targets
pub mod Links
pub mod Entries
pub mod Unambiguous
use multiplayer_fabric_manua.Common.{
  Bool, true, false, not, ◌&&◌, List, [], ◌∷◌, ◌++◌, Option, none, some,
}
use multiplayer_fabric_manua.Common.Tests.{if◌then◌else◌}
use multiplayer_fabric_manua.Common.Lists.{any}
use multiplayer_fabric_manua.Common.Text.{Text, codes, text_eq, starts_with, ends_with, mem}
use multiplayer_fabric_manua.Common.Dict.{Dict, store}
use multiplayer_fabric_manua.PosixPath.{relpath, dirname, basename}
use multiplayer_fabric_manua.Regex.{find_all}
use multiplayer_fabric_manua.RfdCheck.FileTree.{
  File, unreadable, readable, Outcome, ok, raised, ◌>>=◌, decode_error,
}
use multiplayer_fabric_manua.PageMeta.Patterns.{link_re, stem_re}
use multiplayer_fabric_manua.PageMeta.Paths.{page_ext, strip_ext, posix, bare, resolve}
use multiplayer_fabric_manua.PageMeta.Titles.{parse_frontmatter, parse_title}

-- `set.add`; a set is a list in which no key stands twice.
unfoldable pub add : Text → List Text → List Text
add k l = if mem k l then l else l ++ k ∷ []

pub record Info : Type 0 where
  pub title : Text
  pub out : List Text

abbrev pub Graph : Type 0
Graph = Dict Info

-- `_SKIP_DIRS`
abbrev pub skip_dirs : List Text
skip_dirs = codes "_site/" ∷ codes "scripts/" ∷ []

unfoldable pub is_skipped : Text → Bool
is_skipped key = any (starts_with (key ++ codes "/")) skip_dirs

-- `target.startswith(("http://", "https://", "#", "mailto:"))`
abbrev schemes : List Text
schemes = codes "http://" ∷ codes "https://" ∷ codes "#" ∷ codes "mailto:" ∷ []

unfoldable pub is_page_link : Text → Bool
is_page_link target =
    not (any (starts_with target) schemes) && any (ends_with (bare target)) page_ext

-- `if resolved and resolved != key: out.add(resolved)`
unfoldable pub add_resolved : Text → Option Text → List Text → List Text
add_resolved key none out = out
add_resolved key (some []) out = out
add_resolved key (some (c ∷ r)) out = if text_eq (c ∷ r) key then out else add (c ∷ r) out

unfoldable pub add_links : Text → Text → List Text → List Text → List Text
add_links key from_dir [] out = out
add_links key from_dir (t ∷ ts) out =
    add_links key from_dir ts
      (if is_page_link t then add_resolved key (resolve from_dir t) out else out)

unfoldable pub add_stems : Text → Text → List Text → List Text → List Text
add_stems key from_dir [] out = out
add_stems key from_dir (t ∷ ts) out =
    add_stems key from_dir ts (add_resolved key (resolve from_dir t) out)

unfoldable pub page_info : Text → Text → Info
page_info key text =
    let from_dir = dirname key in
    record {
      title = parse_title text (basename key);
      out =
          add_stems key from_dir (find_all stem_re (parse_frontmatter text))
            (add_links key from_dir (find_all link_re text) []);
    }

-- One round: a file that cannot be opened is passed over, and one that is not UTF-8 raises.
unfoldable pub scan_page : Text → File → Graph → Outcome Graph
scan_page key unreadable graph = ok graph
scan_page key (readable false text) graph = raised decode_error
scan_page key (readable true text) graph = ok (store key (page_info key text) graph)

module _ (cwd root : Text) where
  unfoldable pub scan_paths : List (Text × File) → Graph → Outcome Graph
  scan_paths [] graph = ok graph
  scan_paths ((path, file) ∷ rest) graph = do
    let key = strip_ext (posix (relpath cwd path root))
    graph' ← if is_skipped key then ok graph else scan_page key file graph
    scan_paths rest graph'

-- `_project_root`: the environment variable, if it is set and not empty.
unfoldable pub project_root : Option Text → Text
project_root none = codes "."
project_root (some []) = codes "."
project_root (some (c ∷ s)) = c ∷ s

unfoldable pub scan : Text → Option Text → List (Text × File) → Outcome Graph
scan cwd variable paths = scan_paths cwd (project_root variable) paths []
