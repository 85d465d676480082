-- ===== src/PageMeta/Paths.antt =====
-- `_posix`, `_strip_ext`, `_key` and `_resolve` of scripts/decision-meta.py. `os.sep` is `/`.
use multiplayer_fabric_manua.Common.{◌-◌, [], ◌∷◌, List, Option, none, some}
use multiplayer_fabric_manua.Common.Tests.{if◌then◌else◌}
use multiplayer_fabric_manua.Common.Lists.{length}
use multiplayer_fabric_manua.Common.Text.{Text, codes, starts_with, ends_with, first_part, take}
use multiplayer_fabric_manua.PosixPath.{join, normpath}

-- `path.replace(os.sep, "/")`
unfoldable pub posix : Text → Text
posix path = path

-- `_PAGE_EXT`
abbrev pub page_ext : List Text
page_ext = codes ".md" ∷ codes ".qmd" ∷ codes ".html" ∷ []

unfoldable pub strip_one_of : List Text → Text → Text
strip_one_of [] target = target
strip_one_of (ext ∷ rest) target =
    let other = strip_one_of rest target in
    if ends_with target ext then take (length target - length ext) target else other

unfoldable pub strip_ext : Text → Text
strip_ext target = strip_one_of page_ext target

unfoldable pub key_of : Text → Text
key_of path = strip_ext (posix path)

-- The part of a link's target before its fragment and its query.
unfoldable pub bare : Text → Text
bare target = first_part b'?' (first_part b'#' target)

-- `if joined.startswith(".."): return None`
abbrev pub inside : Text → Option Text
inside joined = if starts_with joined (codes "..") then none else some joined

abbrev pub resolve_bare : Text → Text → Option Text
resolve_bare from_dir [] = none
resolve_bare [] (c ∷ t) = inside (normpath (c ∷ t))
resolve_bare (d ∷ from_dir) (c ∷ t) = inside (normpath (join (d ∷ from_dir) (c ∷ t)))

unfoldable pub resolve : Text → Text → Option Text
resolve from_dir target = resolve_bare from_dir (strip_ext (bare target))
