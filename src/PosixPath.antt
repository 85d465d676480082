-- ===== src/PosixPath.antt =====
-- The functions of `os.path` and `posixpath` that scripts/check-rfd-numbers.py and
-- scripts/decision-meta.py call, on a POSIX system.
pub mod Components
pub mod Folders
pub mod Keeping
pub mod Relative
pub mod Endings
mod Tests
use mathlib.Core.List.{reverse, foldl}
use multiplayer_fabric_manua.Common.{Bool, true, false, not, ◌&&◌, ◌||◌, List, [], ◌∷◌, ◌++◌, map}
use multiplayer_fabric_manua.Common.Tests.{◌==◌, if◌then◌else◌}
use multiplayer_fabric_manua.Common.Lists.{all}
use multiplayer_fabric_manua.Common.Text.{Text, codes, text_eq, starts_with, split, join_with}

abbrev pub is_empty {ℓ} : {A : Type ℓ} → List A → Bool
is_empty [] = true
is_empty (x ∷ xs) = false

-- `not s or s.endswith("/")`
unfoldable pub ends_in_slash : Text → Bool
ends_in_slash [] = true
ends_in_slash (c ∷ []) = c == b'/'
ends_in_slash (c ∷ d ∷ s) = ends_in_slash (d ∷ s)

unfoldable pub join : Text → Text → Text
unfolding ends_in_slash
join a b =
    if starts_with b (codes "/") then b else if ends_in_slash a then a ++ b else a ++ b'/' ∷ b

-- The loop of `normpath`: the components kept so far, the last one first.
unfoldable pub keep_component : Bool → List Text → Text → List Text
keep_component absolute [] c =
    if is_empty c || text_eq c (codes ".")
    then []
    else if text_eq c (codes "..") && absolute
    then []
    else c ∷ []
keep_component absolute (top ∷ kept) c =
    if is_empty c || text_eq c (codes ".")
    then top ∷ kept
    else if text_eq c (codes "..") && not (text_eq top (codes ".."))
    then kept
    else c ∷ top ∷ kept

unfoldable pub keep_components : Bool → List Text → List Text → List Text
unfolding keep_component
keep_components absolute kept [] = kept
keep_components absolute kept (c ∷ cs) =
    keep_components absolute (keep_component absolute kept c) cs

-- Two leading slashes stay two; any other number is one.
unfoldable pub leading_slashes : Text → Text
leading_slashes s =
    if not (starts_with s (codes "/"))
    then []
    else if starts_with s (codes "//") && not (starts_with s (codes "///"))
    then codes "//"
    else codes "/"

abbrev pub or_dot : Text → Text
or_dot [] = codes "."
or_dot (c ∷ s) = c ∷ s

unfoldable pub normpath : Text → Text
unfolding keep_components leading_slashes
normpath s =
    let slashes = leading_slashes s in
    or_dot (
      slashes
      ++ join_with (codes "/")
          (reverse (keep_components (not (is_empty slashes)) [] (split b'/' s))))

unfoldable pub abspath : Text → Text → Text
unfolding normpath join
abspath cwd s = normpath (join cwd s)

-- The text up to the last slash, with it, and the text behind it.
unfoldable pub split_last : Text → Text × Text
split_last [] = ([], [])
split_last (c ∷ s) =
    let (h, t) = split_last s in
    if not (is_empty h) then (c ∷ h, t) else if c == b'/' then (c ∷ [], t) else ([], c ∷ t)

unfoldable pub basename : Text → Text
unfolding split_last
basename s = (split_last s).1

-- `head.rstrip("/")`
unfoldable pub strip_slashes : Text → Text
strip_slashes [] = []
strip_slashes (c ∷ s) =
    let rest = strip_slashes s in if c == b'/' && is_empty rest then [] else c ∷ rest

unfoldable pub dirname : Text → Text
unfolding split_last strip_slashes
dirname s =
    let head = (split_last s).0 in if all (λ c. c == b'/') head then head else strip_slashes head

-- The components of an absolute path.
abbrev pub components : List Text → List Text
components [] = []
components (c ∷ cs) = if is_empty c then components cs else c ∷ components cs

abbrev ups : List Text → List Text
ups = map (λ _. codes "..")

-- `relpath` past the common prefix: one `..` for each component left of the start.
unfoldable pub relative : List Text → List Text → List Text
relative [] path = path
relative (a ∷ start) [] = ups (a ∷ start)
relative (a ∷ start) (b ∷ path) =
    let rest = relative start path in if text_eq a b then rest else ups (a ∷ start) ++ b ∷ path

unfoldable pub join_all : List Text → Text
unfolding join
join_all [] = codes "."
join_all (p ∷ ps) = foldl join p ps

unfoldable pub relpath : Text → Text → Text → Text
unfolding abspath relative join_all
relpath cwd path start = join_all (
    relative (components (split b'/' (abspath cwd start)))
      (components (split b'/' (abspath cwd path))))
