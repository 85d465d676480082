-- ===== src/PageMeta/Titles.antt =====
-- `_parse_frontmatter` and `_parse_title` of scripts/decision-meta.py.
pub mod Quotes
use mathlib.Core.List.{reverse}
use multiplayer_fabric_manua.Common.{Bool, false, ◌||◌, [], ◌∷◌, Option, none, some}
use multiplayer_fabric_manua.Common.Tests.{◌==◌, if◌then◌else◌}
use multiplayer_fabric_manua.Common.Text.{Text, codes, starts_with, drop, before_first}
use multiplayer_fabric_manua.Regex.{search_group}
use multiplayer_fabric_manua.Regex.Classes.{is_space}
use multiplayer_fabric_manua.PageMeta.Patterns.{title_re, heading_re}

abbrev or_empty : Option Text → Text
or_empty none = []
or_empty (some s) = s

unfoldable pub parse_frontmatter : Text → Text
parse_frontmatter text =
    if starts_with text (codes "---")
    then or_empty (before_first (codes "\n---") (drop 3 text))
    else []

-- `s.lstrip()` and `s.strip()`
unfoldable pub lstrip : Text → Text
lstrip [] = []
lstrip (c ∷ s) = let rest = lstrip s in if is_space c then rest else c ∷ s

unfoldable pub strip : Text → Text
strip s = reverse (lstrip (reverse (lstrip s)))

abbrev pub is_quote : Text → Bool
is_quote [] = false
is_quote (c ∷ s) = c == b'"' || c == b'\''

-- `title[-1] == title[0]` and `title[1:-1]`, for a title that begins with a quote and goes on: the
-- rest is read from its end.
abbrev pub drop_last_if : Text → Text → Text → Text
drop_last_if quote [] whole = whole
drop_last_if [] (c ∷ back) whole = whole
drop_last_if (q ∷ _) (c ∷ back) whole = if c == q then reverse back else whole

abbrev tail_of : Text → Text
tail_of [] = []
tail_of (c ∷ s) = s

unfoldable pub unquote : Text → Text
unquote title = if is_quote title then drop_last_if title (reverse (tail_of title)) title else title

abbrev heading_or : Option Text → Text → Text
heading_or none fallback = fallback
heading_or (some g) fallback = strip g

abbrev title_or : Option Text → Text → Text
title_or none other = other
title_or (some g) other = unquote (strip g)

unfoldable pub parse_title : Text → Text → Text
parse_title text fallback =
    title_or (search_group title_re (parse_frontmatter text))
      (heading_or (search_group heading_re text) fallback)
