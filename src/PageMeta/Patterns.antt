-- ===== src/PageMeta/Patterns.antt =====
-- The patterns of scripts/decision-meta.py.
pub mod Superseded
use multiplayer_fabric_manua.Common.{ℕ, ◌-◌, Bool, not, ◌||◌, ◌&&◌, [], ◌∷◌, ◌++◌}
use multiplayer_fabric_manua.Common.Tests.{◌==◌, within}
use multiplayer_fabric_manua.Common.Text.{Text, codes}
use multiplayer_fabric_manua.Regex.{one, star, lazy, assert, group_open, group_close, Regex}
use multiplayer_fabric_manua.Regex.Classes.{
  is_slug, is_space, lit, four, plus, text_start, text_end, line_start, line_end,
}

-- `[0-9]`
abbrev is_digit : ℕ → Bool
is_digit = within b'0' b'9'

-- `\S`
abbrev pub not_space : ℕ → Bool
not_space c = not (is_space c)

-- `[^)\s]`
unfoldable pub in_link : ℕ → Bool
in_link c = not (c == b')') && not (is_space c)

-- `.` without `re.S`
abbrev pub not_newline : ℕ → Bool
not_newline c = not (c == b'\n')

-- A letter under `re.IGNORECASE`: both cases, and the long s, which folds to s.
unfoldable pub same_letter : ℕ → ℕ → Bool
same_letter a c = c == a || ((within b'a' b'z' a && c == a - 32) || (a == b's' && c == 0x17f))

abbrev pub lit_nocase : Text → Regex
lit_nocase [] = []
lit_nocase (c ∷ w) = one (same_letter c) ∷ lit_nocase w

-- `_SUPERSEDED`
unfoldable pub superseded_re : Regex
superseded_re =
    assert text_start ∷ lit_nocase (codes "superseded by")
    ++ plus is_space
    ++ group_open ∷ plus not_space
    ++ group_close ∷ lit_nocase (codes ".md")
    ++ star is_space ∷ assert text_end ∷ []

-- `_LINK`
unfoldable pub link_re : Regex
link_re = lit (codes "](") ++ group_open ∷ plus in_link ++ group_close ∷ lit (codes ")")

-- `_STEM + r"\.md"`; the whole match is what `findall` gives.
unfoldable pub stem_re : Regex
stem_re =
    group_open ∷ four is_digit
    ++ four is_digit
    ++ lit (codes "-")
    ++ plus is_slug
    ++ lit (codes ".md")
    ++ group_close ∷ []

-- `^title:\s*(.+?)\s*$` and `^#\s+(.+?)\s*$`, with `re.MULTILINE`
abbrev line_text : Regex
line_text =
    group_open
    ∷ one not_newline
    ∷ lazy not_newline
    ∷ group_close
    ∷ star is_space
    ∷ assert line_end
    ∷ []

unfoldable pub title_re : Regex
title_re = assert line_start ∷ lit (codes "title:") ++ star is_space ∷ line_text

unfoldable pub heading_re : Regex
heading_re = assert line_start ∷ lit (codes "#") ++ plus is_space ++ line_text
