-- ===== src/RfdCheck/Patterns.antt =====
-- The patterns of scripts/check-rfd-numbers.py, and the characters that `\d` and `\b` stand for.
pub mod AliasRows
pub mod LinkTargets
pub mod DirNames
pub mod Numbered
pub mod Lines
pub mod OldCitations
use multiplayer_fabric_manua.Common.{ℕ, Bool, ◌||◌, [], ◌∷◌, ◌++◌}
use multiplayer_fabric_manua.Common.Tests.{◌==◌}
use multiplayer_fabric_manua.Common.Text.{Text, codes}
use multiplayer_fabric_manua.Regex.{one, assert, group_open, group_close, Regex}
use multiplayer_fabric_manua.Regex.Classes.{
  is_hex, is_slug, is_alnum, lit, four, plus, text_start, text_end, line_start, word_boundary,
}

-- Python's tables of Unicode characters: category Nd, which `\d` is, and `str.isalnum`.
pub record Unicode : Type 0 where
  pub decimal : ℕ → Bool
  pub alnum : ℕ → Bool

-- `\w`
unfoldable pub is_word : Unicode → ℕ → Bool
is_word u c = u.alnum c || c == b'_'

-- `ORG`
abbrev pub org : Text
org = codes "2"

-- `DIR_RE`
unfoldable pub dir_re : Regex
dir_re =
    assert text_start ∷ group_open ∷ four is_hex
    ++ group_close ∷ lit (codes "-")
    ++ plus is_slug
    ++ assert text_end ∷ []

-- `FM_RE`
unfoldable pub fm_re : Regex
fm_re =
    assert line_start ∷ lit (codes "rfd: \"")
    ++ group_open ∷ four is_hex
    ++ group_close ∷ lit (codes "\"")

-- `TITLE_RE`
unfoldable pub title_re : Regex
title_re =
    assert line_start ∷ lit (codes "title: \"RFD ")
    ++ group_open ∷ four is_hex
    ++ group_close ∷ lit (codes ":")

-- `OLD_CITE_RE`
unfoldable pub old_cite_re : Unicode → Regex
old_cite_re u =
    assert (word_boundary (is_word u)) ∷ lit (codes "RFD ")
    ++ group_open ∷ lit (codes "0")
    ++ one u.decimal
      ∷ one u.decimal
      ∷ one u.decimal
      ∷ group_close
      ∷ assert (word_boundary (is_word u))
      ∷ []

-- `r"^[0-9a-zA-Z]{4}-"`, which picks the directories to look at.
unfoldable pub candidate_re : Regex
candidate_re = assert text_start ∷ four is_alnum ++ lit (codes "-")

-- `r"\]\(\.\./([0-9a-zA-Z]{4}-[a-z0-9-]+)/"`
unfoldable pub link_re : Regex
link_re =
    lit (codes "](../")
    ++ group_open ∷ four is_alnum
    ++ lit (codes "-")
    ++ plus is_slug
    ++ group_close ∷ lit (codes "/")

-- `r"RFD ([0-9a-f]{4})"`
unfoldable pub alias_re : Regex
alias_re = lit (codes "RFD ") ++ group_open ∷ four is_hex ++ group_close ∷ []
