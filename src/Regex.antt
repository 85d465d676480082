-- ===== src/Regex.antt =====
-- The regular expressions of the scripts, as values, and Python's backtracking matcher for them.
-- A pattern is a sequence of items; each pattern of the scripts is one, with at most one group.
pub mod Classes
pub mod Fields
pub mod Slugs
pub mod Sound
pub mod Search
pub mod Hits
use multiplayer_fabric_manua.Common.{
  ℕ, zero, suc, ◌-◌, Bool, true, false, List, [], ◌∷◌, ◌++◌, Option, none, some,
}
use multiplayer_fabric_manua.Common.Lists.{length}
use multiplayer_fabric_manua.Common.Tests.{if◌then◌else◌}
use multiplayer_fabric_manua.Common.Text.{Text}

pub data Item : Type 0 where
  -- one character of a class
  one : (ℕ → Bool) → Item
  -- `*`, greedy, and `*?`, lazy, of a class
  star lazy : (ℕ → Bool) → Item
  -- `^`, `$`, `\b`: a test of the character before the position and the text after it
  assert : (Option ℕ → Text → Bool) → Item
  -- `(` and `)`
  group_open group_close : Item

abbrev pub Regex : Type 0
Regex = List Item

-- What the matcher knows at a position: the character before it, whether the group is open, and
-- what the group holds.
pub record Mark : Type 0 where
  pub before : Option ℕ
  pub inside : Bool
  pub group : Text

abbrev pub mark : Option ℕ → Mark
mark c = record { before = c; inside = false; group = [] }

abbrev pub note : Mark → ℕ → Mark
note m c = record {
  before = some c;
  inside = m.inside;
  group = if m.inside then m.group ++ c ∷ [] else m.group;
}

abbrev pub notes : Mark → Text → Mark
notes m [] = m
notes m (c ∷ w) = notes (note m c) w

abbrev pub open_group : Mark → Mark
open_group m = record m { inside = true; group = [] }

abbrev pub close_group : Mark → Mark
close_group m = record m { inside = false }

-- A match: where it ended.
abbrev pub Found : Type 0
Found = Mark × Text

-- The first match in the order of the backtracking search.
unfoldable pub match_at : Regex → Text → Mark → Option Found
match_at [] s m = some (m, s)
match_at (one p ∷ r) [] m = none
match_at (one p ∷ r) (c ∷ s) m = elim (p c) [ true ↦ match_at r s (note m c) | false ↦ none ]
match_at (star p ∷ r) [] m = match_at r [] m
match_at (star p ∷ r) (c ∷ s) m = elim (p c) [
  | true ↦ elim (match_at (star p ∷ r) s (note m c)) [
    | some f ↦ some f
    | none ↦ match_at r (c ∷ s) m
  ]
  | false ↦ match_at r (c ∷ s) m
]
match_at (lazy p ∷ r) [] m = match_at r [] m
match_at (lazy p ∷ r) (c ∷ s) m = elim (match_at r (c ∷ s) m) [
  | some f ↦ some f
  | none ↦ elim (p c) [ true ↦ match_at (lazy p ∷ r) s (note m c) | false ↦ none ]
]
match_at (assert t ∷ r) s m = elim (t m.before s) [ true ↦ match_at r s m | false ↦ none ]
match_at (group_open ∷ r) s m = match_at r s (open_group m)
match_at (group_close ∷ r) s m = match_at r s (close_group m)

-- `re.match`: a match at the start of the text.
unfoldable pub match_start : Regex → Text → Option Found
match_start r s = match_at r s (mark none)

-- `re.search`: the leftmost match. The first argument after the pattern is the character before.
unfoldable pub search_from : Regex → Option ℕ → Text → Option Found
search_from r b [] = match_at r [] (mark b)
search_from r b (c ∷ s) = elim (match_at r (c ∷ s) (mark b)) [
  | some f ↦ some f
  | none ↦ search_from r (some c) s
]

abbrev pub group_of : Option Found → Option Text
group_of none = none
group_of (some (m, t)) = some m.group

-- `m = re.search(...)` and `m.group(1)`
unfoldable pub search_group : Regex → Text → Option Text
unfolding search_from
search_group r s = group_of (search_from r none s)

-- `re.findall` and `re.finditer`: the groups of the matches from left to right, which do not
-- overlap; the number is how many characters of the last match are still to be passed over. No
-- pattern of the scripts matches the empty text.
unfoldable pub find_all_from : Regex → ℕ → Option ℕ → Text → List Text
find_all_from r k b [] = []
find_all_from r zero b (c ∷ s) = elim (match_at r (c ∷ s) (mark b)) [
  | some (m, t) ↦ m.group ∷ find_all_from r (length s - length t) (some c) s
  | none ↦ find_all_from r zero (some c) s
]
find_all_from r (suc k) b (c ∷ s) = find_all_from r k (some c) s

unfoldable pub find_all : Regex → Text → List Text
unfolding find_all_from
find_all r s = find_all_from r 0 none s
