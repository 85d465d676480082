-- ===== src/Regex/Classes.antt =====
-- Character classes, anchors and literal text in patterns.
use mathlib.Core.Bool.{xor}
use multiplayer_fabric_manua.Common.{ℕ, Bool, true, false, ◌||◌, [], ◌∷◌, Option, none, some}
use multiplayer_fabric_manua.Common.Tests.{◌==◌, within}
use multiplayer_fabric_manua.Common.Text.{Text}
use multiplayer_fabric_manua.Regex.{one, star, Regex}

-- `[0-9a-f]`
unfoldable pub is_hex : ℕ → Bool
is_hex c = within b'0' b'9' c || within b'a' b'f' c

-- `[a-z0-9-]`
unfoldable pub is_slug : ℕ → Bool
is_slug c = within b'a' b'z' c || (within b'0' b'9' c || c == b'-')

-- `[0-9a-zA-Z]`
unfoldable pub is_alnum : ℕ → Bool
is_alnum c = within b'0' b'9' c || (within b'a' b'z' c || within b'A' b'Z' c)

-- `\s` on `str`: the characters of `str.isspace`.
unfoldable pub is_space : ℕ → Bool
is_space c =
    within 9 13 c
    || (within 28 32 c
        || (c == 0x85
            || (c == 0xa0
                || (c == 0x1680
                    || (within 0x2000 0x200a c
                        || (within 0x2028 0x2029 c
                            || (c == 0x202f || (c == 0x205f || c == 0x3000))))))))

-- A literal text.
abbrev pub lit : Text → Regex
lit [] = []
lit (c ∷ w) = one (λ d. d == c) ∷ lit w

-- `[...]{4}` and `[...]+`
abbrev pub four : (ℕ → Bool) → Regex
four p = one p ∷ one p ∷ one p ∷ one p ∷ []

abbrev pub plus : (ℕ → Bool) → Regex
plus p = one p ∷ star p ∷ []

-- `^` and `$` without `re.M`: the end is also before a newline that ends the text.
abbrev pub text_start : Option ℕ → Text → Bool
text_start none s = true
text_start (some c) s = false

abbrev pub text_end : Option ℕ → Text → Bool
text_end b [] = true
text_end b (c ∷ []) = c == b'\n'
text_end b (c ∷ d ∷ s) = false

-- `^` and `$` with `re.M`.
abbrev pub line_start : Option ℕ → Text → Bool
line_start none s = true
line_start (some c) s = c == b'\n'

abbrev pub line_end : Option ℕ → Text → Bool
line_end b [] = true
line_end b (c ∷ s) = c == b'\n'

abbrev pub class_of : (ℕ → Bool) → Option ℕ → Bool
class_of word none = false
class_of word (some c) = word c

abbrev pub first : Text → Option ℕ
first [] = none
first (c ∷ _) = some c

-- `\b`, over the word characters.
abbrev pub word_boundary : (ℕ → Bool) → Option ℕ → Text → Bool
word_boundary word b s = xor (class_of word b) (class_of word (first s))
