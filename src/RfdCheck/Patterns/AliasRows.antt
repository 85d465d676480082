-- ===== src/RfdCheck/Patterns/AliasRows.antt =====
-- What `re.findall(r"RFD ([0-9a-f]{4})", ...)` of scripts/check-rfd-numbers.py finds in ALIASES.md.
use mathlib.Core.List.{Memᴰ}
use multiplayer_fabric_manua.Common.{
  ℕ, Bool, true, false, [], ◌∷◌, ◌++◌, none, ◌≡◌, refl, arith, ◌↔◌, ◌∙◌, ap,
}
use multiplayer_fabric_manua.Common.Tests.{◌==◌}
use multiplayer_fabric_manua.Common.Lists.{length, all}
use multiplayer_fabric_manua.Common.Text.{Text, codes}
use multiplayer_fabric_manua.Regex.{group_open, group_close, Regex, mark, find_all}
use multiplayer_fabric_manua.Regex.Fields.{field-group}
use multiplayer_fabric_manua.Regex.Search.{Avoids}
use multiplayer_fabric_manua.Regex.Hits.{char_before, mem-find_all}
use multiplayer_fabric_manua.Regex.Classes.{is_hex, lit, four}
use multiplayer_fabric_manua.RfdCheck.Patterns.{alias_re}

-- The text holds `RFD `, then the number: four hexadecimal digits.
abbrev pub Mentions : Text → Text → Type 0
Mentions s num =
    (u : Text) × (t : Text) × (s ≡ u ++ (codes "RFD " ++ (num ++ t)))
    × (length num ≡ 4)
    × (all is_hex num ≡ true)

abbrev is_r : ℕ → Bool
is_r d = d == b'R'

is_hex-not-r : (c : ℕ) → is_hex c ≡ true → is_r c ≡ false
unfolding is_hex
is_hex-not-r c h = ground arith

abbrev alias_rest : Regex
alias_rest = lit (codes "FD ") ++ group_open ∷ (four is_hex ++ group_close ∷ [])

alias-Avoids : Avoids is_r alias_rest
alias-Avoids =
    let digits : Avoids is_r (four is_hex) =
      (is_hex-not-r, (is_hex-not-r, (is_hex-not-r, (is_hex-not-r, tt)))) in
    (λ c h. ground arith, (λ c h. ground arith, (λ c h. ground arith, digits)))

-- `re.findall` over ALIASES.md finds a number exactly when the text mentions it: no mention hides
-- another.
pub find_all-alias : (s num : Text) → Memᴰ num (find_all alias_re s) ↔ Mentions s num
unfolding alias_re
find_all-alias s num = (found, finds)
  where
    found : Memᴰ num (find_all alias_re s) → Mentions s num
    found h =
        let (u, t, e, g) = (mem-find_all is_r alias_rest alias-Avoids s num).0 h in
        let (t', e', l, k) =
          (field-group is_hex (codes "RFD ") [] t (mark (char_before none u)) num).0 g in
        (u, t', e ∙ ap (λ x. u ++ x) e', l, k)

    finds : Mentions s num → Memᴰ num (find_all alias_re s)
    finds (u, t, e, l, k) = (mem-find_all is_r alias_rest alias-Avoids s num).1 (
      u,
      codes "RFD " ++ (num ++ t),
      e,
      (field-group is_hex (codes "RFD ") [] _ (mark (char_before none u)) num).1 (t, refl, l, k),
    )
