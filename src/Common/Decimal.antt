-- ===== src/Common/Decimal.antt =====
-- Python's `str` of a natural number, in decimal digits.
use Prim.Native.Nat.{◌/◌, ◌%◌, ◌*◌, ◌<◌}
use multiplayer_fabric_manua.Common.{
  ℕ, zero, suc, ◌+◌, ◌-◌, [], ◌∷◌, ◌++◌, ◌≡◌, refl, arith, inl, inr,
}
use multiplayer_fabric_manua.Common.Tests.{Bool-cases, ltb, if◌then◌else◌}
use multiplayer_fabric_manua.Common.Text.{Text}

-- The digits on fuel: a number has no more digits than the fuel when it is below it.
unfoldable digits : ℕ → ℕ → Text
digits zero n = []
digits (suc fuel) n =
    let rest = digits fuel (n / 10) in
    if ltb n 10 then (b'0' + n) ∷ [] else rest ++ (b'0' + n % 10) ∷ []

unfoldable pub decimal : ℕ → Text
unfolding digits
decimal n = digits (suc n) n

-- The number that a text of digits stands for, from what was read before.
abbrev value_from : ℕ → Text → ℕ
value_from a [] = a
value_from a (c ∷ s) = value_from (a * 10 + (c - b'0')) s

value_from-append :
    (a : ℕ) (s : Text) (c : ℕ) → value_from a (s ++ c ∷ []) ≡ value_from a s * 10 + (c - b'0')
value_from-append a [] c = refl
value_from-append a (d ∷ s) c = value_from-append (a * 10 + (d - b'0')) s c

value-digits : (fuel n : ℕ) → n < fuel → value_from 0 (digits fuel n) ≡ n
unfolding digits
value-digits zero n h = absurd (omega arith)
value-digits (suc fuel) n h = elim (Bool-cases (ltb n 10)) [
  | inl e ↦ rw e (omega arith)
  | inr e ↦
      let ih = value-digits fuel (n / 10) (ground arith) in
      rw (e, value_from-append 0 (digits fuel (n / 10)) (b'0' + n % 10), ih) (omega arith)
]

-- The fuel is enough: the digits of a number stand for that number.
pub value-decimal : (n : ℕ) → value_from 0 (decimal n) ≡ n
unfolding decimal
value-decimal n = value-digits (suc n) n (omega arith)
