-- ===== src/Base/Numbers.antt =====
-- Numbers as text: what `std::to_string` and the conversions %x and %X of printf write.
use Prim.Native.Nat.{ℕ, zero, suc, ◌+◌, ◌-◌, ◌*◌, ◌/◌, ◌%◌, ◌<◌}
use mathlib.Core.Path.{◌≡◌, ap, ◌∙◌}
use mathlib.Core.List.{[], ◌∷◌}
use mathlib.Core.Logic.{inl, inr}
use native.Mathlib.Omega.{arith}
use eml_to_pst.Base.Tests.{ltb, if◌then◌else◌, Bool-cases, ltb→lt}
use eml_to_pst.Base.Text.{Bytes}
use eml_to_pst.Base.Int.{ℤ, pos, negsuc}

-- The decimal digits of `n` in front of `rest`.
unfoldable pub digits_onto : ℕ → ℕ → Bytes → Bytes
digits_onto zero n rest = rest
digits_onto (suc fuel) n rest =
    let all = digits_onto fuel (n / 10) ((48 + n % 10) ∷ rest) in
    if ltb n 10 then (48 + n % 10) ∷ rest else all

-- A number has fewer digits than its value and one more.
unfoldable pub decimal : ℕ → Bytes
decimal n = digits_onto (suc n) n []

unfoldable pub signed_decimal : ℤ → Bytes
signed_decimal (pos n) = decimal n
signed_decimal (negsuc n) = b'-' ∷ decimal (suc n)

unfoldable pub value_from : ℕ → Bytes → ℕ
value_from v [] = v
value_from v (d ∷ ds) = value_from (v * 10 + (d - 48)) ds

value_from-digits_onto :
    (fuel n : ℕ) (rest : Bytes)
    → n < fuel
    → value_from 0 (digits_onto fuel n rest) ≡ value_from n rest
unfolding digits_onto value_from
value_from-digits_onto zero n rest h = elim h [ ]
value_from-digits_onto (suc fuel) n rest h = elim (Bool-cases (ltb n 10)) [
  | inl e ↦ rw (digits_onto, e) (ap (λ v. value_from v rest) (omega (arith, ltb→lt n 10 e)))
  | inr e ↦
      rw (digits_onto, e)
        (value_from-digits_onto fuel (n / 10) ((48 + n % 10) ∷ rest) (ground arith)
          ∙ ap (λ v. value_from v rest) (omega arith))
]

-- Reading the digits gives the number back.
pub value_from-decimal : (n : ℕ) → value_from 0 (decimal n) ≡ n
unfolding decimal value_from
value_from-decimal n = value_from-digits_onto (suc n) n [] (omega arith)
