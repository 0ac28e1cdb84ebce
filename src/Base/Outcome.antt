-- ===== src/Base/Outcome.antt =====
-- common/errors/result.h: errors with their codes, and results that hold a value or an error.
use mathlib.Core.Path.{◌≡◌, ap}
use mathlib.Core.Bool.{Bool, not, ◌||◌}
use Prim.Native.Nat.{ℕ}
use eml_to_pst.Base.Text.{Bytes}
use eml_to_pst.Base.Tests.{◌==◌}
use eml_to_pst.Base.Int.{ℤ, pos, eqb_ℤ}

pub record Error : Type 0 where
  pub hresult : ℤ
  pub win32 : ℕ
  pub operation : Bytes
  pub message : Bytes

abbrev pub has_code : Error → Bool
has_code e = not (eqb_ℤ e.hresult (pos 0)) || not (e.win32 == 0)

abbrev pub make_error : Bytes → Bytes → Error
make_error operation message = record {
  hresult = pos 0;
  win32 = 0;
  operation = operation;
  message = message;
}

-- Result<T>; Status is Result of the unit type.
pub data Result {ℓ} (A : Type ℓ) : Type ℓ where
  ok : A → Result A
  err : Error → Result A

abbrev value_or {ℓ} : {A : Type ℓ} → A → Result A → A
value_or a (ok b) = b
value_or a (err e) = a

pub ok-injective {ℓ} : {A : Type ℓ} {a b : A} → ok a ≡ ok b → a ≡ b
ok-injective {a} h = ap (value_or a) h

pub err_ok {ℓ} : {A : Type ℓ} {e : Error} {a : A} → err e ≡ ok a → ⊥
err_ok h = cc

abbrev pub Status : Type 0
Status = Result (Unit {0})
