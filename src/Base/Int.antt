-- ===== src/Base/Int.antt =====
-- `int` values as integers, and how the C++ streams print them.
use Prim.Native.Nat.{ℕ, zero, suc, ◌+◌, ◌/◌, ◌%◌}
use mathlib.Core.Path.{◌≡◌}
use mathlib.Core.Bool.{Bool, true, false}
use mathlib.Core.List.{[], ◌∷◌, ◌++◌}
use native.Mathlib.Omega.{arith}
use dev_hub.Base.Tests.{◌==◌, ltb, if◌then◌else◌}
use dev_hub.Base.Bytes.{Text}

-- `negsuc n` is -(n + 1).
pub data ℤ : Type 0 where
  pos : ℕ → ℤ
  negsuc : ℕ → ℤ

-- The values of an `int`.
abbrev pub fits_int : ℤ → Bool
fits_int (pos n) = ltb n 2147483648
fits_int (negsuc n) = ltb n 2147483648

abbrev pub int_eq : ℤ → ℤ → Bool
int_eq (pos a) (pos b) = a == b
int_eq (pos a) (negsuc b) = false
int_eq (negsuc a) (pos b) = false
int_eq (negsuc a) (negsuc b) = a == b

pub int_eq_eq : (a b : ℤ) → int_eq a b ≡ true → a ≡ b
int_eq_eq a b h = ground arith

-- Decimal digits, the most significant first. A number has fewer digits than its value plus one.
unfoldable pub digits : ℕ → ℕ → Text
digits zero n = []
digits (suc fuel) n =
    let front = digits fuel (n / 10) in
    if ltb n 10 then (48 + n) ∷ [] else front ++ ((48 + n % 10) ∷ [])

-- `operator<<` of an int.
unfoldable pub show_int : ℤ → Text
unfolding digits
show_int (pos n) = digits (suc n) n
show_int (negsuc n) = 45 ∷ digits (suc (suc n)) (suc n)
