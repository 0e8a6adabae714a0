-- ===== src/Base/Ints.antt =====
-- The C `int` values that the programs pass about: a descriptor, a length or minus an error number.
use Prim.Native.Nat.{ℕ, suc, ◌+◌, ◌-◌, ◌%◌}
use mathlib.Core.Bool.{Bool, true, false}
use iowrapper.Base.Tests.{◌==◌, ltb, if◌then◌else◌}

-- `negsuc n` is -(n + 1).
pub data ℤ : Type 0 where
  pos : ℕ → ℤ
  negsuc : ℕ → ℤ

-- x < 0
abbrev pub is_neg : ℤ → Bool
is_neg (pos n) = false
is_neg (negsuc n) = true

-- x <= 0
abbrev pub is_le_zero : ℤ → Bool
is_le_zero (pos n) = n == 0
is_le_zero (negsuc n) = true

-- x == -e, for an error number e
abbrev pub is_minus : ℤ → ℕ → Bool
is_minus (pos n) e = false
is_minus (negsuc n) e = suc n == e

-- the value of an `int` that is known not to be negative
abbrev pub to_nat : ℤ → ℕ
to_nat (pos n) = n
to_nat (negsuc n) = 0

abbrev pub is_zero : ℤ → Bool
is_zero (pos n) = n == 0
is_zero (negsuc n) = false

-- k < x
abbrev pub exceeds : ℤ → ℕ → Bool
exceeds (pos n) k = ltb k n
exceeds (negsuc n) k = false

-- x + k
abbrev pub add_nat : ℤ → ℕ → ℤ
add_nat (pos n) k = pos (n + k)
add_nat (negsuc n) k = if ltb n k then pos (k - n - 1) else negsuc (n - k)

-- The exit status of a process whose `main` returns x.
abbrev pub status : ℤ → ℕ
status (pos n) = n % 256
status (negsuc n) = 255 - n % 256
