-- ===== src/Base/Int.antt =====
-- C `int` values as integers. `negsuc n` is -(n + 1).
use Prim.Native.Nat.{ℕ}
use mathlib.Core.Bool.{Bool, false}
use common_framework.Base.Tests.{leb, ltb, ◌==◌}

pub data ℤ : Type 0 where
  pos : ℕ → ℤ
  negsuc : ℕ → ℤ

-- `x == n`, `x >= n` and `x > n` for a numeral n.
abbrev pub eq_nat : ℤ → ℕ → Bool
eq_nat (pos x) n = x == n
eq_nat (negsuc x) n = false

abbrev pub ge_nat : ℤ → ℕ → Bool
ge_nat (pos x) n = leb n x
ge_nat (negsuc x) n = false

abbrev pub gt_nat : ℤ → ℕ → Bool
gt_nat (pos x) n = ltb n x
gt_nat (negsuc x) n = false
