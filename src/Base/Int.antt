-- ===== src/Base/Int.antt =====
-- The C++ `int` as an integer; the arithmetic of the sources stays within its range, but where a
-- definition says otherwise.
use Prim.Native.Nat.{ℕ, zero, suc, ◌+◌, ◌-◌, ◌%◌}
use mathlib.Core.Bool.{Bool, true, false}
use greensql_fw.Base.Tests.{ltb, leb, if◌then◌else◌}

-- `negsuc n` is -(n + 1).
pub data ℤ : Type 0 where
  pos : ℕ → ℤ
  negsuc : ℕ → ℤ

abbrev pub pos_part : ℤ → ℕ
pos_part (pos n) = n
pos_part (negsuc n) = 0

abbrev pub neg_part : ℤ → ℕ
neg_part (pos n) = 0
neg_part (negsuc n) = suc n

abbrev pub int_leb : ℤ → ℤ → Bool
int_leb a b = leb (pos_part a + neg_part b) (pos_part b + neg_part a)

abbrev pub is_positive : ℤ → Bool
is_positive (pos n) = ltb 0 n
is_positive (negsuc n) = false

-- `i != 0`.
abbrev pub is_nonzero : ℤ → Bool
is_nonzero (pos n) = ltb 0 n
is_nonzero (negsuc n) = true

abbrev pub int_suc : ℤ → ℤ
int_suc (pos n) = pos (suc n)
int_suc (negsuc n) = elim n [ zero ↦ pos 0 | suc m ↦ negsuc m ]

abbrev pub u32_mod : ℕ
u32_mod = 4294967296

-- An `int` from an `unsigned int`.
abbrev pub to_int : ℕ → ℤ
to_int u = let r = u % u32_mod in if ltb r 2147483648 then pos r else negsuc (u32_mod - 1 - r)
