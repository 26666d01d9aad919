-- ===== src/Base/Int.antt =====
-- Signed integers over the native numbers: the ranks of blocks (`big.Int`), and the conversion of
-- a 64-bit word to `int64`.
use dd.Base.Tests.{ltb, ◌==◌, if◌then◌else◌}
use dd.Base.Bytes.{u64_mod}
use Prim.Native.Nat.{ℕ, ◌-◌, ◌*◌, ◌^◌, ◌+◌}
use mathlib.Core.Bool.{Bool, true, false}

-- `negsuc n` is -(n + 1).
pub data ℤ : Type 0 where
  pos : ℕ → ℤ
  negsuc : ℕ → ℤ

-- `int64(x)` of a `uint64`
abbrev pub int64 : ℕ → ℤ
int64 x = if ltb x (2 ^ 63) then pos x else negsuc (u64_mod - x - 1)

-- `rank.Mul` of a number that is not negative
abbrev pub scale : ℕ → ℤ → ℤ
scale t (pos n) = pos (t * n)
scale t (negsuc n) = if t == 0 then pos 0 else negsuc (t * n + t - 1)

-- `a.Cmp(b) < 0`
abbrev pub ltb_ℤ : ℤ → ℤ → Bool
ltb_ℤ (pos a) (pos b) = ltb a b
ltb_ℤ (pos a) (negsuc b) = false
ltb_ℤ (negsuc a) (pos b) = true
ltb_ℤ (negsuc a) (negsuc b) = ltb b a

-- `a.Sign() > 0`
abbrev pub is_positive : ℤ → Bool
is_positive (pos a) = ltb 0 a
is_positive (negsuc a) = false
