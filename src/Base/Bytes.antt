-- ===== src/Base/Bytes.antt =====
-- Byte slices and arrays as lists of numbers, and the big-endian 64-bit encoding of
-- encoding/binary (`PutUint64`, `Uint64`).
use dd.Base.Tests.{◌==◌}
use dd.Base.Lists.{length, drop, length-drop}
use Prim.Native.Char.{code}
use Prim.Native.String.{String}
use Prim.Native.Nat.{ℕ, ◌+◌, ◌-◌, ◌*◌, ◌/◌, ◌%◌, ◌^◌, ◌<◌, ◌≤◌}
use mathlib.Core.Path.{◌≡◌, refl, ap}
use mathlib.Core.Logic.{◌↔◌, ◌≢◌}
use mathlib.Core.Bool.{Bool, true, false, ◌&&◌}
use mathlib.Core.Option.{Option, none, some}
use mathlib.Core.List.{List, [], ◌∷◌, ◌++◌}
use native.Mathlib.Omega.{arith}

abbrev pub Bytes : Type 0
Bytes = List ℕ

abbrev pub u64_mod : ℕ
u64_mod = 2 ^ 64

abbrev pub max_u64 : ℕ
max_u64 = 2 ^ 64 - 1

-- `bytes.Equal`, and `==` on byte arrays.
unfoldable pub bytes_eq : Bytes → Bytes → Bool
bytes_eq [] [] = true
bytes_eq (x ∷ xs) (y ∷ ys) = x == y && bytes_eq xs ys
bytes_eq _ _ = false

pub bytes_eq_refl : (a : Bytes) → bytes_eq a a ≡ true
unfolding bytes_eq
bytes_eq_refl [] = refl
bytes_eq_refl (x ∷ xs) = ground (arith, bytes_eq_refl xs)

pub bytes_eq_sound : (a b : Bytes) → bytes_eq a b ≡ true → a ≡ b
unfolding bytes_eq
bytes_eq_sound [] [] h = refl
bytes_eq_sound (x ∷ xs) (y ∷ ys) h = ground (arith, bytes_eq_sound xs ys)
bytes_eq_sound [] (y ∷ ys) h = cc
bytes_eq_sound (x ∷ xs) [] h = cc

pub bytes_eq_iff : (a b : Bytes) → (bytes_eq a b ≡ true) ↔ (a ≡ b)
bytes_eq_iff a b = (bytes_eq_sound a b, λ e. subst_eq e)
  where
    subst_eq : a ≡ b → bytes_eq a b ≡ true
    subst_eq e = rw e (bytes_eq_refl b)

-- `binary.BigEndian.PutUint64` into a fresh slice of 8 bytes.
unfoldable pub be64 : ℕ → Bytes
be64 n =
    (n / 2 ^ 56 % 256)
    ∷ (n / 2 ^ 48 % 256)
    ∷ (n / 2 ^ 40 % 256)
    ∷ (n / 2 ^ 32 % 256)
    ∷ (n / 2 ^ 24 % 256)
    ∷ (n / 2 ^ 16 % 256)
    ∷ (n / 2 ^ 8 % 256)
    ∷ (n % 256)
    ∷ []

-- `binary.BigEndian.Uint64`; fewer than 8 bytes are an index out of range, a panic.
unfoldable pub u64 : Bytes → Option ℕ
u64 (a ∷ b ∷ c ∷ d ∷ e ∷ f ∷ g ∷ h ∷ rest) =
    some
      (a * 2 ^ 56 + b * 2 ^ 48 + c * 2 ^ 40 + d * 2 ^ 32 + e * 2 ^ 24 + f * 2 ^ 16 + g * 2 ^ 8 + h)
u64 _ = none

-- What is written is read back, whatever follows.
pub u64-be64 : (n : ℕ) (rest : Bytes) → n < u64_mod → u64 (be64 n ++ rest) ≡ some n
unfolding be64 u64
u64-be64 n rest h = ap some (omega arith)

pub length-be64 : (n : ℕ) → length (be64 n) ≡ 8
unfolding be64
length-be64 n = refl

-- From 8 bytes on the read does not panic.
pub u64_total : (v : Bytes) → 8 ≤ length v → (n : ℕ) × (u64 v ≡ some n)
unfolding u64
u64_total (a ∷ b ∷ c ∷ d ∷ e ∷ f ∷ g ∷ h ∷ rest) p = (_, refl)
u64_total [] p = absurd (omega arith)
u64_total (a ∷ []) p = absurd (omega arith)
u64_total (a ∷ b ∷ []) p = absurd (omega arith)
u64_total (a ∷ b ∷ c ∷ []) p = absurd (omega arith)
u64_total (a ∷ b ∷ c ∷ d ∷ []) p = absurd (omega arith)
u64_total (a ∷ b ∷ c ∷ d ∷ e ∷ []) p = absurd (omega arith)
u64_total (a ∷ b ∷ c ∷ d ∷ e ∷ f ∷ []) p = absurd (omega arith)
u64_total (a ∷ b ∷ c ∷ d ∷ e ∷ f ∷ g ∷ []) p = absurd (omega arith)

-- `PutUint64` over a slice of at least 8 bytes leaves the rest of it.
unfoldable pub put_u64 : ℕ → Bytes → Bytes
put_u64 n v = be64 n ++ drop 8 v

pub u64-put_u64 : (n : ℕ) (v : Bytes) → n < u64_mod → u64 (put_u64 n v) ≡ some n
unfolding put_u64
u64-put_u64 n v h = u64-be64 n (drop 8 v) h

-- The number in the first 8 bytes; the code reads it behind a test of the length.
abbrev pub num : Bytes → ℕ
num v = elim (u64 v) [ none ↦ 0 | some n ↦ n ]

pub num-be64 : (n : ℕ) → n < u64_mod → num (be64 n) ≡ n
unfolding be64 u64
num-be64 n h = omega arith

pub num-put_u64 : (n : ℕ) (v : Bytes) → n < u64_mod → num (put_u64 n v) ≡ n
num-put_u64 n v h = ground (arith, u64-put_u64 n v h)

pub length-put_u64 : (n : ℕ) (v : Bytes) → 8 ≤ length v → length (put_u64 n v) ≡ length v
unfolding put_u64 be64
length-put_u64 n v h = ground (arith, length-drop 8 v)

pub bytes_eq-append :
    (a b s : Bytes) → length a ≡ length b → bytes_eq (a ++ s) (b ++ s) ≡ bytes_eq a b
unfolding bytes_eq
bytes_eq-append [] [] s h = bytes_eq_refl s
bytes_eq-append [] (y ∷ ys) s h = absurd (omega arith)
bytes_eq-append (x ∷ xs) [] s h = absurd (omega arith)
bytes_eq-append (x ∷ xs) (y ∷ ys) s h = ground (arith, bytes_eq-append xs ys s (omega arith))

pub bytes_eq-length : (a b : Bytes) → length a ≢ length b → bytes_eq a b ≡ false
bytes_eq-length a b h = ground (arith, bytes_eq_sound a b, λ (e : a ≡ b). ap length e)

-- The bytes of a text in ASCII.
abbrev pub codes : String → Bytes
codes String.[] = []
codes (String.◌∷◌ ch s) = code ch ∷ codes s

pub num-be64_append : (n : ℕ) (rest : Bytes) → n < u64_mod → num (be64 n ++ rest) ≡ n
num-be64_append n rest h = ground (arith, u64-be64 n rest h)
