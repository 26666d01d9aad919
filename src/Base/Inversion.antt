-- ===== src/Base/Inversion.antt =====
-- What follows for the parts of a function from its returning (tests, options and panics).
use Prim.Native.Nat.{ℕ, ◌≤◌, ◌<◌}
use Prim.Native.String.{String}
use mathlib.Core.Path.{◌≡◌, refl, ap}
use mathlib.Core.Bool.{Bool, true, false, not}
use mathlib.Core.Option.{Option, none, some}
use native.Mathlib.Omega.{arith}
use dd.Base.Tests.{ltb, leb}
use dd.Base.Fallible.{Error, Result, ok, err, fail_if, or_panic}

pub some-injective {ℓ} : {A : Type ℓ} {a b : A} → some a ≡ some b → a ≡ b
some-injective {a = a} h = ap (λ o. elim o [ some v ↦ v | none ↦ a ]) h

pub ok-injective {ℓ} : {A : Type ℓ} {a b : A} → ok a ≡ ok b → a ≡ b
ok-injective {a = a} h = ap (λ res. elim res [ ok v ↦ v | err _ ↦ a ]) h

pub some-eq-ok {ℓ} :
    {A : Type ℓ} (e : Error) (o : Option A) {a : A}
    → elim o [ none ↦ err e | some v ↦ ok v ] ≡ ok a
    → o ≡ some a
some-eq-ok e none h = cc
some-eq-ok e (some v) h = cc

pub or_panic-eq-ok {ℓ} :
    {A : Type ℓ} (o : Option A) (s : String) {a : A} → or_panic o s ≡ ok a → o ≡ some a
or_panic-eq-ok none s h = cc
or_panic-eq-ok (some v) s h = cc

pub second-eq-ok {ℓ κ} :
    {A : Type ℓ} {B : Type κ} (e : Error) (res : Result (A × B)) {b : B}
    → elim res [ err _ ↦ err e | ok (_, v) ↦ ok v ] ≡ ok b
    → (a : A) × (res ≡ ok (a, b))
second-eq-ok e (ok (a, v)) h = (a, cc h)
second-eq-ok e (err _) h = cc

pub from_one : (n : ℕ) → ltb n 1 ≡ false → 1 ≤ n
from_one n h = ground arith

pub above : {m n : ℕ} → leb m n ≡ false → n < m
above h = ground arith

pub fail_if-eq-ok : (b : Bool) (e : Error) → fail_if b e ≡ ok tt → b ≡ false
fail_if-eq-ok true e h = cc
fail_if-eq-ok false e h = refl

-- a test that did not fail was false
pub fail_if-eq-ok_true : (b : Bool) (e : Error) → fail_if (not b) e ≡ ok tt → b ≡ true
fail_if-eq-ok_true true e h = refl
fail_if-eq-ok_true false e h = cc
