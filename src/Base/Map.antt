-- ===== src/Base/Map.antt =====
-- A Go map whose keys are byte arrays, as an association list with one entry for each key. Go's
-- order of iteration is unspecified; the list is one such order.
use dd.Base.Tests.{if◌then◌else◌}
use dd.Base.Bytes.{Bytes, bytes_eq, bytes_eq_iff}
use mathlib.Core.Path.{◌≡◌, refl}
use mathlib.Core.Option.{Option, none, some}
use mathlib.Core.Bool.{Bool, true, false}
use mathlib.Core.List.{List, [], ◌∷◌}
use native.Mathlib.Omega.{arith}

abbrev pub Map {ℓ} : Type ℓ → Type ℓ
Map V = List (Bytes × V)

module _ {ℓ} {V : Type ℓ} where
  -- `m[k]`, with the comma-ok form
  unfoldable pub get : Bytes → Map V → Option V
  get k [] = none
  get k ((j, v) ∷ m) = if bytes_eq j k then some v else get k m

  -- `m[k] = v`
  unfoldable pub put : Bytes → V → Map V → Map V
  put k v [] = (k, v) ∷ []
  put k v ((j, w) ∷ m) = if bytes_eq j k then (j, v) ∷ m else (j, w) ∷ put k v m

  -- `_, ok := m[k]`
  unfoldable pub has : Bytes → Map V → Bool
  unfolding get
  has k m = elim (get k m) [ none ↦ false | some _ ↦ true ]

  pub get-put :
      (k j : Bytes) (v : V) (m : Map V)
      → get j (put k v m) ≡ (if bytes_eq k j then some v else get j m)
  unfolding get put
  get-put k j v [] = refl
  get-put k j v ((i, w) ∷ m) =
      ground (arith, bytes_eq_iff i k, bytes_eq_iff i j, bytes_eq_iff k j, get-put k j v m)

  pub has-put :
      (k j : Bytes) (v : V) (m : Map V)
      → has j (put k v m) ≡ (if bytes_eq k j then true else has j m)
  unfolding has
  has-put k j v m = ground (arith, get-put k j v m)

  -- `delete(m, k)`
  unfoldable pub del : Bytes → Map V → Map V
  del k [] = []
  del k ((j, v) ∷ m) = let rest = del k m in if bytes_eq j k then rest else (j, v) ∷ rest

  pub get-del :
      (k j : Bytes) (m : Map V) → get j (del k m) ≡ (if bytes_eq k j then none else get j m)
  unfolding get del
  get-del k j [] = ground arith
  get-del k j ((i, w) ∷ m) =
      ground (arith, bytes_eq_iff i k, bytes_eq_iff i j, bytes_eq_iff k j, get-del k j m)
