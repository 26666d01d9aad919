-- ===== src/Base/Sort.antt =====
-- `sort.Slice` of the Go library, as an insertion sort, and `bytes.Compare`.
use dd.Base.Tests.{◌==◌, ltb, if◌then◌else◌}
use native.Mathlib.Omega.{arith}
use dd.Base.Lists.{All}
use dd.Base.Bytes.{Bytes}
use mathlib.Core.Bool.{Bool, true, false}
use mathlib.Core.List.{List, [], ◌∷◌, Perm}
use mathlib.Core.List.Perm

module _ {A : Type 0} (less : A → A → Bool) where
  -- `a` goes behind the items that it is not less than
  pub insert_sorted : A → List A → List A
  insert_sorted a [] = a ∷ []
  insert_sorted a (x ∷ xs) =
      let rest = insert_sorted a xs in if less a x then a ∷ x ∷ xs else x ∷ rest

  unfoldable pub sort_slice : List A → List A
  unfolding insert_sorted
  sort_slice [] = []
  sort_slice (x ∷ xs) = insert_sorted x (sort_slice xs)

  pub insert_sorted-perm : (a : A) (xs : List A) → Perm (insert_sorted a xs) (a ∷ xs)
  unfolding insert_sorted
  insert_sorted-perm a [] = Perm.refl _
  insert_sorted-perm a (x ∷ xs) = go (less a x) (insert_sorted-perm a xs)
    where
      go :
          (b : Bool)
          → Perm (insert_sorted a xs) (a ∷ xs)
          → Perm (if b then a ∷ x ∷ xs else x ∷ insert_sorted a xs) (a ∷ x ∷ xs)
      go true ih = Perm.refl _
      go false ih = Perm.trans (Perm.cons x ih) (Perm.swap a x xs)

  pub sort_slice-perm : (xs : List A) → Perm (sort_slice xs) xs
  unfolding sort_slice
  sort_slice-perm [] = Perm.refl []
  sort_slice-perm (x ∷ xs) =
      Perm.trans (insert_sorted-perm x (sort_slice xs)) (Perm.cons x (sort_slice-perm xs))

  -- what holds of all items holds of them sorted
  All-insert_sorted :
      (P : A → Type 0) (a : A) (xs : List A) → P a → All P xs → All P (insert_sorted a xs)
  unfolding insert_sorted
  All-insert_sorted P a [] h hs = (h, tt)
  All-insert_sorted P a (x ∷ xs) h hs =
      ground (arith, h, hs.0, hs.1, All-insert_sorted P a xs h hs.1)

  pub All-sort_slice : (P : A → Type 0) (xs : List A) → All P xs → All P (sort_slice xs)
  unfolding sort_slice
  All-sort_slice P [] hs = tt
  All-sort_slice P (x ∷ xs) hs =
      All-insert_sorted P x (sort_slice xs) hs.0 (All-sort_slice P xs hs.1)

-- `bytes.Compare(a, b) < 0`
unfoldable pub bytes_less : Bytes → Bytes → Bool
bytes_less [] [] = false
bytes_less [] (y ∷ ys) = true
bytes_less (x ∷ xs) [] = false
bytes_less (x ∷ xs) (y ∷ ys) = let rest = bytes_less xs ys in if x == y then rest else ltb x y
