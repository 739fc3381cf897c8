-- ===== src/Common/Sorting.antt =====
-- Insertion sort, for the sorts of the standard library and of the database: it is stable.
use Prim.Native.Nat.{ℕ, ◌+◌}
use mathlib.Core.Path.{◌≡◌, refl}
use mathlib.Core.Bool.{Bool, true, false}
use mathlib.Core.List.{List, [], ◌∷◌, ◌++◌}
use mathlib.Core.Logic.{inl, inr}
use native.Mathlib.Omega.{arith}
use share_dash.Common.Tests.{if◌then◌else◌, Bool-cases}

unfoldable pub insert_by {ℓ} : {A : Type ℓ} → (A → A → Bool) → A → List A → List A
insert_by before a [] = a ∷ []
insert_by before a (x ∷ xs) = if before a x then a ∷ x ∷ xs else x ∷ insert_by before a xs

unfoldable pub sort_by {ℓ} : {A : Type ℓ} → (A → A → Bool) → List A → List A
sort_by before [] = []
sort_by before (x ∷ xs) = insert_by before x (sort_by before xs)

-- How many elements pass a test.
abbrev pub count_if {ℓ} : {A : Type ℓ} → (A → Bool) → List A → ℕ
count_if q [] = 0
count_if q (x ∷ xs) = (if q x then 1 else 0) + count_if q xs

-- Each element may stand before the next, and `t` before the first one.
abbrev pub IsSortedFrom {ℓ} : {A : Type ℓ} → (A → A → Bool) → A → List A → Type 0
IsSortedFrom before t [] = Unit {0}
IsSortedFrom before t (x ∷ xs) = (before t x ≡ true) × IsSortedFrom before x xs

abbrev pub IsSorted {ℓ} : {A : Type ℓ} → (A → A → Bool) → List A → Type 0
IsSorted before [] = Unit {0}
IsSorted before (x ∷ xs) = IsSortedFrom before x xs

count-insert_by {ℓ} :
    {A : Type ℓ}
    → (before : A → A → Bool) (q : A → Bool) (a : A) (xs : List A)
    → count_if q (insert_by before a xs) ≡ (if q a then 1 else 0) + count_if q xs
unfolding insert_by
count-insert_by before q a [] = refl
count-insert_by before q a (x ∷ xs) = ground (arith, count-insert_by before q a xs)

pub count-sort_by {ℓ} :
    {A : Type ℓ}
    → (before : A → A → Bool) (q : A → Bool) (xs : List A)
    → count_if q (sort_by before xs) ≡ count_if q xs
unfolding sort_by
count-sort_by before q [] = refl
count-sort_by before q (x ∷ xs) =
    ground (arith, count-insert_by before q x (sort_by before xs), count-sort_by before q xs)

pub count-append {ℓ} :
    {A : Type ℓ}
    → (q : A → Bool) (xs ys : List A) → count_if q (xs ++ ys) ≡ count_if q xs + count_if q ys
count-append q [] ys = ground arith
count-append q (x ∷ xs) ys = ground (arith, count-append q xs ys)

module _ {ℓ} {A : Type ℓ} (before : A → A → Bool)
    (total : (a b : A) → before a b ≡ false → before b a ≡ true) where
  insert_by-IsSortedFrom :
      (a t : A) (xs : List A)
      → before t a ≡ true
      → IsSortedFrom before t xs
      → IsSortedFrom before t (insert_by before a xs)
  unfolding insert_by
  insert_by-IsSortedFrom a t [] h k = (h, tt)
  insert_by-IsSortedFrom a t (x ∷ xs) h k = elim (Bool-cases (before a x)) [
    | inl here ↦ rw here (h, (here, k.1))
    | inr later ↦ rw later (k.0, insert_by-IsSortedFrom a x xs (total a x later) k.1)
  ]

  insert_by-IsSorted :
      (a : A) (xs : List A) → IsSorted before xs → IsSorted before (insert_by before a xs)
  unfolding insert_by
  insert_by-IsSorted a [] k = tt
  insert_by-IsSorted a (x ∷ xs) k = elim (Bool-cases (before a x)) [
    | inl here ↦ rw here (here, k)
    | inr later ↦ rw later (insert_by-IsSortedFrom a x xs (total a x later) k)
  ]

  pub sort_by-IsSorted : (xs : List A) → IsSorted before (sort_by before xs)
  unfolding sort_by
  sort_by-IsSorted [] = tt
  sort_by-IsSorted (x ∷ xs) = insert_by-IsSorted x (sort_by before xs) (sort_by-IsSorted xs)
