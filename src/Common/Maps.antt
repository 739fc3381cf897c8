-- ===== src/Common/Maps.antt =====
-- Maps with numbers as keys, as association lists in the order in which they are iterated.
use Prim.Native.Nat.{ℕ}
use mathlib.Core.Path.{◌≡◌, refl}
use mathlib.Core.Bool.{Bool, true, false, ◌||◌}
use mathlib.Core.List.{List, [], ◌∷◌}
use mathlib.Core.Option.{Option, none, some}
use native.Mathlib.Omega.{arith}
use mathlib.Core.Logic.{inl, inr}
use share_dash.Common.Tests.{◌==◌, if◌then◌else◌, Bool-cases}

module _ {ℓ} {V : Type ℓ} where
  unfoldable pub lookup : ℕ → List (ℕ × V) → Option V
  lookup id [] = none
  lookup id ((key, value) ∷ rest) = if key == id then some value else lookup id rest

  -- A value under a key that is there is replaced in its place.
  unfoldable pub insert : ℕ → V → List (ℕ × V) → List (ℕ × V)
  insert id new [] = (id, new) ∷ []
  insert id new ((key, old) ∷ rest) =
      let later = insert id new rest in if key == id then (id, new) ∷ rest else (key, old) ∷ later

  unfoldable pub remove : ℕ → List (ℕ × V) → List (ℕ × V)
  remove k [] = []
  remove k ((j, w) ∷ m) = if j == k then remove k m else (j, w) ∷ remove k m

  abbrev pub has_key : ℕ → List (ℕ × V) → Bool
  has_key k [] = false
  has_key k ((j, v) ∷ m) = j == k || has_key k m

  pub lookup-insert :
      (id other : ℕ) (new : V) (table : List (ℕ × V))
      → lookup other (insert id new table) ≡ (if id == other then some new else lookup other table)
  unfolding lookup insert
  lookup-insert id other new [] = refl
  lookup-insert id other new ((key, old) ∷ rest) = ground (arith, lookup-insert id other new rest)

  pub has_key-insert :
      (k j : ℕ) (v : V) (m : List (ℕ × V)) → has_key j (insert k v m) ≡ (k == j || has_key j m)
  unfolding insert
  has_key-insert k j v [] = refl
  has_key-insert k j v ((i, w) ∷ m) = ground (arith, has_key-insert k j v m)

  pub has_key-remove :
      (k j : ℕ) (m : List (ℕ × V))
      → has_key j (remove k m) ≡ (if k == j then false else has_key j m)
  unfolding remove
  has_key-remove k j [] = ground arith
  has_key-remove k j ((i, w) ∷ m) = ground (arith, has_key-remove k j m)

  pub lookup-remove :
      (k j : ℕ) (m : List (ℕ × V)) → lookup j (remove k m) ≡ (if k == j then none else lookup j m)
  unfolding lookup remove
  lookup-remove k j [] = ground arith
  lookup-remove k j ((i, w) ∷ m) = ground (arith, lookup-remove k j m)

  pub has_key-lookup : (k : ℕ) (m : List (ℕ × V)) (v : V) → lookup k m ≡ some v → has_key k m ≡ true
  unfolding lookup
  has_key-lookup k [] v h = cc
  has_key-lookup k ((i, w) ∷ m) v h = ground (arith, has_key-lookup k m v)

  pub lookup_of_has_key :
      (k : ℕ) (m : List (ℕ × V)) → has_key k m ≡ true → (v : V) × (lookup k m ≡ some v)
  unfolding lookup
  lookup_of_has_key k [] h = cc
  lookup_of_has_key k ((i, w) ∷ m) h = elim (Bool-cases (i == k)) [
    | inl e ↦ (w, rw e)
    | inr e ↦ rw e (lookup_of_has_key k m (rw e at h))
  ]

  pub lookup_of_not_has_key : (k : ℕ) (m : List (ℕ × V)) → has_key k m ≡ false → lookup k m ≡ none
  unfolding lookup
  lookup_of_not_has_key k [] h = refl
  lookup_of_not_has_key k ((i, w) ∷ m) h = ground (arith, lookup_of_not_has_key k m)

  -- Every key occurs once.
  abbrev pub IsMap : List (ℕ × V) → Type 0
  IsMap [] = Unit {0}
  IsMap ((k, v) ∷ m) = (has_key k m ≡ false) × IsMap m

  pub insert-IsMap : (k : ℕ) (v : V) (m : List (ℕ × V)) → IsMap m → IsMap (insert k v m)
  unfolding insert
  insert-IsMap k v [] h = (refl, tt)
  insert-IsMap k v ((j, w) ∷ m) h = ground (arith, insert-IsMap k v m h.1, has_key-insert k j v m)

  pub remove-IsMap : (k : ℕ) (m : List (ℕ × V)) → IsMap m → IsMap (remove k m)
  unfolding remove
  remove-IsMap k [] h = tt
  remove-IsMap k ((j, w) ∷ m) h = ground (arith, remove-IsMap k m h.1, has_key-remove k j m)

  -- `if let Some(v) = m.get_mut(&k) { ... }`.
  unfoldable pub adjust : ℕ → (V → V) → List (ℕ × V) → List (ℕ × V)
  adjust k f [] = []
  adjust k f ((j, w) ∷ m) = if j == k then (j, f w) ∷ m else (j, w) ∷ adjust k f m

  pub has_key-adjust :
      (k j : ℕ) (f : V → V) (m : List (ℕ × V)) → has_key j (adjust k f m) ≡ has_key j m
  unfolding adjust
  has_key-adjust k j f [] = refl
  has_key-adjust k j f ((i, w) ∷ m) = ground (arith, has_key-adjust k j f m)

  pub adjust-IsMap : (k : ℕ) (f : V → V) (m : List (ℕ × V)) → IsMap m → IsMap (adjust k f m)
  unfolding adjust
  adjust-IsMap k f [] h = tt
  adjust-IsMap k f ((j, w) ∷ m) h = ground (arith, adjust-IsMap k f m h.1, has_key-adjust k j f m)
