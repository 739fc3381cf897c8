-- ===== src/Upload/Dispatcher/Counting.antt =====
-- Sets of chunk numbers below a bound: when DynamicWorkDispatcher of src/cli.rs counts as many
-- completed chunks as there are, all of them are completed.
use share_dash.Common.{
  ℕ, zero, suc, ◌+◌, ◌≤◌, ◌<◌, ◌==◌, ◌≡◌, refl, inl, inr, if◌then◌else◌, true, false, List, [], ◌∷◌,
  arith, contains, length, IsDistinct, Bool-cases,
}

-- How many numbers below `n` are in the list.
abbrev pub count_below : ℕ → List ℕ → ℕ
count_below zero xs = 0
count_below (suc n) xs = (if contains n xs then 1 else 0) + count_below n xs

count_below-cons_past : (n a : ℕ) (xs : List ℕ) → n ≤ a → count_below n (a ∷ xs) ≡ count_below n xs
count_below-cons_past zero a xs h = refl
count_below-cons_past (suc n) a xs h = ground (arith, count_below-cons_past n a xs, h)

count_below-cons :
    (n a : ℕ) (xs : List ℕ)
    → a < n
    → contains a xs ≡ false
    → count_below n (a ∷ xs) ≡ suc (count_below n xs)
count_below-cons zero a xs h k = absurd (omega arith)
count_below-cons (suc n) a xs h k = elim (Bool-cases (a == n)) [
  | inl hit ↦ ground (arith, count_below-cons_past n a xs, hit, k)
  | inr miss ↦ ground (arith, count_below-cons n a xs, miss, h, k)
]

count_below_nil : (n : ℕ) → count_below n [] ≡ 0
count_below_nil zero = refl
count_below_nil (suc n) = omega (arith, count_below_nil n)

count_below_le : (n : ℕ) (xs : List ℕ) → count_below n xs ≤ n
count_below_le zero xs = omega arith
count_below_le (suc n) xs = ground (arith, count_below_le n xs)

pub length-count_below :
    (n : ℕ) (xs : List ℕ)
    → IsDistinct xs
    → ((a : ℕ) → contains a xs ≡ true → a < n)
    → length xs ≡ count_below n xs
length-count_below n [] d h = rw count_below_nil refl
length-count_below n (x ∷ xs) d h =
    let rest = length-count_below n xs d.1 (λ a k. h a (ground (arith, k))) in
    let here = count_below-cons n x xs (h x (ground arith)) d.0 in omega (arith, rest, here)

-- If all `n` numbers are counted, each is in the list.
pub count_below_full :
    (n : ℕ) (xs : List ℕ) (a : ℕ) → n ≤ count_below n xs → a < n → contains a xs ≡ true
count_below_full zero xs a h k = absurd (omega arith)
count_below_full (suc n) xs a h k =
    ground (arith, count_below_full n xs a, count_below_le n xs, h, k)

pub full_count_below :
    (n : ℕ) (xs : List ℕ) → ((a : ℕ) → a < n → contains a xs ≡ true) → count_below n xs ≡ n
full_count_below zero xs h = refl
full_count_below (suc n) xs h =
    ground (arith, h n, full_count_below n xs (λ a k. h a (omega arith)))

-- Otherwise one is missing.
pub missing :
    (n : ℕ) (xs : List ℕ) → count_below n xs < n → (a : ℕ) × (a < n) × (contains a xs ≡ false)
missing zero xs h = absurd (omega arith)
missing (suc n) xs h = elim (Bool-cases (contains n xs)) [
  | inr out ↦ (n, omega arith, out)
  | inl in_ ↦
      let (a, lt, absent) = missing n xs (ground (arith, in_, h)) in (a, omega (arith, lt), absent)
]
