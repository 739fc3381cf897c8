-- ===== src/Storage/Integrity.antt =====
-- src/storage/integrity.rs: checking a received chunk against the hashes of the manifest.
use share_dash.Common.{
  ℕ, ◌+◌, ◌==◌, ◌≡◌, refl, ◌↔◌, ◌⊎◌, leb, if◌then◌else◌, Bool, true, false, not, ◌&&◌, List, [],
  ◌∷◌, Text, Result, ok, err, arith,
}
use share_dash.Storage.Chunker.{join}

-- `u8::to_ascii_lowercase`.
unfoldable pub to_ascii_lowercase : ℕ → ℕ
to_ascii_lowercase b = if leb b'A' b && leb b b'Z' then b + 32 else b

-- `str::eq_ignore_ascii_case`.
unfoldable pub eq_ignore_ascii_case : Text → Text → Bool
eq_ignore_ascii_case [] [] = true
eq_ignore_ascii_case [] (b ∷ bs) = false
eq_ignore_ascii_case (a ∷ rest) [] = false
eq_ignore_ascii_case (a ∷ rest) (b ∷ bs) =
    to_ascii_lowercase a == to_ascii_lowercase b && eq_ignore_ascii_case rest bs

abbrev pub is_empty : Text → Bool
is_empty [] = true
is_empty (b ∷ bs) = false

-- The error of `verify_chunk`: neither hash fits.
pub data Mismatch : Type 0 where
  mismatch : Text → Text → Mismatch

module _ (sha256 blake3 : List ℕ → Text) where
  unfoldable pub verify_chunk : List ℕ → Text → Text → Result Mismatch Bool
  verify_chunk received expected_sha256 expected_blake3 =
      if not (is_empty expected_sha256) && eq_ignore_ascii_case (sha256 received) expected_sha256
      then ok true
      else if not (is_empty expected_blake3)
          && eq_ignore_ascii_case (blake3 received) expected_blake3
      then ok true
      else err (mismatch expected_sha256 expected_blake3)

  unfoldable pub compute_merkle_root : List Text → Text
  compute_merkle_root hashes = sha256 (join hashes)

-- Two texts agree up to the case of their ASCII letters.
abbrev pub SameHash : Text → Text → Type 0
SameHash [] [] = Unit {0}
SameHash [] (b ∷ bs) = ⊥
SameHash (a ∷ rest) [] = ⊥
SameHash (a ∷ rest) (b ∷ bs) = (to_ascii_lowercase a ≡ to_ascii_lowercase b) × SameHash rest bs

eq_ignore_ascii_case_iff : (s t : Text) → (eq_ignore_ascii_case s t ≡ true) ↔ SameHash s t
unfolding eq_ignore_ascii_case
eq_ignore_ascii_case_iff [] [] = (λ h. tt, λ h. refl)
eq_ignore_ascii_case_iff [] (b ∷ bs) = (λ h. cc, λ h. absurd h)
eq_ignore_ascii_case_iff (a ∷ rest) [] = (λ h. cc, λ h. absurd h)
eq_ignore_ascii_case_iff (a ∷ rest) (b ∷ bs) =
    let ih = eq_ignore_ascii_case_iff rest bs in
    (λ h. (ground arith, ih.0 (ground arith)), λ h. ground (arith, ih.1 h.1, h.0))

SameHash-refl : (s : Text) → SameHash s s
SameHash-refl [] = tt
SameHash-refl (a ∷ rest) = (refl, SameHash-refl rest)

-- A chunk is accepted exactly when one of the two hashes is given and is that of the bytes, up to
-- the case of its letters; it is never answered that the chunk is bad other than by the error.
verify_chunk_iff :
    (sha256 blake3 : List ℕ → Text) (received : List ℕ) (s b : Text)
    → let r = verify_chunk sha256 blake3 received s b in
      ((r ≡ ok true) ↔ (
        ((is_empty s ≡ false) × SameHash (sha256 received) s)
        ⊎ ((is_empty b ≡ false) × SameHash (blake3 received) b)))
      × ((r ≡ ok true) ⊎ (r ≡ err (mismatch s b)))
unfolding verify_chunk
verify_chunk_iff sha256 blake3 received s b =
    let first = eq_ignore_ascii_case_iff (sha256 received) s in
    let second = eq_ignore_ascii_case_iff (blake3 received) b in
    ((λ e. ground (arith, first, second), λ e. ground (arith, first, second)), ground arith)
