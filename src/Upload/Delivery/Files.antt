-- ===== src/Upload/Delivery/Files.antt =====
-- The bytes of the file that receive_transfer_chunk (src/server/api.rs) writes: resizing it, and
-- writing parts of its content.
use share_dash.Common.{
  ℕ, zero, suc, ◌+◌, ◌-◌, ◌≤◌, ◌<◌, ◌≡◌, refl, ap, ◌∙◌, leb, true, List, [], ◌∷◌, arith, length,
  take, drop, replicate, get_elem?, Bool-cases, inl, inr, ◌⊎◌, get_elem?-take, get_elem?-drop,
  length-take, length-drop, length-append, length-replicate,
}
use mathlib.Core.List.{append-nil}
use share_dash.Storage.Chunker.Tiling.{slice}
use share_dash.Storage.SparseWriter.{set_len, write_at}
use share_dash.Storage.SparseWriter.Files.{inside, get_elem?-write_at}

take_all : (f : List ℕ) → take (length f) f ≡ f
take_all [] = refl
take_all (b ∷ bs) = ap (◌∷◌ b) (take_all bs)

length-take_le : (k : ℕ) (xs : List ℕ) → (length (take k xs) ≤ k) × (length (take k xs) ≤ length xs)
length-take_le zero xs = (omega arith, omega arith)
length-take_le (suc k) [] = (omega arith, omega arith)
length-take_le (suc k) (x ∷ xs) = let rest = length-take_le k xs in (omega arith, omega arith)

length-take_less : (n : ℕ) (xs : List ℕ) → length xs ≤ n → take n xs ≡ xs
length-take_less zero [] h = refl
length-take_less zero (x ∷ xs) h = absurd (omega arith)
length-take_less (suc n) [] h = refl
length-take_less (suc n) (x ∷ xs) h = ap (◌∷◌ x) (length-take_less n xs (omega arith))

pub length-set_len : (f : List ℕ) (n : ℕ) → length (set_len f n) ≡ n
unfolding set_len
length-set_len f n =
    let sum = length-append (take n f) (replicate (n - length f) 0) in
    let zeros = length-replicate {A = ℕ} (n - length f) 0 in
    elim (Bool-cases (leb n (length f))) [
      | inl cut ↦
          let le : n ≤ length f = ground (arith, cut) in
          omega (arith, sum, zeros, length-take n f le, le)
      | inr longer ↦
          let le : length f ≤ n = ground (arith, longer) in
          omega (arith, sum, zeros, ap length (length-take_less n f le), le)
    ]

pub set_len_same : (f : List ℕ) → set_len f (length f) ≡ f
unfolding set_len
set_len_same f =
    let no_gap : length f - length f ≡ 0 = omega arith in rw (no_gap, take_all f) (append-nil f)

-- A list of bytes that stands for those of the content from a position on.
pub record IsPart (content : List ℕ) (offset : ℕ) (piece : List ℕ) : Type 0 where
  pub fits : offset + length piece ≤ length content
  pub same : (j : ℕ) → j < length piece → get_elem? piece j ≡ get_elem? content (offset + j)

pub slice-IsPart :
    (content : List ℕ) (offset len : ℕ)
    → offset + len ≤ length content
    → (length (slice content offset len) ≡ len) × IsPart content offset (slice content offset len)
slice-IsPart content offset len h =
    let size : length (slice content offset len) ≡ len =
      length-take len (drop offset content) (omega (arith, length-drop offset content)) in
    (
      size,
      record {
        fits = omega (arith, size);
        same = λ j k.
            get_elem?-take len (drop offset content) j (omega (arith, size))
            ∙ get_elem?-drop offset content j;
      },
    )

pub take-IsPart :
    (content : List ℕ) (offset k : ℕ) (piece : List ℕ)
    → IsPart content offset piece
    → IsPart content offset (take k piece)
take-IsPart content offset k piece part =
    let size = length-take_le k piece in
    record {
      fits = omega (arith, size, part.fits);
      same =
          λ j h. get_elem?-take k piece j (omega (arith, size)) ∙ part.same j (omega (arith, size));
    }

module _ (content : List ℕ) where
  -- Writing a part of the content over a file of its length brings no position out of agreement,
  -- and all positions that are written into it.
  pub write_at_part :
      (f : List ℕ) (offset : ℕ) (piece : List ℕ) (i : ℕ)
      → IsPart content offset piece
      → length f ≡ length content
      → (inside offset (length piece) i ≡ true) ⊎ (get_elem? f i ≡ get_elem? content i)
      → get_elem? (write_at f offset piece) i ≡ get_elem? content i
  write_at_part f offset piece i part e h =
      let written = get_elem?-write_at f offset piece i (omega (arith, part.fits)) in
      elim (Bool-cases (inside offset (length piece) i)) [
        | inl in_ ↦
            let back : offset + (i - offset) ≡ i = ground (arith, in_) in
            rw in_ at written
            ∙ part.same (i - offset) (ground (arith, in_))
            ∙ ap (get_elem? content) back
        | inr out ↦ elim h [ inl bad ↦ absurd (cc (bad, out)) | inr old ↦ rw out at written ∙ old ]
      ]
