-- ===== src/Common/Bytes.antt =====
-- Bytes, big-endian numbers, and reading a buffer by position.
use Prim.Native.Nat.{ℕ, zero, suc, ◌+◌, ◌*◌, ◌/◌, ◌%◌, ◌<◌}
use mathlib.Core.Path.{◌≡◌, refl, ap, ◌∙◌}
use mathlib.Core.List.{List, [], ◌∷◌, ◌++◌}
use native.Mathlib.Omega.{arith}
use share_dash.Common.Lists.{length, drop, All}

abbrev pub IsByte : ℕ → Type 0
IsByte b = b < 256

-- `to_be_bytes` of a u16 and of a u32, and the way back.
unfoldable pub be16 : ℕ → List ℕ
be16 n = (n / 256 % 256) ∷ (n % 256) ∷ []

unfoldable pub be32 : ℕ → List ℕ
be32 n = (n / 16777216 % 256) ∷ (n / 65536 % 256) ∷ (n / 256 % 256) ∷ (n % 256) ∷ []

abbrev pub from_be16 : ℕ → ℕ → ℕ
from_be16 a b = a * 256 + b

abbrev pub from_be32 : ℕ → ℕ → ℕ → ℕ → ℕ
from_be32 a b c d = a * 16777216 + b * 65536 + c * 256 + d

-- `src[i]`. The code reads within bounds only; past the end this is 0.
abbrev pub byte_at : List ℕ → ℕ → ℕ
byte_at [] i = 0
byte_at (b ∷ bs) zero = b
byte_at (b ∷ bs) (suc i) = byte_at bs i

pub be16-from_be16 : (a b : ℕ) → IsByte a → IsByte b → be16 (from_be16 a b) ≡ a ∷ b ∷ []
unfolding be16
be16-from_be16 a b ha hb = ground arith

pub be32-from_be32 :
    (a b c d : ℕ)
    → IsByte a
    → IsByte b
    → IsByte c
    → IsByte d
    → be32 (from_be32 a b c d) ≡ a ∷ b ∷ c ∷ d ∷ []
unfolding be32
be32-from_be32 a b c d ha hb hc hd = ground arith

byte_at-drop : (xs : List ℕ) (k i : ℕ) → byte_at (drop k xs) i ≡ byte_at xs (k + i)
byte_at-drop xs zero i = ap (byte_at xs) (omega arith)
byte_at-drop [] (suc k) i = refl
byte_at-drop (x ∷ xs) (suc k) i =
    let e : suc (k + i) ≡ suc k + i = omega arith in byte_at-drop xs k i ∙ ap (byte_at (x ∷ xs)) e

pub byte_at-append : (xs ys : List ℕ) (i : ℕ) → byte_at (xs ++ ys) (length xs + i) ≡ byte_at ys i
byte_at-append [] ys i = ap (byte_at ys) (omega arith)
byte_at-append (x ∷ xs) ys i =
    let e : suc (length xs) + i ≡ suc (length xs + i) = omega arith in
    ap (byte_at (x ∷ (xs ++ ys))) e ∙ byte_at-append xs ys i

pub byte_at-IsByte : (xs : List ℕ) (i : ℕ) → All IsByte xs → IsByte (byte_at xs i)
byte_at-IsByte [] i h = omega arith
byte_at-IsByte (x ∷ xs) zero h = h.0
byte_at-IsByte (x ∷ xs) (suc i) h = byte_at-IsByte xs i h.1

pub drop-cons : (xs : List ℕ) (k : ℕ) → k < length xs → drop k xs ≡ byte_at xs k ∷ drop (suc k) xs
drop-cons [] k h = elim h [ ]
drop-cons (x ∷ xs) zero h = refl
drop-cons (x ∷ xs) (suc k) h = drop-cons xs k (omega arith)
