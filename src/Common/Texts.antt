-- ===== src/Common/Texts.antt =====
-- Strings as the lists of their bytes.
use Prim.Native.Nat.{ℕ}
use Prim.Native.Char.{code}
use Prim.Native.String.{String}
use mathlib.Core.Path.{◌≡◌, refl}
use mathlib.Core.Bool.{Bool, true, false, ◌&&◌, ◌||◌}
use mathlib.Core.List.{List, [], ◌∷◌}
use native.Mathlib.Omega.{arith}
use share_dash.Common.Tests.{◌==◌, ltb}

abbrev pub Text : Type 0
Text = List ℕ

-- The bytes of an ASCII literal.
abbrev pub text : String → Text
text String.[] = []
text (String.◌∷◌ c s) = code c ∷ text s

unfoldable pub text_eq : Text → Text → Bool
text_eq [] [] = true
text_eq [] (b ∷ bs) = false
text_eq (a ∷ as_) [] = false
text_eq (a ∷ as_) (b ∷ bs) = a == b && text_eq as_ bs

pub text_eq→eq : (s t : Text) → text_eq s t ≡ true → s ≡ t
unfolding text_eq
text_eq→eq [] [] h = refl
text_eq→eq [] (b ∷ bs) h = cc
text_eq→eq (a ∷ as_) [] h = cc
text_eq→eq (a ∷ as_) (b ∷ bs) h = ground (arith, text_eq→eq as_ bs)

pub text_eq_refl : (s : Text) → text_eq s s ≡ true
unfolding text_eq
text_eq_refl [] = refl
text_eq_refl (a ∷ as_) = ground (arith, text_eq_refl as_)

-- `<=` on strings.
unfoldable pub text_le : Text → Text → Bool
text_le [] t = true
text_le (a ∷ as_) [] = false
text_le (a ∷ as_) (b ∷ bs) = ltb a b || (a == b && text_le as_ bs)

pub text_le_total : (s t : Text) → text_le s t ≡ false → text_le t s ≡ true
unfolding text_le
text_le_total [] t h = cc
text_le_total (a ∷ as_) [] h = refl
text_le_total (a ∷ as_) (b ∷ bs) h = ground (arith, text_le_total as_ bs)
