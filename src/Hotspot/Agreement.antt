-- ===== src/Hotspot/Agreement.antt =====
-- Two computers that run select_optimal_pc_to_pc_host (src/hotspot.rs) on each other's capabilities,
-- and the credentials that one of them makes.
use share_dash.Common.{
  text_le, ℕ, ◌≡◌, refl, leb, Bool, true, false, not, ◌&&◌, ◌||◌, List, [], ◌∷◌, Text, text,
  text_eq, map, arith, Floats, length, All, length-append,
}
use share_dash.Hotspot.{
  WifiCapsInfo, select_band, select_optimal_pc_to_pc_host, suffix_char, password_char,
  generate_hotspot_credentials,
}

-- Of two different strings, exactly one is not above the other.
text_le_flip : (s t : Text) → text_eq s t ≡ false → text_le t s ≡ not (text_le s t)
unfolding text_le text_eq
text_le_flip [] [] h = cc
text_le_flip [] (b ∷ bs) h = refl
text_le_flip (a ∷ as_) [] h = refl
text_le_flip (a ∷ as_) (b ∷ bs) h = ground (arith, text_le_flip as_ bs, h)

text_le_refl : (s : Text) → text_le s s ≡ true
unfolding text_le
text_le_refl [] = refl
text_le_refl (a ∷ as_) = ground (arith, text_le_refl as_)

module _ (fl : Floats) where
  select_band_comm :
      (mine yours : WifiCapsInfo fl) → select_band fl mine yours ≡ select_band fl yours mine
  unfolding select_band
  select_band_comm mine yours = ground arith

-- Two computers with different names, each of which knows the capabilities of both, agree: they
-- choose the same band, and exactly one of them is to be the host.
pub hosts_agree :
    (fl : Floats) (a b : WifiCapsInfo fl) (a_name b_name : Text)
    → text_eq a_name b_name ≡ false
    → let at_a = select_optimal_pc_to_pc_host fl a b a_name b_name in
      let at_b = select_optimal_pc_to_pc_host fl b a b_name a_name in
      (at_b.0 ≡ not at_a.0) × (at_a.1 ≡ at_b.1)
unfolding select_optimal_pc_to_pc_host
hosts_agree fl a b a_name b_name differ =
    (ground (arith, text_le_flip a_name b_name differ), select_band_comm fl a b)

abbrev pub is_alphanumeric : ℕ → Bool
is_alphanumeric c = (leb 48 c && leb c 57) || ((leb 65 c && leb c 90) || (leb 97 c && leb c 122))

length-map : (f : ℕ → ℕ) (xs : List ℕ) → length (map f xs) ≡ length xs
length-map f [] = refl
length-map f (x ∷ xs) = omega (arith, length-map f xs)

map-password_char : (bytes : List ℕ) → All (λ c. is_alphanumeric c ≡ true) (map password_char bytes)
unfolding password_char
map-password_char [] = tt
map-password_char (b ∷ bs) = (ground arith, map-password_char bs)

-- From four and eight random bytes, whatever they are, the password has the eight characters that
-- WPA2 demands at least, all of them letters and digits, and the name has 17 characters, within the
-- 32 that a network may have.
generate_hotspot_credentials_lem :
    (four eight : List ℕ)
    → length four ≡ 4
    → length eight ≡ 8
    → let made = generate_hotspot_credentials four eight in
      (length made.1 ≡ 8) × All (λ c. is_alphanumeric c ≡ true) made.1 × (length made.0 ≡ 17)
unfolding generate_hotspot_credentials
generate_hotspot_credentials_lem four eight h k = (
  omega (arith, length-map password_char eight),
  map-password_char eight,
  omega (
    arith,
    length-append (text "ShareDash-5G-") (map suffix_char four),
    length-map suffix_char four,
  ),
)
