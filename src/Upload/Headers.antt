-- ===== src/Upload/Headers.antt =====
-- The texts of the HTTP headers of a chunk, which src/cli.rs and src/gui/engine.rs write and
-- src/server/api.rs reads: what the standard library's `to_string`, `parse`, `trim`,
-- `to_lowercase`, `contains` and `{:08x}` do on ASCII. A value with other bytes is no text.
use share_dash.Common.{
  ℕ, zero, suc, ◌+◌, ◌-◌, ◌*◌, ◌/◌, ◌%◌, ◌<◌, ◌==◌, ◌≡◌, refl, ap, sym, ◌∙◌, ltb, leb,
  if◌then◌else◌, Bool, true, false, ◌&&◌, ◌||◌, [], ◌∷◌, Option, none, some, Text, arith, All,
  Bool-cases, inl, inr, lt→ltb,
}
use share_dash.Storage.Integrity.{is_empty, to_ascii_lowercase}

-- `to_string` of an unsigned number.
unfoldable pub push_digits : ℕ → ℕ → Text → Text
push_digits zero n tail = tail
push_digits (suc fuel) n tail =
    let more = push_digits fuel (n / 10) ((48 + n % 10) ∷ tail) in
    if ltb n 10 then (48 + n) ∷ tail else more

unfoldable pub to_string : ℕ → Text
to_string n = push_digits (suc n) n []

abbrev pub is_digit : ℕ → Bool
is_digit c = leb 48 c && ltb c 58

-- The digits of a number below `limit`, after those that make `value`.
unfoldable pub parse_digits : ℕ → ℕ → Text → Option ℕ
parse_digits limit value [] = some value
parse_digits limit value (c ∷ cs) =
    let next = value * 10 + (c - 48) in
    let rest = parse_digits limit next cs in if is_digit c && ltb next limit then rest else none

-- `parse` to an unsigned number below `limit`: digits, perhaps behind a plus sign.
unfoldable pub parse : ℕ → Text → Option ℕ
parse limit [] = none
parse limit (c ∷ []) = parse_digits limit 0 (c ∷ [])
parse limit (c ∷ d ∷ cs) =
    if c == b'+' then parse_digits limit 0 (d ∷ cs) else parse_digits limit 0 (c ∷ d ∷ cs)

abbrev pub is_space : ℕ → Bool
is_space c = c == 32 || (leb 9 c && leb c 13)

-- `HeaderValue::to_str`: all bytes are visible ASCII, spaces or tabs.
abbrev pub is_visible : ℕ → Bool
is_visible c = c == 9 || (leb 32 c && ltb c 127)

unfoldable pub is_text : Text → Bool
is_text [] = true
is_text (c ∷ cs) = is_visible c && is_text cs

unfoldable pub trim_start : Text → Text
trim_start [] = []
trim_start (c ∷ cs) = if is_space c then trim_start cs else c ∷ cs

abbrev pub cons_unless_blank : ℕ → Text → Text
cons_unless_blank c rest = if is_space c && is_empty rest then [] else c ∷ rest

unfoldable pub trim_end : Text → Text
trim_end [] = []
trim_end (c ∷ cs) = cons_unless_blank c (trim_end cs)

unfoldable pub trim : Text → Text
trim s = trim_end (trim_start s)

unfoldable pub to_lowercase : Text → Text
to_lowercase [] = []
to_lowercase (c ∷ cs) = to_ascii_lowercase c ∷ to_lowercase cs

unfoldable pub starts_with : Text → Text → Bool
starts_with s [] = true
starts_with [] (p ∷ ps) = false
starts_with (c ∷ cs) (p ∷ ps) = c == p && starts_with cs ps

unfoldable pub contains_text : Text → Text → Bool
contains_text [] p = is_empty p
contains_text (c ∷ cs) p = starts_with (c ∷ cs) p || contains_text cs p

-- `{:08x}` of a u32.
abbrev pub hex_digit : ℕ → ℕ
hex_digit d = if ltb d 10 then 48 + d else 87 + d

unfoldable pub hex8 : ℕ → Text
hex8 n =
    hex_digit (n / 268435456 % 16)
    ∷ hex_digit (n / 16777216 % 16)
    ∷ hex_digit (n / 1048576 % 16)
    ∷ hex_digit (n / 65536 % 16)
    ∷ hex_digit (n / 4096 % 16)
    ∷ hex_digit (n / 256 % 16)
    ∷ hex_digit (n / 16 % 16)
    ∷ hex_digit (n % 16)
    ∷ []

-- No space, and no upper case letter.
abbrev pub IsPlain : ℕ → Type 0
IsPlain c = (is_space c ≡ false) × (to_ascii_lowercase c ≡ c) × (is_visible c ≡ true)

hex_digit-IsPlain : (d : ℕ) → d < 16 → IsPlain (hex_digit d)
unfolding to_ascii_lowercase
hex_digit-IsPlain d h = ground (arith, h)

pub hex8-IsPlain : (n : ℕ) → All IsPlain (hex8 n)
unfolding hex8
hex8-IsPlain n = (
  hex_digit-IsPlain _ (omega arith),
  (
    hex_digit-IsPlain _ (omega arith),
    (
      hex_digit-IsPlain _ (omega arith),
      (
        hex_digit-IsPlain _ (omega arith),
        (
          hex_digit-IsPlain _ (omega arith),
          (
            hex_digit-IsPlain _ (omega arith),
            (hex_digit-IsPlain _ (omega arith), (hex_digit-IsPlain _ (omega arith), tt)),
          ),
        ),
      ),
    ),
  ),
)

pub is_text_plain : (s : Text) → All IsPlain s → is_text s ≡ true
unfolding is_text
is_text_plain [] h = refl
is_text_plain (c ∷ cs) h = rw (h.0.2, is_text_plain cs h.1) refl

trim_start_plain : (s : Text) → All IsPlain s → trim_start s ≡ s
unfolding trim_start
trim_start_plain [] h = refl
trim_start_plain (c ∷ cs) h = rw h.0.0 refl

trim_end_plain : (s : Text) → All IsPlain s → trim_end s ≡ s
unfolding trim_end
trim_end_plain [] h = refl
trim_end_plain (c ∷ cs) h = rw (h.0.0, trim_end_plain cs h.1) refl

pub trim_plain : (s : Text) → All IsPlain s → trim s ≡ s
unfolding trim
trim_plain s h = rw (trim_start_plain s h) (trim_end_plain s h)

pub to_lowercase_plain : (s : Text) → All IsPlain s → to_lowercase s ≡ s
unfolding to_lowercase
to_lowercase_plain [] h = refl
to_lowercase_plain (c ∷ cs) h = cc (h.0.1, to_lowercase_plain cs h.1)

push_digits-IsPlain :
    (fuel n : ℕ) (tail : Text) → All IsPlain tail → All IsPlain (push_digits fuel n tail)
unfolding push_digits to_ascii_lowercase
push_digits-IsPlain zero n tail h = h
push_digits-IsPlain (suc fuel) n tail h = elim (Bool-cases (ltb n 10)) [
  | inl small ↦ rw small (ground (arith, small), h)
  | inr large ↦
      rw large (push_digits-IsPlain fuel (n / 10) ((48 + n % 10) ∷ tail) (ground arith, h))
]

pub to_string-IsPlain : (n : ℕ) → All IsPlain (to_string n)
unfolding to_string
to_string-IsPlain n = push_digits-IsPlain (suc n) n [] tt

parse_digits-push_digits :
    (fuel limit n : ℕ) (tail : Text)
    → n < fuel
    → n < limit
    → parse_digits limit 0 (push_digits fuel n tail) ≡ parse_digits limit n tail
unfolding push_digits
parse_digits-push_digits zero limit n tail h k = absurd (omega arith)
parse_digits-push_digits (suc fuel) limit n tail h k = elim (Bool-cases (ltb n 10)) [
  | inl small ↦ rw small (last n 0 n (ground (arith, small)) (omega arith) k)
  | inr large ↦ rw large (
      parse_digits-push_digits fuel limit (n / 10) ((48 + n % 10) ∷ tail) (ground (arith, large))
        (omega arith)
      ∙ last (n % 10) (n / 10) n (omega arith) (omega arith) k)
]
  where
    last :
        (d value next : ℕ)
        → d < 10
        → value * 10 + d ≡ next
        → next < limit
        → parse_digits limit value ((48 + d) ∷ tail) ≡ parse_digits limit next tail
    last d value next lt e small =
        unfold parse_digits in
        let same : value * 10 + (48 + d - 48) ≡ next = omega (arith, e) in
        let digit : is_digit (48 + d) ≡ true = ground (arith, lt) in
        rw (same, digit, lt→ltb _ _ small) refl

-- The first character that is printed is a digit, not a sign.
push_digits-head :
    (fuel n : ℕ) (tail : Text)
    → 0 < fuel
    → (c : ℕ) × (rest : Text) × (push_digits fuel n tail ≡ c ∷ rest) × ((c == b'+') ≡ false)
unfolding push_digits
push_digits-head zero n tail h = absurd (omega arith)
push_digits-head (suc zero) n tail h = elim (Bool-cases (ltb n 10)) [
  | inl small ↦ (48 + n, tail, rw small refl, ground (arith, small))
  | inr large ↦ (48 + n % 10, tail, rw large refl, ground arith)
]
push_digits-head (suc (suc fuel)) n tail h = elim (Bool-cases (ltb n 10)) [
  | inl small ↦ (48 + n, tail, rw small refl, ground (arith, small))
  | inr large ↦ rw large (push_digits-head (suc fuel) (n / 10) ((48 + n % 10) ∷ tail) (omega arith))
]

parse-unsigned :
    (limit c : ℕ) (rest : Text)
    → (c == b'+') ≡ false
    → parse limit (c ∷ rest) ≡ parse_digits limit 0 (c ∷ rest)
unfolding parse
parse-unsigned limit c [] h = refl
parse-unsigned limit c (d ∷ ds) h = rw h refl

-- A number that is printed is read back, in every range that it lies in.
pub parse-to_string : (limit n : ℕ) → n < limit → parse limit (to_string n) ≡ some n
unfolding to_string
parse-to_string limit n h =
    let (c, rest, shape, digit) = push_digits-head (suc n) n [] (omega arith) in
    let printed = parse_digits-push_digits (suc n) limit n [] (omega arith) h in
    ap (parse limit) shape
    ∙ parse-unsigned limit c rest digit
    ∙ ap (parse_digits limit 0) (sym shape)
    ∙ printed
    ∙ (unfold parse_digits in refl)
