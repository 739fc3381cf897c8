-- ===== src/Common/TextMaps.antt =====
-- Maps with texts as keys, as association lists.
use mathlib.Core.Path.{◌≡◌, refl, ap, sym, ◌∙◌}
use mathlib.Core.Bool.{Bool, true, false}
use mathlib.Core.List.{List, [], ◌∷◌}
use mathlib.Core.Option.{Option, none, some}
use mathlib.Core.Logic.{inl, inr}
use native.Mathlib.Omega.{arith}
use share_dash.Common.Tests.{if◌then◌else◌, Bool-cases}
use share_dash.Common.Texts.{Text, text_eq, text_eq→eq, text_eq_refl}

text_eq_left : (s t u : Text) → text_eq s t ≡ true → text_eq s u ≡ text_eq t u
text_eq_left s t u h = ap (λ x. text_eq x u) (text_eq→eq s t h)

text_eq_apart : (s t u : Text) → text_eq u s ≡ false → text_eq s t ≡ true → text_eq u t ≡ false
text_eq_apart s t u h k = ap (text_eq u) (sym (text_eq→eq s t k)) ∙ h

text_eq_sym : (s t : Text) → text_eq s t ≡ false → text_eq t s ≡ false
text_eq_sym s t h = elim (Bool-cases (text_eq t s)) [
  | inr out ↦ out
  | inl in_ ↦
      let eq : t ≡ s = text_eq→eq t s in_ in
      absurd (cc (sym (text_eq_refl s) ∙ ap (text_eq s) (sym eq), h))
]

module _ {ℓ} {V : Type ℓ} where
  unfoldable pub get : Text → List (Text × V) → Option V
  get name [] = none
  get name ((key, value) ∷ rest) = if text_eq key name then some value else get name rest

  unfoldable pub put : Text → V → List (Text × V) → List (Text × V)
  put name new [] = (name, new) ∷ []
  put name new ((key, old) ∷ rest) =
      let later = put name new rest in
      if text_eq key name then (name, new) ∷ rest else (key, old) ∷ later

  unfoldable pub take_out : Text → List (Text × V) → List (Text × V)
  take_out name [] = []
  take_out name ((key, value) ∷ rest) =
      let later = take_out name rest in if text_eq key name then later else (key, value) ∷ later

  pub get-put :
      (name other : Text) (new : V) (m : List (Text × V))
      → get other (put name new m) ≡ (if text_eq name other then some new else get other m)
  unfolding get put
  get-put name other new [] = refl
  get-put name other new ((key, old) ∷ rest) = elim (Bool-cases (text_eq key name)) [
    | inl hit ↦ ground (arith, hit, text_eq_left key name other hit)
    | inr miss ↦
        ground (arith, miss, get-put name other new rest, text_eq_apart name other key miss)
  ]

  pub get-take_out :
      (name other : Text) (m : List (Text × V))
      → get other (take_out name m) ≡ (if text_eq name other then none else get other m)
  unfolding get take_out
  get-take_out name other [] = ground arith
  get-take_out name other ((key, old) ∷ rest) = elim (Bool-cases (text_eq key name)) [
    | inl hit ↦ ground (arith, hit, text_eq_left key name other hit, get-take_out name other rest)
    | inr miss ↦
        ground (arith, miss, get-take_out name other rest, text_eq_apart name other key miss)
  ]

  pub get-put_same :
      (name : Text) (new : V) (m : List (Text × V)) → get name (put name new m) ≡ some new
  get-put_same name new m = rw (get-put, text_eq_refl name) refl

  pub get-take_out_same : (name : Text) (m : List (Text × V)) → get name (take_out name m) ≡ none
  get-take_out_same name m = rw (get-take_out, text_eq_refl name) refl

-- Maps in which every key occurs once, and filtering them by their values.
module _ {ℓ} {V : Type ℓ} where
  abbrev pub IsTextMap : List (Text × V) → Type ℓ
  IsTextMap [] = Unit
  IsTextMap ((key, value) ∷ rest) = (get key rest ≡ none) × IsTextMap rest

  abbrev pub keep_if : (V → Bool) → Option V → Option V
  keep_if keeps none = none
  keep_if keeps (some v) = if keeps v then some v else none

  -- `retain`.
  unfoldable pub retain : (V → Bool) → List (Text × V) → List (Text × V)
  retain keeps [] = []
  retain keeps ((key, value) ∷ rest) =
      if keeps value then (key, value) ∷ retain keeps rest else retain keeps rest

  pub put-IsTextMap :
      (name : Text) (new : V) (m : List (Text × V)) → IsTextMap m → IsTextMap (put name new m)
  unfolding put get
  put-IsTextMap name new [] h = (refl, tt)
  put-IsTextMap name new ((key, old) ∷ rest) h = elim (Bool-cases (text_eq key name)) [
    | inl hit ↦
        let eq : key ≡ name = text_eq→eq key name hit in
        rw hit (ap (λ x. get x rest) (sym eq) ∙ h.0, h.1)
    | inr miss ↦
        let away : text_eq name key ≡ false = text_eq_sym key name miss in
        rw miss (get-put name key new rest ∙ rw away h.0, put-IsTextMap name new rest h.1)
  ]

  pub get-retain :
      (keeps : V → Bool) (name : Text) (m : List (Text × V))
      → IsTextMap m
      → get name (retain keeps m) ≡ keep_if keeps (get name m)
  unfolding get retain
  get-retain keeps name [] h = refl
  get-retain keeps name ((key, value) ∷ rest) h =
      let later = get-retain keeps name rest h.1 in
      elim (Bool-cases (text_eq key name)) [
        | inl hit ↦
            let gone : get name rest ≡ none =
              ap (λ x. get x rest) (sym (text_eq→eq key name hit)) ∙ h.0 in
            let none_later : get name (retain keeps rest) ≡ none =
              later ∙ ap (keep_if keeps) gone in
            elim (Bool-cases (keeps value)) [
              | inl kept ↦ ground (arith, kept, hit)
              | inr dropped ↦ ground (arith, dropped, hit, none_later)
            ]
        | inr miss ↦ ground (arith, miss, later)
      ]

  pub retain-IsTextMap :
      (keeps : V → Bool) (m : List (Text × V)) → IsTextMap m → IsTextMap (retain keeps m)
  unfolding retain
  retain-IsTextMap keeps [] h = tt
  retain-IsTextMap keeps ((key, value) ∷ rest) h = elim (Bool-cases (keeps value)) [
    | inl kept ↦
        rw kept
          (get-retain keeps key rest h.1 ∙ ap (keep_if keeps) h.0, retain-IsTextMap keeps rest h.1)
    | inr dropped ↦ rw dropped (retain-IsTextMap keeps rest h.1)
  ]
