-- ===== src/Discovery/Sessions/Tokens.antt =====
-- Which tokens PairingManager (src/discovery/pairing.rs) takes for valid.
use share_dash.Common.{
  ℕ, ◌≡◌, refl, ap, sym, ◌∙◌, if◌then◌else◌, Bool, true, false, List, [], ◌∷◌, Option, none, some,
  Text, text_eq, arith, get, put, get-put, Bool-cases, inl, inr, text_eq→eq,
}
use share_dash.Discovery.Sessions.{
  PairingSession, PairingManager, new_manager, six_digits, pairing_payload, create_session,
  create_with, verify_in, verify_pin, is_this, token_of, is_token_valid,
}

-- What was asked of a manager: the endpoint, the identifier, the number drawn and the time; or the
-- identifier, the PIN that was entered, and the token that is given out if it is right.
pub data Op : Type 0 where
  create : Text → Text → ℕ → ℕ → Op
  verify : Text → Text → Text → Op

abbrev pub is_drawn : Option Text → Bool
is_drawn none = false
is_drawn (some svg) = true

module _ (qr : Text → Option Text) (device_id device_name : Text) where
  -- The last operation stands first.
  abbrev pub after : List Op → PairingManager
  after [] = new_manager device_id device_name
  after (create endpoint id draw now ∷ ops) = (create_session qr (after ops) endpoint id draw now).0
  after (verify id pin token ∷ ops) = (verify_pin (after ops) id pin token).0

  -- Whether a QR code could be drawn.
  abbrev pub drawn : Text → Text → ℕ → Bool
  drawn endpoint id draw = is_drawn (qr (pairing_payload id (six_digits draw) endpoint device_name))

  -- The PIN of a session is that of its last creation.
  abbrev pub current_pin : List Op → Text → Option Text
  current_pin [] s = none
  current_pin (create endpoint id draw now ∷ ops) s =
      if drawn endpoint id draw
      then (if text_eq id s then some (six_digits draw) else current_pin ops s)
      else current_pin ops s
  current_pin (verify id pin token ∷ ops) s = current_pin ops s

  -- The token of a session is the one given out for the last right PIN since its last creation.
  abbrev pub current_token : List Op → Text → Option Text
  current_token [] s = none
  current_token (create endpoint id draw now ∷ ops) s =
      if drawn endpoint id draw
      then (if text_eq id s then none else current_token ops s)
      else current_token ops s
  current_token (verify id pin token ∷ ops) s =
      if text_eq id s
      then (if is_this (current_pin ops s) pin then some token else current_token ops s)
      else current_token ops s

abbrev pin_of : Option PairingSession → Option Text
pin_of none = none
pin_of (some s) = some s.pin_code

-- Looking a session up in a map in which one was put.
pin_of-put :
    (id s : Text) (new : PairingSession) (m : List (Text × PairingSession))
    → (pin_of (get s (put id new m))
        ≡ (if text_eq id s then some new.pin_code else pin_of (get s m)))
      × (token_of (get s (put id new m))
          ≡ (if text_eq id s then new.auth_token else token_of (get s m)))
pin_of-put id s new m = rw get-put (elim (Bool-cases (text_eq id s)) [
  | inl hit ↦ rw hit (refl, refl)
  | inr miss ↦ rw miss (refl, refl)
])

create_with_lem :
    (m : PairingManager) (new : PairingSession) (o : Option Text) (s : Text)
    → let m' = (create_with m new o).0 in
      (m'.device_name ≡ m.device_name)
      × (pin_of (get s m'.sessions) ≡ (
          if is_drawn o
          then (if text_eq new.session_id s then some new.pin_code else pin_of (get s m.sessions))
          else pin_of (get s m.sessions)))
      × (token_of (get s m'.sessions) ≡ (
          if is_drawn o
          then (if text_eq new.session_id s then new.auth_token else token_of (get s m.sessions))
          else token_of (get s m.sessions)))
create_with_lem m new none s = (refl, refl, refl)
create_with_lem m new (some svg) s =
    let put_in = pin_of-put new.session_id s (record new { qr_svg = svg }) m.sessions in
    (refl, put_in.0, put_in.1)

verify_in_lem :
    (m : PairingManager) (id pin token : Text) (o : Option PairingSession) (s : Text)
    → get id m.sessions ≡ o
    → let m' = (verify_in m id pin token o).0 in
      (m'.device_name ≡ m.device_name)
      × (pin_of (get s m'.sessions) ≡ pin_of (get s m.sessions))
      × (token_of (get s m'.sessions) ≡ (
          if text_eq id s
          then (if is_this (pin_of o) pin then some token else token_of (get s m.sessions))
          else token_of (get s m.sessions)))
verify_in_lem m id pin token none s at = (refl, refl, ground arith)
verify_in_lem m id pin token (some found) s at = elim (Bool-cases (text_eq found.pin_code pin)) [
  | inr wrong ↦ rw wrong (refl, refl, ground arith)
  | inl right ↦
      let put_in =
        pin_of-put id s (record found { is_paired = true; auth_token = some token }) m.sessions in
      let same_pin : text_eq id s ≡ true → some found.pin_code ≡ pin_of (get s m.sessions) =
        λ hit. ap pin_of (sym at) ∙ ap (λ x. pin_of (get x m.sessions)) (text_eq→eq id s hit) in
      rw right (refl, put_in.0 ∙ unchanged same_pin, put_in.1)
]
  where
    unchanged :
        {a b : Option Text} → (text_eq id s ≡ true → a ≡ b) → (if text_eq id s then a else b) ≡ b
    unchanged {a} {b} h = elim (Bool-cases (text_eq id s)) [
      | inl hit ↦ rw hit (h hit)
      | inr miss ↦ rw miss refl
    ]

module _ (qr : Text → Option Text) (device_id device_name : Text) where
  abbrev Known : List Op → Type 0
  Known ops =
      let m = after qr device_id device_name ops in
      (m.device_name ≡ device_name)
      × ((s : Text)
          → (pin_of (get s m.sessions) ≡ current_pin qr device_id device_name ops s)
            × (token_of (get s m.sessions) ≡ current_token qr device_id device_name ops s))

  create-Known :
      (ops : List Op) (endpoint id : Text) (draw now : ℕ)
      → Known ops
      → Known (create endpoint id draw now ∷ ops)
  unfolding create_session
  create-Known ops endpoint id draw now (name, known) =
      let m = after qr device_id device_name ops in
      let payload = λ (n : Text). pairing_payload id (six_digits draw) endpoint n in
      let same : is_drawn (qr (payload m.device_name)) ≡ is_drawn (qr (payload device_name)) =
        ap (λ n. is_drawn (qr (payload n))) name in
      let put_in =
        create_with_lem m
          (record {
            session_id = id;
            pin_code = six_digits draw;
            device_name = m.device_name;
            server_endpoint = endpoint;
            qr_svg = [];
            created_at = now;
            is_paired = false;
            auth_token = none;
          })
          (qr (payload m.device_name)) in
      (
        (put_in []).0 ∙ name,
        λ s. (
          (put_in s).1 ∙ rw (same, (known s).0) refl,
          (put_in s).2 ∙ rw (same, (known s).1) refl,
        ),
      )

  -- The PIN of the session that is asked for, and of the one that was found under that name.
  at_this :
      (ops : List Op) (id pin token s : Text)
      → let m = after qr device_id device_name ops in
        (pin_of (get s m.sessions) ≡ current_pin qr device_id device_name ops s)
          × (token_of (get s m.sessions) ≡ current_token qr device_id device_name ops s)
        → (if text_eq id s
            then (if is_this (pin_of (get id (after qr device_id device_name ops).sessions)) pin
                then some token
                else token_of (get s (after qr device_id device_name ops).sessions))
            else token_of (get s (after qr device_id device_name ops).sessions))
          ≡ current_token qr device_id device_name (verify id pin token ∷ ops) s
  at_this ops id pin token s (pins, tokens) = elim (Bool-cases (text_eq id s)) [
    | inr miss ↦ rw miss tokens
    | inl hit ↦
        let eq : id ≡ s = text_eq→eq id s hit in
        let found =
          ap (λ x. pin_of (get x (after qr device_id device_name ops).sessions)) eq ∙ pins in
        rw (hit, found, tokens) refl
  ]

  verify-Known :
      (ops : List Op) (id pin token : Text) → Known ops → Known (verify id pin token ∷ ops)
  unfolding verify_pin
  verify-Known ops id pin token (name, known) =
      let m = after qr device_id device_name ops in
      let checked = λ (s : Text). verify_in_lem m id pin token (get id m.sessions) s refl in
      (
        (checked []).0 ∙ name,
        λ s. ((checked s).1 ∙ (known s).0, (checked s).2 ∙ at_this ops id pin token s (known s)),
      )

  all-Known : (ops : List Op) → Known ops
  unfolding new_manager get
  all-Known [] = (refl, λ s. (refl, refl))
  all-Known (create endpoint id draw now ∷ ops) =
      create-Known ops endpoint id draw now (all-Known ops)
  all-Known (verify id pin token ∷ ops) = verify-Known ops id pin token (all-Known ops)

-- After any operations on a new manager, a token is valid for a session exactly when it is the one
-- that was given out for the last right PIN since the session was last created, its PIN being the
-- one drawn then: no other operation gives a token, and a later one replaces it.
pub is_token_valid_lem :
    (qr : Text → Option Text) (device_id device_name : Text) (ops : List Op) (id token : Text)
    → is_token_valid (after qr device_id device_name ops) id token
      ≡ is_this (current_token qr device_id device_name ops id) token
unfolding is_token_valid
is_token_valid_lem qr device_id device_name ops id token =
    ap (λ o. is_this o token) ((all-Known qr device_id device_name ops).1 id).1
