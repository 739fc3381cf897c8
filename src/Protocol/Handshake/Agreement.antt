-- ===== src/Protocol/Handshake/Agreement.antt =====
-- src/protocol/handshake.rs: how a handshake ends, and what the two sides learn from each other.
use share_dash.Common.{
  ℕ, ◌≡◌, ◌≢◌, refl, sym, ◌∙◌, Bool, true, false, List, [], ◌∷◌, Option, none, some, Result, ok,
  err,
}
use share_dash.Protocol.Frame.Types.{hello, hello_resp, capabilities}
use share_dash.Protocol.Frame.Codec.{Frame, new_frame}
use share_dash.Protocol.Handshake.{
  HandshakeState, established, syn_sent, syn_received, Device, HandshakeError, Answer, frame, Wire,
  Process, continue, ◌>>>◌, return_, parsed, set_state, send, sent_as, expect, taken, Json,
  build_local_capabilities, greeting, reply, packed, initiate, respond,
}

-- The outcome of a handshake: established with a session, or not established with an error.
abbrev pub IsFinal : {A : Type 0} → Wire × Result HandshakeError A → Type 0
IsFinal (w, ok a) = w.state ≡ established
IsFinal (w, err e) = w.state ≢ established

-- A part of a handshake that does not establish it.
record IsEarly {A : Type 0} (m : Process A) : Type 0 where
  keeps : (w : Wire) → w.state ≢ established → (m w).0.state ≢ established

-- A part that reaches the end of the handshake.
record IsLate {A : Type 0} (m : Process A) : Type 0 where
  ends : (w : Wire) → w.state ≢ established → IsFinal (m w)

continue-IsFinal :
    {A B : Type 0} (f : A → Process B) (r : Wire × Result HandshakeError A)
    → r.0.state ≢ established
    → ((a : A) → IsLate (f a))
    → IsFinal (continue f r)
continue-IsFinal f (w, ok a) h later = (later a).ends w h
continue-IsFinal f (w, err e) h later = h

bind-IsLate :
    {A B : Type 0} (m : Process A) (f : A → Process B)
    → IsEarly m
    → ((a : A) → IsLate (f a))
    → IsLate (m >>> f)
unfolding ◌>>>◌
bind-IsLate m f early later = record {
  ends = λ w h. continue-IsFinal f (m w) (early.keeps w h) later;
}

parsed-IsEarly : {A : Type 0} (o : Option A) → IsEarly (parsed o)
unfolding parsed
parsed-IsEarly none = record { keeps = λ w h. h }
parsed-IsEarly (some a) = record { keeps = λ w h. h }

sent_as-keeps : (works : List Bool) (f : Frame) (w : Wire) → (sent_as works f w).0.state ≡ w.state
sent_as-keeps [] f w = refl
sent_as-keeps (true ∷ later) f w = refl
sent_as-keeps (false ∷ later) f w = refl

send-IsEarly : (f : Frame) → IsEarly (send f)
unfolding send
send-IsEarly f = record { keeps = λ w h e. h (sym (sent_as-keeps w.sends f w) ∙ e) }

taken-keeps : (answers : List Answer) (w : Wire) → (taken answers w).0.state ≡ w.state
taken-keeps [] w = refl
taken-keeps (a ∷ later) w = refl

expect-IsEarly : IsEarly expect
unfolding expect
expect-IsEarly = record { keeps = λ w h e. h (sym (taken-keeps w.answers w) ∙ e) }

received-IsEarly : IsEarly (set_state syn_received)
unfolding set_state
received-IsEarly = record { keeps = λ w h e. cc }

last-IsLate : {A : Type 0} (a : A) → IsLate (set_state established >>> λ _. return_ a)
unfolding set_state return_ ◌>>>◌
last-IsLate a = record { ends = λ w h. refl }

sent-IsFinal :
    {A : Type 0} (f : Unit {0} → Process A) (w : Wire)
    → ((a : Unit {0}) → IsLate (f a))
    → IsFinal ((set_state syn_sent >>> f) w)
unfolding set_state ◌>>>◌
sent-IsFinal f w later = (later tt).ends (record w { state = syn_sent }) (λ e. cc)

module _ {F : Type 0} (json : Json F) (crc : List ℕ → ℕ) (me : Device) where
  -- The side that initiates.
  pub initiate-IsFinal : (w : Wire) → IsFinal (initiate json crc me w)
  unfolding initiate
  initiate-IsFinal w = sent-IsFinal _ w λ _. bind-IsLate _ _ (parsed-IsEarly _) λ hello_bytes.
      bind-IsLate _ _ (send-IsEarly _) λ _. bind-IsLate _ _ expect-IsEarly λ resp.
        bind-IsLate _ _ (parsed-IsEarly _) λ r. bind-IsLate _ _ received-IsEarly λ _.
          bind-IsLate _ _ (parsed-IsEarly _) λ caps_bytes. bind-IsLate _ _ (send-IsEarly _) λ _.
            bind-IsLate _ _ expect-IsEarly
              λ peer. bind-IsLate _ _ (parsed-IsEarly _) λ peer_caps. last-IsLate _

  respond-IsLate : (session_id : List ℕ) → IsLate (respond json crc me session_id)
  unfolding respond
  respond-IsLate session_id = bind-IsLate _ _ expect-IsEarly λ first.
      bind-IsLate _ _ (parsed-IsEarly _) λ hello_. bind-IsLate _ _ received-IsEarly λ _.
        bind-IsLate _ _ (parsed-IsEarly _) λ resp_bytes. bind-IsLate _ _ (send-IsEarly _) λ _.
          bind-IsLate _ _ expect-IsEarly λ peer. bind-IsLate _ _ (parsed-IsEarly _) λ peer_caps.
            bind-IsLate _ _ (parsed-IsEarly _)
              λ caps_bytes. bind-IsLate _ _ (send-IsEarly _) λ _. last-IsLate _

-- A device ends established exactly when it returns a session, and not when it returns an error,
-- whatever the other one answers and whichever sends fail; the one that responds must not have been
-- established before.
pub handshake-IsFinal :
    {F : Type 0} (json : Json F) (crc : List ℕ → ℕ) (me : Device) (session_id : List ℕ) (w : Wire)
    → w.state ≢ established
    → IsFinal (initiate json crc me w) × IsFinal (respond json crc me session_id w)
handshake-IsFinal json crc me session_id w h =
    (initiate-IsFinal json crc me w, (respond-IsLate json crc me session_id).ends w h)

-- A wire on which both sends will work and these two frames will arrive.
abbrev pub wire : Frame → Frame → Wire
wire first second = record {
  state = HandshakeState.idle;
  answers = frame first ∷ frame second ∷ [];
  sends = true ∷ true ∷ [];
  sent = [];
}

abbrev pub concluded : Frame → Frame → Wire
concluded first second = record {
  state = established;
  answers = [];
  sends = [];
  sent = second ∷ first ∷ [];
}

module _ {F : Type 0} (json : Json F) (crc : List ℕ → ℕ) (a b : Device)
    (session_id greets replies caps : List ℕ) where
  -- If JSON carries the four messages that two devices exchange, and each of them receives what the
  -- other one sends, then both end established, each knows the other one by its name and
  -- identifier, and both know the capabilities of either.
  pub handshake_agrees :
      json.hello_bytes (greeting json crc a) ≡ some greets
      → json.hello_of greets ≡ some (greeting json crc a)
      → json.resp_bytes (reply json crc b session_id) ≡ some replies
      → json.resp_of replies ≡ some (reply json crc b session_id)
      → json.caps_bytes build_local_capabilities ≡ some caps
      → json.caps_of caps ≡ some build_local_capabilities
      → let hello_ = packed json crc a hello greets in
        let resp = packed json crc b hello_resp replies in
        let caps_ = packed json crc a capabilities caps in
        (initiate json crc a (wire resp caps_) ≡ (
          concluded hello_ caps_,
          ok (record {
            peer_device_id = b.local_device_id;
            peer_device_name = b.local_device_name;
            peer_os = [];
            peer_capabilities = build_local_capabilities;
            local_capabilities = build_local_capabilities;
          }),
        ))
        × (respond json crc b session_id (wire hello_ caps_) ≡ (
          concluded resp caps_,
          ok (record {
            peer_device_id = a.local_device_id;
            peer_device_name = a.local_device_name;
            peer_os = a.local_os;
            peer_capabilities = build_local_capabilities;
            local_capabilities = build_local_capabilities;
          }),
        ))
  unfolding initiate respond ◌>>>◌ set_state send expect return_ new_frame parsed
      build_local_capabilities
  handshake_agrees h1 h2 h3 h4 h5 h6 = (
    rw (h1, parsed, h4, parsed, h5, parsed, h6, parsed) refl,
    rw (h2, parsed, h3, parsed, h6, parsed, h5, parsed) refl,
  )
