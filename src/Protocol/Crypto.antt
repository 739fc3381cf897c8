-- ===== src/Protocol/Crypto.antt =====
-- src/protocol/crypto.rs: SessionCrypto. The cipher AES-256-GCM is a parameter, as a record with the
-- law that it opens what it has sealed; the random bytes of the nonce are an argument.
use share_dash.Common.{
  ℕ, ◌<◌, ◌≡◌, refl, ap, sym, ◌∙◌, ltb, if◌then◌else◌, false, List, ◌++◌, Option, none, some, arith,
  length, take, drop, replicate, Result, ok, err, take-append, drop-append, length-append,
}

-- A cipher with a tag: sealing can fail, and opening fails on what was changed.
pub record Aead : Type 0 where
  -- By the key, the nonce and the bytes.
  pub encrypt : List ℕ → List ℕ → List ℕ → Option (List ℕ)
  pub decrypt : List ℕ → List ℕ → List ℕ → Option (List ℕ)
  pub opens :
      (key nonce plain sealed : List ℕ)
      → encrypt key nonce plain ≡ some sealed
      → decrypt key nonce sealed ≡ some plain

pub data CryptoError : Type 0 where
  encryption_failed payload_too_short decryption_failed : CryptoError

-- `cipher` is the key of the cipher, if the session is encrypted.
pub record SessionCrypto : Type 0 where
  pub cipher : Option (List ℕ)
  pub session_key : List ℕ

unfoldable pub new_unencrypted : SessionCrypto
new_unencrypted = record { cipher = none; session_key = replicate 32 0 }

unfoldable pub from_key : List ℕ → SessionCrypto
from_key key = record { cipher = some key; session_key = key }

module _ (aead : Aead) where
  open aead use {encrypt, decrypt, opens}

  abbrev sealed_with : List ℕ → Option (List ℕ) → Result CryptoError (List ℕ)
  sealed_with nonce none = err encryption_failed
  sealed_with nonce (some sealed) = ok (nonce ++ sealed)

  abbrev encrypt_by : Option (List ℕ) → List ℕ → List ℕ → Result CryptoError (List ℕ)
  encrypt_by none nonce plaintext = ok plaintext
  encrypt_by (some key) nonce plaintext = sealed_with nonce (encrypt key nonce plaintext)

  -- The nonce has 12 bytes.
  unfoldable pub encrypt_payload : SessionCrypto → List ℕ → List ℕ → Result CryptoError (List ℕ)
  encrypt_payload s nonce plaintext = encrypt_by s.cipher nonce plaintext

  abbrev opened_from : Option (List ℕ) → Result CryptoError (List ℕ)
  opened_from none = err decryption_failed
  opened_from (some plaintext) = ok plaintext

  abbrev decrypt_by : Option (List ℕ) → List ℕ → Result CryptoError (List ℕ)
  decrypt_by none payload = ok payload
  decrypt_by (some key) payload =
      if ltb (length payload) 12
      then err payload_too_short
      else opened_from (decrypt key (take 12 payload) (drop 12 payload))

  unfoldable pub decrypt_payload : SessionCrypto → List ℕ → Result CryptoError (List ℕ)
  decrypt_payload s payload = decrypt_by s.cipher payload

  sealed_opens :
      (key nonce plaintext out : List ℕ) (o : Option (List ℕ))
      → length nonce ≡ 12
      → encrypt key nonce plaintext ≡ o
      → sealed_with nonce o ≡ ok out
      → decrypt_by (some key) out ≡ ok plaintext
  sealed_opens key nonce plaintext out none len e h = cc
  sealed_opens key nonce plaintext out (some sealed) len e h =
      let whole : nonce ++ sealed ≡ out = cc h in
      let enough : ltb (length (nonce ++ sealed)) 12 ≡ false =
        ground (arith, length-append nonce sealed, len) in
      let front : take 12 (nonce ++ sealed) ≡ nonce =
        ap (λ k. take k (nonce ++ sealed)) (sym len) ∙ take-append nonce sealed in
      let back : drop 12 (nonce ++ sealed) ≡ sealed =
        ap (λ k. drop k (nonce ++ sealed)) (sym len) ∙ drop-append nonce sealed in
      ap (decrypt_by (some key)) (sym whole)
      ∙ rw (enough, front, back, opens key nonce plaintext sealed e) refl

-- What one end of a session encrypts, with any nonce of 12 bytes, the other end decrypts to the
-- same bytes, if both have the same key or neither has one.
pub decrypt_payload-encrypt_payload :
    (aead : Aead) (here there : SessionCrypto) (nonce plaintext out : List ℕ)
    → here.cipher ≡ there.cipher
    → length nonce ≡ 12
    → encrypt_payload aead here nonce plaintext ≡ ok out
    → decrypt_payload aead there out ≡ ok plaintext
unfolding encrypt_payload decrypt_payload
decrypt_payload-encrypt_payload aead here there nonce plaintext out same len h =
    rw (sym same) (from here.cipher h)
  where
    from :
        (o : Option (List ℕ))
        → encrypt_by aead o nonce plaintext ≡ ok out
        → decrypt_by aead o out ≡ ok plaintext
    from none e = let whole : plaintext ≡ out = cc e in ap ok (sym whole)
    from (some key) e = sealed_opens aead key nonce plaintext out _ len refl e

-- What is too short to hold a nonce is refused by a session with a key, and taken as it is by one
-- without.
decrypt_payload_short :
    (aead : Aead) (key payload : List ℕ)
    → length payload < 12
    → (decrypt_payload aead (from_key key) payload ≡ err payload_too_short)
      × (decrypt_payload aead new_unencrypted payload ≡ ok payload)
unfolding decrypt_payload from_key new_unencrypted
decrypt_payload_short aead key payload short = (ground (arith, short), refl)
