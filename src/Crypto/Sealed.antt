-- ===== src/Crypto/Sealed.antt =====
-- src/security/transcript_crypto.py: what an envelope gives back, and which envelopes give anything.
use post_call_processing_pip.Prelude.{
  ◌≡◌, refl, ◌⊎◌, inl, inr, String, Bool, true, false, List, Option, take, drop, Bool-cases,
  if◌then◌else◌, ◌↔◌,
}
use post_call_processing_pip.Json.{Json, Fields, obj, get_or_null, truthy}
use post_call_processing_pip.Db.{ok, err, value_error, runtime_error}
use post_call_processing_pip.Db.Rows.{bind_ok}
use post_call_processing_pip.Crypto.Library.{Primitives}
use post_call_processing_pip.Crypto.{
  kek, decode_entry, decrypt_fallback, decrypt_aes, decrypt_transcript, is_encrypted_envelope,
}

module _ (L : Primitives) where
  open L use {
    Byte, aes_encrypt, aes_decrypt, b64encode, b64decode, dumps, loads, dev_key,
    aes_encrypt-accepts, aes_decrypt-encrypt, aes_encrypt-decrypt, b64decode-encode, loads-dumps,
  }

  -- The envelope's parts are what AES makes of the text of `v` under a key, and of that key under the
  -- Key Encryption Key.
  pub record Authentic (raw : Option String) (envelope : Fields) (v : Json) : Type 0 where
    pub ciphertext : List Byte
    pub nonce : List Byte
    pub wrapped : List Byte
    pub dek : List Byte
    pub plaintext : List Byte
    pub has_ciphertext : decode_entry L "ciphertext" envelope ≡ ok ciphertext
    pub has_nonce : decode_entry L "nonce" envelope ≡ ok nonce
    pub has_wrapped : decode_entry L "wrapped_dek" envelope ≡ ok wrapped
    pub key_sealed : aes_encrypt (kek L raw) (take 12 wrapped) dek ≡ ok (drop 12 wrapped)
    pub text_sealed : aes_encrypt dek nonce plaintext ≡ ok ciphertext
    pub text_of : loads plaintext ≡ ok v

  -- The envelope is marked as a fallback, and its text is plain.
  pub record Plain (envelope : Fields) (v : Json) : Type 0 where
    pub text : List Byte
    pub has_text : decode_entry L "ciphertext" envelope ≡ ok text
    pub text_of : loads text ≡ ok v

  decrypt_aes-Authentic :
      (raw : Option String) (envelope : Fields) (v : Json)
      → decrypt_aes L raw envelope ≡ ok v
      → Authentic raw envelope v
  unfolding decrypt_aes
  decrypt_aes-Authentic raw envelope v e =
      let (c, ec, e1) = bind_ok (decode_entry L "ciphertext" envelope) _ v e in
      let (n, en, e2) = bind_ok (decode_entry L "nonce" envelope) _ v e1 in
      let (w, ew, e3) = bind_ok (decode_entry L "wrapped_dek" envelope) _ v e2 in
      let (k, ek, e4) = bind_ok (aes_decrypt (kek L raw) (take 12 w) (drop 12 w)) _ v e3 in
      let (p, ep, e5) = bind_ok (aes_decrypt k n c) _ v e4 in
      record {
        ciphertext = c;
        nonce = n;
        wrapped = w;
        dek = k;
        plaintext = p;
        has_ciphertext = ec;
        has_nonce = en;
        has_wrapped = ew;
        key_sealed = aes_encrypt-decrypt _ _ _ _ ek;
        text_sealed = aes_encrypt-decrypt _ _ _ _ ep;
        text_of = e5;
      }

  Authentic-decrypt_aes :
      (raw : Option String) (envelope : Fields) (v : Json)
      → Authentic raw envelope v
      → decrypt_aes L raw envelope ≡ ok v
  unfolding decrypt_aes
  Authentic-decrypt_aes raw envelope v a =
      rw
        (
          a.has_ciphertext,
          a.has_nonce,
          a.has_wrapped,
          aes_decrypt-encrypt _ _ _ _ a.key_sealed,
          aes_decrypt-encrypt _ _ _ _ a.text_sealed,
        )
        a.text_of

  decrypt_fallback-Plain :
      (envelope : Fields) (v : Json) → decrypt_fallback L envelope ≡ ok v → Plain envelope v
  unfolding decrypt_fallback
  decrypt_fallback-Plain envelope v e =
      let (text, has_text, text_of) = bind_ok (decode_entry L "ciphertext" envelope) _ v e in
      record { text = text; has_text = has_text; text_of = text_of }

  Plain-decrypt_fallback :
      (envelope : Fields) (v : Json) → Plain envelope v → decrypt_fallback L envelope ≡ ok v
  unfolding decrypt_fallback
  Plain-decrypt_fallback envelope v p = rw p.has_text p.text_of

  -- Whether an envelope says that it is a fallback.
  abbrev pub is_fallback : Fields → Bool
  unfolding get_or_null truthy
  is_fallback envelope = truthy (get_or_null "fallback_dev_only" envelope)

  module _ (has_aes : Bool) (raw : Option String) (envelope : Fields)
      (marked : is_encrypted_envelope (obj envelope) ≡ true) where
    decrypt_transcript_plain :
        is_fallback envelope ≡ true
        → decrypt_transcript L has_aes raw envelope ≡ decrypt_fallback L envelope
    unfolding decrypt_transcript
    decrypt_transcript_plain plain = rw (marked, plain)

    decrypt_transcript_secret :
        is_fallback envelope ≡ false
        → decrypt_transcript L has_aes raw envelope
          ≡ (if has_aes then decrypt_aes L raw envelope else err runtime_error)
    unfolding decrypt_transcript
    decrypt_transcript_secret secret = rw (marked, secret)

  secret_iff :
      (has_aes : Bool) (raw : Option String) (envelope : Fields) (v : Json)
      → ((if has_aes then decrypt_aes L raw envelope else err runtime_error) ≡ ok v)
        ↔ ((has_aes ≡ true) × Authentic raw envelope v)
  secret_iff true raw envelope v = (
    λ e. (refl, decrypt_aes-Authentic raw envelope v e),
    λ h. Authentic-decrypt_aes raw envelope v h.1,
  )
  secret_iff false raw envelope v = (λ e. absurd (cc e), λ h. absurd (cc h.0))

  decrypt_transcript_unmarked :
      (has_aes : Bool) (raw : Option String) (envelope : Fields)
      → is_encrypted_envelope (obj envelope) ≡ false
      → decrypt_transcript L has_aes raw envelope ≡ err value_error
  unfolding decrypt_transcript
  decrypt_transcript_unmarked has_aes raw envelope other = rw other

  -- Decryption gives a value just for two sorts of envelope: for one that says that it is a fallback,
  -- the value that stands in it in plain text, whatever the key and with or without AES; and for any
  -- other, with AES, the value whose text was encrypted under a key that was itself encrypted under the
  -- Key Encryption Key.
  pub decrypt_transcript_iff :
      (has_aes : Bool) (raw : Option String) (envelope : Fields) (v : Json)
      → (decrypt_transcript L has_aes raw envelope ≡ ok v) ↔ (
          (is_encrypted_envelope (obj envelope) ≡ true)
          × (((is_fallback envelope ≡ true) × Plain envelope v)
              ⊎ ((is_fallback envelope ≡ false) × (has_aes ≡ true) × Authentic raw envelope v)))
  decrypt_transcript_iff has_aes raw envelope v =
      elim (Bool-cases (is_encrypted_envelope (obj envelope))) [
        | inl marked ↦ elim (Bool-cases (is_fallback envelope)) [
          | inl plain ↦ rw (decrypt_transcript_plain has_aes raw envelope marked plain) (
            λ e. (marked, inl (plain, decrypt_fallback-Plain envelope v e)),
            λ h. elim h.1 [
              | inl (_, p) ↦ Plain-decrypt_fallback envelope v p
              | inr (secret, _, _) ↦ absurd (cc (plain, secret))
            ],
          )
          | inr secret ↦ rw (decrypt_transcript_secret has_aes raw envelope marked secret) (
            λ e.
                let (on, a) = (secret_iff has_aes raw envelope v).0 e in
                (marked, inr (secret, on, a)),
            λ h. elim h.1 [
              | inl (plain, _) ↦ absurd (cc (plain, secret))
              | inr (_, on, a) ↦ (secret_iff has_aes raw envelope v).1 (on, a)
            ],
          )
        ]
        | inr other ↦ (
          λ e. absurd (cc (decrypt_transcript_unmarked has_aes raw envelope other, e)),
          λ h. absurd (cc (other, h.0)),
        )
      ]
