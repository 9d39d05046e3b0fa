-- ===== src/Crypto.antt =====
-- src/security/transcript_crypto.py: a transcript in an envelope, encrypted under a key of its own
-- that is itself encrypted under the Key Encryption Key.
pub mod Library
pub mod Sealed
mod Tests
use post_call_processing_pip.Prelude.{
  ℕ, String, Bool, true, false, List, [], ◌∷◌, ◌++◌, Option, none, some, str_eq, if◌then◌else◌,
  take, drop,
}
use post_call_processing_pip.Json.{Json, Fields, bool, str, obj, dict, get, get_or_null, truthy}
use post_call_processing_pip.Db.{
  Result, ok, err, value_error, key_error, type_error, runtime_error, ◌>>=◌,
}
use post_call_processing_pip.Crypto.Library.{Primitives}

abbrev pub envelope_version : String
envelope_version = "v1"

abbrev pub envelope_key : String
envelope_key = "__voicebot_encrypted__"

abbrev pub is_version : Option Json → Bool
is_version (some (str s)) = str_eq s envelope_version
is_version _ = false

unfoldable pub is_encrypted_envelope : Json → Bool
unfolding get
is_encrypted_envelope (obj d) = is_version (get envelope_key d)
is_encrypted_envelope _ = false

module _ (L : Primitives) where
  open L use {Byte, aes_encrypt, aes_decrypt, b64encode, b64decode, dumps, loads, dev_key}

  -- The three calls of `secrets.token_bytes`.
  pub record Drawn : Type 0 where
    pub dek : List Byte
    pub nonce : List Byte
    pub wrap_nonce : List Byte

  abbrev pub decoded_or_dev : Result (List Byte) → List Byte
  decoded_or_dev (ok key) = key
  decoded_or_dev (err e) = dev_key

  -- _kek, from the value of TRANSCRIPT_KEK
  unfoldable pub kek : Option String → List Byte
  kek none = dev_key
  kek (some raw) = if str_eq raw "" then dev_key else decoded_or_dev (b64decode raw)

  abbrev pub fallback_envelope : List Byte → Fields
  fallback_envelope serialised = dict (
      (envelope_key, str envelope_version)
      ∷ ("ciphertext", str (b64encode serialised))
      ∷ ("nonce", str "")
      ∷ ("wrapped_dek", str "")
      ∷ ("fallback_dev_only", bool true)
      ∷ [])

  abbrev pub aes_envelope : Drawn → List Byte → List Byte → Fields
  aes_envelope r ciphertext wrapped = dict (
      (envelope_key, str envelope_version)
      ∷ ("ciphertext", str (b64encode ciphertext))
      ∷ ("nonce", str (b64encode r.nonce))
      ∷ ("wrapped_dek", str (b64encode (r.wrap_nonce ++ wrapped)))
      ∷ [])

  -- encrypt_transcript, with `_HAS_AES` and TRANSCRIPT_KEK as the first arguments
  unfoldable pub encrypt_transcript : Bool → Option String → Drawn → Fields → Result Fields
  unfolding kek
  encrypt_transcript false raw r plaintext = do
    serialised ← dumps plaintext
    ok (fallback_envelope serialised)
  encrypt_transcript true raw r plaintext = do
    serialised ← dumps plaintext
    ciphertext ← aes_encrypt r.dek r.nonce serialised
    wrapped ← aes_encrypt (kek raw) r.wrap_nonce r.dek
    ok (aes_envelope r ciphertext wrapped)

  -- urlsafe_b64decode(envelope[key])
  unfoldable pub decode_entry : String → Fields → Result (List Byte)
  unfolding get
  decode_entry key envelope = elim (get key envelope) [
    | none ↦ err key_error
    | some (str text) ↦ b64decode text
    | some _ ↦ err type_error
  ]

  unfoldable pub decrypt_fallback : Fields → Result Json
  unfolding decode_entry
  decrypt_fallback envelope = do raw ← decode_entry "ciphertext" envelope; loads raw

  unfoldable pub decrypt_aes : Option String → Fields → Result Json
  unfolding decode_entry kek
  decrypt_aes raw envelope = do
    ciphertext ← decode_entry "ciphertext" envelope
    nonce ← decode_entry "nonce" envelope
    wrapped ← decode_entry "wrapped_dek" envelope
    dek ← aes_decrypt (kek raw) (take 12 wrapped) (drop 12 wrapped)
    plaintext ← aes_decrypt dek nonce ciphertext
    loads plaintext

  unfoldable pub decrypt_transcript : Bool → Option String → Fields → Result Json
  unfolding is_encrypted_envelope get_or_null truthy decrypt_fallback decrypt_aes
  decrypt_transcript has_aes raw envelope =
      if is_encrypted_envelope (obj envelope)
      then (if truthy (get_or_null "fallback_dev_only" envelope)
          then decrypt_fallback envelope
          else if has_aes
          then decrypt_aes raw envelope
          else err runtime_error)
      else err value_error
