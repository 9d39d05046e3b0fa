-- ===== src/Crypto/Library.antt =====
-- The code that src/security/transcript_crypto.py calls: AES-GCM of the `cryptography` package, and
-- `base64`, `json`, `hashlib` of Python, with what is documented of them. Bytes are an opaque type.
use post_call_processing_pip.Prelude.{◌≡◌, List, String, length}
use post_call_processing_pip.Json.{Json, Fields, obj}
use post_call_processing_pip.Db.{Result, ok}

pub record Primitives : Type 1 where
  pub Byte : Type 0
  -- AESGCM(key).encrypt(nonce, data, None) and AESGCM(key).decrypt(nonce, data, None)
  pub aes_encrypt : List Byte → List Byte → List Byte → Result (List Byte)
  pub aes_decrypt : List Byte → List Byte → List Byte → Result (List Byte)
  -- urlsafe_b64encode(data).decode("ascii") and urlsafe_b64decode(text)
  pub b64encode : List Byte → String
  pub b64decode : String → Result (List Byte)
  -- json.dumps(value, separators=(",", ":")).encode("utf-8") and json.loads(data.decode("utf-8"))
  pub dumps : Fields → Result (List Byte)
  pub loads : List Byte → Result Json
  -- sha256(b"dev-only-not-for-production").digest()
  pub dev_key : List Byte
  -- A key of 32 bytes and a nonce of 12 are accepted, whatever the data.
  pub aes_encrypt-accepts :
      (key nonce bytes : List Byte)
      → length key ≡ 32
      → length nonce ≡ 12
      → (c : List Byte) × (aes_encrypt key nonce bytes ≡ ok c)
  -- Decryption gives back what was encrypted, and nothing that was not: the tag is recomputed.
  pub aes_decrypt-encrypt :
      (key nonce bytes c : List Byte)
      → aes_encrypt key nonce bytes ≡ ok c
      → aes_decrypt key nonce c ≡ ok bytes
  pub aes_encrypt-decrypt :
      (key nonce c bytes : List Byte)
      → aes_decrypt key nonce c ≡ ok bytes
      → aes_encrypt key nonce bytes ≡ ok c
  pub b64decode-encode : (bytes : List Byte) → b64decode (b64encode bytes) ≡ ok bytes
  pub loads-dumps : (d : Fields) (bytes : List Byte) → dumps d ≡ ok bytes → loads bytes ≡ ok (obj d)
  pub length-dev_key : length dev_key ≡ 32
