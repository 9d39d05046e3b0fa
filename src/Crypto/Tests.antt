-- ===== src/Crypto/Tests.antt =====
-- A library of bits that meets what is asked of the cryptography, and an envelope of each sort.
use Prim.Native.Char.{code}
use Prim.Native.String.{String}
use post_call_processing_pip.Prelude.{
  ℕ, zero, suc, Bool-cases, ◌≡◌, refl, ◌⊎◌, ◌↔◌, inl, inr, Bool, true, false, List, [], ◌∷◌, some,
  length, arith, ◌==◌, str_eq, eq_iff, if◌then◌else◌,
}
use post_call_processing_pip.Json.{
  Json, Fields, null, num, str, instant, arr, bool, obj, end, field,
}
use post_call_processing_pip.Db.{Result, ok, err, value_error, type_error, ◌>>=◌}
use post_call_processing_pip.Crypto.{
  Drawn, fallback_envelope, decrypt_transcript, is_encrypted_envelope,
}
use post_call_processing_pip.Crypto.Library.{Primitives}
use post_call_processing_pip.Crypto.Sealed.{Authentic, Plain, is_fallback, decrypt_transcript_iff}

-- A cipher that puts the first bit of the key in front as its tag.
abbrev seal : List Bool → List Bool → List Bool → Result (List Bool)
seal [] nonce bytes = err value_error
seal (b ∷ key) nonce bytes = ok (b ∷ bytes)

abbrev unseal : List Bool → List Bool → List Bool → Result (List Bool)
unseal (true ∷ key) nonce (true ∷ bytes) = ok bytes
unseal (false ∷ key) nonce (false ∷ bytes) = ok bytes
unseal _ nonce bytes = err value_error

abbrev bits : List Bool → String
bits [] = String.[]
bits (true ∷ bs) = String.◌∷◌ "1" (bits bs)
bits (false ∷ bs) = String.◌∷◌ "0" (bits bs)

abbrev unbits : String → Result (List Bool)
unbits String.[] = ok []
unbits (String.◌∷◌ c s) = do bs ← unbits s; ok ((code c == 49) ∷ bs)

-- The dicts {} and {"ok": b}.
abbrev write : Fields → Result (List Bool)
write end = ok []
write (field k (bool b) end) = if str_eq k "ok" then ok (b ∷ []) else err type_error
write _ = err type_error

abbrev read : List Bool → Result Json
read [] = ok (obj end)
read (b ∷ []) = ok (obj (field "ok" (bool b) end))
read _ = err value_error

abbrev ones : ℕ → List Bool
ones zero = []
ones (suc n) = true ∷ ones n

seal-accepts :
    (key nonce bytes : List Bool)
    → length key ≡ 32
    → length nonce ≡ 12
    → (c : List Bool) × (seal key nonce bytes ≡ ok c)
seal-accepts [] nonce bytes e e' = absurd (omega arith)
seal-accepts (b ∷ key) nonce bytes e e' = (b ∷ bytes, refl)

unseal-seal :
    (key nonce bytes c : List Bool) → seal key nonce bytes ≡ ok c → unseal key nonce c ≡ ok bytes
unseal-seal [] nonce bytes c e = absurd (cc e)
unseal-seal (b ∷ key) nonce bytes [] e = absurd (ground arith)
unseal-seal (true ∷ key) nonce bytes (true ∷ c) e = ground arith
unseal-seal (true ∷ key) nonce bytes (false ∷ c) e = ground arith
unseal-seal (false ∷ key) nonce bytes (true ∷ c) e = ground arith
unseal-seal (false ∷ key) nonce bytes (false ∷ c) e = ground arith

seal-unseal :
    (key nonce c bytes : List Bool) → unseal key nonce c ≡ ok bytes → seal key nonce bytes ≡ ok c
seal-unseal [] nonce c bytes e = absurd (cc e)
seal-unseal (true ∷ key) nonce [] bytes e = absurd (cc e)
seal-unseal (false ∷ key) nonce [] bytes e = absurd (cc e)
seal-unseal (true ∷ key) nonce (true ∷ c) bytes e = ground arith
seal-unseal (true ∷ key) nonce (false ∷ c) bytes e = absurd (cc e)
seal-unseal (false ∷ key) nonce (true ∷ c) bytes e = absurd (cc e)
seal-unseal (false ∷ key) nonce (false ∷ c) bytes e = ground arith

unbits-bits : (bs : List Bool) → unbits (bits bs) ≡ ok bs
unbits-bits [] = refl
unbits-bits (true ∷ bs) = rw (unbits-bits bs)
unbits-bits (false ∷ bs) = rw (unbits-bits bs)

ok-bytes : {a b : List Bool} → Path (Result (List Bool)) (ok a) (ok b) → a ≡ b
ok-bytes e = cc e

read-write : (d : Fields) (bytes : List Bool) → write d ≡ ok bytes → read bytes ≡ ok (obj d)
read-write end bytes e = rw (← ok-bytes e)
read-write (field k (bool b) end) bytes e = elim (Bool-cases (str_eq k "ok")) [
  | inl same ↦ let written = rw same at e in rw (← ok-bytes written, (eq_iff k "ok").0 same)
  | inr other ↦ let failed = rw other at e in absurd (cc failed)
]
read-write (field k (bool b) (field j v d)) bytes e = absurd (cc e)
read-write (field k null d) bytes e = absurd (cc e)
read-write (field k (num n) d) bytes e = absurd (cc e)
read-write (field k (str s) d) bytes e = absurd (cc e)
read-write (field k (instant t) d) bytes e = absurd (cc e)
read-write (field k (arr l) d) bytes e = absurd (cc e)
read-write (field k (obj o) d) bytes e = absurd (cc e)

abbrev primitives : Primitives
primitives = record {
  Byte = Bool;
  aes_encrypt = seal;
  aes_decrypt = unseal;
  b64encode = bits;
  b64decode = unbits;
  dumps = write;
  loads = read;
  dev_key = ones 32;
  aes_encrypt-accepts = seal-accepts;
  aes_decrypt-encrypt = unseal-seal;
  aes_encrypt-decrypt = seal-unseal;
  b64decode-encode = unbits-bits;
  loads-dumps = read-write;
  length-dev_key = refl;
}

abbrev drawn : Drawn primitives
drawn = record { dek = false ∷ ones 31; nonce = ones 12; wrap_nonce = ones 12 }

abbrev transcript : Fields
transcript = field "ok" (bool false) end

abbrev forged : Fields
forged = fallback_envelope primitives (true ∷ [])

decrypt_transcript_iff_example :
    (decrypt_transcript primitives true (some "1111") forged
      ≡ ok (obj (field "ok" (bool true) end)))
    ↔ ((is_encrypted_envelope (obj forged) ≡ true)
        × (((is_fallback primitives forged ≡ true)
              × Plain primitives forged (obj (field "ok" (bool true) end)))
            ⊎ ((is_fallback primitives forged ≡ false)
                × (true ≡ true)
                × Authentic primitives (some "1111") forged (obj (field "ok" (bool true) end)))))
decrypt_transcript_iff_example =
    decrypt_transcript_iff primitives true (some "1111") forged (obj (field "ok" (bool true) end))
