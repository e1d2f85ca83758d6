-- ===== src/Credentials/Rotation.antt =====
-- Encryption and decryption of analystwatch/credential_crypto.py undo each other, also when the
-- keyring has changed its active key in between.
use analyst_watch.Prelude.{String, false, ◌≡◌, some, get, refl, arith, ◌∙◌, not}
use analyst_watch.Memory.{index}
use analyst_watch.Result.{value_error, ok, bind-ok, require-ok}
use analyst_watch.Credentials.Packages.{
  Library, IsLibrary, encode_base64, decode_base64-encode_base64,
}
use analyst_watch.Credentials.Crypto.{
  EncryptedSecret, Keyring, encrypt, decrypt, reencrypt, validate_envelope, is_empty_bytes,
}

validate_envelope-ok : (e f : EncryptedSecret) → validate_envelope e ≡ ok f → e ≡ f
unfolding validate_envelope
validate_envelope-ok e f h = ground arith

module _ (lib : Library) where
  -- The envelope that an encryption builds.
  abbrev envelope_of : String → lib.Bytes → lib.Bytes → lib.Bytes → lib.Bytes → EncryptedSecret
  envelope_of key_id key nonce plaintext aad = record {
    key_id = key_id;
    nonce_b64 = encode_base64 lib nonce;
    ciphertext_b64 = encode_base64 lib (lib.seal key nonce plaintext aad);
  }

  -- What an encryption that returns has found.
  encrypt-ok :
      (ring : Keyring lib) (nonce plaintext aad : lib.Bytes) (e : EncryptedSecret)
      → encrypt lib ring nonce plaintext aad ≡ ok e
      → (is_empty_bytes lib plaintext ≡ false)
        × (is_empty_bytes lib aad ≡ false)
        × ((key : lib.Bytes) × (get ring.active_key_id ring.keys ≡ some key)
            × (envelope_of ring.active_key_id key nonce plaintext aad ≡ e))
  unfolding encrypt
  encrypt-ok ring nonce plaintext aad e h =
      let (p, h1) =
        require-ok (not (is_empty_bytes lib plaintext))
          (value_error "Credential secret must not be empty") _ e h in
      let (q, h2) =
        require-ok (not (is_empty_bytes lib aad))
          (value_error "Credential associated data must not be empty") _ e h1 in
      let (key, g, h3) =
        bind-ok (index ring.keys ring.active_key_id)
          (λ key. validate_envelope (envelope_of ring.active_key_id key nonce plaintext aad)) e
          h2 in
      (ground arith, ground arith, (key, ground arith, validate_envelope-ok _ e h3))

  module _ (laws : IsLibrary lib) where
    -- A secret that one keyring encrypted is decrypted, with the same associated data, by every
    -- keyring that has the same key under the first one's active key ID, whichever its active key
    -- is, when the nonce has 12 bytes.
    pub decrypt-encrypt :
        (ring later : Keyring lib) (nonce plaintext aad : lib.Bytes) (e : EncryptedSecret)
        → encrypt lib ring nonce plaintext aad ≡ ok e
        → lib.byte_count nonce ≡ 12
        → get ring.active_key_id later.keys ≡ get ring.active_key_id ring.keys
        → decrypt lib later e aad ≡ ok plaintext
    unfolding decrypt
    decrypt-encrypt ring later nonce plaintext aad e h n same =
        let (p, q, (key, g, built)) = encrypt-ok ring nonce plaintext aad e h in
        let sealed = lib.seal key nonce plaintext aad in
        let found : get ring.active_key_id later.keys ≡ some key = same ∙ g in
        let nonce_read = decode_base64-encode_base64 lib laws nonce (rw n refl) in
        let sealed_read =
          decode_base64-encode_base64 lib laws sealed
            (laws.seal-nonempty key nonce plaintext aad) in
        rw (← built, q, found, nonce_read, sealed_read, n, laws.unseal-seal key nonce plaintext aad)
          refl

    -- Encryption again under another keyring gives a secret that names that keyring's active key
    -- and that the keyring decrypts to the same plaintext, when both nonces have 12 bytes and that
    -- keyring has the first one's active key under its ID.
    pub reencrypt-rotates :
        (ring later : Keyring lib) (nonce again plaintext aad : lib.Bytes) (e f : EncryptedSecret)
        → encrypt lib ring nonce plaintext aad ≡ ok e
        → lib.byte_count nonce ≡ 12
        → lib.byte_count again ≡ 12
        → get ring.active_key_id later.keys ≡ get ring.active_key_id ring.keys
        → reencrypt lib later again e aad ≡ ok f
        → (f.key_id ≡ later.active_key_id) × (decrypt lib later f aad ≡ ok plaintext)
    unfolding reencrypt
    reencrypt-rotates ring later nonce again plaintext aad e f h n m same r =
        let opened = decrypt-encrypt ring later nonce plaintext aad e h n same in
        let fresh : encrypt lib later again plaintext aad ≡ ok f = rw (reencrypt, opened) at r in
        let (p, q, (key, g, built)) = encrypt-ok later again plaintext aad f fresh in
        (rw (← built) refl, decrypt-encrypt later later again plaintext aad f fresh m refl)
