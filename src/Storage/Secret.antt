-- ===== src/Storage/Secret.antt =====
-- crates/pipe-bolt-storage/src/secret.rs: secrets under AES-256-GCM, and the ring of keys. The cipher
-- of the library, base64 and UTF-8 decoding and the random generator are parameters.
use pipe_bolt.Prelude.{
  Bool, List, Option, Result, [], all, err, is_empty, length, ltb, map_err, none, not, ok,
  reject_if, some, ℕ, ◌==◌, ◌>>=◌, ◌>>◌, ◌||◌, ◌∷◌,
}
use pipe_bolt.Text.{Str, byte_len, codes, is_ascii_alphanumeric, str_eq, trim}
use pipe_bolt.Map.{BTreeMap, contains_key, insert, lookup}
use pipe_bolt.Storage.{
  EncryptedSecret, SecretCipher, StorageError, invalid_secret_encoding, invalid_secret_key,
  secret_crypto, unknown_secret_key,
}
use pipe_bolt.Command.{string_bytes}
use pipe_bolt.Effects.{Effect}

-- What the code uses of aes_gcm, base64 and of the standard library.
pub record CryptoLib (W : Type 0) : Type 1 where
  pub Key : Type 0
  -- `Aes256Gcm::new_from_slice`
  pub new_from_slice : List ℕ → Option Key
  -- `Aead::encrypt` and `Aead::decrypt`: key, nonce, message and associated data
  pub seal : Key → List ℕ → List ℕ → List ℕ → Option (List ℕ)
  pub unseal : Key → List ℕ → List ℕ → List ℕ → Option (List ℕ)
  pub encode64 : List ℕ → Str
  pub decode64 : Str → Result Str (List ℕ)
  -- `String::from_utf8`
  pub from_utf8 : List ℕ → Option Str
  -- `SysRng::try_fill_bytes` on 12 bytes
  pub random_nonce : W → Option (List ℕ) × W

abbrev pub aes_gcm : Str
aes_gcm = codes "AES-256-GCM"

abbrev pub is_key_id_byte : ℕ → Bool
is_key_id_byte c = is_ascii_alphanumeric c || c == b'_' || c == b'-' || c == b'.' || c == b':'

unfoldable pub validate_key_id : Str → Result StorageError (Unit {0})
validate_key_id key_id = do
  reject_if (is_empty (trim key_id) || ltb 96 (byte_len key_id))
      (invalid_secret_key "key_id must be non-empty and at most 96 bytes")
  reject_if (not (all is_key_id_byte key_id))
      (invalid_secret_key "key_id contains unsupported characters")

-- `ok_or` and `map_err` of an option
abbrev pub ok_or : {A : Type 0} → StorageError → Option A → Result StorageError A
ok_or e none = err e
ok_or e (some a) = ok a

module _ {W : Type 0} (L : CryptoLib W) where
  open L use {Key, new_from_slice, seal, unseal, encode64, decode64, from_utf8, random_nonce}

  pub record AesGcmSecretCipher : Type 0 where
    pub key_id : Str
    pub cipher : Key

  -- `AesGcmSecretCipher::from_base64_key`
  unfoldable pub from_base64_key : Str → Str → Result StorageError AesGcmSecretCipher
  from_base64_key key_id key_b64 = do
    validate_key_id key_id
    key ← map_err invalid_secret_encoding (decode64 key_b64)
    reject_if (not (length key == 32))
        (invalid_secret_key "AES-256-GCM key must decode to 32 bytes")
    cipher ← ok_or (invalid_secret_key "AES-256-GCM key initialization failed") (new_from_slice key)
    ok (record { key_id = key_id; cipher = cipher })

  abbrev pub encrypted : Str → List ℕ → Option (List ℕ) → Result StorageError EncryptedSecret
  encrypted key_id nonce none = err (secret_crypto "encrypt")
  encrypted key_id nonce (some ciphertext) = ok (record {
    algorithm = aes_gcm;
    key_id = key_id;
    nonce = encode64 nonce;
    ciphertext = encode64 ciphertext;
  })

  -- `AesGcmSecretCipher::encrypt` once the random generator has answered.
  unfoldable pub encrypt_with :
      AesGcmSecretCipher → Str → Str → Option (List ℕ) → Result StorageError EncryptedSecret
  encrypt_with c plaintext aad none = err (secret_crypto "encrypt")
  encrypt_with c plaintext aad (some nonce) =
      encrypted c.key_id nonce (seal c.cipher nonce (string_bytes plaintext) (string_bytes aad))

  -- `AesGcmSecretCipher::encrypt`
  unfoldable pub encrypt_secret :
      AesGcmSecretCipher → Str → Str → Effect W StorageError EncryptedSecret
  unfolding encrypt_with
  encrypt_secret c plaintext aad w =
      (encrypt_with c plaintext aad (random_nonce w).0, (random_nonce w).1)

  -- `AesGcmSecretCipher::decrypt`
  unfoldable pub decrypt_secret :
      AesGcmSecretCipher → EncryptedSecret → Str → Result StorageError Str
  decrypt_secret c e aad = do
    reject_if (not (str_eq e.algorithm aes_gcm) || not (str_eq e.key_id c.key_id))
        (secret_crypto "decrypt")
    nonce ← map_err invalid_secret_encoding (decode64 e.nonce)
    reject_if (not (length nonce == 12)) (secret_crypto "decrypt")
    ciphertext ← map_err invalid_secret_encoding (decode64 e.ciphertext)
    plaintext ←
        ok_or (secret_crypto "decrypt") (unseal c.cipher nonce ciphertext (string_bytes aad))
    ok_or (secret_crypto "decrypt") (from_utf8 plaintext)

  pub record StorageKeyring : Type 0 where
    pub active_key_id : Str
    pub keys : BTreeMap AesGcmSecretCipher

  -- The loop of `StorageKeyring::from_base64_keys`: the ciphers so far and the keys left.
  unfoldable pub add_keys :
      BTreeMap AesGcmSecretCipher
      → List (Str × Str)
      → Result StorageError (BTreeMap AesGcmSecretCipher)
  add_keys ciphers [] = ok ciphers
  add_keys ciphers ((key_id, key_b64) ∷ keys) = validate_key_id key_id >>= λ _.
      reject_if (contains_key key_id ciphers) (invalid_secret_key "duplicate storage key id")
      >>= λ _.
          from_base64_key key_id key_b64 >>= λ cipher. add_keys (insert key_id cipher ciphers) keys

  -- `StorageKeyring::from_base64_keys`
  unfoldable pub from_base64_keys : Str → List (Str × Str) → Result StorageError StorageKeyring
  from_base64_keys active_key_id keys = do
    validate_key_id active_key_id
    ciphers ← add_keys [] keys
    reject_if (not (contains_key active_key_id ciphers))
        (invalid_secret_key "active key id must exist in keyring")
    ok (record { active_key_id = active_key_id; keys = ciphers })

  -- `StorageKeyring::single`
  unfoldable pub single_keyring : Str → Str → Result StorageError StorageKeyring
  single_keyring key_id key_b64 = from_base64_keys key_id ((key_id, key_b64) ∷ [])

  abbrev pub encrypt_active :
      Option AesGcmSecretCipher → Str → Str → Effect W StorageError EncryptedSecret
  encrypt_active none plaintext aad w =
      (err (invalid_secret_key "active key id must exist in keyring"), w)
  encrypt_active (some c) plaintext aad w = encrypt_secret c plaintext aad w

  -- `StorageKeyring::encrypt`
  unfoldable pub encrypt_keyring :
      StorageKeyring → Str → Str → Effect W StorageError EncryptedSecret
  encrypt_keyring ring = encrypt_active (lookup ring.active_key_id ring.keys)

  -- `StorageKeyring::decrypt`
  unfoldable pub decrypt_keyring : StorageKeyring → EncryptedSecret → Str → Result StorageError Str
  decrypt_keyring ring e aad = do
    cipher ← ok_or (unknown_secret_key e.key_id) (lookup e.key_id ring.keys)
    decrypt_secret cipher e aad

  -- The keyring as a `SecretCipher`.
  abbrev pub keyring_cipher : StorageKeyring → SecretCipher W
  keyring_cipher ring = record {
    cipher_key_id = ring.active_key_id;
    encrypt = encrypt_keyring ring;
    decrypt = decrypt_keyring ring;
  }
