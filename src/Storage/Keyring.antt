-- ===== src/Storage/Keyring.antt =====
-- Secrets and their keys: what one ring of keys has encrypted, any ring that holds the key decrypts.
use pipe_bolt.Prelude.{
  >>=-eq-ok, All, List, Option, [], ap, inl, inr, length, map_err, none, not, ok, ok-injective,
  refl, reject_if, some, subst, sym, ℕ, ◌==◌, ◌∙◌, ◌∷◌, ◌≡◌,
}
use pipe_bolt.Text.{Str}
use pipe_bolt.Text.Equality.{str_eq-cases, str_eq_refl}
use pipe_bolt.Map.{All-insert, BTreeMap, contains_key, insert, keys, lookup}
use pipe_bolt.Storage.{EncryptedSecret, invalid_secret_encoding}
use pipe_bolt.Storage.Secret.{
  AesGcmSecretCipher, CryptoLib, StorageKeyring, add_keys, aes_gcm, decrypt_keyring, decrypt_secret,
  encrypt_active, encrypt_keyring, encrypt_secret, encrypt_with, encrypted, from_base64_key,
  from_base64_keys, ok_or, validate_key_id,
}
use pipe_bolt.Command.{string_bytes}

module _ {W : Type 0} (L : CryptoLib W) where
  open L use {Key, new_from_slice, seal, unseal, encode64, decode64, from_utf8, random_nonce}

  -- A cipher stands under its own key id.
  abbrev IsUnderId : Str × AesGcmSecretCipher L → Type 0
  IsUnderId kv = kv.1.key_id ≡ kv.0

  lookup-IsUnderId :
      (k : Str) (m : BTreeMap (AesGcmSecretCipher L)) (c : AesGcmSecretCipher L)
      → All IsUnderId m
      → lookup k m ≡ some c
      → c.key_id ≡ k
  unfolding lookup
  lookup-IsUnderId k [] c all_under h = cc
  lookup-IsUnderId k ((j, d) ∷ m) c (p, all_under) h = elim (str_eq-cases j k) [
    | inl (e, same) ↦
        let found : ◌≡◌ {A = Option (AesGcmSecretCipher L)} (some d) (some c) = rw e at h in
        cc (found, p, same)
    | inr (e, other) ↦ lookup-IsUnderId k m c all_under (rw e at h)
  ]

  from_base64_key-key_id :
      (key_id key : Str) {c : AesGcmSecretCipher L}
      → from_base64_key L key_id key ≡ ok c
      → c.key_id ≡ key_id
  unfolding from_base64_key
  from_base64_key-key_id key_id key h =
      let (u, valid, h) = >>=-eq-ok (validate_key_id key_id) _ h in
      let (bytes, decoded, h) = >>=-eq-ok (map_err invalid_secret_encoding (decode64 key)) _ h in
      let (v, sized, h) = >>=-eq-ok (reject_if (not (length bytes == 32)) _) _ h in
      let (cipher, made, h) = >>=-eq-ok (ok_or _ (new_from_slice bytes)) _ h in
      ap (λ (c : AesGcmSecretCipher L). c.key_id) (sym (ok-injective h))

  add_keys-IsUnderId :
      (ciphers : BTreeMap (AesGcmSecretCipher L)) (keys : List (Str × Str))
      {out : BTreeMap (AesGcmSecretCipher L)}
      → All IsUnderId ciphers
      → add_keys L ciphers keys ≡ ok out
      → All IsUnderId out
  unfolding add_keys
  add_keys-IsUnderId ciphers [] p h = subst (All IsUnderId) (ok-injective h) p
  add_keys-IsUnderId ciphers ((key_id, key) ∷ keys) p h =
      let (u, valid, h) = >>=-eq-ok (validate_key_id key_id) _ h in
      let (v, new, h) = >>=-eq-ok (reject_if (contains_key key_id ciphers) _) _ h in
      let (cipher, made, h') = >>=-eq-ok (from_base64_key L key_id key) _ h in
      add_keys-IsUnderId (insert key_id cipher ciphers) keys
        (All-insert IsUnderId key_id cipher ciphers (from_base64_key-key_id key_id key made) p) h'

  from_base64_keys-IsUnderId :
      (active : Str) (keys : List (Str × Str)) (ring : StorageKeyring L)
      → from_base64_keys L active keys ≡ ok ring
      → All IsUnderId ring.keys
  unfolding from_base64_keys
  from_base64_keys-IsUnderId active keys ring h =
      let (u, valid, h) = >>=-eq-ok (validate_key_id active) _ h in
      let (ciphers, added, h) = >>=-eq-ok (add_keys L [] keys) _ h in
      let (v, present, h) = >>=-eq-ok (reject_if (not (contains_key active ciphers)) _) _ h in
      subst (λ (r : StorageKeyring L). All IsUnderId r.keys) (ok-injective h)
        (add_keys-IsUnderId [] keys tt added)

  module _ (seals : (k : Key) (n m a c : List ℕ) → seal k n m a ≡ some c → unseal k n c a ≡ some m)
      (encodes : (b : List ℕ) → decode64 (encode64 b) ≡ ok b)
      (nonces : (w : W) (n : List ℕ) → (random_nonce w).0 ≡ some n → length n ≡ 12) where
    decrypt_secret-encrypted :
        (c : AesGcmSecretCipher L) (plaintext aad : Str) (nonce : List ℕ) (sealed : Option (List ℕ))
        (e : EncryptedSecret)
        → from_utf8 (string_bytes plaintext) ≡ some plaintext
        → length nonce ≡ 12
        → seal c.cipher nonce (string_bytes plaintext) (string_bytes aad) ≡ sealed
        → encrypted L c.key_id nonce sealed ≡ ok e
        → (e.key_id ≡ c.key_id) × (decrypt_secret L c e aad ≡ ok plaintext)
    unfolding decrypt_secret
    decrypt_secret-encrypted c plaintext aad nonce none e utf8 twelve s h = cc
    decrypt_secret-encrypted c plaintext aad nonce (some ciphertext) e utf8 twelve s h =
        subst
          (λ (e : EncryptedSecret).
            (e.key_id ≡ c.key_id) × (decrypt_secret L c e aad ≡ ok plaintext))
          (ok-injective h)
          (
            refl,
            simp (
              str_eq_refl aes_gcm,
              str_eq_refl c.key_id,
              encodes nonce,
              encodes ciphertext,
              twelve,
              seals c.cipher nonce (string_bytes plaintext) (string_bytes aad) ciphertext s,
              utf8,
            ),
          )

    decrypt_secret-with :
        (c : AesGcmSecretCipher L) (plaintext aad : Str) (answer : Option (List ℕ))
        (e : EncryptedSecret) (w : W)
        → from_utf8 (string_bytes plaintext) ≡ some plaintext
        → (random_nonce w).0 ≡ answer
        → encrypt_with L c plaintext aad answer ≡ ok e
        → (e.key_id ≡ c.key_id) × (decrypt_secret L c e aad ≡ ok plaintext)
    unfolding encrypt_with
    decrypt_secret-with c plaintext aad none e w utf8 drawn h = cc
    decrypt_secret-with c plaintext aad (some nonce) e w utf8 drawn h =
        decrypt_secret-encrypted c plaintext aad nonce _ e utf8 (nonces w nonce drawn) refl h

    decrypt_keyring-cases :
        (old new : StorageKeyring L) (plaintext aad : Str) (e : EncryptedSecret) (w w' : W)
        (found : Option (AesGcmSecretCipher L))
        → from_utf8 (string_bytes plaintext) ≡ some plaintext
        → All IsUnderId old.keys
        → lookup old.active_key_id old.keys ≡ found
        → lookup old.active_key_id new.keys ≡ found
        → encrypt_active L found plaintext aad w ≡ (ok e, w')
        → decrypt_keyring L new e aad ≡ ok plaintext
    unfolding encrypt_secret decrypt_keyring
    decrypt_keyring-cases old new plaintext aad e w w' none utf8 under was is h = cc
    decrypt_keyring-cases old new plaintext aad e w w' (some c) utf8 under was is h =
        let encrypts : encrypt_with L c plaintext aad (random_nonce w).0 ≡ ok e = cc h in
        let (key, decrypts) = decrypt_secret-with c plaintext aad _ e w utf8 refl encrypts in
        let active : e.key_id ≡ old.active_key_id =
          key ∙ lookup-IsUnderId old.active_key_id old.keys c under was in
        simp (active, is, decrypts)

-- A secret that a ring of keys has encrypted is decrypted, under the same associated data, by every
-- ring that has the same cipher under the key id that was active, whichever of its own keys is
-- active now; so keys can be rotated. The library is taken to decrypt what it has sealed, and the
-- encodings to be undone.
pub decrypt_keyring-encrypt :
    {W : Type 0} (L : CryptoLib W) (active : Str) (given : List (Str × Str))
    (old new : StorageKeyring L) (plaintext aad : Str) (e : EncryptedSecret) (w w' : W)
    → ((k : L.Key) (n m a c : List ℕ) → L.seal k n m a ≡ some c → L.unseal k n c a ≡ some m)
    → ((b : List ℕ) → L.decode64 (L.encode64 b) ≡ ok b)
    → ((v : W) (n : List ℕ) → (L.random_nonce v).0 ≡ some n → length n ≡ 12)
    → L.from_utf8 (string_bytes plaintext) ≡ some plaintext
    → from_base64_keys L active given ≡ ok old
    → lookup old.active_key_id new.keys ≡ lookup old.active_key_id old.keys
    → encrypt_keyring L old plaintext aad w ≡ (ok e, w')
    → decrypt_keyring L new e aad ≡ ok plaintext
unfolding encrypt_keyring
decrypt_keyring-encrypt L active given old new plaintext aad e w w' seals encodes nonces utf8 built
      kept h =
    decrypt_keyring-cases L seals encodes nonces old new plaintext aad e w w' _ utf8
      (from_base64_keys-IsUnderId L active given old built) refl kept h
