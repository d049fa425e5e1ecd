-- ===== src/Tests/Stored.antt =====
-- Stored configurations, and the secrets in them.
use pipe_bolt.Prelude.{
  some-injective, All, List, Result, String, [], length, none, ok, refl, some, subst, sym, true, ℕ,
  ◌+◌, ◌∷◌, ◌≡◌,
}
use pipe_bolt.Text.{Str, byte_len, codes, str_eq, trim}
use pipe_bolt.Map.{contains_key, insert, lookup}
use pipe_bolt.Domain.Id.{validate_text}
use pipe_bolt.Domain.Config.{
  BrokerConnectionConfig, SinkDefinition, from_millis, from_secs, native_roots, post, webhook,
}
use pipe_bolt.Domain.Config.Validate.{
  new_secret, validate_broker, validate_credentials, validate_reconnect, validate_sink,
}
use pipe_bolt.Domain.Project.{ProjectConfig, validate_project}
use pipe_bolt.Storage.{EncryptedSecret, SecretCipher, StorageError}
use pipe_bolt.Storage.Secret.{
  CryptoLib, StorageKeyring, add_keys, decrypt_keyring, encrypt_keyring, encrypt_secret,
  encrypt_with, from_base64_key, from_base64_keys, validate_key_id,
}
use pipe_bolt.Storage.Keyring.{decrypt_keyring-encrypt}
use pipe_bolt.Storage.Codec.{
  StoredProjectConfig, broker_from_domain, broker_password_aad, credentials_from_domain, decode,
  encode, header_from_domain, kind_from_domain, optional_from_domain, sink_from_domain,
  sink_header_aad, stored_webhook,
}
use pipe_bolt.Storage.RoundTrip.{BrokerHasSecrets, SinkHasSecrets, decode-encode}
use pipe_bolt.Storage.Durations.{millis_of, seconds_of}
use pipe_bolt.Effects.{traverse}
use pipe_bolt.Command.{string_bytes}

-- The library seals nothing, and numbers the nonces.
abbrev open_crypto : CryptoLib ℕ
open_crypto = record {
  Key = List ℕ;
  new_from_slice = λ bytes. some bytes;
  seal = λ key nonce message aad. some message;
  unseal = λ key nonce message aad. some message;
  encode64 = λ bytes. bytes;
  decode64 = λ s. ok s;
  from_utf8 = λ bytes. some bytes;
  random_nonce = λ n. (some (n ∷ 0 ∷ 0 ∷ 0 ∷ 0 ∷ 0 ∷ 0 ∷ 0 ∷ 0 ∷ 0 ∷ 0 ∷ 0 ∷ []), n + 1);
}

abbrev key_bytes : Str
key_bytes = codes "0123456789abcdef0123456789abcdef"

abbrev old_ring : StorageKeyring open_crypto
old_ring = record {
  active_key_id = codes "key-1";
  keys = (codes "key-1", record { key_id = codes "key-1"; cipher = key_bytes }) ∷ [];
}

abbrev new_ring : StorageKeyring open_crypto
new_ring = record {
  active_key_id = codes "key-2";
  keys =
      (codes "key-2", record { key_id = codes "key-2"; cipher = key_bytes })
      ∷ (codes "key-1", record { key_id = codes "key-1"; cipher = key_bytes })
      ∷ [];
}

abbrev secret : EncryptedSecret
secret = record {
  algorithm = codes "AES-256-GCM";
  key_id = codes "key-1";
  nonce = 7 ∷ 0 ∷ 0 ∷ 0 ∷ 0 ∷ 0 ∷ 0 ∷ 0 ∷ 0 ∷ 0 ∷ 0 ∷ 0 ∷ [];
  ciphertext = codes "hunter2";
}

old_ring_made :
    from_base64_keys open_crypto (codes "key-1") ((codes "key-1", key_bytes) ∷ []) ≡ ok old_ring
unfolding from_base64_keys add_keys from_base64_key validate_key_id trim byte_len contains_key
    insert str_eq
old_ring_made = refl

secret_made :
    encrypt_keyring open_crypto old_ring (codes "hunter2") (codes "aad") 7 ≡ (ok secret, 8)
unfolding encrypt_keyring encrypt_secret encrypt_with lookup str_eq string_bytes
secret_made = refl

kept_key : lookup (codes "key-1") new_ring.keys ≡ lookup (codes "key-1") old_ring.keys
unfolding lookup str_eq
kept_key = refl

utf8_text : open_crypto.from_utf8 (string_bytes (codes "hunter2")) ≡ some (codes "hunter2")
unfolding string_bytes
utf8_text = refl

nonce_length : (v : ℕ) (n : List ℕ) → (open_crypto.random_nonce v).0 ≡ some n → length n ≡ 12
nonce_length v n h = subst (λ m. length m ≡ 12) (some-injective h) refl

decrypt_keyring-encrypt_example :
    decrypt_keyring open_crypto new_ring secret (codes "aad") ≡ ok (codes "hunter2")
decrypt_keyring-encrypt_example =
    decrypt_keyring-encrypt open_crypto (codes "key-1") ((codes "key-1", key_bytes) ∷ []) old_ring
      new_ring (codes "hunter2") (codes "aad") secret 7 8 (λ k n m a c h. sym h) (λ b. refl)
      nonce_length utf8_text old_ring_made kept_key secret_made

-- A keep-alive of 5.9 seconds is stored as 5 seconds.
seconds_cut : seconds_of (from_millis 5900) ≡ 5
unfolding seconds_of
seconds_cut = refl

millis_kept : millis_of (from_millis 250) ≡ 250
unfolding millis_of
millis_kept = refl

-- A cipher that writes the secret and its associated data down.
abbrev plain_cipher : SecretCipher ℕ
plain_cipher = record {
  cipher_key_id = codes "plain";
  encrypt = λ s aad w. (
    ok (record { algorithm = codes "plain"; key_id = codes "plain"; nonce = aad; ciphertext = s }),
    w + 1,
  );
  decrypt = λ e aad. ok e.ciphertext;
}

abbrev broker : BrokerConnectionConfig
broker = record {
  id = codes "broker-1";
  name = codes "Local";
  host = codes "localhost";
  port = 1883;
  tls = native_roots;
  credentials = some (record { username = codes "plant"; password = codes "hunter2" });
  keep_alive = from_secs 30;
  clean_session = true;
  client_id = codes "pipe-bolt";
  reconnect = record { min_delay = from_secs 1; max_delay = from_secs 30 };
  enabled = true;
}

abbrev sink : SinkDefinition
sink = record {
  id = codes "hook";
  name = codes "Webhook";
  enabled = true;
  kind =
      webhook (codes "https://example.com") post
        (record { name = codes "x-key"; value = codes "sesame" } ∷ []) (from_secs 5);
}

abbrev project : ProjectConfig ℕ
project = record {
  id = codes "project-1";
  tenant_id = none;
  name = codes "Plant";
  description = none;
  enabled = true;
  version = 1;
  brokers = broker ∷ [];
  routes = [];
  schema_mappings = [];
  rules = [];
  command_templates = [];
  sinks = sink ∷ [];
}

abbrev in_plain : String → String → EncryptedSecret
in_plain aad s = record {
  algorithm = codes "plain";
  key_id = codes "plain";
  nonce = codes aad;
  ciphertext = codes s;
}

abbrev stored_project : StoredProjectConfig ℕ
stored_project = record {
  id = codes "project-1";
  tenant_id = none;
  name = codes "Plant";
  description = none;
  enabled = true;
  version = 1;
  brokers =
      record {
        id = codes "broker-1";
        name = codes "Local";
        host = codes "localhost";
        port = 1883;
        tls = native_roots;
        credentials = some (record {
          username = codes "plant";
          password = in_plain "project:project-1:broker:broker-1:mqtt_password" "hunter2";
        });
        keep_alive = from_secs 30;
        clean_session = true;
        client_id = codes "pipe-bolt";
        reconnect = record { min_delay = from_secs 1; max_delay = from_secs 30 };
        enabled = true;
      }
      ∷ [];
  routes = [];
  schema_mappings = [];
  rules = [];
  command_templates = [];
  sinks =
      record {
        id = codes "hook";
        name = codes "Webhook";
        enabled = true;
        kind =
            stored_webhook (codes "https://example.com") post
              (record {
                name = codes "x-key";
                value = in_plain "project:project-1:sink:hook:header:x-key" "sesame";
              }
                ∷ [])
              (from_secs 5);
      }
      ∷ [];
}

project_encoded : encode plain_cipher project 0 ≡ (ok stored_project, 2)
unfolding encode broker_from_domain optional_from_domain credentials_from_domain sink_from_domain
    kind_from_domain header_from_domain broker_password_aad sink_header_aad traverse
project_encoded = refl

project_valid : validate_project project ≡ ok tt
unfolding validate_project validate_broker validate_credentials validate_reconnect validate_sink
    validate_text trim byte_len
project_valid = refl

brokers_have_secrets : All BrokerHasSecrets project.brokers
unfolding new_secret validate_text trim byte_len
brokers_have_secrets = (refl, tt)

sinks_have_secrets : All SinkHasSecrets project.sinks
unfolding new_secret validate_text trim byte_len
sinks_have_secrets = ((refl, tt), tt)

plain-faithful :
    (s aad : Str) (e : EncryptedSecret) (v v' : ℕ)
    → plain_cipher.encrypt s aad v ≡ (ok e, v')
    → plain_cipher.decrypt e aad ≡ ok s
plain-faithful s aad e v v' h =
    subst (λ (e : EncryptedSecret). plain_cipher.decrypt e aad ≡ ok s) (pair-eq h) refl
  where
    pair-eq :
        {a b : EncryptedSecret} {v w : ℕ}
        → ◌≡◌ {A = Result StorageError EncryptedSecret × ℕ} (ok a, v) (ok b, w)
        → a ≡ b
    pair-eq h = cc

decode-encode_example : decode plain_cipher stored_project ≡ ok project
decode-encode_example =
    decode-encode plain_cipher project stored_project 0 2 plain-faithful project_valid
      brokers_have_secrets sinks_have_secrets project_encoded
