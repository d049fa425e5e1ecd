-- ===== src/Storage.antt =====
-- crates/pipe-bolt-storage/src/error.rs, and the trait `SecretCipher` of secret.rs.
pub mod Secret
pub mod Keyring
pub mod Codec
pub mod RoundTrip
pub mod Durations
use pipe_bolt.Prelude.{Option, Result, String, ℕ}
use pipe_bolt.Text.{Str}
use pipe_bolt.Domain.Error.{DomainError}
use pipe_bolt.Effects.{Effect}

-- The errors of libraries keep their texts.
pub data StorageError : Type 0 where
  invalid_storage_config : String → StorageError
  invalid_field : String → String → StorageError
  field_too_large : String → ℕ → ℕ → StorageError
  invalid_secret_key : String → StorageError
  unknown_secret_key : Str → StorageError
  invalid_secret_encoding : Str → StorageError
  secret_crypto : String → StorageError
  version_overflow : ℕ → StorageError
  numeric_overflow : String → StorageError
  project_config_not_found : Str → StorageError
  version_conflict : Str → Option ℕ → Option ℕ → StorageError
  invalid_stored_state : String → StorageError
  failure_not_found failure_already_resolved : Str → Str → StorageError
  storage_domain : DomainError → StorageError
  sqlx migration storage_json : Str → StorageError

pub record EncryptedSecret : Type 0 where
  pub algorithm : Str
  pub key_id : Str
  pub nonce : Str
  pub ciphertext : Str

-- The trait `SecretCipher`. To encrypt draws from the state `W` of a generator of random numbers.
pub record SecretCipher (W : Type 0) : Type 0 where
  pub cipher_key_id : Str
  pub encrypt : Str → Str → Effect W StorageError EncryptedSecret
  pub decrypt : EncryptedSecret → Str → Result StorageError Str
