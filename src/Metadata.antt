-- ===== src/Metadata.antt =====
-- crates/pipe-bolt-core/src/action_metadata.rs: metadata that actions may set.
use pipe_bolt.Prelude.{
  List, Result, String, [], any, arith, false, is_empty, ltb, ok, reject_if, ℕ, ◌>>◌, ◌↔◌, ◌∷◌, ◌≡◌,
  ◌≤◌,
}
use pipe_bolt.Text.{Str, byte_len, codes, is_ascii_control, starts_with}

pub record ActionMetadataLimits : Type 0 where
  pub max_key_bytes : ℕ
  pub max_value_bytes : ℕ

pub data MetadataValidationError : Type 0 where
  invalid_key : String → MetadataValidationError
  value_too_large : ℕ → ℕ → MetadataValidationError

-- `RESERVED_METADATA_PREFIXES`
abbrev pub reserved_metadata_prefixes : List Str
reserved_metadata_prefixes = codes "pipe_bolt." ∷ codes "_pipe_bolt." ∷ []

unfoldable pub validate_action_metadata :
    Str → Str → ActionMetadataLimits → Result MetadataValidationError (Unit {0})
validate_action_metadata key value limits = do
  reject_if (is_empty key) (invalid_key "key must not be empty")
  reject_if (ltb limits.max_key_bytes (byte_len key)) (invalid_key "key exceeds maximum length")
  reject_if (any is_ascii_control key) (invalid_key "key must not contain control characters")
  reject_if (any (λ prefix. starts_with prefix key) reserved_metadata_prefixes)
      (invalid_key "key uses reserved prefix")
  reject_if (ltb limits.max_value_bytes (byte_len value))
      (value_too_large (byte_len value) limits.max_value_bytes)

-- The entries that actions may set: a key that is not empty, fits, and is neither a control text nor
-- one of the platform's own, and a value that fits.
pub record IsAllowed (limits : ActionMetadataLimits) (key value : Str) : Type 0 where
  pub named : is_empty key ≡ false
  pub key_fits : byte_len key ≤ limits.max_key_bytes
  pub no_control : any is_ascii_control key ≡ false
  pub not_ours : starts_with (codes "pipe_bolt.") key ≡ false
  pub not_ours_hidden : starts_with (codes "_pipe_bolt.") key ≡ false
  pub value_fits : byte_len value ≤ limits.max_value_bytes

-- The validation of metadata accepts exactly the allowed entries.
pub validate_action_metadata_iff :
    (key value : Str) (limits : ActionMetadataLimits)
    → (validate_action_metadata key value limits ≡ ok tt) ↔ IsAllowed limits key value
unfolding validate_action_metadata
validate_action_metadata_iff key value limits = (
  λ h. record {
    named = ground arith;
    key_fits = ground arith;
    no_control = ground arith;
    not_ours = ground arith;
    not_ours_hidden = ground arith;
    value_fits = ground arith;
  },
  λ h. ground arith,
)
