-- ===== src/Domain/Error.antt =====
-- crates/pipe-bolt-domain/src/error.rs. The fixed texts of the source are literals.
use pipe_bolt.Prelude.{Option, Result, String, none, ok, some, ℕ}

pub data DomainError : Type 0 where
  empty_field : String → DomainError
  field_too_long : String → ℕ → DomainError
  invalid_control_characters : String → DomainError
  invalid_topic_filter : String → DomainError
  invalid_topic_name : String → DomainError
  invalid_field_path : String → DomainError
  invalid_broker_port : DomainError
  invalid_keep_alive : DomainError

-- The result of a validation.
abbrev pub Check : Type 0 → Type 0
Check E = Result E (Unit {0})

-- `if let Some(value) = &option { f(value)?; }`
abbrev pub for_some {ℓ} : {A : Type ℓ} {E : Type 0} → (A → Check E) → Option A → Check E
for_some f none = ok tt
for_some f (some a) = f a
