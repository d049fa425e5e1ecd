-- ===== src/Api.antt =====
-- crates/pipe-bolt-api: the errors of error.rs. A message is its text, with the details of a conflict
-- left out.
pub mod Auth
pub mod Access
pub mod Bearer
use pipe_bolt.Prelude.{max, ℕ}
use pipe_bolt.Text.{Str}

pub data ApiError : Type 0 where
  unauthorized : ApiError
  forbidden bad_request not_found : Str → ApiError
  conflict unprocessable_entity : Str → ApiError
  payload_too_large : ℕ → ℕ → ApiError
  too_many_requests service_unavailable internal : Str → ApiError

-- `ApiError::status_code`
abbrev pub status_code : ApiError → ℕ
status_code unauthorized = 401
status_code (forbidden message) = 403
status_code (bad_request message) = 400
status_code (not_found message) = 404
status_code (conflict message) = 409
status_code (unprocessable_entity message) = 422
status_code (payload_too_large actual max) = 413
status_code (too_many_requests message) = 429
status_code (service_unavailable message) = 503
status_code (internal message) = 500
