-- ===== src/Forwarder.antt =====
-- crates/pipe-bolt-core/src/forwarder.rs: the limits of the forwarder, its sinks, and the acceptance of
-- requests. The HTTP types of the libraries, the serializers and the channel are parameters.
pub mod Registry
pub mod Acceptance
pub mod Delivery
pub mod Responses
pub mod Worker
pub mod Conservation
use pipe_bolt.Prelude.{
  Bool, List, Option, Result, String, [], err, if◌then◌else◌, length, ltb, min, none, not, ok,
  reject_if, some, ℕ, ◌==◌, ◌>>=◌, ◌>>◌, ◌||◌, ◌∷◌,
}
use pipe_bolt.Text.{Str, byte_len, codes, str_eq}
use pipe_bolt.Map.{BTreeMap, contains_key, insert, lookup}
use pipe_bolt.Domain.Id.{Identifier}
use pipe_bolt.Domain.Config.{
  Duration, HttpHeaderTemplate, HttpMethod, SinkDefinition, SinkKind, database, from_millis,
  from_secs, webhook,
}
use pipe_bolt.Error.{
  DispatchError, invalid_dispatch_config, sink_disabled, sink_not_found, unsupported_sink_kind,
}
use pipe_bolt.Egress.{EgressPolicy, UrlLib, parse_url}

pub record ForwardLimits : Type 0 where
  pub queue_capacity : ℕ
  pub result_queue_capacity : ℕ
  pub max_request_body_bytes : ℕ
  pub max_response_body_bytes : ℕ
  pub max_headers : ℕ
  pub max_header_name_bytes : ℕ
  pub max_header_value_bytes : ℕ
  pub max_in_flight : ℕ
  pub max_timeout : Duration
  pub graceful_shutdown_timeout : Duration

abbrev pub default_forward_limits : ForwardLimits
default_forward_limits = record {
  queue_capacity = 1024;
  result_queue_capacity = 1024;
  max_request_body_bytes = 262144;
  max_response_body_bytes = 65536;
  max_headers = 32;
  max_header_name_bytes = 128;
  max_header_value_bytes = 4096;
  max_in_flight = 32;
  max_timeout = from_secs 30;
  graceful_shutdown_timeout = from_secs 10;
}

abbrev pub min_timeout : Duration
min_timeout = from_millis 10

abbrev pub refuse_config : Bool → String → Result DispatchError (Unit {0})
refuse_config bad reason = reject_if bad (invalid_dispatch_config reason)

-- `validate_limits`
unfoldable pub validate_forward_limits : ForwardLimits → Result DispatchError (Unit {0})
validate_forward_limits l = do
  refuse_config (l.queue_capacity == 0) "forward queue capacity must be greater than zero"
  refuse_config (l.result_queue_capacity == 0)
      "forward result queue capacity must be greater than zero"
  refuse_config (l.max_request_body_bytes == 0)
      "max forward request body bytes must be greater than zero"
  refuse_config (l.max_response_body_bytes == 0)
      "max forward response body bytes must be greater than zero"
  refuse_config (l.max_headers == 0) "max forward headers must be greater than zero"
  refuse_config (l.max_header_name_bytes == 0 || l.max_header_value_bytes == 0)
      "max forward header bytes must be greater than zero"
  refuse_config (l.max_in_flight == 0) "max forward in-flight requests must be greater than zero"
  refuse_config (ltb l.max_timeout min_timeout) "max forward timeout is too small"
  refuse_config (ltb l.graceful_shutdown_timeout min_timeout)
      "forward graceful shutdown timeout is too small"

-- What the code uses of the HTTP library.
pub record HttpLib : Type 1 where
  pub HeaderName : Type 0
  pub HeaderValue : Type 0
  pub HeaderMap : Type 0
  pub from_bytes : Str → Option HeaderName
  pub as_str : HeaderName → Str
  pub from_str : Str → Option HeaderValue
  pub no_headers : HeaderMap
  pub insert_header : HeaderName → HeaderValue → HeaderMap → HeaderMap

abbrev pub is_text : String → Str → Bool
is_text literal s = str_eq s (codes literal)

-- `is_blocked_header` on the text of a name
unfoldable pub is_blocked_header : Str → Bool
is_blocked_header name =
    is_text "connection" name
    || is_text "content-length" name
    || is_text "host" name
    || is_text "keep-alive" name
    || is_text "proxy-authenticate" name
    || is_text "proxy-authorization" name
    || is_text "te" name
    || is_text "trailer" name
    || is_text "transfer-encoding" name
    || is_text "upgrade" name

abbrev pub require : {A : Type 0} → String → Option A → Result DispatchError A
require reason none = err (invalid_dispatch_config reason)
require reason (some a) = ok a

unfoldable pub clamp_timeout : Duration → Duration → Result DispatchError Duration
clamp_timeout timeout max_timeout = do
  refuse_config (ltb timeout min_timeout) "sink webhook timeout is too small"
  ok (min timeout max_timeout)

module _ (H : HttpLib) where
  open H use {HeaderMap, from_bytes, as_str, from_str, no_headers, insert_header}

  -- One round of the loop of `compile_headers`.
  unfoldable pub compile_header :
      HttpHeaderTemplate → ForwardLimits → HeaderMap → Result DispatchError HeaderMap
  compile_header header limits compiled = do
    refuse_config (ltb limits.max_header_name_bytes (byte_len header.name))
        "sink webhook header name is too large"
    refuse_config (ltb limits.max_header_value_bytes (byte_len header.value))
        "sink webhook header value is too large"
    name ← require "sink webhook header name is invalid" (from_bytes header.name)
    value ← require "sink webhook header value is invalid" (from_str header.value)
    refuse_config (is_blocked_header (as_str name))
        "sink webhook header is controlled by the HTTP client"
    ok (insert_header name value compiled)

  unfoldable pub compile_each :
      List HttpHeaderTemplate → ForwardLimits → HeaderMap → Result DispatchError HeaderMap
  unfolding compile_header
  compile_each [] limits compiled = ok compiled
  compile_each (header ∷ headers) limits compiled =
      compile_header header limits compiled >>= λ next. compile_each headers limits next

  unfoldable pub compile_headers :
      List HttpHeaderTemplate → ForwardLimits → Result DispatchError HeaderMap
  unfolding compile_each
  compile_headers headers limits = do
    refuse_config (ltb limits.max_headers (length headers)) "sink webhook has too many headers"
    compile_each headers limits no_headers

module _ (L : UrlLib) (H : HttpLib) where
  pub record ForwardTarget : Type 0 where
    pub url : L.Url
    pub method : HttpMethod
    pub headers : H.HeaderMap
    pub timeout : Duration

  pub data SinkState : Type 0 where
    enabled_sink : ForwardTarget → SinkState
    disabled_sink unsupported_sink : SinkState

  -- The state of a sink of a kind that is enabled.
  unfoldable pub compile_kind :
      SinkKind → ForwardLimits → EgressPolicy → Result DispatchError SinkState
  compile_kind (database connection_ref table) limits policy = ok unsupported_sink
  compile_kind (webhook url method headers timeout) limits policy = do
    parsed ← parse_url L url policy
    compiled ← compile_headers H headers limits
    clamped ← clamp_timeout timeout limits.max_timeout
    ok (
        enabled_sink
          (record { url = parsed; method = method; headers = compiled; timeout = clamped }))

  unfoldable pub compile_sink :
      SinkDefinition → ForwardLimits → EgressPolicy → Result DispatchError SinkState
  unfolding compile_kind
  compile_sink sink limits policy =
      if not sink.enabled then ok disabled_sink else compile_kind sink.kind limits policy

  -- The loop of `SinkRegistry::compile`: what has been compiled and the sinks left.
  unfoldable pub compile_sinks :
      BTreeMap SinkState
      → List SinkDefinition
      → ForwardLimits
      → EgressPolicy
      → Result DispatchError (BTreeMap SinkState)
  compile_sinks compiled [] limits policy = ok compiled
  compile_sinks compiled (sink ∷ sinks) limits policy =
      refuse_config (contains_key sink.id compiled) "duplicate sink id" >>= λ _.
      (compile_sink sink limits policy >>= λ state.
      compile_sinks (insert sink.id state compiled) sinks limits policy)

  -- `SinkRegistry::target` at what the map has for the id.
  unfoldable pub target_of : Identifier → Option SinkState → Result DispatchError ForwardTarget
  target_of id (some (enabled_sink target)) = ok target
  target_of id (some disabled_sink) = err (sink_disabled id)
  target_of id (some unsupported_sink) = err (unsupported_sink_kind id)
  target_of id none = err (sink_not_found id)

  -- `SinkRegistry::target`
  unfoldable pub target : BTreeMap SinkState → Identifier → Result DispatchError ForwardTarget
  unfolding target_of
  target registry id = target_of id (lookup id registry)
