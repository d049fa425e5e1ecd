-- ===== src/Forwarder/Delivery.antt =====
-- The delivery of a request and its counters: crates/pipe-bolt-core/src/forwarder.rs. What the HTTP
-- client and the clock do is an argument: the answer of the client, if there is one, with its body as
-- the lengths of the chunks that are read, and whether the time limit ran out.
use pipe_bolt.Prelude.{
  Bool, List, Option, Result, [], err, false, if◌then◌else◌, length, ltb, none, ok, some, ℕ, ◌%◌,
  ◌+◌, ◌||◌, ◌∷◌,
}
use pipe_bolt.Domain.Id.{Identifier}
use pipe_bolt.Storage.Durations.{u64_max}

pub data ForwardFailureReason : Type 0 where
  request_failed response_read_failed worker_join_failed outcome_receiver_closed :
      ForwardFailureReason

pub data ForwardDeliveryStatus : Type 0 where
  delivered http_rejected : ℕ → ℕ → ForwardDeliveryStatus
  timed_out : ForwardDeliveryStatus
  response_too_large : ℕ → ForwardDeliveryStatus
  delivery_failed : ForwardFailureReason → ForwardDeliveryStatus

pub record ForwardDeliveryOutcome : Type 0 where
  pub event_id : Identifier
  pub sink_id : Identifier
  pub status : ForwardDeliveryStatus

pub data ResponseReadError : Type 0 where
  too_large read_failed : ResponseReadError

-- A chunk of the body is its length, or none if reading it failed.
pub record Response : Type 0 where
  pub http_status : ℕ
  pub is_success : Bool
  pub content_length : Option ℕ
  pub chunks : List (Option ℕ)

-- The loop of `read_limited_response`, at the total so far.
unfoldable pub read_chunks : ℕ → ℕ → List (Option ℕ) → Result ResponseReadError ℕ
read_chunks limit total [] = ok total
read_chunks limit total (none ∷ chunks) = err read_failed
read_chunks limit total (some n ∷ chunks) =
    let rest = read_chunks limit (total + n) chunks in
    if ltb u64_max (total + n) || ltb limit (total + n) then err too_large else rest

abbrev pub declares_more : Option ℕ → ℕ → Bool
declares_more none limit = false
declares_more (some length) limit = ltb limit length

unfoldable pub read_limited_response : Response → ℕ → Result ResponseReadError ℕ
unfolding read_chunks
read_limited_response response limit =
    if declares_more response.content_length limit
    then err too_large
    else read_chunks limit 0 response.chunks

-- The status that the result of reading a response gives.
abbrev pub read_status : Response → ℕ → Result ResponseReadError ℕ → ForwardDeliveryStatus
read_status response limit (err too_large) = response_too_large limit
read_status response limit (err read_failed) = delivery_failed response_read_failed
read_status response limit (ok bytes) =
    if response.is_success
    then delivered response.http_status bytes
    else http_rejected response.http_status bytes

-- `execute_request_inner` at the answer of the client.
unfoldable pub execute_request_inner :
    Identifier → Identifier → Option Response → ℕ → ForwardDeliveryOutcome
unfolding read_limited_response
execute_request_inner event_id sink_id none limit = record {
  event_id = event_id;
  sink_id = sink_id;
  status = delivery_failed request_failed;
}
execute_request_inner event_id sink_id (some response) limit = record {
  event_id = event_id;
  sink_id = sink_id;
  status = read_status response limit (read_limited_response response limit);
}

-- `execute_request`; the flag says whether the time limit ran out.
unfoldable pub execute_request :
    Bool → Identifier → Identifier → Option Response → ℕ → ForwardDeliveryOutcome
unfolding execute_request_inner
execute_request late event_id sink_id answer limit =
    if late
    then (record { event_id = event_id; sink_id = sink_id; status = timed_out })
    else execute_request_inner event_id sink_id answer limit

-- `fetch_add(1)` on an `AtomicU64`
abbrev pub bump : ℕ → ℕ
bump n = (n + 1) % 18446744073709551616

pub record ForwarderStats : Type 0 where
  pub accepted_total : ℕ
  pub backpressure_total : ℕ
  pub delivered_total : ℕ
  pub rejected_total : ℕ
  pub timed_out_total : ℕ
  pub failed_total : ℕ
  pub response_too_large_total : ℕ
  pub outcome_dropped_total : ℕ

abbrev pub record_acceptance : ForwarderStats → ForwarderStats
record_acceptance s = record s { accepted_total = bump s.accepted_total }

abbrev pub record_backpressure : ForwarderStats → ForwarderStats
record_backpressure s = record s { backpressure_total = bump s.backpressure_total }

abbrev pub record_outcome_drop : ForwarderStats → ForwarderStats
record_outcome_drop s = record s { outcome_dropped_total = bump s.outcome_dropped_total }

abbrev pub record_failure : ForwarderStats → ForwarderStats
record_failure s = record s { failed_total = bump s.failed_total }

-- `record_outcome` at the status of the outcome
unfoldable pub record_status : ForwardDeliveryStatus → ForwarderStats → ForwarderStats
record_status (delivered code bytes) s = record s { delivered_total = bump s.delivered_total }
record_status (http_rejected code bytes) s = record s { rejected_total = bump s.rejected_total }
record_status timed_out s = record s { timed_out_total = bump s.timed_out_total }
record_status (response_too_large limit) s = record s {
  response_too_large_total = bump s.response_too_large_total;
}
record_status (delivery_failed reason) s = record_failure s

-- The task that `spawn_delivery` spawns, once its outcome is known; the flag says whether the queue of
-- results takes it.
unfoldable pub settle : ForwardDeliveryOutcome → Bool → ForwarderStats → ForwarderStats
unfolding record_status
settle outcome taken s =
    if taken
    then record_status outcome.status s
    else record_outcome_drop (record_status outcome.status s)

-- `record_join_result`; the flag says whether the task ended with an error.
unfoldable pub record_join_result : Bool → ForwarderStats → ForwarderStats
record_join_result failed s = if failed then record_failure s else s
