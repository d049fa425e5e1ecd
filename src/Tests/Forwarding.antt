-- ===== src/Tests/Forwarding.antt =====
-- The forwarder: its registry, the acceptance of requests, responses and the worker.
use pipe_bolt.Prelude.{
  [], arith, err, false, length, none, ok, refl, some, suc, true, zero, ℕ, ◌+◌, ◌∷◌, ◌≡◌, ◌≢◌,
}
use pipe_bolt.Text.{codes, str_eq}
use pipe_bolt.Map.{lookup}
use pipe_bolt.Egress.{default_policy}
use pipe_bolt.Dispatch.{ForwardRequest}
use pipe_bolt.Forwarder.{ForwardTarget, default_forward_limits, target, target_of}
use pipe_bolt.Forwarder.Registry.{Answer, target-Answer}
use pipe_bolt.Forwarder.Delivery.{
  Response, execute_request, read_chunks, read_limited_response, record_acceptance, too_large,
}
use pipe_bolt.Forwarder.Responses.{Reading, read_limited_response-Reading}
use pipe_bolt.Forwarder.Acceptance.{
  Forwarding, QueuedForwardRequest, SendResult, Serializer, encode_payload, full, queued_request,
  sent, try_forward, try_forward-Forwarding,
}
use pipe_bolt.Forwarder.Worker.{
  ForwardWorker, Reachable, aborting, count_sent, counts, finish_task, finishes, goes, new_worker,
  no_stats, receive, receives, send, sends, spawn_delivery, spawns, starts,
}
use pipe_bolt.Forwarder.Conservation.{Balanced, Reachable-Balanced, Reachable-permits}
use pipe_bolt.Tests.Samples.{hook, http, registry, registry_compiled, sample_event, urls}

target-Answer_example :
    Answer urls http default_forward_limits default_policy
      (codes "hook")
      (hook ∷ [])
      (target urls http registry (codes "hook"))
target-Answer_example =
    target-Answer urls http default_forward_limits default_policy (hook ∷ []) registry
      (codes "hook") registry_compiled

abbrev response : Response
response = record {
  http_status = 200;
  is_success = true;
  content_length = none;
  chunks = some 3 ∷ some 4 ∷ some 5 ∷ [];
}

read_limited_response-Reading_example :
    Reading 10 0 response.chunks (read_limited_response response 10)
read_limited_response-Reading_example = read_limited_response-Reading response 10 (omega arith) refl

response_over_limit : read_limited_response response 10 ≡ err too_large
unfolding read_limited_response read_chunks
response_over_limit = refl

abbrev serializer : Serializer ℕ
serializer = record { event_bytes = λ e. some e.id; projection_bytes = λ p. some [] }

-- A queue of one request, which is the number of requests in it.
abbrev short_queue : QueuedForwardRequest (ForwardTarget urls http) → ℕ → SendResult × ℕ
short_queue q zero = (sent, 1)
short_queue q (suc n) = (full, suc n)

abbrev request : ForwardRequest ℕ
request = record { event = sample_event; sink_id = codes "hook"; projection = none }

try_forward-Forwarding_example :
    Forwarding urls http serializer short_queue registry default_forward_limits request no_stats 0 (
      try_forward urls http serializer short_queue registry default_forward_limits request no_stats
        0)
try_forward-Forwarding_example =
    try_forward-Forwarding urls http serializer short_queue registry default_forward_limits request
      no_stats 0

request_queued :
    try_forward urls http serializer short_queue registry default_forward_limits request no_stats 0
    ≡ (ok (record { sink_id = codes "hook"; accepted = true }), (record_acceptance no_stats, 1))
unfolding try_forward queued_request encode_payload target target_of lookup str_eq
request_queued = refl

abbrev queued : QueuedForwardRequest ℕ
queued = record {
  event_id = codes "evt-test";
  sink_id = codes "hook";
  target = 0;
  payload = codes "{}";
}

-- A request is sent, counted, received, spawned, and finished by a response.
abbrev delivered_state : ForwardWorker ℕ
delivered_state =
    finish_task [] (execute_request false queued.event_id queued.sink_id (some response) 100) true
      (spawn_delivery queued 1 (receive queued [] (count_sent 0 (send queued (new_worker 2)))))

delivered-Reachable : Reachable 2 delivered_state
unfolding new_worker
delivered-Reachable =
    goes
      (goes
        (goes (goes (goes starts (sends queued refl)) (counts 0 refl))
          (receives queued [] (λ e. cc) refl refl))
        (spawns queued 1 (λ e. cc) refl refl))
      (finishes [] [] queued false (some response) 100 true refl)

Reachable-permits_example : delivered_state.permits + length delivered_state.running ≡ 2
Reachable-permits_example = Reachable-permits 2 delivered-Reachable

Reachable-Balanced_example : Balanced delivered_state
unfolding new_worker
Reachable-Balanced_example = Reachable-Balanced 2 delivered-Reachable not_aborting
  where
    not_aborting : delivered_state.stage ≢ aborting
    not_aborting e = cc
