-- ===== src/Forwarder/Acceptance.antt =====
-- How a request gets into the queue of the forwarder: crates/pipe-bolt-core/src/forwarder.rs. The
-- serializer and the sending half of the channel are parameters; what lies behind the channel is an
-- arbitrary state `W`.
use pipe_bolt.Prelude.{
  Bool-cases, List, Option, Option-cases, Result, Result-cases, err, if◌then◌else◌, inl, inr,
  length, ltb, ltb→le, ltb→lt, none, ok, refl, some, true, ℕ, ◌%◌, ◌+◌, ◌<◌, ◌>>=◌, ◌≡◌, ◌≤◌,
}
use pipe_bolt.Map.{BTreeMap}
use pipe_bolt.Json.{Value}
use pipe_bolt.Error.{
  DispatchError, forward_payload_encode, forward_payload_too_large, forwarder_backpressure,
  forwarder_unavailable,
}
use pipe_bolt.Domain.Id.{Identifier}
use pipe_bolt.Domain.Event.{NormalizedEvent}
use pipe_bolt.Dispatch.{ForwardReceipt, ForwardRequest}
use pipe_bolt.Forwarder.{ForwardLimits, ForwardTarget, HttpLib, SinkState}
use pipe_bolt.Forwarder.Delivery.{ForwarderStats, record_acceptance, record_backpressure}
use pipe_bolt.Egress.{UrlLib}
use pipe_bolt.Forwarder.{target}

pub record QueuedForwardRequest (T : Type 0) : Type 0 where
  pub event_id : Identifier
  pub sink_id : Identifier
  pub target : T
  pub payload : List ℕ

-- What `try_send` of the channel answers.
pub data SendResult : Type 0 where
  sent full closed : SendResult

-- `serde_json::to_vec`, if it can serialize.
pub record Serializer (N : Type 0) : Type 0 where
  pub event_bytes : NormalizedEvent N → Option (List ℕ)
  pub projection_bytes : BTreeMap (Value N) → Option (List ℕ)

module _ {N : Type 0} (serializer : Serializer N) where
  -- The bytes that `encode_payload` looks at.
  abbrev pub serialized : ForwardRequest N → Option (List ℕ)
  serialized request = elim request.projection [
    | none ↦ serializer.event_bytes request.event
    | some projection ↦ serializer.projection_bytes projection
  ]

  abbrev pub limit_payload : Option (List ℕ) → ℕ → Result DispatchError (List ℕ)
  limit_payload none max_bytes = err (forward_payload_encode "failed to serialize forward payload")
  limit_payload (some payload) max_bytes =
      if ltb max_bytes (length payload)
      then err (forward_payload_too_large (length payload) max_bytes)
      else ok payload

  unfoldable pub encode_payload : ForwardRequest N → ℕ → Result DispatchError (List ℕ)
  encode_payload request max_bytes = limit_payload (serialized request) max_bytes

module _ {N W : Type 0} (L : UrlLib) (H : HttpLib) (serializer : Serializer N)
    (try_send : QueuedForwardRequest (ForwardTarget L H) → W → SendResult × W) where
  -- `BoundedHttpForwarder::try_forward` at the answer of the channel.
  abbrev pub settle_send :
      Identifier
      → SendResult × W
      → ForwarderStats
      → Result DispatchError ForwardReceipt × (ForwarderStats × W)
  settle_send sink_id (sent, w) stats =
      (ok (record { sink_id = sink_id; accepted = true }), (record_acceptance stats, w))
  settle_send sink_id (full, w) stats = (err forwarder_backpressure, (record_backpressure stats, w))
  settle_send sink_id (closed, w) stats = (err forwarder_unavailable, (stats, w))

  -- The request that goes to the queue.
  unfoldable pub queued_request :
      BTreeMap (SinkState L H)
      → ForwardLimits
      → ForwardRequest N
      → Result DispatchError (QueuedForwardRequest (ForwardTarget L H))
  queued_request registry limits request = do
    found ← target L H registry request.sink_id
    payload ← encode_payload serializer request limits.max_request_body_bytes
    ok (record {
      event_id = request.event.id;
      sink_id = request.sink_id;
      target = found;
      payload = payload;
    })

  -- `BoundedHttpForwarder::try_forward`
  unfoldable pub try_forward :
      BTreeMap (SinkState L H)
      → ForwardLimits
      → ForwardRequest N
      → ForwarderStats
      → W
      → Result DispatchError ForwardReceipt × (ForwarderStats × W)
  try_forward registry limits request stats w = elim (queued_request registry limits request) [
    | err e ↦ (err e, (stats, w))
    | ok queued ↦ settle_send request.sink_id (try_send queued w) stats
  ]

  module _ (registry : BTreeMap (SinkState L H)) (limits : ForwardLimits)
      (request : ForwardRequest N) (stats : ForwarderStats) (w : W) where
    -- A request that is offered to the queue with a target and a payload, and the queue's answer.
    pub record IsOffered (t : ForwardTarget L H) (payload : List ℕ) (out : SendResult × W)
        : Type 0 where
      pub found : target L H registry request.sink_id ≡ ok t
      pub encoded : serialized serializer request ≡ some payload
      pub within : length payload ≤ limits.max_request_body_bytes
      pub answer :
          try_send
            (record {
              event_id = request.event.id;
              sink_id = request.sink_id;
              target = t;
              payload = payload;
            })
            w
          ≡ out

    -- The ways in which a request is taken or refused.
    pub data Forwarding : Result DispatchError ForwardReceipt × (ForwarderStats × W) → Type 0 where
      no_target :
          (e : DispatchError)
          → target L H registry request.sink_id ≡ err e
          → Forwarding (err e, (stats, w))
      unserializable :
          serialized serializer request ≡ none
          → Forwarding
              (err (forward_payload_encode "failed to serialize forward payload"), (stats, w))
      oversized :
          (payload : List ℕ)
          → serialized serializer request ≡ some payload
          → limits.max_request_body_bytes < length payload
          → Forwarding (
            err (forward_payload_too_large (length payload) limits.max_request_body_bytes),
            (stats, w),
          )
      accepted :
          (t : ForwardTarget L H) (payload : List ℕ) (v : W)
          → IsOffered t payload (sent, v)
          → Forwarding (
            ok (record { sink_id = request.sink_id; accepted = true }),
            (
              record stats { accepted_total = (stats.accepted_total + 1) % 18446744073709551616 },
              v,
            ),
          )
      overflowing :
          (t : ForwardTarget L H) (payload : List ℕ) (v : W)
          → IsOffered t payload (full, v)
          → Forwarding (
            err forwarder_backpressure,
            (
              record stats {
                backpressure_total = (stats.backpressure_total + 1) % 18446744073709551616;
              },
              v,
            ),
          )
      unavailable :
          (t : ForwardTarget L H) (payload : List ℕ) (v : W)
          → IsOffered t payload (closed, v)
          → Forwarding (err forwarder_unavailable, (stats, v))

    settled :
        (t : ForwardTarget L H) (payload : List ℕ) (out : SendResult × W)
        → IsOffered t payload out
        → Forwarding (settle_send request.sink_id out stats)
    settled t payload (sent, v) h = accepted t payload v h
    settled t payload (full, v) h = overflowing t payload v h
    settled t payload (closed, v) h = unavailable t payload v h

    -- A request is refused with nothing changed when its sink has no target, when it cannot be
    -- serialized, and when its payload is over the limit; otherwise it is offered to the queue with
    -- the target of its sink and its payload. If the queue takes it, it is accepted and the counter of
    -- accepted requests goes up; if the queue is full, it is refused for backpressure and the counter
    -- of these goes up; if the queue is closed, it is refused and no counter changes. The counters
    -- wrap around at 2^64.
    pub try_forward-Forwarding : Forwarding (try_forward registry limits request stats w)
    unfolding try_forward queued_request encode_payload
    try_forward-Forwarding = elim (Result-cases (target L H registry request.sink_id)) [
      | inr (e, e_t) ↦ rw (e_t, try_forward, queued_request) (no_target e e_t)
      | inl (t, e_t) ↦ elim (Option-cases (serialized serializer request)) [
        | inl e_s ↦ rw (e_t, e_s, try_forward, queued_request) (unserializable e_s)
        | inr (payload, e_s) ↦
            elim (Bool-cases (ltb limits.max_request_body_bytes (length payload))) [
              | inl over ↦
                  rw (e_t, e_s, over, try_forward, queued_request, encode_payload)
                    (oversized payload e_s (ltb→lt _ _ over))
              | inr fits ↦
                  rw (e_t, e_s, fits, try_forward, queued_request, encode_payload)
                    (settled t payload _ (record {
                      found = e_t;
                      encoded = e_s;
                      within = ltb→le _ _ fits;
                      answer = refl;
                    }))
            ]
      ]
    ]
