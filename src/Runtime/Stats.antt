-- ===== src/Runtime/Stats.antt =====
-- The counters of the runtime, and the sinks of the dispatcher that it gives:
-- crates/pipe-bolt-daemon/src/runtime.rs. What the channels answer is a parameter.
use pipe_bolt.Prelude.{Bool, Result, err, false, ok, true, ℕ, ◌%◌, ◌+◌}
use pipe_bolt.Error.{DispatchError, command_queue_backpressure, command_queue_unavailable}
use pipe_bolt.Domain.Event.{NormalizedEvent}
use pipe_bolt.Dispatch.{CommandExecutionRequest, CommandRequestReceipt, RealtimePublishReceipt}
use pipe_bolt.Forwarder.Delivery.{bump}
use pipe_bolt.Forwarder.Acceptance.{SendResult, closed, full, sent}
use pipe_bolt.Command.Template.{saturating_usize_to_u64}

pub record RuntimeStats : Type 0 where
  pub normalized_total : ℕ
  pub matched_rule_total : ℕ
  pub action_intent_total : ℕ
  pub dispatch_failed_total : ℕ
  pub realtime_event_published_total : ℕ
  pub realtime_event_no_receiver_total : ℕ
  pub forward_outcome_total : ℕ
  pub delivery_outcome_persist_failed_total : ℕ
  pub command_queued_total : ℕ
  pub command_queue_full_total : ℕ
  pub command_queue_closed_total : ℕ
  pub command_render_failed_total : ℕ
  pub command_publish_enqueue_failed_total : ℕ
  pub command_published_total : ℕ
  pub command_publish_failed_total : ℕ
  pub command_status_update_failed_total : ℕ

-- `fetch_add` of a length on an `AtomicU64`
abbrev pub add_wrapping : ℕ → ℕ → ℕ
add_wrapping n k = (n + saturating_usize_to_u64 k) % 18446744073709551616

abbrev pub record_normalized : RuntimeStats → RuntimeStats
record_normalized s = record s { normalized_total = bump s.normalized_total }

abbrev pub record_rule_evaluation : ℕ → ℕ → RuntimeStats → RuntimeStats
record_rule_evaluation matched_rules action_intents s = record s {
  matched_rule_total = add_wrapping s.matched_rule_total matched_rules;
  action_intent_total = add_wrapping s.action_intent_total action_intents;
}

abbrev pub record_dispatch_failures : ℕ → RuntimeStats → RuntimeStats
record_dispatch_failures failures s = record s {
  dispatch_failed_total = add_wrapping s.dispatch_failed_total failures;
}

abbrev pub record_realtime_event_published : RuntimeStats → RuntimeStats
record_realtime_event_published s = record s {
  realtime_event_published_total = bump s.realtime_event_published_total;
}

abbrev pub record_realtime_event_no_receiver : RuntimeStats → RuntimeStats
record_realtime_event_no_receiver s = record s {
  realtime_event_no_receiver_total = bump s.realtime_event_no_receiver_total;
}

abbrev pub record_forward_outcome_total : RuntimeStats → RuntimeStats
record_forward_outcome_total s = record s { forward_outcome_total = bump s.forward_outcome_total }

abbrev pub record_command_queued : RuntimeStats → RuntimeStats
record_command_queued s = record s { command_queued_total = bump s.command_queued_total }

abbrev pub record_command_queue_full : RuntimeStats → RuntimeStats
record_command_queue_full s = record s {
  command_queue_full_total = bump s.command_queue_full_total;
}

abbrev pub record_command_queue_closed : RuntimeStats → RuntimeStats
record_command_queue_closed s = record s {
  command_queue_closed_total = bump s.command_queue_closed_total;
}

abbrev pub record_command_render_failed : RuntimeStats → RuntimeStats
record_command_render_failed s = record s {
  command_render_failed_total = bump s.command_render_failed_total;
}

abbrev pub record_command_publish_enqueue_failed : RuntimeStats → RuntimeStats
record_command_publish_enqueue_failed s = record s {
  command_publish_enqueue_failed_total = bump s.command_publish_enqueue_failed_total;
}

abbrev pub record_command_published : RuntimeStats → RuntimeStats
record_command_published s = record s { command_published_total = bump s.command_published_total }

abbrev pub record_command_publish_failed : RuntimeStats → RuntimeStats
record_command_publish_failed s = record s {
  command_publish_failed_total = bump s.command_publish_failed_total;
}

abbrev pub record_command_status_update_failed : RuntimeStats → RuntimeStats
record_command_status_update_failed s = record s {
  command_status_update_failed_total = bump s.command_status_update_failed_total;
}

pub data RuntimeCommandQueueError : Type 0 where
  queue_full queue_closed : RuntimeCommandQueueError

module _ {W : Type 0} where
  -- `RuntimeCommandQueueHandle::try_enqueue` at the answer of the channel.
  abbrev pub enqueued :
      SendResult × W
      → RuntimeStats
      → Result RuntimeCommandQueueError (Unit {0}) × (RuntimeStats × W)
  enqueued (sent, w) stats = (ok tt, (record_command_queued stats, w))
  enqueued (full, w) stats = (err queue_full, (record_command_queue_full stats, w))
  enqueued (closed, w) stats = (err queue_closed, (record_command_queue_closed stats, w))

  -- `RuntimeRealtimeSink::try_publish` at the answer of the channel, which says whether it has a
  -- receiver.
  abbrev pub published :
      Bool × W → RuntimeStats → Result DispatchError RealtimePublishReceipt × (RuntimeStats × W)
  published (true, w) stats =
      (ok (record { accepted = true }), (record_realtime_event_published stats, w))
  published (false, w) stats =
      (ok (record { accepted = true }), (record_realtime_event_no_receiver stats, w))

abbrev pub queue_failure : RuntimeCommandQueueError → DispatchError
queue_failure queue_full = command_queue_backpressure
queue_failure queue_closed = command_queue_unavailable

-- The result of `try_enqueue_command`, from its receipt.
abbrev pub receipt_or :
    CommandRequestReceipt
    → Result RuntimeCommandQueueError (Unit {0})
    → Result DispatchError CommandRequestReceipt
receipt_or receipt (ok u) = ok receipt
receipt_or receipt (err e) = err (queue_failure e)

module _ {N W : Type 0} where
  unfoldable pub try_enqueue :
      (CommandExecutionRequest N → W → SendResult × W)
      → CommandExecutionRequest N
      → RuntimeStats
      → W
      → Result RuntimeCommandQueueError (Unit {0}) × (RuntimeStats × W)
  try_enqueue try_send request stats w = enqueued (try_send request w) stats

  -- `try_enqueue_command` of `CommandRequestQueue`
  unfoldable pub try_enqueue_request :
      (CommandExecutionRequest N → W → SendResult × W)
      → CommandExecutionRequest N
      → RuntimeStats × W
      → Result DispatchError CommandRequestReceipt × (RuntimeStats × W)
  try_enqueue_request try_send request (stats, w) =
      let (result, after) = try_enqueue try_send request stats w in
      (
        receipt_or
            (record {
              command_execution_id = request.command_execution_id;
              command_template_id = request.command_template_id;
              accepted = true;
            })
            result,
        after,
      )

  -- `RuntimeRealtimeSink::try_publish`
  unfoldable pub try_publish_event :
      (NormalizedEvent N → W → Bool × W)
      → NormalizedEvent N
      → RuntimeStats × W
      → Result DispatchError RealtimePublishReceipt × (RuntimeStats × W)
  try_publish_event send event (stats, w) = published (send event w) stats
