-- ===== src/Tests/Dispatching.antt =====
-- The dispatch of intents.
use pipe_bolt.Prelude.{List, Result, [], ap, false, map, none, ok, refl, true, ℕ, ◌++◌, ◌∷◌, ◌≡◌}
use pipe_bolt.Text.{byte_len, codes, starts_with, str_eq}
use pipe_bolt.Map.{contains_key, extend, insert}
use pipe_bolt.Metadata.{validate_action_metadata}
use pipe_bolt.Domain.Event.{ActionIntent, add_metadata, drop_event, stream_to_ui}
use pipe_bolt.Error.{DispatchError}
use pipe_bolt.Dispatch.{
  DispatchOutcome, Progress, added_metadata, after_drop, default_limits, dispatch, dispatch_all,
  dispatch_intent, dropped_event, enriched_event, event_mismatch, execute, insert_metadata, start,
  streamed_to_ui, validate_metadata,
}
use pipe_bolt.Dispatch.Drop.{dispatch_all-drop, skip_after_drop}
use pipe_bolt.Dispatch.Outcome.{Ending, dispatch-Ending}
use pipe_bolt.Dispatch.Overlay.{IsBounded, dispatch-IsBounded}
use pipe_bolt.Tests.Samples.{counters, sample_event}

abbrev before : List (ActionIntent ℕ)
before =
    add_metadata (codes "evt-test") (codes "severity") (codes "hot")
    ∷ stream_to_ui (codes "evt-test")
    ∷ stream_to_ui (codes "evt-other")
    ∷ []

abbrev after : List (ActionIntent ℕ)
after = stream_to_ui (codes "evt-test") ∷ []

abbrev intents : List (ActionIntent ℕ)
intents = before ++ (drop_event (codes "evt-test") none ∷ after)

abbrev reported : DispatchOutcome
reported = record {
  event_id = codes "evt-test";
  executed =
      added_metadata (codes "severity")
      ∷ streamed_to_ui (record { accepted = true })
      ∷ dropped_event
      ∷ [];
  skipped = event_mismatch "stream_to_ui" (codes "evt-other") ∷ after_drop "stream_to_ui" ∷ [];
  failed = [];
  dropped = true;
  metadata_overlay = (codes "severity", codes "hot") ∷ [];
}

dispatched : dispatch counters default_limits sample_event intents 0 ≡ (ok reported, 1)
unfolding dispatch dispatch_all dispatch_intent execute insert_metadata validate_metadata
    validate_action_metadata byte_len starts_with contains_key insert str_eq enriched_event extend
dispatched = refl

dispatch-Ending_example :
    Ending counters default_limits sample_event intents 0
      (dispatch counters default_limits sample_event intents 0)
dispatch-Ending_example = dispatch-Ending counters default_limits sample_event intents 0

dispatch-IsBounded_example : IsBounded default_limits reported.metadata_overlay
dispatch-IsBounded_example =
    dispatch-IsBounded counters default_limits sample_event intents 0 reported
      (ap (λ (r : Result DispatchError DispatchOutcome × ℕ). r.0) dispatched)

abbrev begun : Progress ℕ
begun = start counters default_limits sample_event 0

still_live : (dispatch_all counters default_limits sample_event begun before).dropped ≡ false
unfolding dispatch_all dispatch_intent execute insert_metadata validate_metadata
    validate_action_metadata byte_len starts_with contains_key insert str_eq
still_live = refl

dispatch_all-drop_example : dispatch_all counters default_limits sample_event begun intents ≡ (
    let q = dispatch_all counters default_limits sample_event begun before in
    record q {
      dropped = true;
      executed = q.executed ++ dropped_event ∷ [];
      skipped = q.skipped ++ map skip_after_drop after;
    })
dispatch_all-drop_example =
    dispatch_all-drop counters default_limits sample_event begun none before after still_live
