-- ===== src/Tests/Pipeline.antt =====
-- The dispatch of what the rules of an event ask for.
use pipe_bolt.Prelude.{List, [], ok, refl, some, true, ℕ, ◌∷◌, ◌≡◌}
use pipe_bolt.Text.{byte_len, codes, starts_with, str_eq}
use pipe_bolt.Map.{contains_key, extend, insert, lookup}
use pipe_bolt.Metadata.{validate_action_metadata}
use pipe_bolt.Domain.Rule.{ActionIntentTemplate, RuleDefinition}
use pipe_bolt.Domain.Event.{add_metadata, drop_event, stream_to_ui}
use pipe_bolt.Rules.Evaluate.{
  RuleEvaluation, action_to_intent, compare_numbers, condition_holds, evaluate, evaluate_condition,
  evaluate_rules, field_value_to_json, push_intents, resolve_field, resolve_optional_value,
  trigger_matches,
}
use pipe_bolt.Dispatch.{
  DispatchOutcome, added_metadata, after_drop, default_limits, dispatch, dispatch_all,
  dispatch_intent, dropped_event, enriched_event, execute, insert_metadata, streamed_to_ui,
  validate_metadata,
}
use pipe_bolt.Dispatch.Engine.{SkipsAfterDrop, dispatch_evaluated-skips}
use pipe_bolt.Tests.Samples.{counters, hotter, numbers, sample_event, sample_rule}

abbrev rules : List (RuleDefinition ℕ)
rules =
    sample_rule "rule-1" true (hotter 40)
    ∷ record (sample_rule "rule-2" true (hotter 41)) {
      actions = ActionIntentTemplate.drop_event ∷ ActionIntentTemplate.stream_to_ui ∷ [];
    }
    ∷ []

abbrev evaluation : RuleEvaluation numbers
evaluation = record {
  matched_rules = codes "rule-1" ∷ codes "rule-2" ∷ [];
  intents =
      add_metadata (codes "evt-test") (codes "severity") (codes "hot")
      ∷ stream_to_ui (codes "evt-test")
      ∷ drop_event (codes "evt-test") (some (codes "matched rule rule-2"))
      ∷ stream_to_ui (codes "evt-test")
      ∷ [];
}

abbrev reported : DispatchOutcome
reported = record {
  event_id = codes "evt-test";
  executed =
      added_metadata (codes "severity")
      ∷ streamed_to_ui (record { accepted = true })
      ∷ dropped_event
      ∷ [];
  skipped = after_drop "stream_to_ui" ∷ [];
  failed = [];
  dropped = true;
  metadata_overlay = (codes "severity", codes "hot") ∷ [];
}

evaluated : evaluate numbers rules sample_event ≡ ok evaluation
unfolding evaluate evaluate_rules trigger_matches condition_holds evaluate_condition compare_numbers
    resolve_optional_value resolve_field field_value_to_json lookup str_eq push_intents
    action_to_intent
evaluated = refl

dispatched : (dispatch counters default_limits sample_event evaluation.intents 0).0 ≡ ok reported
unfolding dispatch dispatch_all dispatch_intent execute insert_metadata validate_metadata
    validate_action_metadata byte_len starts_with contains_key insert str_eq enriched_event extend
dispatched = refl

dispatch_evaluated-skips_example : SkipsAfterDrop true reported.skipped
dispatch_evaluated-skips_example =
    dispatch_evaluated-skips numbers counters default_limits sample_event rules evaluation 0
      reported evaluated dispatched
