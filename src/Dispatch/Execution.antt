-- ===== src/Dispatch/Execution.antt =====
-- An intent that `ActionDispatcher::dispatch` in crates/pipe-bolt-core/src/dispatcher/action.rs
-- executes is executed as Dispatch/Reports says.
use pipe_bolt.Prelude.{
  Bool, Bool-cases, Result, Result-cases, [], arith, err, false, inl, inr, leb, length, not, ok,
  refl, subst, true, ◌&&◌, ◌++◌, ◌<◌, ◌∷◌, ◌≡◌, ◌⊎◌,
}
use pipe_bolt.Text.{Str, codes}
use pipe_bolt.Json.{Value}
use pipe_bolt.Map.{BTreeMap, contains_key}
use pipe_bolt.Map.Extend.{HasDistinctKeys}
use pipe_bolt.Metadata.{validate_action_metadata, validate_action_metadata_iff}
use pipe_bolt.Domain.Id.{Identifier, new_id}
use pipe_bolt.Domain.Event.{
  ActionIntent, NormalizedEvent, add_metadata, drop_event, execute_command, forward_to_sink,
  stream_to_ui,
}
use pipe_bolt.Error.{DispatchError}
use pipe_bolt.Dispatch.{
  Boundaries, DispatchLimits, ExecutedAction, Progress, action_type, command_request_from_intent,
  dropped_event, enriched_event, enqueue, execute, executed_command, forwarded_to_sink,
  insert_metadata, metadata_limits, record_answer, record_metadata, streamed_to_ui,
  validate_metadata,
}
use pipe_bolt.Dispatch.Reports.{
  IsSnapshot, Runs, added, crowded, dropped, drops, forwarded, invalid, map_ok, published,
  request_of, requested, unidentified,
}
use pipe_bolt.Dispatch.Snapshot.{lookup-enriched_event}

module _ {N W : Type 0} (b : Boundaries N W) (limits : DispatchLimits)
    (event : NormalizedEvent N) where
  enriched_event-IsSnapshot :
      (o : BTreeMap Str) → HasDistinctKeys o → IsSnapshot b limits event o (enriched_event event o)
  unfolding enriched_event
  enriched_event-IsSnapshot o h = record {
    same = same_event o;
    entries = λ key. lookup-enriched_event event o key h;
  }
    where
      same_event :
          (o : BTreeMap Str) → record (enriched_event event o) { metadata = event.metadata } ≡ event
      same_event [] = refl
      same_event (e ∷ o) = refl

  -- The loop's variables after an intent has been executed.
  abbrev pub after_executed : Progress W → Bool → ExecutedAction → BTreeMap Str → W → Progress W
  after_executed p d x o w = record p {
    executed = p.executed ++ x ∷ [];
    dropped = d;
    overlay = o;
    world = w;
  }

  abbrev pub after_failed :
      Progress W → ActionIntent N → DispatchError → BTreeMap Str → W → Progress W
  after_failed p i e o w = record p {
    failed = p.failed ++ record { action_type = action_type i; error = e } ∷ [];
    overlay = o;
    world = w;
  }

  -- An intent has been executed, or has failed.
  pub data HasRun (p : Progress W) (i : ActionIntent N) : Progress W → Type 0 where
    ended_well :
        (x : ExecutedAction) (o : BTreeMap Str) (w : W)
        → Runs b limits event p.overlay p.world i (ok x) o w
        → HasRun p i (after_executed p (drops b limits event i p.dropped) x o w)
    ended_badly :
        (e : DispatchError) (o : BTreeMap Str) (w : W)
        → Runs b limits event p.overlay p.world i (err e) o w
        → HasRun p i (after_failed p i e o w)

  answered :
      {A : Type 0} (p : Progress W) (i : ActionIntent N) (f : A → ExecutedAction)
      (answer : Result DispatchError A × W)
      → Runs b limits event p.overlay p.world i (map_ok f answer.0) p.overlay answer.1
      → drops b limits event i p.dropped ≡ p.dropped
      → HasRun p i (record_answer b limits event p (action_type i) f answer)
  answered p i f (ok r, w) runs live =
      subst (λ d. HasRun p i (after_executed p d (f r) p.overlay w)) live
        (ended_well (f r) p.overlay w runs)
  answered p i f (err e, w) runs live = ended_badly e p.overlay w runs

  enqueued :
      (p : Progress W) (id template : Identifier) (params : BTreeMap (Value N))
      (correlation uuid : Str) (v : W)
      → b.now_v7 p.world ≡ (uuid, v)
      → HasRun p (execute_command id template params correlation) (
          record_answer b limits event p "execute_command" executed_command (
            enqueue b limits event
              (command_request_from_intent b limits event template params correlation uuid)
              v))
  unfolding command_request_from_intent
  enqueued p id template params correlation uuid v e =
      elim (Result-cases (new_id "command_execution_id" (codes "command_exec_" ++ uuid))) [
        | inr (why, bad) ↦ rw bad (
            ended_badly _ p.overlay v
              (unidentified id template params correlation uuid why v e bad))
        | inl (execution, good) ↦ rw good (
            answered p (execute_command id template params correlation) executed_command
              (b.try_enqueue_command
                (request_of b limits event execution template params correlation) v)
              (requested id template params correlation uuid execution v _ _ e good refl) refl)
      ]

  abbrev is_full : BTreeMap Str → Str → Bool
  is_full o key = not (contains_key key o) && leb limits.max_metadata_entries_per_event (length o)

  room_of :
      (o : BTreeMap Str) (key : Str)
      → is_full o key ≡ false
      → (contains_key key o ≡ true) ⊎ (length o < limits.max_metadata_entries_per_event)
  room_of o key h = elim (Bool-cases (contains_key key o)) [
    | inl known ↦ inl known
    | inr fresh ↦ inr (ground arith)
  ]

  metadata_run :
      (p : Progress W) (id : Identifier) (key value : Str)
      → HasRun p
          (add_metadata id key value)
          (record_metadata b limits event p key (insert_metadata p.overlay key value limits))
  unfolding insert_metadata validate_metadata
  metadata_run p id key value =
      elim (Result-cases (validate_action_metadata key value (metadata_limits limits))) [
        | inr (why, bad) ↦ rw bad (ended_badly _ p.overlay p.world (invalid id key value why bad))
        | inl (u, good) ↦
            let allowed =
              (validate_action_metadata_iff key value (metadata_limits limits)).0 good in
            elim (Bool-cases (is_full p.overlay key)) [
              | inl full ↦
                  rw (good, full)
                    (ended_badly _ p.overlay p.world
                      (crowded id key value allowed (ground arith) (ground arith)))
              | inr room ↦
                  rw (good, room)
                    (ended_well _ _ p.world
                      (added id key value allowed (room_of p.overlay key room)))
            ]
      ]

  pub execute-HasRun :
      (p : Progress W) (i : ActionIntent N)
      → HasDistinctKeys p.overlay
      → HasRun p i (execute b limits event p i)
  unfolding execute
  execute-HasRun p (stream_to_ui id) h =
      answered p (stream_to_ui id) streamed_to_ui _
        (published id (enriched_event event p.overlay) _ _ (enriched_event-IsSnapshot p.overlay h)
          refl)
        refl
  execute-HasRun p (forward_to_sink id sink projection) h =
      answered p (forward_to_sink id sink projection) forwarded_to_sink _
        (forwarded id sink projection (enriched_event event p.overlay) _ _
          (enriched_event-IsSnapshot p.overlay h) refl)
        refl
  execute-HasRun p (drop_event id reason) h =
      ended_well dropped_event p.overlay p.world (dropped id reason)
  execute-HasRun p (add_metadata id key value) h = metadata_run p id key value
  execute-HasRun p (execute_command id template params correlation) h =
      enqueued p id template params correlation (b.now_v7 p.world).0 (b.now_v7 p.world).1 refl
