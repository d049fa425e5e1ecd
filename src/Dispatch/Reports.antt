-- ===== src/Dispatch/Reports.antt =====
-- What a dispatch of intents does, step by step: the relation that the loop of
-- `ActionDispatcher::dispatch` in crates/pipe-bolt-core/src/dispatcher/action.rs is compared with.
use pipe_bolt.Prelude.{
  Bool, List, Option, Result, [], err, false, length, ok, some, true, ◌++◌, ◌+◌, ◌<◌, ◌∷◌, ◌≡◌, ◌≢◌,
  ◌≤◌, ◌⊎◌,
}
use pipe_bolt.Text.{Str, codes}
use pipe_bolt.Json.{Value}
use pipe_bolt.Map.{BTreeMap, contains_key, insert, lookup, or_else}
use pipe_bolt.Metadata.{IsAllowed, MetadataValidationError, validate_action_metadata}
use pipe_bolt.Domain.Error.{DomainError}
use pipe_bolt.Domain.Id.{Identifier, new_id}
use pipe_bolt.Domain.Event.{
  ActionIntent, NormalizedEvent, add_metadata, drop_event, execute_command, forward_to_sink,
  stream_to_ui,
}
use pipe_bolt.Error.{DispatchError, command_request_build, too_many_metadata_entries}
use pipe_bolt.Dispatch.{
  Boundaries, CommandExecutionRequest, CommandRequestReceipt, DispatchLimits, ExecutedAction,
  ForwardReceipt, Progress, RealtimePublishReceipt, action_type, added_metadata, after_drop,
  dropped_event, event_mismatch, executed_command, forwarded_to_sink, intent_event_id,
  metadata_error, metadata_limits, rule, streamed_to_ui,
}

abbrev pub map_ok : {E A B : Type 0} → (A → B) → Result E A → Result E B
map_ok f (ok a) = ok (f a)
map_ok f (err e) = err e

module _ {N W : Type 0} (b : Boundaries N W) (limits : DispatchLimits)
    (event : NormalizedEvent N) where
  -- What a sink is shown: the event, with the metadata of an overlay over its own.
  pub record IsSnapshot (overlay : BTreeMap Str) (shown : NormalizedEvent N) : Type 0 where
    pub same : record shown { metadata = event.metadata } ≡ event
    pub entries :
        (key : Str)
        → lookup key shown.metadata ≡ or_else (lookup key overlay) (lookup key event.metadata)

  -- The request that an action to execute a command makes.
  abbrev pub request_of :
      Identifier → Identifier → BTreeMap (Value N) → Str → CommandExecutionRequest N
  request_of id template params correlation = record {
    project_id = event.project_id;
    command_execution_id = id;
    command_template_id = template;
    params = params;
    source = rule;
    actor_id = Option.none;
    source_event_id = some event.id;
    correlation_id = correlation;
    reason = some (codes "matched event " ++ event.id);
  }

  -- What the execution of an intent, at an overlay and a state behind the boundaries, gives and
  -- leaves.
  pub data Runs (o : BTreeMap Str) (w : W)
      : ActionIntent N → Result DispatchError ExecutedAction → BTreeMap Str → W → Type 0 where
    published :
        (id : Identifier) (shown : NormalizedEvent N)
        (answer : Result DispatchError RealtimePublishReceipt) (v : W)
        → IsSnapshot o shown
        → b.try_publish shown w ≡ (answer, v)
        → Runs o w (stream_to_ui id) (map_ok streamed_to_ui answer) o v
    forwarded :
        (id sink : Identifier) (projection : Option (BTreeMap (Value N)))
        (shown : NormalizedEvent N) (answer : Result DispatchError ForwardReceipt) (v : W)
        → IsSnapshot o shown
        → b.try_forward (record { event = shown; sink_id = sink; projection = projection }) w
          ≡ (answer, v)
        → Runs o w (forward_to_sink id sink projection) (map_ok forwarded_to_sink answer) o v
    unidentified :
        (id template : Identifier) (params : BTreeMap (Value N)) (correlation uuid : Str)
        (e : DomainError) (v : W)
        → b.now_v7 w ≡ (uuid, v)
        → new_id "command_execution_id" (codes "command_exec_" ++ uuid) ≡ err e
        → Runs o w
            (execute_command id template params correlation)
            (err (command_request_build "generated command execution id is invalid"))
            o
            v
    requested :
        (id template : Identifier) (params : BTreeMap (Value N)) (correlation uuid : Str)
        (execution : Identifier) (v : W) (answer : Result DispatchError CommandRequestReceipt)
        (u : W)
        → b.now_v7 w ≡ (uuid, v)
        → new_id "command_execution_id" (codes "command_exec_" ++ uuid) ≡ ok execution
        → b.try_enqueue_command (request_of execution template params correlation) v ≡ (answer, u)
        → Runs o w
            (execute_command id template params correlation)
            (map_ok executed_command answer)
            o
            u
    dropped :
        (id : Identifier) (reason : Option Str)
        → Runs o w (drop_event id reason) (ok dropped_event) o w
    added :
        (id : Identifier) (key value : Str)
        → IsAllowed (metadata_limits limits) key value
        → (contains_key key o ≡ true) ⊎ (length o < limits.max_metadata_entries_per_event)
        → Runs o w (add_metadata id key value) (ok (added_metadata key)) (insert key value o) w
    invalid :
        (id : Identifier) (key value : Str) (e : MetadataValidationError)
        → validate_action_metadata key value (metadata_limits limits) ≡ err e
        → Runs o w (add_metadata id key value) (err (metadata_error e)) o w
    crowded :
        (id : Identifier) (key value : Str)
        → IsAllowed (metadata_limits limits) key value
        → contains_key key o ≡ false
        → limits.max_metadata_entries_per_event ≤ length o
        → Runs o w
            (add_metadata id key value)
            (err (too_many_metadata_entries (length o + 1) limits.max_metadata_entries_per_event))
            o
            w

  -- Whether the event is dropped after an intent has been executed.
  abbrev pub drops : ActionIntent N → Bool → Bool
  drops (drop_event id reason) d = true
  drops _ d = d

  -- What a list of intents comes to, from the flag, the overlay and the state that it is begun with:
  -- what it adds to the lists of the outcome, and the flag, the overlay and the state at its end.
  pub data Dispatched : List (ActionIntent N) → Bool → BTreeMap Str → W → Progress W → Type 0 where
    none_left :
        (d : Bool) (o : BTreeMap Str) (w : W)
        → Dispatched [] d o w (record {
          executed = [];
          skipped = [];
          failed = [];
          dropped = d;
          overlay = o;
          world = w;
        })
    too_late :
        (i : ActionIntent N) (rest : List (ActionIntent N)) (d : Bool) (o : BTreeMap Str) (w : W)
        (r : Progress W)
        → d ≡ true
        → Dispatched rest d o w r
        → Dispatched
            (i ∷ rest)
            d
            o
            w
            (record r { skipped = after_drop (action_type i) ∷ r.skipped })
    foreign :
        (i : ActionIntent N) (rest : List (ActionIntent N)) (d : Bool) (o : BTreeMap Str) (w : W)
        (r : Progress W)
        → d ≡ false
        → intent_event_id i ≢ event.id
        → Dispatched rest d o w r
        → Dispatched
            (i ∷ rest)
            d
            o
            w
            (record r { skipped = event_mismatch (action_type i) (intent_event_id i) ∷ r.skipped })
    executes :
        (i : ActionIntent N) (rest : List (ActionIntent N)) (d : Bool) (o o' : BTreeMap Str)
        (w w' : W) (x : ExecutedAction) (r : Progress W)
        → d ≡ false
        → intent_event_id i ≡ event.id
        → Runs o w i (ok x) o' w'
        → Dispatched rest (drops i d) o' w' r
        → Dispatched (i ∷ rest) d o w (record r { executed = x ∷ r.executed })
    fails :
        (i : ActionIntent N) (rest : List (ActionIntent N)) (d : Bool) (o o' : BTreeMap Str)
        (w w' : W) (e : DispatchError) (r : Progress W)
        → d ≡ false
        → intent_event_id i ≡ event.id
        → Runs o w i (err e) o' w'
        → Dispatched rest d o' w' r
        → Dispatched
            (i ∷ rest)
            d
            o
            w
            (record r { failed = record { action_type = action_type i; error = e } ∷ r.failed })
