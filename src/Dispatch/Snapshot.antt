-- ===== src/Dispatch/Snapshot.antt =====
-- What the sinks are shown: the event with the metadata that the actions before have added.
use pipe_bolt.Prelude.{Result, String, [], arith, err, ok, refl, subst, ◌∷◌, ◌≡◌}
use pipe_bolt.Text.{Str}
use pipe_bolt.Map.{BTreeMap, insert, lookup, or_else}
use pipe_bolt.Map.Extend.{HasDistinctKeys, HasDistinctKeys-insert, lookup-extend}
use pipe_bolt.Domain.Event.{
  ActionIntent, NormalizedEvent, add_metadata, drop_event, execute_command, forward_to_sink,
  stream_to_ui,
}
use pipe_bolt.Error.{DispatchError}
use pipe_bolt.Dispatch.{
  Boundaries, DispatchLimits, ExecutedAction, Progress, enriched_event, execute, insert_metadata,
  record_answer, record_metadata,
}

-- The metadata of an enriched event are those of the event, but for the keys of the overlay, which
-- have the value that the overlay gives them.
pub lookup-enriched_event :
    {N : Type 0} (event : NormalizedEvent N) (overlay : BTreeMap Str) (key : Str)
    → HasDistinctKeys overlay
    → lookup key (enriched_event event overlay).metadata
      ≡ or_else (lookup key overlay) (lookup key event.metadata)
unfolding enriched_event lookup
lookup-enriched_event event [] key h = refl
lookup-enriched_event event (e ∷ overlay) key h = lookup-extend key event.metadata (e ∷ overlay) h

insert_metadata-distinct :
    (overlay out : BTreeMap Str) (key value : Str) (limits : DispatchLimits)
    → HasDistinctKeys overlay
    → insert_metadata overlay key value limits ≡ ok out
    → HasDistinctKeys out
unfolding insert_metadata
insert_metadata-distinct overlay out key value limits h e =
    let same : insert key value overlay ≡ out = ground arith in
    subst HasDistinctKeys same (HasDistinctKeys-insert key value overlay h)

module _ {N W : Type 0} (b : Boundaries N W) (limits : DispatchLimits)
    (event : NormalizedEvent N) where
  answer-distinct :
      {A : Type 0} (p : Progress W) (kind : String) (f : A → ExecutedAction)
      (answer : Result DispatchError A × W)
      → HasDistinctKeys p.overlay
      → HasDistinctKeys (record_answer b limits event p kind f answer).overlay
  answer-distinct p kind f (ok r, w) h = h
  answer-distinct p kind f (err e, w) h = h

  metadata-distinct :
      (p : Progress W) (key value : Str) (r : Result DispatchError (BTreeMap Str))
      → insert_metadata p.overlay key value limits ≡ r
      → HasDistinctKeys p.overlay
      → HasDistinctKeys (record_metadata b limits event p key r).overlay
  metadata-distinct p key value (ok o) e h =
      insert_metadata-distinct p.overlay o key value limits h e
  metadata-distinct p key value (err x) e h = h

  -- What an intent that is executed leaves has no key twice.
  pub execute-distinct :
      (p : Progress W) (i : ActionIntent N)
      → HasDistinctKeys p.overlay
      → HasDistinctKeys (execute b limits event p i).overlay
  unfolding execute
  execute-distinct p (stream_to_ui id) h = answer-distinct p _ _ _ h
  execute-distinct p (forward_to_sink id sink projection) h = answer-distinct p _ _ _ h
  execute-distinct p (drop_event id reason) h = h
  execute-distinct p (add_metadata id key value) h =
      metadata-distinct p key value (insert_metadata p.overlay key value limits) refl h
  execute-distinct p (execute_command id template params correlation) h = answer-distinct p _ _ _ h
