-- ===== src/Dispatch/Outcome.antt =====
-- The loop of `ActionDispatcher::dispatch` in crates/pipe-bolt-core/src/dispatcher/action.rs does
-- with its intents what Dispatch/Reports says.
use pipe_bolt.Prelude.{
  Bool-cases, List, Result, [], ap, append-nil, append_assoc, err, false, inl, inr, length, ltb,
  ltb→le, ltb→lt, ok, sym, true, ◌++◌, ◌<◌, ◌∙◌, ◌∷◌, ◌≡◌, ◌≢◌, ◌≤◌,
}
use pipe_bolt.Text.{str_eq}
use pipe_bolt.Text.Equality.{str_eq-cases}
use pipe_bolt.Map.Extend.{HasDistinctKeys}
use pipe_bolt.Domain.Event.{ActionIntent, NormalizedEvent}
use pipe_bolt.Error.{DispatchError, too_many_intents}
use pipe_bolt.Dispatch.{
  Boundaries, DispatchLimits, DispatchOutcome, Progress, SkippedAction, action_type, after_drop,
  dispatch, dispatch_all, dispatch_intent, event_mismatch, execute, intent_event_id, start,
}
use pipe_bolt.Dispatch.Drop.{dispatch_intent-executes, dispatch_intent_dropped}
use pipe_bolt.Dispatch.Execution.{HasRun, ended_badly, ended_well, execute-HasRun}
use pipe_bolt.Dispatch.Reports.{Dispatched, executes, fails, foreign, none_left, too_late}
use pipe_bolt.Dispatch.Snapshot.{execute-distinct}

module _ {N W : Type 0} (b : Boundaries N W) (limits : DispatchLimits)
    (event : NormalizedEvent N) where
  -- The loop's variables when a list of intents has been worked off, by what these add.
  abbrev after : Progress W → Progress W → Progress W
  after p r = record r {
    executed = p.executed ++ r.executed;
    skipped = p.skipped ++ r.skipped;
    failed = p.failed ++ r.failed;
  }

  abbrev WorksOff : Progress W → List (ActionIntent N) → Type 0
  WorksOff p intents =
      (r : Progress W) × Dispatched b limits event intents p.dropped p.overlay p.world r
      × (dispatch_all b limits event p intents ≡ after p r)

  -- The loop goes on from the variables that the first round leaves.
  goes_on :
      (p q : Progress W) (i : ActionIntent N) (rest : List (ActionIntent N)) (r : Progress W)
      → dispatch_intent b limits event p i ≡ q
      → dispatch_all b limits event q rest ≡ r
      → dispatch_all b limits event p (i ∷ rest) ≡ r
  unfolding dispatch_all
  goes_on p q i rest r e h = ap (λ (q : Progress W). dispatch_all b limits event q rest) e ∙ h

  abbrev skip : Progress W → SkippedAction → Progress W
  skip p s = record p { skipped = p.skipped ++ s ∷ [] }

  skip-after :
      (p r : Progress W) (s : SkippedAction)
      → after (skip p s) r ≡ after p (record r { skipped = s ∷ r.skipped })
  skip-after p r s =
      ap (λ l. record (after p r) { skipped = l }) (append_assoc p.skipped (s ∷ []) r.skipped)

  late_WorksOff :
      (p : Progress W) (i : ActionIntent N) (rest : List (ActionIntent N))
      → p.dropped ≡ true
      → WorksOff (skip p (after_drop (action_type i))) rest
      → WorksOff p (i ∷ rest)
  late_WorksOff p i rest gone (r, d, e) = (
    _,
    too_late i rest _ _ _ r gone d,
    goes_on p _ i rest _ (dispatch_intent_dropped b limits event p i gone)
        (e ∙ skip-after p r (after_drop (action_type i))),
  )

  foreign_WorksOff :
      (p : Progress W) (i : ActionIntent N) (rest : List (ActionIntent N))
      → p.dropped ≡ false
      → intent_event_id i ≢ event.id
      → dispatch_intent b limits event p i
        ≡ skip p (event_mismatch (action_type i) (intent_event_id i))
      → WorksOff (skip p (event_mismatch (action_type i) (intent_event_id i))) rest
      → WorksOff p (i ∷ rest)
  foreign_WorksOff p i rest live other step (r, d, e) = (
    _,
    foreign i rest _ _ _ r live other d,
    goes_on p _ i rest _ step
        (e ∙ skip-after p r (event_mismatch (action_type i) (intent_event_id i))),
  )

  own_WorksOff :
      (p q : Progress W) (i : ActionIntent N) (rest : List (ActionIntent N))
      → HasRun b limits event p i q
      → p.dropped ≡ false
      → intent_event_id i ≡ event.id
      → dispatch_intent b limits event p i ≡ q
      → WorksOff q rest
      → WorksOff p (i ∷ rest)
  own_WorksOff p q i rest (ended_well x o w runs) live own step (r, d, e) = (
    _,
    executes i rest _ _ o _ w x r live own runs d,
    goes_on p _ i rest _ step (
        e
        ∙ ap (λ l. record (after p r) { executed = l })
            (append_assoc p.executed (x ∷ []) r.executed)),
  )
  own_WorksOff p q i rest (ended_badly why o w runs) live own step (r, d, e) = (
    _,
    fails i rest _ _ o _ w why r live own runs d,
    goes_on p _ i rest _ step (
        e
        ∙ ap (λ l. record (after p r) { failed = l })
            (append_assoc p.failed (record { action_type = action_type i; error = why } ∷ [])
              r.failed)),
  )

  dispatch_all-nil : (p : Progress W) → WorksOff p []
  unfolding dispatch_all
  dispatch_all-nil p = (_, none_left p.dropped p.overlay p.world, sym (simp append-nil))

  dispatch_intent_foreign :
      (p : Progress W) (i : ActionIntent N)
      → p.dropped ≡ false
      → str_eq (intent_event_id i) event.id ≡ false
      → dispatch_intent b limits event p i
        ≡ skip p (event_mismatch (action_type i) (intent_event_id i))
  unfolding dispatch_intent
  dispatch_intent_foreign p i live other = simp (live, other)

  dispatch_all-WorksOff :
      (p : Progress W) (intents : List (ActionIntent N))
      → HasDistinctKeys p.overlay
      → WorksOff p intents
  dispatch_all-WorksOff p [] h = dispatch_all-nil p
  dispatch_all-WorksOff p (i ∷ rest) h = elim (Bool-cases p.dropped) [
    | inl gone ↦
        late_WorksOff p i rest gone
          (dispatch_all-WorksOff (skip p (after_drop (action_type i))) rest h)
    | inr live ↦ elim (str_eq-cases (intent_event_id i) event.id) [
      | inr (e, other) ↦ foreign_WorksOff p i rest live other (dispatch_intent_foreign p i live e) (
          dispatch_all-WorksOff (skip p (event_mismatch (action_type i) (intent_event_id i))) rest
            h)
      | inl (e, own) ↦
          own_WorksOff p (execute b limits event p i) i rest (execute-HasRun b limits event p i h)
            live own (dispatch_intent-executes b limits event p i live own)
            (dispatch_all-WorksOff (execute b limits event p i) rest
              (execute-distinct b limits event p i h))
    ]
  ]

  -- How a dispatch ends.
  pub data Ending (intents : List (ActionIntent N)) (w : W)
      : Result DispatchError DispatchOutcome × W → Type 0 where
    too_many :
        limits.max_intents_per_event < length intents
        → Ending intents w (err (too_many_intents (length intents) limits.max_intents_per_event), w)
    worked_off :
        (r : Progress W)
        → length intents ≤ limits.max_intents_per_event
        → Dispatched b limits event intents false [] w r
        → Ending intents w (
          ok (record {
            event_id = event.id;
            executed = r.executed;
            skipped = r.skipped;
            failed = r.failed;
            dropped = r.dropped;
            metadata_overlay = r.overlay;
          }),
          r.world,
        )

  -- A dispatch of more intents than the limit is refused and changes nothing. Otherwise each intent
  -- is reported in one place, in order: as skipped, if the event was dropped before or the intent
  -- names another event; and else it is executed once, at the overlay and the state that the ones
  -- before have left, and is reported as executed with the receipt, or as failed with its type and
  -- the error. The sinks are shown the event with its metadata overridden by the overlay; the command
  -- queue is given a request for the project and the event; metadata is added exactly if the entry is
  -- allowed and its key is there or the limit leaves room; and only a drop sets the flag.
  pub dispatch-Ending :
      (intents : List (ActionIntent N)) (w : W)
      → Ending intents w (dispatch b limits event intents w)
  unfolding dispatch
  dispatch-Ending intents w =
      elim (Bool-cases (ltb limits.max_intents_per_event (length intents))) [
        | inl many ↦ rw many (too_many (ltb→lt _ _ many))
        | inr few ↦
            let (r, d, e) = dispatch_all-WorksOff (start b limits event w) intents tt in
            rw (few, e) (worked_off r (ltb→le _ _ few) d)
      ]
