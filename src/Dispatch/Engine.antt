-- ===== src/Dispatch/Engine.antt =====
-- The dispatch of what the rule engine asks for.
use pipe_bolt.Prelude.{
  All, All-append, All-map, Bool, Bool-cases, List, Result, String, [], err, false, inl, inr,
  length, ltb, ok, ok-injective, refl, subst, sym, true, ◌∙◌, ◌∷◌, ◌≡◌, ◌⊎◌,
}
use pipe_bolt.Text.{Str}
use pipe_bolt.Json.{JsonLib}
use pipe_bolt.Map.{BTreeMap}
use pipe_bolt.Domain.Rule.{RuleDefinition}
use pipe_bolt.Domain.Event.{
  ActionIntent, NormalizedEvent, add_metadata, drop_event, execute_command, forward_to_sink,
  stream_to_ui,
}
use pipe_bolt.Error.{DispatchError}
use pipe_bolt.Rules.Evaluate.{RuleEvaluation, evaluate}
use pipe_bolt.Rules.Outcome.{intent_event}
use pipe_bolt.Rules.Events.{IsForEvent, evaluate-IsForEvent}
use pipe_bolt.Dispatch.{
  Boundaries, DispatchLimits, DispatchOutcome, ExecutedAction, Progress, SkippedAction, action_type,
  after_drop, dispatch, dispatch_all, dispatch_intent, execute, intent_event_id, record_answer,
  record_metadata, start,
}
use pipe_bolt.Dispatch.Drop.{dispatch_intent-executes, dispatch_intent_dropped}

abbrev pub IsAfterDrop : SkippedAction → Type 0
IsAfterDrop s = (kind : String) × (s ≡ after_drop kind)

-- Actions are skipped only once the event has been dropped.
abbrev pub SkipsAfterDrop : Bool → List SkippedAction → Type 0
SkipsAfterDrop dropped skipped = (skipped ≡ []) ⊎ ((dropped ≡ true) × All IsAfterDrop skipped)

module _ {N W : Type 0} (b : Boundaries N W) (limits : DispatchLimits)
    (event : NormalizedEvent N) where
  record_answer-skipped :
      {A : Type 0} (p : Progress W) (kind : String) (f : A → ExecutedAction)
      (answer : Result DispatchError A × W)
      → (record_answer b limits event p kind f answer).skipped ≡ p.skipped
  record_answer-skipped p kind f (ok r, w) = refl
  record_answer-skipped p kind f (err e, w) = refl

  record_metadata-skipped :
      (p : Progress W) (key : Str) (r : Result DispatchError (BTreeMap Str))
      → (record_metadata b limits event p key r).skipped ≡ p.skipped
  record_metadata-skipped p key (ok o) = refl
  record_metadata-skipped p key (err e) = refl

  execute-skipped :
      (p : Progress W) (i : ActionIntent N) → (execute b limits event p i).skipped ≡ p.skipped
  unfolding execute
  execute-skipped p (stream_to_ui id) = record_answer-skipped p _ _ _
  execute-skipped p (forward_to_sink id sink projection) = record_answer-skipped p _ _ _
  execute-skipped p (drop_event id reason) = refl
  execute-skipped p (add_metadata id key value) = record_metadata-skipped p key _
  execute-skipped p (execute_command id template params correlation) = record_answer-skipped p _ _ _

  abbrev Sound : Progress W → Type 0
  Sound p = SkipsAfterDrop p.dropped p.skipped

  skips_of_live :
      (dropped : Bool) (skipped : List SkippedAction)
      → dropped ≡ false
      → SkipsAfterDrop dropped skipped
      → skipped ≡ []
  skips_of_live dropped skipped live (inl e) = e
  skips_of_live dropped skipped live (inr (d, h)) = cc

  All-of_skips :
      (dropped : Bool) (skipped : List SkippedAction)
      → SkipsAfterDrop dropped skipped
      → All IsAfterDrop skipped
  All-of_skips dropped skipped (inl e) = rw e tt
  All-of_skips dropped skipped (inr (d, h)) = h

  dispatch_intent-Sound :
      (p : Progress W) (i : ActionIntent N)
      → intent_event_id i ≡ event.id
      → Sound p
      → Sound (dispatch_intent b limits event p i)
  dispatch_intent-Sound p i same h = elim (Bool-cases p.dropped) [
    | inl gone ↦ subst Sound (sym (dispatch_intent_dropped b limits event p i gone)) (
        inr (
          gone,
          All-append IsAfterDrop p.skipped _ (All-of_skips p.dropped p.skipped h)
              ((action_type i, refl), tt),
        ))
    | inr live ↦
        subst Sound (sym (dispatch_intent-executes b limits event p i live same))
          (inl (execute-skipped p i ∙ skips_of_live p.dropped p.skipped live h))
  ]

  dispatch_all-Sound :
      (p : Progress W) (intents : List (ActionIntent N))
      → All (λ i. intent_event_id i ≡ event.id) intents
      → Sound p
      → Sound (dispatch_all b limits event p intents)
  unfolding dispatch_all
  dispatch_all-Sound p [] same h = h
  dispatch_all-Sound p (i ∷ intents) (e, same) h =
      dispatch_all-Sound (dispatch_intent b limits event p i) intents same
        (dispatch_intent-Sound p i e h)

module _ {W : Type 0} (J : JsonLib) (b : Boundaries J.Number W) (limits : DispatchLimits)
    (event : NormalizedEvent J.Number) where
  intent_event-id : (i : ActionIntent J.Number) → intent_event i ≡ intent_event_id i
  intent_event-id (stream_to_ui id) = refl
  intent_event-id (forward_to_sink id sink projection) = refl
  intent_event-id (drop_event id reason) = refl
  intent_event-id (add_metadata id key value) = refl
  intent_event-id (execute_command id template params correlation) = refl

  -- When the intents that an evaluation of rules on an event returns are dispatched for that event,
  -- either no action is skipped, or the event has been dropped and all skipped actions came after
  -- the drop; none is skipped for naming another event.
  pub dispatch_evaluated-skips :
      (rules : List (RuleDefinition J.Number)) (ev : RuleEvaluation J) (w : W) (o : DispatchOutcome)
      → evaluate J rules event ≡ ok ev
      → (dispatch b limits event ev.intents w).0 ≡ ok o
      → SkipsAfterDrop o.dropped o.skipped
  unfolding dispatch
  dispatch_evaluated-skips rules ev w o h d =
      elim (Bool-cases (ltb limits.max_intents_per_event (length ev.intents))) [
        | inl many ↦ let wrong = rw many at d in cc
        | inr few ↦
            subst (λ (o : DispatchOutcome). SkipsAfterDrop o.dropped o.skipped)
              (ok-injective (rw few at d))
              (dispatch_all-Sound b limits event (start b limits event w) ev.intents
                (All-map (IsForEvent J event) (λ i. intent_event_id i ≡ event.id)
                  (λ i e. sym (intent_event-id i) ∙ e) ev.intents
                  (evaluate-IsForEvent J event rules ev h))
                (inl refl))
      ]
