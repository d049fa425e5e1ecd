-- ===== src/Dispatch/Drop.antt =====
-- Nothing is executed after an event has been dropped.
use pipe_bolt.Prelude.{
  List, Option, [], ap, append-nil, append_assoc, false, map, refl, sym, true, ◌++◌, ◌∙◌, ◌∷◌, ◌≡◌,
}
use pipe_bolt.Text.{Str, str_eq}
use pipe_bolt.Text.Equality.{str_eq_refl}
use pipe_bolt.Domain.Event.{ActionIntent, NormalizedEvent, drop_event}
use pipe_bolt.Dispatch.{
  Boundaries, DispatchLimits, Progress, SkippedAction, action_type, after_drop, dispatch_all,
  dispatch_intent, dropped_event, execute, intent_event_id,
}

abbrev pub skip_after_drop : {N : Type 0} → ActionIntent N → SkippedAction
skip_after_drop i = after_drop (action_type i)

module _ {N W : Type 0} (b : Boundaries N W) (limits : DispatchLimits)
    (event : NormalizedEvent N) where
  dispatch_all-append :
      (p : Progress W) (before after : List (ActionIntent N))
      → dispatch_all b limits event p (before ++ after)
        ≡ dispatch_all b limits event (dispatch_all b limits event p before) after
  unfolding dispatch_all
  dispatch_all-append p [] after = refl
  dispatch_all-append p (i ∷ before) after =
      dispatch_all-append (dispatch_intent b limits event p i) before after

  abbrev all_skipped : Progress W → List (ActionIntent N) → Progress W
  all_skipped p intents = record p { skipped = p.skipped ++ map skip_after_drop intents }

  dispatch_all-cons :
      (p : Progress W) (i : ActionIntent N) (intents : List (ActionIntent N))
      → dispatch_all b limits event p (i ∷ intents)
        ≡ dispatch_all b limits event (dispatch_intent b limits event p i) intents
  unfolding dispatch_all
  dispatch_all-cons p i intents = refl

  pub dispatch_intent_dropped :
      (p : Progress W) (i : ActionIntent N)
      → p.dropped ≡ true
      → dispatch_intent b limits event p i
        ≡ record p { skipped = p.skipped ++ skip_after_drop i ∷ [] }
  unfolding dispatch_intent
  dispatch_intent_dropped p i h = simp h

  -- An intent for the event is executed as long as the event has not been dropped.
  pub dispatch_intent-executes :
      (p : Progress W) (i : ActionIntent N)
      → p.dropped ≡ false
      → intent_event_id i ≡ event.id
      → dispatch_intent b limits event p i ≡ execute b limits event p i
  unfolding dispatch_intent
  dispatch_intent-executes p i live same =
      let yes : str_eq (intent_event_id i) event.id ≡ true = rw same (str_eq_refl event.id) in
      simp (live, yes)

  dispatch_all_dropped :
      (p : Progress W) (intents : List (ActionIntent N))
      → p.dropped ≡ true
      → dispatch_all b limits event p intents ≡ all_skipped p intents
  unfolding dispatch_all
  dispatch_all_dropped p [] h = ap (λ s. record p { skipped = s }) (sym (append-nil p.skipped))
  dispatch_all_dropped p (i ∷ intents) h =
      let q : Progress W = record p { skipped = p.skipped ++ skip_after_drop i ∷ [] } in
      ap (λ (r : Progress W). dispatch_all b limits event r intents) (dispatch_intent_dropped p i h)
      ∙ dispatch_all_dropped q intents h
      ∙ ap (λ s. record p { skipped = s })
          (append_assoc p.skipped (skip_after_drop i ∷ []) (map skip_after_drop intents))

  drop-step :
      (p : Progress W) (reason : Option Str)
      → p.dropped ≡ false
      → dispatch_intent b limits event p (drop_event event.id reason)
        ≡ record p { dropped = true; executed = p.executed ++ dropped_event ∷ [] }
  unfolding execute
  drop-step p reason h = dispatch_intent-executes p (drop_event event.id reason) h refl

  -- Once an intent to drop the event has been executed, the intents after it are all skipped, and
  -- change neither the overlay nor what stands behind the boundaries.
  pub dispatch_all-drop :
      (p : Progress W) (reason : Option Str) (before after : List (ActionIntent N))
      → (dispatch_all b limits event p before).dropped ≡ false
      → dispatch_all b limits event p (before ++ (drop_event event.id reason ∷ after)) ≡ (
          let q = dispatch_all b limits event p before in
          record q {
            dropped = true;
            executed = q.executed ++ dropped_event ∷ [];
            skipped = q.skipped ++ map skip_after_drop after;
          })
  dispatch_all-drop p reason before after h =
      let q : Progress W = dispatch_all b limits event p before in
      dispatch_all-append p before (drop_event event.id reason ∷ after)
      ∙ dispatch_all-cons q (drop_event event.id reason) after
      ∙ ap (λ (r : Progress W). dispatch_all b limits event r after) (drop-step q reason h)
      ∙ dispatch_all_dropped _ after refl
