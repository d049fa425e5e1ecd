-- ===== src/Rules/Events.antt =====
-- The intents of an evaluation are intents for the event that was evaluated.
use pipe_bolt.Prelude.{
  All, All-append, List, Result, [], ap, keep, ok, ok-injective, refl, subst, ◌++◌, ◌∷◌, ◌≡◌,
}
use pipe_bolt.Json.{JsonLib}
use pipe_bolt.Domain.Rule.{ActionIntentTemplate, RuleDefinition}
use pipe_bolt.Domain.Event.{ActionIntent, NormalizedEvent}
use pipe_bolt.Error.{MqttEngineError}
use pipe_bolt.Rules.Evaluate.{RuleEvaluation, action_to_intent, evaluate}
use pipe_bolt.Rules.Outcome.{
  Evaluated, all_intents, evaluate-Evaluated, fires, intent_event, intents_of, succeeded,
}

module _ (J : JsonLib) (event : NormalizedEvent J.Number) where
  abbrev pub IsForEvent : ActionIntent J.Number → Type 0
  IsForEvent i = intent_event i ≡ event.id

  succeeded-IsForEvent :
      (rule : RuleDefinition J.Number) (a : ActionIntentTemplate J.Number)
      → All IsForEvent (succeeded (action_to_intent J rule a event))
  unfolding action_to_intent
  succeeded-IsForEvent rule ActionIntentTemplate.stream_to_ui = (refl, tt)
  succeeded-IsForEvent rule ActionIntentTemplate.drop_event = (refl, tt)
  succeeded-IsForEvent rule (ActionIntentTemplate.add_metadata k v) = (refl, tt)
  succeeded-IsForEvent rule (ActionIntentTemplate.forward_to_sink s) = (refl, tt)
  succeeded-IsForEvent rule (ActionIntentTemplate.execute_command t p) = (refl, tt)

  intents_of-IsForEvent :
      (rule : RuleDefinition J.Number) (actions : List (ActionIntentTemplate J.Number))
      → All IsForEvent (intents_of J event rule actions)
  intents_of-IsForEvent rule [] = tt
  intents_of-IsForEvent rule (a ∷ actions) =
      All-append IsForEvent _ _ (succeeded-IsForEvent rule a) (intents_of-IsForEvent rule actions)

  all_intents-IsForEvent :
      (rules : List (RuleDefinition J.Number)) → All IsForEvent (all_intents J event rules)
  all_intents-IsForEvent [] = tt
  all_intents-IsForEvent (r ∷ rules) =
      All-append IsForEvent _ _ (intents_of-IsForEvent r r.actions) (all_intents-IsForEvent rules)

  Evaluated-intents :
      (rules : List (RuleDefinition J.Number)) {acc : RuleEvaluation J}
      {res : Result MqttEngineError (RuleEvaluation J)} {ev : RuleEvaluation J}
      → Evaluated J event acc rules res
      → res ≡ ok ev
      → acc.intents ++ all_intents J event (keep (fires J event) rules) ≡ ev.intents
  Evaluated-intents rules (Evaluated.decided h) e =
      ap (λ (o : RuleEvaluation J). o.intents) (ok-injective e)
  Evaluated-intents rules (Evaluated.failed r why first) e = cc

  pub evaluate-IsForEvent :
      (rules : List (RuleDefinition J.Number)) (ev : RuleEvaluation J)
      → evaluate J rules event ≡ ok ev
      → All IsForEvent ev.intents
  evaluate-IsForEvent rules ev h =
      subst (All IsForEvent) (Evaluated-intents rules (evaluate-Evaluated J event rules) h)
        (all_intents-IsForEvent (keep (fires J event) rules))
