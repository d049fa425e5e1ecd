-- ===== src/Rules/Outcome.antt =====
-- What an evaluation returns: the rules that fire, in order, and the intents of their actions.
use pipe_bolt.Prelude.{
  All, Bool, Bool-cases, List, Option, Result, Result-cases, [], ap, append-nil, append_assoc,
  arith, err, false, if◌then◌else◌, inl, inr, keep, map, none, ok, refl, some, subst, true, ◌++◌,
  ◌∙◌, ◌∷◌, ◌≡◌,
}
use pipe_bolt.Prelude.First.{IsFirst, IsFirst-here, IsFirst-later}
use pipe_bolt.Json.{JsonLib}
use pipe_bolt.Domain.Id.{Identifier}
use pipe_bolt.Domain.Rule.{ActionIntentTemplate, RuleDefinition}
use pipe_bolt.Domain.Event.{ActionIntent, NormalizedEvent}
use pipe_bolt.Error.{MqttEngineError}
use pipe_bolt.Rules.Evaluate.{
  RuleEvaluation, action_to_intent, condition_holds, evaluate, evaluate_rules, push_intents,
  trigger_matches,
}

-- The event that an intent is for.
abbrev pub intent_event : {N : Type 0} → ActionIntent N → Identifier
intent_event (ActionIntent.stream_to_ui id) = id
intent_event (ActionIntent.forward_to_sink id s p) = id
intent_event (ActionIntent.execute_command id t p c) = id
intent_event (ActionIntent.drop_event id r) = id
intent_event (ActionIntent.add_metadata id k v) = id

abbrev pub succeeded : {A : Type 0} → Result MqttEngineError A → List A
succeeded (ok a) = a ∷ []
succeeded (err e) = []

abbrev is_true : Result MqttEngineError Bool → Bool
is_true (ok b) = b
is_true (err e) = false

abbrev error_of : Result MqttEngineError Bool → Option MqttEngineError
error_of (ok b) = none
error_of (err e) = some e

module _ (J : JsonLib) (event : NormalizedEvent J.Number) where
  abbrev Rule : Type 0
  Rule = RuleDefinition J.Number

  -- Whether the trigger and the condition of a rule hold.
  abbrev pub decide : Rule → Result MqttEngineError Bool
  decide rule =
      if trigger_matches J rule.trigger event
      then condition_holds J rule event rule.condition
      else ok false

  abbrev pub fires : Rule → Bool
  fires rule = is_true (decide rule)

  abbrev pub failure : Rule → Option MqttEngineError
  failure rule = error_of (decide rule)

  abbrev pub intents_of : Rule → List (ActionIntentTemplate J.Number) → List (ActionIntent J.Number)
  intents_of rule [] = []
  intents_of rule (a ∷ actions) =
      succeeded (action_to_intent J rule a event) ++ intents_of rule actions

  abbrev pub all_intents : List Rule → List (ActionIntent J.Number)
  all_intents [] = []
  all_intents (r ∷ rules) = intents_of r r.actions ++ all_intents rules

  abbrev pub rule_id : Rule → Identifier
  rule_id r = r.id

  action_to_intent-ok :
      (rule : Rule) (a : ActionIntentTemplate J.Number)
      → (i : ActionIntent J.Number) × (action_to_intent J rule a event ≡ ok i)
        × (intent_event i ≡ event.id)
  unfolding action_to_intent
  action_to_intent-ok rule ActionIntentTemplate.stream_to_ui = (_, refl, refl)
  action_to_intent-ok rule ActionIntentTemplate.drop_event = (_, refl, refl)
  action_to_intent-ok rule (ActionIntentTemplate.add_metadata k v) = (_, refl, refl)
  action_to_intent-ok rule (ActionIntentTemplate.forward_to_sink s) = (_, refl, refl)
  action_to_intent-ok rule (ActionIntentTemplate.execute_command t p) = (_, refl, refl)

  push_intents-eq :
      (rule : Rule) (actions : List (ActionIntentTemplate J.Number))
      (before : List (ActionIntent J.Number))
      → push_intents J rule event actions before ≡ ok (before ++ intents_of rule actions)
  unfolding push_intents
  push_intents-eq rule [] before = rw append-nil
  push_intents-eq rule (a ∷ actions) before =
      let (i, e, same) = action_to_intent-ok rule a in
      rw (e, push_intents)
        (push_intents-eq rule actions (before ++ i ∷ [])
          ∙ ap ok (append_assoc before (i ∷ []) (intents_of rule actions)))

  -- The result of the loop from what has been collected.
  abbrev pub outcome : RuleEvaluation J → List Rule → RuleEvaluation J
  outcome acc rules = record {
    matched_rules = acc.matched_rules ++ map rule_id (keep fires rules);
    intents = acc.intents ++ all_intents (keep fires rules);
  }

  -- Either no decision fails, and the result has the rules that fire, or the first failure is the
  -- result.
  pub data Evaluated (acc : RuleEvaluation J) (rules : List Rule)
      : Result MqttEngineError (RuleEvaluation J) → Type 0 where
    decided : All (λ r. failure r ≡ none) rules → Evaluated acc rules (ok (outcome acc rules))
    failed :
        (r : Rule) (e : MqttEngineError) → IsFirst failure rules r e → Evaluated acc rules (err e)

  module _ (r : Rule) (rules : List Rule) (acc : RuleEvaluation J) where
    skip_rule :
        decide r ≡ ok false
        → evaluate_rules J event (r ∷ rules) acc ≡ evaluate_rules J event rules acc
    unfolding evaluate_rules
    skip_rule h = elim (Bool-cases (trigger_matches J r.trigger event)) [
      | inr quiet ↦ rw (quiet, evaluate_rules)
      | inl on ↦
          let c : condition_holds J r event r.condition ≡ ok false = ground arith in
          rw (on, evaluate_rules, c)
    ]

    stop_rule :
        (e : MqttEngineError) → decide r ≡ err e → evaluate_rules J event (r ∷ rules) acc ≡ err e
    unfolding evaluate_rules
    stop_rule e h = elim (Bool-cases (trigger_matches J r.trigger event)) [
      | inr quiet ↦ ground arith
      | inl on ↦
          let c : condition_holds J r event r.condition ≡ err e = ground arith in
          rw (on, evaluate_rules, c)
    ]

    fire_rule :
        decide r ≡ ok true
        → evaluate_rules J event (r ∷ rules) acc
          ≡ evaluate_rules J event rules (record {
            matched_rules = acc.matched_rules ++ r.id ∷ [];
            intents = acc.intents ++ intents_of r r.actions;
          })
    unfolding evaluate_rules
    fire_rule h = elim (Bool-cases (trigger_matches J r.trigger event)) [
      | inr quiet ↦ ground arith
      | inl on ↦
          let c : condition_holds J r event r.condition ≡ ok true = ground arith in
          rw (on, evaluate_rules, c, push_intents-eq r r.actions acc.intents)
    ]

    outcome-skip : fires r ≡ false → outcome acc (r ∷ rules) ≡ outcome acc rules
    outcome-skip h = simp h

    outcome-fire :
        fires r ≡ true
        → outcome acc (r ∷ rules)
          ≡ outcome
              (record {
                matched_rules = acc.matched_rules ++ r.id ∷ [];
                intents = acc.intents ++ intents_of r r.actions;
              })
              rules
    outcome-fire h = simp (h, append_assoc)

    Evaluated-later :
        {acc' : RuleEvaluation J} {res : Result MqttEngineError (RuleEvaluation J)}
        → failure r ≡ none
        → outcome acc (r ∷ rules) ≡ outcome acc' rules
        → Evaluated acc' rules res
        → Evaluated acc (r ∷ rules) res
    Evaluated-later fine same (decided h) =
        subst (λ (o : RuleEvaluation J). Evaluated acc (r ∷ rules) (ok o)) same (decided (fine, h))
    Evaluated-later fine same (failed q e first) =
        failed q e (IsFirst-later failure r q rules e fine first)

  outcome-nil : (acc : RuleEvaluation J) → outcome acc [] ≡ acc
  outcome-nil acc = simp append-nil

  evaluate_rules-Evaluated :
      (rules : List Rule) (acc : RuleEvaluation J)
      → Evaluated acc rules (evaluate_rules J event rules acc)
  evaluate_rules-Evaluated [] acc =
      unfold evaluate_rules in
      subst (λ (o : RuleEvaluation J). Evaluated acc [] (ok o)) (outcome-nil acc) (decided tt)
  evaluate_rules-Evaluated (r ∷ rules) acc = elim (Result-cases (decide r)) [
    | inl (false, e) ↦ rw (skip_rule r rules acc e) (
        Evaluated-later r rules acc (rw e) (outcome-skip r rules acc (rw e))
          (evaluate_rules-Evaluated rules acc))
    | inl (true, e) ↦ rw (fire_rule r rules acc e) (
        Evaluated-later r rules acc (rw e) (outcome-fire r rules acc (rw e))
          (evaluate_rules-Evaluated rules _))
    | inr (x, e) ↦
        rw (stop_rule r rules acc x e) (failed r x (IsFirst-here failure r rules x (rw e)))
  ]

  -- An evaluation whose rules can all be decided returns the ids of the rules whose trigger and
  -- condition hold, in order, and the intents of their actions, in order; otherwise it returns the
  -- error of the first rule that cannot be decided.
  pub evaluate-Evaluated :
      (rules : List Rule)
      → Evaluated (record { matched_rules = []; intents = [] }) rules (evaluate J rules event)
  unfolding evaluate
  evaluate-Evaluated rules =
      evaluate_rules-Evaluated rules (record { matched_rules = []; intents = [] })
