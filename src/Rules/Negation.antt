-- ===== src/Rules/Negation.antt =====
-- How negation meets the groups of a condition, failures included.
use pipe_bolt.Prelude.{Bool, Result, Result-cases, false, inl, inr, not, ok, refl, true, ◌>>=◌, ◌≡◌}
use pipe_bolt.Json.{JsonLib}
use pipe_bolt.Domain.Id.{Identifier}
use pipe_bolt.Domain.Rule.{ConditionExpr, Conditions, also, no_more}
use pipe_bolt.Domain.Event.{NormalizedEvent}
use pipe_bolt.Error.{MqttEngineError}
use pipe_bolt.Rules.Evaluate.{evaluate_all, evaluate_any, evaluate_condition}

abbrev pub negate_each : {N : Type 0} → Conditions N → Conditions N
negate_each no_more = no_more
negate_each (also c cs) = also (ConditionExpr.not c) (negate_each cs)

abbrev flip : Result MqttEngineError Bool → Result MqttEngineError Bool
flip r = r >>= λ b. ok (not b)

module _ (J : JsonLib) (id : Identifier) (event : NormalizedEvent J.Number) where
  not-evaluate_all :
      (cs : Conditions J.Number)
      → flip (evaluate_all J id cs event) ≡ evaluate_any J id (negate_each cs) event
  unfolding evaluate_condition
  not-evaluate_all no_more = refl
  not-evaluate_all (also c cs) = elim (Result-cases (evaluate_condition J id c event)) [
    | inl (true, e) ↦ rw (e, evaluate_condition) (not-evaluate_all cs)
    | inl (false, e) ↦ rw (e, evaluate_condition)
    | inr (x, e) ↦ rw (e, evaluate_condition)
  ]

  not-evaluate_any :
      (cs : Conditions J.Number)
      → flip (evaluate_any J id cs event) ≡ evaluate_all J id (negate_each cs) event
  unfolding evaluate_condition
  not-evaluate_any no_more = refl
  not-evaluate_any (also c cs) = elim (Result-cases (evaluate_condition J id c event)) [
    | inl (true, e) ↦ rw (e, evaluate_condition)
    | inl (false, e) ↦ rw (e, evaluate_condition) (not-evaluate_any cs)
    | inr (x, e) ↦ rw (e, evaluate_condition)
  ]

  -- De Morgan's laws hold for the evaluation of conditions, the failures and the early stops of the
  -- groups included.
  pub de_morgan :
      (cs : Conditions J.Number)
      → (evaluate_condition J id (ConditionExpr.not (ConditionExpr.and cs)) event
          ≡ evaluate_condition J id (ConditionExpr.or (negate_each cs)) event)
        × (evaluate_condition J id (ConditionExpr.not (ConditionExpr.or cs)) event
            ≡ evaluate_condition J id (ConditionExpr.and (negate_each cs)) event)
  unfolding evaluate_condition
  de_morgan cs = (not-evaluate_all cs, not-evaluate_any cs)
