-- ===== src/Rules/Limits.antt =====
-- What a rule that the engine has compiled satisfies.
use pipe_bolt.Prelude.{
  >>=-eq-ok, All, All-append, Bool, Bool-cases, List, Option, [], append-nil, append_assoc, arith,
  false, for_each, inl, inr, is_empty, keep, length, map_err-eq-ok, none, ok, ok-injective, some,
  subst, sym, true, ◌++◌, ◌>>=◌, ◌∙◌, ◌∷◌, ◌≡◌, ◌≤◌,
}
use pipe_bolt.Domain.Error.{for_some}
use pipe_bolt.Domain.Id.{Identifier}
use pipe_bolt.Domain.Rule.{
  ActionIntentTemplate, ConditionExpr, Conditions, RuleDefinition, also, no_more,
}
use pipe_bolt.Domain.Rule.Validate.{validate_definition}
use pipe_bolt.Metadata.{IsAllowed, validate_action_metadata_iff}
use pipe_bolt.Rules.{
  RuleEngineLimits, compile_rules, condition_depth, condition_nodes, is_command_requested,
  is_no_more, metadata_error, metadata_limits, validate_action, validate_condition_groups,
  validate_groups, validate_rule, validate_rule_condition, with_limits,
}

module _ {N : Type 0} where
  -- No group of a condition is empty.
  mutual
    pub HasGroups : ConditionExpr N → Type 0
    HasGroups (ConditionExpr.and cs) = (is_no_more cs ≡ false) × AllHaveGroups cs
    HasGroups (ConditionExpr.or cs) = (is_no_more cs ≡ false) × AllHaveGroups cs
    HasGroups (ConditionExpr.not c) = HasGroups c
    HasGroups _ = Unit

    pub AllHaveGroups : Conditions N → Type 0
    AllHaveGroups no_more = Unit
    AllHaveGroups (also c cs) = HasGroups c × AllHaveGroups cs

  mutual
    unfolding HasGroups validate_condition_groups

    groups_of :
        (id : Identifier) (c : ConditionExpr N)
        → validate_condition_groups id c ≡ ok tt
        → HasGroups c
    groups_of id (ConditionExpr.and cs) h = (ground arith, all_groups_of id cs (ground arith))
    groups_of id (ConditionExpr.or cs) h = (ground arith, all_groups_of id cs (ground arith))
    groups_of id (ConditionExpr.not c) h = groups_of id c h
    groups_of id _ h = tt

    all_groups_of :
        (id : Identifier) (cs : Conditions N) → validate_groups id cs ≡ ok tt → AllHaveGroups cs
    all_groups_of id no_more h = tt
    all_groups_of id (also c cs) h =
        (groups_of id c (ground arith), all_groups_of id cs (ground arith))

  pub record IsBoundedCondition (limits : RuleEngineLimits) (c : ConditionExpr N) : Type 0 where
    pub shallow : condition_depth c ≤ limits.max_condition_depth
    pub small : condition_nodes c ≤ limits.max_condition_nodes
    pub groups : HasGroups c

  abbrev pub IsBoundedOption : RuleEngineLimits → Option (ConditionExpr N) → Type 0
  IsBoundedOption limits none = Unit
  IsBoundedOption limits (some c) = IsBoundedCondition limits c

  abbrev pub IsAllowedAction : RuleEngineLimits → ActionIntentTemplate N → Type 0
  IsAllowedAction limits (ActionIntentTemplate.add_metadata key value) =
      IsAllowed (metadata_limits limits) key value
  IsAllowedAction limits _ = Unit

  -- What the engine promises of each rule that it holds.
  pub record IsAdmitted (limits : RuleEngineLimits) (rule : RuleDefinition N) : Type 0 where
    pub on : rule.enabled ≡ true
    pub triggered : is_command_requested rule.trigger ≡ false
    pub acts : is_empty rule.actions ≡ false
    pub few_actions : length rule.actions ≤ limits.max_actions_per_rule
    pub allowed : All (IsAllowedAction limits) rule.actions
    pub bounded : IsBoundedOption limits rule.condition
    pub defined : validate_definition rule ≡ ok tt

  condition_of :
      (id : Identifier) (limits : RuleEngineLimits) (c : ConditionExpr N)
      → validate_rule_condition id limits c ≡ ok tt
      → IsBoundedCondition limits c
  unfolding validate_rule_condition
  condition_of id limits c h = record {
    shallow = ground arith;
    small = ground arith;
    groups = groups_of id c (ground arith);
  }

  action_of :
      (id : Identifier) (limits : RuleEngineLimits) (a : ActionIntentTemplate N)
      → validate_action id limits a ≡ ok tt
      → IsAllowedAction limits a
  unfolding validate_action
  action_of id limits (ActionIntentTemplate.add_metadata key value) h =
      (validate_action_metadata_iff key value (metadata_limits limits)).0
        (map_err-eq-ok (metadata_error id) _ h)
  action_of id limits _ h = tt

  actions_of :
      (id : Identifier) (limits : RuleEngineLimits) (actions : List (ActionIntentTemplate N))
      → for_each (validate_action id limits) actions ≡ ok tt
      → All (IsAllowedAction limits) actions
  actions_of id limits [] h = tt
  actions_of id limits (a ∷ actions) h =
      (action_of id limits a (ground arith), actions_of id limits actions (ground arith))

  option_of :
      (id : Identifier) (limits : RuleEngineLimits) (o : Option (ConditionExpr N))
      → for_some (validate_rule_condition id limits) o ≡ ok tt
      → IsBoundedOption limits o
  option_of id limits none h = tt
  option_of id limits (some c) h = condition_of id limits c h

  -- A rule that passes the engine's validation keeps all the limits.
  rule_of :
      (rule : RuleDefinition N) (limits : RuleEngineLimits)
      → rule.enabled ≡ true
      → validate_rule rule limits ≡ ok tt
      → IsAdmitted limits rule
  unfolding validate_rule
  rule_of rule limits on h = record {
    on = on;
    triggered = ground arith;
    acts = ground arith;
    few_actions = ground arith;
    allowed = actions_of rule.id limits rule.actions (ground arith);
    bounded = option_of rule.id limits rule.condition (ground arith);
    defined = ground arith;
  }

  abbrev pub rule_enabled : RuleDefinition N → Bool
  rule_enabled rule = rule.enabled

  compile_rules-IsAdmitted :
      (limits : RuleEngineLimits) (compiled rules out : List (RuleDefinition N))
      → compile_rules limits compiled rules ≡ ok out
      → All (IsAdmitted limits) compiled
      → (out ≡ compiled ++ keep rule_enabled rules) × All (IsAdmitted limits) out
  unfolding compile_rules
  compile_rules-IsAdmitted limits compiled [] out h p =
      let e = ok-injective h in (rw append-nil (sym e), subst (All (IsAdmitted limits)) e p)
  compile_rules-IsAdmitted limits compiled (rule ∷ rules) out h p = elim (Bool-cases rule.enabled) [
    | inr off ↦
        let (same, admitted) =
          compile_rules-IsAdmitted limits compiled rules out (rw (off, compile_rules) at h) p in
        (simp off same, admitted)
    | inl on ↦
        let h' : (validate_rule rule limits >>= λ _.
        compile_rules limits (compiled ++ rule ∷ []) rules)
            ≡ ok out =
          rw (on, compile_rules) at h in
        let (u, valid, rest) = >>=-eq-ok (validate_rule rule limits) _ h' in
        let (same, admitted) =
          compile_rules-IsAdmitted limits (compiled ++ rule ∷ []) rules out rest (
            All-append (IsAdmitted limits) compiled (rule ∷ []) p
              (rule_of rule limits on valid, tt)) in
        (simp on (same ∙ append_assoc compiled (rule ∷ []) (keep rule_enabled rules)), admitted)
  ]

  -- An engine that is built holds exactly the enabled rules, in their order, and each of them has a
  -- supported trigger, from one action to the limit, allowed metadata, and a condition within the
  -- limits on depth and nodes whose groups are not empty.
  pub with_limits-IsAdmitted :
      (rules engine : List (RuleDefinition N)) (limits : RuleEngineLimits)
      → with_limits rules limits ≡ ok engine
      → (engine ≡ keep rule_enabled rules) × All (IsAdmitted limits) engine
  unfolding with_limits
  with_limits-IsAdmitted rules engine limits h =
      compile_rules-IsAdmitted limits [] rules engine h tt
