-- ===== src/Rules/Depth.antt =====
-- How deep a condition is: `condition_depth` of crates/pipe-bolt-core/src/rule/rules.rs, which the
-- limit on the depth of conditions is compared with.
use pipe_bolt.Prelude.{
  Bool-cases, arith, inl, inr, ltb, ltb→le, ltb→lt, suc, zero, ℕ, ◌<◌, ◌↔◌, ◌≤◌,
}
use pipe_bolt.Domain.Rule.{ConditionExpr, Conditions, also, no_more}
use pipe_bolt.Rules.{condition_depth, deepest}

module _ {N : Type 0} where
  pub data IsIn (d : ConditionExpr N) : Conditions N → Type 0 where
    first : (cs : Conditions N) → IsIn d (also d cs)
    later : (c : ConditionExpr N) (cs : Conditions N) → IsIn d cs → IsIn d (also c cs)

  -- A condition that a group or a negation is directly made of.
  pub data IsPart (d : ConditionExpr N) : ConditionExpr N → Type 0 where
    of_and : (cs : Conditions N) → IsIn d cs → IsPart d (ConditionExpr.and cs)
    of_or : (cs : Conditions N) → IsIn d cs → IsPart d (ConditionExpr.or cs)
    of_not : IsPart d (ConditionExpr.not d)

  -- A condition has parts of parts down to so many levels below it.
  abbrev pub HasLevelsBelow : ℕ → ConditionExpr N → Type 0
  HasLevelsBelow zero c = Unit
  HasLevelsBelow (suc n) c = (d : ConditionExpr N) × IsPart d c × HasLevelsBelow n d

  depth-le-deepest :
      (d : ConditionExpr N) {cs : Conditions N} → IsIn d cs → condition_depth d ≤ deepest cs
  unfolding condition_depth
  depth-le-deepest d (first cs) = omega arith
  depth-le-deepest d (later c cs h) = omega (arith, depth-le-deepest d h)

  depth_of_part :
      (d : ConditionExpr N) {c : ConditionExpr N}
      → IsPart d c
      → condition_depth d < condition_depth c
  unfolding condition_depth
  depth_of_part d (of_and cs h) = omega (arith, depth-le-deepest d h)
  depth_of_part d (of_or cs h) = omega (arith, depth-le-deepest d h)
  depth_of_part d of_not = omega arith

  depth_pos : (c : ConditionExpr N) → 0 < condition_depth c
  unfolding condition_depth
  depth_pos (ConditionExpr.and cs) = omega arith
  depth_pos (ConditionExpr.or cs) = omega arith
  depth_pos (ConditionExpr.not c) = omega arith
  depth_pos _ = omega arith

  levels-lt : (n : ℕ) (c : ConditionExpr N) → HasLevelsBelow n c → n < condition_depth c
  levels-lt zero c h = depth_pos c
  levels-lt (suc n) c (d, part, h) = omega (arith, depth_of_part d part, levels-lt n d h)

  deep_member :
      (n : ℕ) (cs : Conditions N)
      → n < deepest cs
      → (d : ConditionExpr N) × IsIn d cs × (n < condition_depth d)
  unfolding condition_depth
  deep_member n no_more h = absurd (omega arith)
  deep_member n (also c cs) h = elim (Bool-cases (ltb n (condition_depth c))) [
    | inl deep ↦ (c, first cs, ltb→lt _ _ deep)
    | inr shallow ↦
        let (d, is_in, deep) = deep_member n cs (omega (arith, ltb→le _ _ shallow)) in
        (d, later c cs is_in, deep)
  ]

  depth_below :
      (n : ℕ) (c : ConditionExpr N)
      → suc n < condition_depth c
      → (d : ConditionExpr N) × IsPart d c × (n < condition_depth d)
  unfolding condition_depth
  depth_below n (ConditionExpr.and cs) h =
      let (d, is_in, deep) = deep_member n cs (omega arith) in (d, of_and cs is_in, deep)
  depth_below n (ConditionExpr.or cs) h =
      let (d, is_in, deep) = deep_member n cs (omega arith) in (d, of_or cs is_in, deep)
  depth_below n (ConditionExpr.not c) h = (c, of_not, omega arith)
  depth_below n _ h = absurd (omega arith)

  levels_of : (n : ℕ) (c : ConditionExpr N) → n < condition_depth c → HasLevelsBelow n c
  levels_of zero c h = tt
  levels_of (suc n) c h = let (d, part, deep) = depth_below n c h in (d, part, levels_of n d deep)

  -- A condition has parts of parts, in groups and negations, down to n levels below it exactly if n
  -- is less than its depth.
  pub condition_depth_iff :
      (n : ℕ) (c : ConditionExpr N) → HasLevelsBelow n c ↔ (n < condition_depth c)
  condition_depth_iff n c = (levels-lt n c, levels_of n c)
