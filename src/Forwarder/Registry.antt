-- ===== src/Forwarder/Registry.antt =====
-- Which target a sink id has in the registry that is compiled from the sinks of a project.
use pipe_bolt.Prelude.{
  some-injective, >>=-eq-ok, All, Bool-cases, List, Option, Result, [], err, false, find, inl, inr,
  ltb, ltb→le, min, none, ok, ok-injective, refl, reject_if-eq-ok, some, subst, sym, true, ◌∙◌, ◌∷◌,
  ◌≡◌, ◌≤◌,
}
use pipe_bolt.Text.{Str, str_eq}
use pipe_bolt.Text.Equality.{str_eq-cases}
use pipe_bolt.Map.{
  BTreeMap, contains_key, contains_key_iff_lookup, insert, lookup, lookup-insert, or_else,
}
use pipe_bolt.Domain.Id.{Identifier}
use pipe_bolt.Domain.Config.{
  Duration, HttpHeaderTemplate, HttpMethod, SinkDefinition, SinkKind, database, webhook,
}
use pipe_bolt.Error.{DispatchError, sink_disabled, sink_not_found, unsupported_sink_kind}
use pipe_bolt.Egress.{EgressPolicy, UrlLib, parse_url}
use pipe_bolt.Forwarder.{
  ForwardLimits, ForwardTarget, HttpLib, SinkState, clamp_timeout, compile_headers, compile_kind,
  compile_sink, compile_sinks, disabled_sink, min_timeout, refuse_config, target, target_of,
}

module _ (L : UrlLib) (H : HttpLib) (limits : ForwardLimits) (policy : EgressPolicy) where
  abbrev pub find_sink : Identifier → List SinkDefinition → Option SinkDefinition
  find_sink id sinks = find (λ sink. str_eq sink.id id) sinks

  abbrev Compiles : SinkDefinition → Type 0
  Compiles s = (state : SinkState L H) × (compile_sink L H s limits policy ≡ ok state)

  abbrev state_of : Result DispatchError (SinkState L H) → Option (SinkState L H)
  state_of (ok state) = some state
  state_of (err e) = none

  abbrev state_for : Option SinkDefinition → Option (SinkState L H)
  state_for none = none
  state_for (some s) = state_of (compile_sink L H s limits policy)

  lookup-step :
      (id : Identifier) (s : SinkDefinition) (sinks : List SinkDefinition) (state : SinkState L H)
      (compiled : BTreeMap (SinkState L H))
      → contains_key s.id compiled ≡ false
      → compile_sink L H s limits policy ≡ ok state
      → or_else (lookup id (insert s.id state compiled)) (state_for (find_sink id sinks))
        ≡ or_else (lookup id compiled) (state_for (find_sink id (s ∷ sinks)))
  lookup-step id s sinks state compiled new e = elim (str_eq-cases s.id id) [
    | inl (equal, same) ↦
        let absent : lookup id compiled ≡ none =
          rw (← same) (contains_key_iff_lookup s.id compiled new) in
        simp (lookup-insert s.id id state compiled, equal, absent, e)
    | inr (other, differ) ↦ simp (lookup-insert s.id id state compiled, other)
  ]

  compile_sinks-lookup :
      (compiled out : BTreeMap (SinkState L H)) (sinks : List SinkDefinition) (id : Identifier)
      → compile_sinks L H compiled sinks limits policy ≡ ok out
      → All Compiles sinks
        × (lookup id out ≡ or_else (lookup id compiled) (state_for (find_sink id sinks)))
  unfolding compile_sinks
  compile_sinks-lookup compiled out [] id h =
      (tt, rw (ok-injective h) (or_else-none (lookup id out)))
    where
      or_else-none : (o : Option (SinkState L H)) → o ≡ or_else o none
      or_else-none none = refl
      or_else-none (some s) = refl
  compile_sinks-lookup compiled out (s ∷ sinks) id h =
      let (u, new, h) = >>=-eq-ok (refuse_config (contains_key s.id compiled) _) _ h in
      let (state, e, h) = >>=-eq-ok (compile_sink L H s limits policy) _ h in
      let (rest, same) = compile_sinks-lookup (insert s.id state compiled) out sinks id h in
      (((state, e), rest), same ∙ lookup-step id s sinks state compiled (reject_if-eq-ok _ _ new) e)

  -- What the registry answers for a sink id.
  pub data Answer (id : Identifier) (sinks : List SinkDefinition)
      : Result DispatchError (ForwardTarget L H) → Type 0 where
    missing : find_sink id sinks ≡ none → Answer id sinks (err (sink_not_found id))
    disabled :
        (s : SinkDefinition)
        → find_sink id sinks ≡ some s
        → s.enabled ≡ false
        → Answer id sinks (err (sink_disabled id))
    unsupported :
        (s : SinkDefinition) (connection_ref table : Str)
        → find_sink id sinks ≡ some s
        → s.enabled ≡ true
        → s.kind ≡ database connection_ref table
        → Answer id sinks (err (unsupported_sink_kind id))
    enabled :
        (s : SinkDefinition) (url : Str) (method : HttpMethod) (headers : List HttpHeaderTemplate)
        (timeout : Duration) (t : ForwardTarget L H)
        → find_sink id sinks ≡ some s
        → s.enabled ≡ true
        → s.kind ≡ webhook url method headers timeout
        → parse_url L url policy ≡ ok t.url
        → t.method ≡ method
        → compile_headers H headers limits ≡ ok t.headers
        → min_timeout ≤ timeout
        → t.timeout ≡ min timeout limits.max_timeout
        → Answer id sinks (ok t)

  kind-Answer :
      (id : Identifier) (sinks : List SinkDefinition) (s : SinkDefinition) (kind : SinkKind)
      (state : SinkState L H)
      → find_sink id sinks ≡ some s
      → s.enabled ≡ true
      → s.kind ≡ kind
      → compile_kind L H kind limits policy ≡ ok state
      → Answer id sinks (target_of L H id (some state))
  unfolding compile_kind target_of clamp_timeout
  kind-Answer id sinks s (database connection_ref table) state found on k h =
      subst (λ st. Answer id sinks (target_of L H id (some st))) (ok-injective h)
        (unsupported s connection_ref table found on k)
  kind-Answer id sinks s (webhook url method headers timeout) state found on k h =
      let (u, parsed, h) = >>=-eq-ok (parse_url L url policy) _ h in
      let (hm, compiled, h) = >>=-eq-ok (compile_headers H headers limits) _ h in
      let (t, clamps, h) = >>=-eq-ok (clamp_timeout timeout limits.max_timeout) _ h in
      let (v, long, clamps) = >>=-eq-ok (refuse_config (ltb timeout min_timeout) _) _ clamps in
      subst (λ st. Answer id sinks (target_of L H id (some st))) (ok-injective h)
        (Answer.enabled s url method headers timeout _ found on k parsed refl compiled
          (ltb→le _ _ (reject_if-eq-ok _ _ long)) (sym (ok-injective clamps)))

  compile_sink_on :
      (s : SinkDefinition)
      → s.enabled ≡ true
      → compile_sink L H s limits policy ≡ compile_kind L H s.kind limits policy
  unfolding compile_sink
  compile_sink_on s on = simp on

  compile_sink_off :
      (s : SinkDefinition) → s.enabled ≡ false → compile_sink L H s limits policy ≡ ok disabled_sink
  unfolding compile_sink
  compile_sink_off s off = simp off

  found-Answer :
      (id : Identifier) (sinks : List SinkDefinition) (found : Option SinkDefinition)
      → find_sink id sinks ≡ found
      → ((s : SinkDefinition) → found ≡ some s → Compiles s)
      → Answer id sinks (target_of L H id (state_for found))
  unfolding target_of
  found-Answer id sinks none e compiles = missing e
  found-Answer id sinks (some s) e compiles =
      let (state, c) = compiles s refl in
      elim (Bool-cases s.enabled) [
        | inl on ↦
            rw c (kind-Answer id sinks s s.kind state e on refl (sym (compile_sink_on s on) ∙ c))
        | inr off ↦ rw (compile_sink_off s off) (Answer.disabled s e off)
      ]

  find-Compiles :
      (id : Identifier) (sinks : List SinkDefinition) (s : SinkDefinition)
      → All Compiles sinks
      → find_sink id sinks ≡ some s
      → Compiles s
  find-Compiles id [] s p h = cc
  find-Compiles id (r ∷ sinks) s (p, ps) h = elim (Bool-cases (str_eq r.id id)) [
    | inl same ↦
        let found : ◌≡◌ {A = Option SinkDefinition} (some r) (some s) = rw same at h in
        subst Compiles (some-injective found) p
    | inr other ↦ find-Compiles id sinks s ps (rw other at h)
  ]

  -- A registry that is compiled answers for every sink id by the first sink with that id: with its
  -- target, if it is an enabled webhook whose URL, headers and time limit pass the checks, and with
  -- the error that says why there is none otherwise.
  pub target-Answer :
      (sinks : List SinkDefinition) (registry : BTreeMap (SinkState L H)) (id : Identifier)
      → compile_sinks L H [] sinks limits policy ≡ ok registry
      → Answer id sinks (target L H registry id)
  unfolding target lookup
  target-Answer sinks registry id h =
      let (all_compile, same) = compile_sinks-lookup [] registry sinks id h in
      subst (λ o. Answer id sinks (target_of L H id o)) (sym same)
        (found-Answer id sinks (find_sink id sinks) refl
          (λ s e. find-Compiles id sinks s all_compile e))
