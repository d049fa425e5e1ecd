-- ===== src/Route/Compile.antt =====
-- When the routes of a configuration compile, and to what.
use pipe_bolt.Prelude.{
  >>=-eq-ok, All, All-append, Bool, Bool-cases, List, [], ap, append-nil, append_assoc, arith, err,
  false, inl, inr, keep, map, map-append, map_err, map_err-eq-ok, ok, ok-injective, or-eq-false,
  refl, subst, sym, true, ◌++◌, ◌>>=◌, ◌∙◌, ◌∷◌, ◌≡◌,
}
use pipe_bolt.Text.{str_eq}
use pipe_bolt.Domain.Id.{Identifier}
use pipe_bolt.Domain.Config.{TopicRouteConfig}
use pipe_bolt.Domain.Config.Validate.{validate_route}
use pipe_bolt.Error.{MqttEngineError, domain}
use pipe_bolt.Route.{
  CompiledConfigRoute, ConfigRouteMatcher, compile, compile_route, has_id, new_matcher, parse,
}

abbrev pub id_of : TopicRouteConfig → Identifier
id_of r = r.id

abbrev pub is_enabled : TopicRouteConfig → Bool
is_enabled r = r.enabled

abbrev pub config_of : CompiledConfigRoute → TopicRouteConfig
config_of c = c.config

-- No two routes have one id.
abbrev pub HasDistinctIds : List TopicRouteConfig → Type 0
HasDistinctIds [] = Unit
HasDistinctIds (r ∷ routes) = All (λ q. str_eq r.id q.id ≡ false) routes × HasDistinctIds routes

-- Every enabled route passes its validation.
abbrev pub AreValid : List TopicRouteConfig → Type 0
AreValid [] = Unit
AreValid (r ∷ routes) = (r.enabled ≡ true → validate_route r ≡ ok tt) × AreValid routes

abbrev pub Compiles : CompiledConfigRoute → Type 0
Compiles c = parse c.config.topic_filter ≡ ok c.matcher

abbrev AreUnseen : List Identifier → List TopicRouteConfig → Type 0
AreUnseen seen routes = All (λ r. has_id r.id seen ≡ false) routes

pub record IsCompiled (compiled : List CompiledConfigRoute) (routes : List TopicRouteConfig)
    (out : List CompiledConfigRoute) : Type 0 where
  pub in_order : map config_of out ≡ map config_of compiled ++ keep is_enabled routes
  pub parsed : All Compiles compiled → All Compiles out

unseen_of :
    (id : Identifier) (seen : List Identifier) (routes : List TopicRouteConfig)
    → AreUnseen (id ∷ seen) routes
    → AreUnseen seen routes × All (λ q. str_eq id q.id ≡ false) routes
unseen_of id seen [] h = (tt, tt)
unseen_of id seen (r ∷ routes) h =
    let (a, b) = unseen_of id seen routes h.1 in
    let (p, q) = or-eq-false (str_eq id r.id) _ h.0 in ((q, a), (p, b))

abbrev routes_of : ConfigRouteMatcher → List CompiledConfigRoute
routes_of m = m.routes

err≢ok : {e : MqttEngineError} {out : List CompiledConfigRoute} → ¬ (err e ≡ ok out)
err≢ok h = cc

compile_route-Compiles :
    (r : TopicRouteConfig) (c : CompiledConfigRoute)
    → compile_route r ≡ ok c
    → Compiles c × (c.config ≡ r)
unfolding compile_route
compile_route-Compiles r c h =
    let (levels, p, e) = >>=-eq-ok (parse r.topic_filter) _ h in
    subst (λ (x : CompiledConfigRoute). Compiles x × (x.config ≡ r)) (ok-injective e) (p, refl)

-- What a round of the loop that does not fail has done.
pub record Round (seen : List Identifier) (compiled : List CompiledConfigRoute)
    (r : TopicRouteConfig) (routes : List TopicRouteConfig) (out : List CompiledConfigRoute)
    : Type 0 where
  pub next : List CompiledConfigRoute
  pub unseen : has_id r.id seen ≡ false
  pub goes_on : compile (r.id ∷ seen) next routes ≡ ok out
  pub valid : r.enabled ≡ true → validate_route r ≡ ok tt
  pub in_order : map config_of next ≡ map config_of compiled ++ keep is_enabled (r ∷ [])
  pub parsed : All Compiles compiled → All Compiles next

enabled-Round :
    (seen : List Identifier) (compiled : List CompiledConfigRoute) (r : TopicRouteConfig)
    (routes : List TopicRouteConfig) (out : List CompiledConfigRoute) (c : CompiledConfigRoute)
    → has_id r.id seen ≡ false
    → r.enabled ≡ true
    → validate_route r ≡ ok tt
    → Compiles c
    → c.config ≡ r
    → compile (r.id ∷ seen) (compiled ++ c ∷ []) routes ≡ ok out
    → Round seen compiled r routes out
enabled-Round seen compiled r routes out c unseen on valid compiles same goes_on = record {
  next = compiled ++ c ∷ [];
  unseen = unseen;
  goes_on = goes_on;
  valid = λ _. valid;
  in_order = map-append config_of compiled (c ∷ []) ∙ simp (on, same);
  parsed = λ p. All-append Compiles compiled (c ∷ []) p (compiles, tt);
}

compile-Round :
    (seen : List Identifier) (compiled : List CompiledConfigRoute) (r : TopicRouteConfig)
    (routes : List TopicRouteConfig) (out : List CompiledConfigRoute)
    → compile seen compiled (r ∷ routes) ≡ ok out
    → Round seen compiled r routes out
unfolding compile
compile-Round seen compiled r routes out h = elim (Bool-cases (has_id r.id seen)) [
  | inl e ↦ absurd (err≢ok (rw (e, compile) at h))
  | inr unseen ↦ elim (Bool-cases r.enabled) [
    | inr off ↦ record {
      next = compiled;
      unseen = unseen;
      goes_on = rw (unseen, compile, off) at h;
      valid = λ on. cc (on, off);
      in_order = rw off (sym (append-nil _));
      parsed = λ p. p;
    }
    | inl on ↦
        let h' : (map_err domain (validate_route r) >>= λ _.
        compile_route r >>= λ c. compile (r.id ∷ seen) (compiled ++ c ∷ []) routes)
            ≡ ok out =
          rw (unseen, compile, on) at h in
        let (u, valid, h2) = >>=-eq-ok (map_err domain (validate_route r)) _ h' in
        let (c, made, h3) = >>=-eq-ok (compile_route r) _ h2 in
        let (compiles, same) = compile_route-Compiles r c made in
        enabled-Round seen compiled r routes out c unseen on (map_err-eq-ok domain _ valid) compiles
          same h3
  ]
]

keep-cons :
    (r : TopicRouteConfig) (routes : List TopicRouteConfig)
    → keep is_enabled (r ∷ routes) ≡ keep is_enabled (r ∷ []) ++ keep is_enabled routes
keep-cons r routes = ground arith

after_round :
    (compiled next : List CompiledConfigRoute) (r : TopicRouteConfig)
    (routes : List TopicRouteConfig)
    → map config_of next ≡ map config_of compiled ++ keep is_enabled (r ∷ [])
    → map config_of next ++ keep is_enabled routes
      ≡ map config_of compiled ++ keep is_enabled (r ∷ routes)
after_round compiled next r routes h =
    rw (h, keep-cons r routes)
      (append_assoc (map config_of compiled) (keep is_enabled (r ∷ [])) (keep is_enabled routes))

compile-IsCompiled :
    (seen : List Identifier) (compiled : List CompiledConfigRoute) (routes : List TopicRouteConfig)
    (out : List CompiledConfigRoute)
    → compile seen compiled routes ≡ ok out
    → IsCompiled compiled routes out
      × AreUnseen seen routes
      × HasDistinctIds routes
      × AreValid routes
compile-IsCompiled seen compiled [] out h =
    unfold compile in
    (
      subst (IsCompiled compiled []) (ok-injective h)
          (record { in_order = sym (append-nil _); parsed = λ p. p }),
      tt,
      tt,
      tt,
    )
compile-IsCompiled seen compiled (r ∷ routes) out h =
    let round = compile-Round seen compiled r routes out h in
    let (rest, fresh, distinct, valid) =
      compile-IsCompiled (r.id ∷ seen) round.next routes out round.goes_on in
    let (unseen, other) = unseen_of r.id seen routes fresh in
    (
      record {
        in_order = rest.in_order ∙ after_round compiled round.next r routes round.in_order;
        parsed = λ p. rest.parsed (round.parsed p);
      },
      (round.unseen, unseen),
      (other, distinct),
      (round.valid, valid),
    )

-- A matcher that is built holds the enabled routes in the order of the configuration, each with its
-- filter parsed; then no two routes, enabled or not, have one id, and every enabled one is valid.
pub new_matcher-routes :
    (project_id : Identifier) (routes : List TopicRouteConfig) (m : ConfigRouteMatcher)
    → new_matcher project_id routes ≡ ok m
    → (map config_of m.routes ≡ keep is_enabled routes)
      × All Compiles m.routes
      × HasDistinctIds routes
      × AreValid routes
unfolding new_matcher
new_matcher-routes project_id routes m h =
    let (out, made, same) = >>=-eq-ok (compile [] [] routes) _ h in
    let (done, unseen, distinct, valid) = compile-IsCompiled [] [] routes out made in
    let out_eq : out ≡ m.routes = ap routes_of (ok-injective same) in
    (rw (← out_eq) done.in_order, rw (← out_eq) (done.parsed tt), distinct, valid)
