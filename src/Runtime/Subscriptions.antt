-- ===== src/Runtime/Subscriptions.antt =====
-- The subscriptions of a broker, merged from its routes: crates/pipe-bolt-daemon/src/runtime.rs. The
-- levels of quality of service of the MQTT library are those of the domain.
use pipe_bolt.Prelude.{
  some-injective, All, Bool-cases, Exists, List, Option, [], ap, arith, if◌then◌else◌, inl, inr,
  keep, ltb, none, refl, some, subst, sym, ℕ, ◌&&◌, ◌∙◌, ◌∷◌, ◌≡◌, ◌≢◌, ◌≤◌, ◌⊎◌,
}
use pipe_bolt.Text.{Str, str_eq}
use pipe_bolt.Text.Equality.{str_eq-cases, str_eq_refl}
use pipe_bolt.Map.{BTreeMap, insert, lookup, lookup-insert}
use pipe_bolt.Domain.Id.{Identifier}
use pipe_bolt.Domain.Config.{MqttQos, TopicRouteConfig, at_least_once, at_most_once, exactly_once}
use pipe_bolt.Domain.Project.{ProjectConfig}

abbrev pub qos_rank : MqttQos → ℕ
qos_rank at_most_once = 0
qos_rank at_least_once = 1
qos_rank exactly_once = 2

abbrev pub max_qos : MqttQos → MqttQos → MqttQos
max_qos left right = if ltb (qos_rank left) (qos_rank right) then right else left

-- `enabled_routes_for_broker`
abbrev pub enabled_routes_for_broker :
    {N : Type 0} → ProjectConfig N → Identifier → List TopicRouteConfig
enabled_routes_for_broker config broker_id =
    keep (λ (r : TopicRouteConfig). r.enabled && str_eq r.broker_id broker_id) config.routes

-- `and_modify` or `or_insert` at the entry of a topic.
abbrev pub merged_qos : Option MqttQos → MqttQos → MqttQos
merged_qos none qos = qos
merged_qos (some existing) qos = max_qos existing qos

-- A round of the loop of `merged_subscriptions`.
unfoldable pub subscribe : TopicRouteConfig → BTreeMap MqttQos → BTreeMap MqttQos
subscribe r m = insert r.topic_filter (merged_qos (lookup r.topic_filter m) r.qos) m

unfoldable pub subscribe_all : List TopicRouteConfig → BTreeMap MqttQos → BTreeMap MqttQos
unfolding subscribe
subscribe_all [] m = m
subscribe_all (r ∷ rs) m = subscribe_all rs (subscribe r m)

unfoldable pub merged_subscriptions : List TopicRouteConfig → BTreeMap MqttQos
unfolding subscribe_all
merged_subscriptions routes = subscribe_all routes []

-- A topic is subscribed with at least a level.
abbrev pub AtLeast : Str → MqttQos → BTreeMap MqttQos → Type 0
AtLeast topic qos m = (q : MqttQos) × (lookup topic m ≡ some q) × (qos_rank qos ≤ qos_rank q)

merged_qos-right : (o : Option MqttQos) (q : MqttQos) → qos_rank q ≤ qos_rank (merged_qos o q)
merged_qos-right none q = omega arith
merged_qos-right (some e) q = ground arith

merged_qos-left : (e q : MqttQos) → qos_rank e ≤ qos_rank (merged_qos (some e) q)
merged_qos-left e q = ground arith

merged_qos-one :
    (o : Option MqttQos) (q : MqttQos) → (o ≡ some (merged_qos o q)) ⊎ (merged_qos o q ≡ q)
merged_qos-one none q = inr refl
merged_qos-one (some e) q = elim (Bool-cases (ltb (qos_rank e) (qos_rank q))) [
  | inl more ↦ inr (rw more refl)
  | inr less ↦ inl (rw less refl)
]

subscribe-new :
    (r : TopicRouteConfig) (m : BTreeMap MqttQos) → AtLeast r.topic_filter r.qos (subscribe r m)
unfolding subscribe
subscribe-new r m =
    let level = merged_qos (lookup r.topic_filter m) r.qos in
    (
      level,
      lookup-insert r.topic_filter r.topic_filter level m ∙ rw (str_eq_refl r.topic_filter) refl,
      merged_qos-right (lookup r.topic_filter m) r.qos,
    )

subscribe-keeps :
    (r : TopicRouteConfig) (m : BTreeMap MqttQos) (topic : Str) (qos : MqttQos)
    → AtLeast topic qos m
    → AtLeast topic qos (subscribe r m)
unfolding subscribe
subscribe-keeps r m topic qos (q, found, more) =
    let level = merged_qos (lookup r.topic_filter m) r.qos in
    let after = lookup-insert r.topic_filter topic level m in
    elim (str_eq-cases r.topic_filter topic) [
      | inl (same, e) ↦
          let old : lookup r.topic_filter m ≡ some q = rw e found in
          (
            level,
            after ∙ rw same refl,
            subst (λ o. qos_rank qos ≤ qos_rank (merged_qos o r.qos)) (sym old)
                (omega (arith, merged_qos-left q r.qos)),
          )
      | inr (other, differ) ↦ (q, after ∙ rw other found, more)
    ]

subscribe_all-keeps :
    (rs : List TopicRouteConfig) (m : BTreeMap MqttQos) (topic : Str) (qos : MqttQos)
    → AtLeast topic qos m
    → AtLeast topic qos (subscribe_all rs m)
unfolding subscribe_all
subscribe_all-keeps [] m topic qos h = h
subscribe_all-keeps (r ∷ rs) m topic qos h =
    subscribe_all-keeps rs (subscribe r m) topic qos (subscribe-keeps r m topic qos h)

subscribe_all-covers :
    (rs : List TopicRouteConfig) (m : BTreeMap MqttQos)
    → All (λ (r : TopicRouteConfig). AtLeast r.topic_filter r.qos (subscribe_all rs m)) rs
unfolding subscribe_all
subscribe_all-covers [] m = tt
subscribe_all-covers (r ∷ rs) m = (
  subscribe_all-keeps rs (subscribe r m) r.topic_filter r.qos (subscribe-new r m),
  subscribe_all-covers rs (subscribe r m),
)

-- A subscription comes from a route.
abbrev pub IsAsked : Str → MqttQos → List TopicRouteConfig → Type 0
IsAsked topic qos rs =
    Exists (λ (r : TopicRouteConfig). (r.topic_filter ≡ topic) × (r.qos ≡ qos)) rs

subscribe_all-IsAsked :
    (rs : List TopicRouteConfig) (m : BTreeMap MqttQos) (topic : Str) (q : MqttQos)
    → lookup topic (subscribe_all rs m) ≡ some q
    → (lookup topic m ≡ some q) ⊎ IsAsked topic q rs
unfolding subscribe_all subscribe
subscribe_all-IsAsked [] m topic q h = inl h
subscribe_all-IsAsked (r ∷ rs) m topic q h =
    let level = merged_qos (lookup r.topic_filter m) r.qos in
    let after = lookup-insert r.topic_filter topic level m in
    elim (subscribe_all-IsAsked rs (subscribe r m) topic q h) [
      | inr later ↦ inr (inr later)
      | inl here ↦ elim (str_eq-cases r.topic_filter topic) [
        | inr (other, differ) ↦ inl (sym (after ∙ rw other refl) ∙ here)
        | inl (same, e) ↦
            let is_level : level ≡ q = some-injective (sym (after ∙ rw same refl) ∙ here) in
            elim (merged_qos-one (lookup r.topic_filter m) r.qos) [
              | inr new ↦ inr (inl (e, sym new ∙ is_level))
              | inl old ↦ inl (rw (← e) old ∙ ap some is_level)
            ]
      ]
    ]

-- Every route is subscribed with at least its level, and every subscription has the topic filter and
-- the level of one of the routes.
pub merged_subscriptions-AtLeast :
    (routes : List TopicRouteConfig)
    → All
        (λ (r : TopicRouteConfig). AtLeast r.topic_filter r.qos (merged_subscriptions routes))
        routes
      × ((topic : Str) (q : MqttQos)
          → lookup topic (merged_subscriptions routes) ≡ some q
          → IsAsked topic q routes)
unfolding merged_subscriptions lookup
merged_subscriptions-AtLeast routes = (
  subscribe_all-covers routes [],
  λ topic q h. asked topic q (subscribe_all-IsAsked routes [] topic q h),
)
  where
    asked :
        (topic : Str) (q : MqttQos)
        → (none ≡ some q) ⊎ IsAsked topic q routes
        → IsAsked topic q routes
    asked topic q (inl e) = elim (none≢some e) [ ]
      where
        none≢some : {q : MqttQos} → none ≢ some q
        none≢some e = cc
    asked topic q (inr h) = h
