-- ===== src/Matcher/Dispatch.antt =====
-- `MqttRouter` of crates/pipe-bolt-core/src/router/matcher.rs. A handler is a function of the message
-- and the captured parameters; what it does is a change of an arbitrary state `S`.
use pipe_bolt.Matcher
use pipe_bolt.Prelude.{
  All, Bool, List, Option, Option-cases, Result, [], false, inl, inr, none, ok, refl, some, true,
  ◌++◌, ◌>>=◌, ◌∷◌, ◌≡◌, ◌⊎◌,
}
use pipe_bolt.Prelude.First.{IsFirst, IsFirst-here, IsFirst-later}
use pipe_bolt.Text.{Str}
use pipe_bolt.Error.{MqttEngineError}
use pipe_bolt.Message.{MqttMessage}
use pipe_bolt.Matcher.{TopicFilter, TopicParams, matches}

pub record MqttRoute (S : Type 0) : Type 0 where
  pub filter : TopicFilter
  pub handler : MqttMessage → TopicParams → S → Result MqttEngineError (Unit {0}) × S

module _ {S : Type 0} where
  -- `MqttRouter::route`, which `raw_router` and `json_route` make for their handlers by `push_route`.
  unfoldable pub route :
      List (MqttRoute S)
      → Str
      → (MqttMessage → TopicParams → S → Result MqttEngineError (Unit {0}) × S)
      → Result MqttEngineError (List (MqttRoute S))
  route routes filter handler = do
    parsed ← Matcher.parse filter
    ok (routes ++ record { filter = parsed; handler = handler } ∷ [])

  -- `route.handler.call(message, params).await?; return Ok(true);`
  abbrev handled : Result MqttEngineError (Unit {0}) × S → Result MqttEngineError Bool × S
  handled (r, s) = (r >>= λ _. ok true, s)

  -- `MqttRouter::dispatch`
  unfoldable pub dispatch : List (MqttRoute S) → MqttMessage → S → Result MqttEngineError Bool × S
  dispatch [] message s = (ok false, s)
  dispatch (r ∷ routes) message s = elim (matches r.filter message.topic) [
    | none ↦ dispatch routes message s
    | some params ↦ handled (r.handler message params s)
  ]

  abbrev match_route : MqttMessage → MqttRoute S → Option TopicParams
  match_route message r = matches r.filter message.topic

  -- Either no route matches, and then nothing happens, or the handler of the first route that
  -- matches runs, alone, and its error is the result.
  pub dispatch_cases :
      (routes : List (MqttRoute S)) (message : MqttMessage) (s : S)
      → (All (λ r. match_route message r ≡ none) routes
          × (dispatch routes message s ≡ (ok false, s)))
        ⊎ ((r : MqttRoute S) × (params : TopicParams) × IsFirst
              (match_route message)
              routes
              r
              params
            × (dispatch routes message s ≡ handled (r.handler message params s)))
  unfolding dispatch
  dispatch_cases [] message s = inl (tt, refl)
  dispatch_cases (r ∷ routes) message s = elim (Option-cases (matches r.filter message.topic)) [
    | inl e ↦ elim (dispatch_cases routes message s) [
      | inl (unmatched, h) ↦ inl ((e, unmatched), rw (e, dispatch) h)
      | inr (r', params, first, h) ↦ inr (
        r',
        params,
        IsFirst-later (match_route message) r r' routes params e first,
        rw (e, dispatch) h,
      )
    ]
    | inr (params, e) ↦
        inr (r, params, IsFirst-here (match_route message) r routes params e, rw (e, dispatch))
  ]
