-- ===== src/Command/Topics.antt =====
-- No parameter of a command template can add a level or a wildcard to a topic.
use pipe_bolt.Prelude.{
  >>=-eq-ok, Bool, Bool-cases, Option, Result, [], any, ap, arith, false, inl, inr, is_empty,
  length, none, ok, ok-injective, or-eq-false, reject_if, reject_if-eq-ok, some, subst, suc, sym,
  true, ℕ, ◌++◌, ◌+◌, ◌==◌, ◌||◌, ◌∙◌, ◌∷◌, ◌≡◌,
}
use pipe_bolt.Text.{Str, contains, is_control, split}
use pipe_bolt.Text.Levels.{
  length-split, occurrences, occurrences-append, occurrences_of_not_contains,
}
use pipe_bolt.Json.{JsonLib}
use pipe_bolt.Domain.Id.{Identifier}
use pipe_bolt.Domain.Config.{CommandTemplate}
use pipe_bolt.Domain.Config.Filter.{hash, plus, slash}
use pipe_bolt.Command.{has_topic_syntax}
use pipe_bolt.Command.Template.{
  CommandRenderError, Params, TemplateSurface, close_brace, finish, open_brace, render_from,
  render_placeholder, render_text_template, render_topic_template, scalar_param, topic_param,
  topic_surface, validate_placeholder_key,
}

-- The text that stands outside of the placeholders; the flag says whether one is open.
unfoldable pub literal_text : Bool → Str → Str
literal_text inside [] = []
literal_text false (c ∷ s) = elim (c == open_brace) [
  | true ↦ literal_text true s
  | false ↦ c ∷ literal_text false s
]
literal_text true (c ∷ s) = elim (c == close_brace) [
  | true ↦ literal_text false s
  | false ↦ literal_text true s
]

is_open : Option Str → Bool
is_open none = false
is_open (some key) = true

module _ (id : Identifier) (surface : TemplateSurface)
    (render_param : Str → Result CommandRenderError Str) (c : ℕ)
    (clean : (key : Str) (value : Str)
      → render_param key ≡ ok value
      → occurrences c value ≡ 0) where
  render_placeholder-occurrences :
      (key : Str) {value : Str}
      → render_placeholder id surface render_param key ≡ ok value
      → occurrences c value ≡ 0
  render_placeholder-occurrences key h =
      let (u, checked, h) = >>=-eq-ok (validate_placeholder_key id surface key) _ h in clean key _ h

  finish-eq-ok :
      (output : Str) {out : Str}
      → finish id surface render_param output ≡ ok out
      → (out ≡ output) × (contains close_brace out ≡ false)
  finish-eq-ok output h = elim (Bool-cases (contains close_brace output)) [
    | inl e ↦ let wrong = rw e at h in cc
    | inr e ↦ let same = sym (ok-injective (rw e at h)) in (same, rw same e)
  ]

  render_from-occurrences :
      (output : Str) (key : Option Str) (s : Str) {out : Str}
      → render_from id surface render_param output key s ≡ ok out
      → occurrences c out ≡ occurrences c output + occurrences c (literal_text (is_open key) s)
  unfolding render_from literal_text is_open occurrences
  render_from-occurrences output none [] h =
      let (same, closed) = finish-eq-ok output h in rw same (omega arith)
  render_from-occurrences output (some key) [] h = cc
  render_from-occurrences output none (x ∷ s) h = elim (Bool-cases (x == open_brace)) [
    | inl e ↦
        rw (e, literal_text) (render_from-occurrences output (some []) s (rw (e, render_from) at h))
    | inr e ↦
        rw (e, literal_text)
          (omega (
            arith,
            occurrences-append c output (x ∷ []),
            render_from-occurrences (output ++ x ∷ []) none s (rw (e, render_from) at h),
          ))
  ]
  render_from-occurrences output (some key) (x ∷ s) h = elim (Bool-cases (x == close_brace)) [
    | inl e ↦
        let (value, rendered, h') =
          >>=-eq-ok (render_placeholder id surface render_param key) _ (rw (e, render_from) at h) in
        rw (e, literal_text)
          (omega (
            arith,
            occurrences-append c output value,
            render_placeholder-occurrences key rendered,
            render_from-occurrences (output ++ value) none s h',
          ))
    | inr e ↦
        rw (e, literal_text)
          (render_from-occurrences output (some (key ++ x ∷ [])) s (rw (e, render_from) at h))
  ]

  render_from-closed :
      (output : Str) (key : Option Str) (s : Str) {out : Str}
      → render_from id surface render_param output key s ≡ ok out
      → contains close_brace out ≡ false
  unfolding render_from
  render_from-closed output none [] h = (finish-eq-ok output h).1
  render_from-closed output (some key) [] h = cc
  render_from-closed output none (x ∷ s) h = elim (Bool-cases (x == open_brace)) [
    | inl e ↦ render_from-closed output (some []) s (rw (e, render_from) at h)
    | inr e ↦ render_from-closed (output ++ x ∷ []) none s (rw (e, render_from) at h)
  ]
  render_from-closed output (some key) (x ∷ s) h = elim (Bool-cases (x == close_brace)) [
    | inl e ↦
        let (value, rendered, h') =
          >>=-eq-ok (render_placeholder id surface render_param key) _ (rw (e, render_from) at h) in
        render_from-closed (output ++ value) none s h'
    | inr e ↦ render_from-closed output (some (key ++ x ∷ [])) s (rw (e, render_from) at h)
  ]

module _ (J : JsonLib) where
  open J use {Number}

  topic_param-clean :
      (id : Identifier) (params : Params J) (key value : Str)
      → topic_param J id params key ≡ ok value
      → (contains slash value ≡ false)
        × (contains plus value ≡ false)
        × (contains hash value ≡ false)
  unfolding topic_param
  topic_param-clean id params key value h =
      let (v, found, h) = >>=-eq-ok (scalar_param J id params key) _ h in
      let (u1, filled, h) = >>=-eq-ok (reject_if (is_empty v) _) _ h in
      let (u2, clean, h) = >>=-eq-ok (reject_if (has_topic_syntax v) _) _ h in
      let (u3, printed, h) = >>=-eq-ok (reject_if (contains 0 v || any is_control v) _) _ h in
      subst
        (λ w. (contains slash w ≡ false) × (contains plus w ≡ false) × (contains hash w ≡ false))
        (ok-injective h)
        (let (p, q) = or-eq-false _ _ (reject_if-eq-ok _ _ clean) in
          let (r, s) = or-eq-false _ _ q in (p, r, s))

  topic-occurrences :
      (t : CommandTemplate Number) (params : Params J) (topic : Str) (c : ℕ)
      → ((key value : Str) → topic_param J t.id params key ≡ ok value → contains c value ≡ false)
      → render_topic_template J t params ≡ ok topic
      → occurrences c topic ≡ occurrences c (literal_text false t.topic_template)
  unfolding render_topic_template render_text_template is_open occurrences
  topic-occurrences t params topic c clean h = omega (
    arith,
    render_from-occurrences t.id topic_surface (topic_param J t.id params) c
        (λ key value e. occurrences_of_not_contains c value (clean key value e)) [] none
        t.topic_template h,
  )

  topic-closed :
      (t : CommandTemplate Number) (params : Params J) (topic : Str)
      → render_topic_template J t params ≡ ok topic
      → contains close_brace topic ≡ false
  unfolding render_topic_template render_text_template
  topic-closed t params topic h =
      render_from-closed t.id topic_surface (topic_param J t.id params) slash
        (λ key value e.
          occurrences_of_not_contains slash value (topic_param-clean t.id params key value e).0)
        [] none t.topic_template h

  -- When the topic of a command template is rendered, it has as many levels as the text outside of
  -- the placeholders and as many of each wildcard, whatever the parameters are, and no closing
  -- brace.
  pub render_topic_template-levels :
      (t : CommandTemplate Number) (params : Params J) (topic : Str)
      → render_topic_template J t params ≡ ok topic
      → (length (split slash topic) ≡ length (split slash (literal_text false t.topic_template)))
        × (occurrences plus topic ≡ occurrences plus (literal_text false t.topic_template))
        × (occurrences hash topic ≡ occurrences hash (literal_text false t.topic_template))
        × (contains close_brace topic ≡ false)
  render_topic_template-levels t params topic h = (
    length-split slash topic
        ∙ ap suc (
            topic-occurrences t params topic slash
              (λ key value e. (topic_param-clean t.id params key value e).0) h)
        ∙ sym (length-split slash (literal_text false t.topic_template)),
    topic-occurrences t params topic plus
        (λ key value e. (topic_param-clean t.id params key value e).1) h,
    topic-occurrences t params topic hash
        (λ key value e. (topic_param-clean t.id params key value e).2) h,
    topic-closed t params topic h,
  )
