-- ===== src/Command/Template.antt =====
-- The rendering of command templates: `CommandTemplateRenderer` of
-- crates/pipe-bolt-core/src/command.rs. The loop of `render_text_template`, which looks for the next
-- `{` and then for the next `}`, is a walk over the characters: `key` is what stands since an open
-- brace, or none outside of a placeholder.
use pipe_bolt.Prelude.{
  List, Option, Result, String, [], any, err, false, if◌then◌else◌, is_empty, length, ltb, map_err,
  min, none, ok, reject_if, some, true, ℕ, ◌++◌, ◌==◌, ◌>>=◌, ◌>>◌, ◌||◌, ◌∷◌,
}
use pipe_bolt.Text.{Str, contains, is_control, trim}
use pipe_bolt.Json.{JsonLib, Members, Value, Values, cons, end, member, nil}
use pipe_bolt.Map.{BTreeMap, lookup}
use pipe_bolt.Domain.Error.{Check, DomainError}
use pipe_bolt.Domain.Id.{Identifier}
use pipe_bolt.Domain.Config.{CommandTemplate}
use pipe_bolt.Domain.Config.Filter.{new_topic_name}
use pipe_bolt.Command.{has_topic_syntax}
use pipe_bolt.Normalizer.{bool_text}

abbrev pub open_brace : ℕ
open_brace = b'{'

abbrev pub close_brace : ℕ
close_brace = b'}'

pub data TemplateSurface : Type 0 where
  topic_surface payload_surface : TemplateSurface

pub data CommandRenderError : Type 0 where
  empty_placeholder : Identifier → TemplateSurface → CommandRenderError
  unclosed_placeholder : Identifier → TemplateSurface → CommandRenderError
  unopened_placeholder : Identifier → TemplateSurface → CommandRenderError
  missing_parameter : Identifier → Str → CommandRenderError
  non_scalar_parameter : Identifier → Str → CommandRenderError
  invalid_topic_segment : Identifier → Str → String → CommandRenderError
  invalid_rendered_topic : Identifier → DomainError → CommandRenderError
  invalid_rendered_payload : Identifier → Str → CommandRenderError
  rendered_payload_too_large : Identifier → ℕ → ℕ → CommandRenderError

pub record CommandRenderDraft : Type 0 where
  pub topic : Str
  pub payload : List ℕ
  pub payload_size_bytes : ℕ

unfoldable pub validate_placeholder_key :
    Identifier → TemplateSurface → Str → Check CommandRenderError
validate_placeholder_key id surface key =
    reject_if (is_empty (trim key)) (empty_placeholder id surface)

-- `saturating_usize_to_u64`
abbrev pub saturating_usize_to_u64 : ℕ → ℕ
saturating_usize_to_u64 n = min n 18446744073709551615

-- `text.strip_suffix('}')`
unfoldable pub strip_close : Str → Option Str
strip_close [] = none
strip_close (c ∷ []) = if c == close_brace then some [] else none
strip_close (c ∷ d ∷ s) = elim (strip_close (d ∷ s)) [ none ↦ none | some rest ↦ some (c ∷ rest) ]

unfoldable pub exact_placeholder_key : Str → Option Str
unfolding strip_close
exact_placeholder_key [] = none
exact_placeholder_key (c ∷ s) = if c == open_brace then strip_close s else none

module _ (id : Identifier) (surface : TemplateSurface)
    (render_param : Str → Result CommandRenderError Str) where
  -- The end of `render_text_template`.
  abbrev pub finish : Str → Result CommandRenderError Str
  finish output =
      if contains close_brace output then err (unopened_placeholder id surface) else ok output

  -- The text of a placeholder: `validate_placeholder_key` and `render_param`.
  abbrev pub render_placeholder : Str → Result CommandRenderError Str
  render_placeholder key = do validate_placeholder_key id surface key; render_param key

  unfoldable pub render_from : Str → Option Str → Str → Result CommandRenderError Str
  render_from output none [] = finish output
  render_from output (some key) [] = err (unclosed_placeholder id surface)
  render_from output none (c ∷ s) = elim (c == open_brace) [
    | true ↦ render_from output (some []) s
    | false ↦ render_from (output ++ c ∷ []) none s
  ]
  render_from output (some key) (c ∷ s) = elim (c == close_brace) [
    | true ↦ render_placeholder key >>= λ value. render_from (output ++ value) none s
    | false ↦ render_from output (some (key ++ c ∷ [])) s
  ]

  unfoldable pub render_text_template : Str → Result CommandRenderError Str
  unfolding render_from
  render_text_template text = render_from [] none text

module _ (J : JsonLib) where
  open J use {Number, number_text, to_vec}

  abbrev pub Params : Type 0
  Params = BTreeMap (Value Number)

  -- `scalar_param` at the value that `params` has for the key.
  unfoldable pub scalar_text :
      Identifier → Str → Option (Value Number) → Result CommandRenderError Str
  scalar_text id key none = err (missing_parameter id key)
  scalar_text id key (some (Value.string s)) = ok s
  scalar_text id key (some (Value.number n)) = ok (number_text n)
  scalar_text id key (some (Value.bool b)) = ok (bool_text b)
  scalar_text id key (some _) = err (non_scalar_parameter id key)

  unfoldable pub scalar_param : Identifier → Params → Str → Result CommandRenderError Str
  unfolding scalar_text
  scalar_param id params key = scalar_text id key (lookup key params)

  unfoldable pub topic_param : Identifier → Params → Str → Result CommandRenderError Str
  unfolding scalar_param
  topic_param id params key = do
    value ← scalar_param id params key
    reject_if (is_empty value) (invalid_topic_segment id key "must not be empty")
    reject_if (has_topic_syntax value)
        (invalid_topic_segment id key "must not contain '/', '+', or '#'")
    reject_if (contains 0 value || any is_control value)
        (invalid_topic_segment id key "must not contain null byte or control characters")
    ok value

  unfoldable pub render_topic_template :
      CommandTemplate Number → Params → Result CommandRenderError Str
  unfolding render_text_template topic_param
  render_topic_template t params =
      render_text_template t.id topic_surface (topic_param t.id params) t.topic_template

  abbrev pub required_value :
      Identifier → Str → Option (Value Number) → Result CommandRenderError (Value Number)
  required_value id key none = err (missing_parameter id key)
  required_value id key (some value) = ok value

  unfoldable pub render_payload_string :
      Identifier → Params → Str → Result CommandRenderError (Value Number)
  unfolding exact_placeholder_key scalar_param render_text_template validate_placeholder_key
  render_payload_string id params text = elim (exact_placeholder_key text) [
    | some key ↦ validate_placeholder_key id payload_surface key >>= λ _.
        required_value id key (lookup key params)
    | none ↦ render_text_template id payload_surface (scalar_param id params) text >>= λ rendered.
        ok (Value.string rendered)
  ]

  unfoldable mutual
    unfolding render_payload_string

    pub render_payload_value :
        Identifier → Params → Value Number → Result CommandRenderError (Value Number)
    render_payload_value id params (Value.string s) = render_payload_string id params s
    render_payload_value id params (Value.array vs) =
        render_payload_values id params vs >>= λ rendered. ok (Value.array rendered)
    render_payload_value id params (Value.object ms) =
        render_payload_members id params ms >>= λ rendered. ok (Value.object rendered)
    render_payload_value id params Value.null = ok Value.null
    render_payload_value id params (Value.bool b) = ok (Value.bool b)
    render_payload_value id params (Value.number n) = ok (Value.number n)

    pub render_payload_values :
        Identifier → Params → Values Number → Result CommandRenderError (Values Number)
    render_payload_values id params nil = ok nil
    render_payload_values id params (cons v vs) = render_payload_value id params v >>= λ w.
        render_payload_values id params vs >>= λ ws. ok (cons w ws)

    pub render_payload_members :
        Identifier → Params → Members Number → Result CommandRenderError (Members Number)
    render_payload_members id params end = ok end
    render_payload_members id params (member k v ms) = render_payload_value id params v >>= λ w.
        render_payload_members id params ms >>= λ ns. ok (member k w ns)

  -- `CommandTemplateRenderer::render_draft`, with the renderer's `max_payload_bytes`
  unfoldable pub render_draft :
      ℕ → CommandTemplate Number → Params → Result CommandRenderError CommandRenderDraft
  unfolding render_topic_template render_payload_value
  render_draft max_payload_bytes t params = do
    topic_text ← render_topic_template t params
    topic ← map_err (invalid_rendered_topic t.id) (new_topic_name topic_text)
    value ← render_payload_value t.id params t.payload_template
    payload ← map_err (invalid_rendered_payload t.id) (to_vec value)
    reject_if (ltb max_payload_bytes (length payload))
        (rendered_payload_too_large t.id max_payload_bytes (length payload))
    ok (record {
      topic = topic;
      payload = payload;
      payload_size_bytes = saturating_usize_to_u64 (length payload);
    })
