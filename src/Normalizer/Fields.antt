-- ===== src/Normalizer/Fields.antt =====
-- The fields that a schema mapping extracts from the payload of a message.
use pipe_bolt.Prelude.{
  Bool, Bool-cases, List, Option, Option-cases, Result, [], all, ap, arith, err, false,
  if◌then◌else◌, inl, inr, length, ltb, none, not, ok, refl, some, true, ℕ, ◌&&◌, ◌+◌, ◌>>=◌, ◌∙◌,
  ◌∷◌, ◌≡◌, ◌≤◌,
}
use pipe_bolt.Text.{Str, str_eq}
use pipe_bolt.Json.{Members, Value, get_json_path, object}
use pipe_bolt.Map.{BTreeMap, insert, length-insert, lookup, lookup-insert, or_else}
use pipe_bolt.Domain.Id.{segments}
use pipe_bolt.Domain.Config.{FieldMapping, FieldValueType, PayloadSchemaMapping}
use pipe_bolt.Domain.Config.Validate.{validate_mapping}
use pipe_bolt.Domain.Event.{FieldValue, from_json, json_payload}
use pipe_bolt.Error.{MqttEngineError}
use pipe_bolt.Normalizer.{
  coerce_field_value, default_field, extract_each, extract_field, extract_fields, has_type,
}

module _ {N : Type 0} (payload : Value N) where
  -- The value that a mapping takes: what the payload has at its path, or else the default of a
  -- mapping that is not required.
  abbrev pub source_value : FieldMapping N → Option (Value N)
  source_value f = elim (get_json_path payload (segments f.source)) [
    | some value ↦ some value
    | none ↦ if f.required then none else f.default
  ]

  abbrev pub convert : Option (Value N) → Option (FieldValue N)
  convert none = none
  convert (some value) = some (from_json value)

  -- A mapping is satisfied by a value of its type, or if it is not required by none.
  abbrev pub fits : Bool → FieldValueType → Option (Value N) → Bool
  fits required expected none = not required
  fits required expected (some value) = has_type expected value

  abbrev pub admits : FieldMapping N → Bool
  admits f = fits f.required f.value_type (source_value f)

  -- The value of the last mapping with a target.
  pub last_value : Str → List (FieldMapping N) → Option (FieldValue N)
  last_value target [] = none
  last_value target (f ∷ fs) =
      or_else (last_value target fs)
        (if str_eq f.target target then convert (source_value f) else none)

  -- The outcome of an extraction that starts from some fields.
  pub data Outcome (mappings : List (FieldMapping N)) (fields : BTreeMap (FieldValue N))
      : Result MqttEngineError (BTreeMap (FieldValue N)) → Type 0 where
    done :
        (fields' : BTreeMap (FieldValue N))
        → all admits mappings ≡ true
        → ((target : Str)
            → lookup target fields' ≡ or_else (last_value target mappings) (lookup target fields))
        → length fields' ≤ length mappings + length fields
        → Outcome mappings fields (ok fields')
    refused : (e : MqttEngineError) → all admits mappings ≡ false → Outcome mappings fields (err e)

  data Step (f : FieldMapping N) (fields : BTreeMap (FieldValue N))
      : Option (FieldValue N)
        → Bool
        → Result MqttEngineError (BTreeMap (FieldValue N))
        → Type 0 where
    put : (v : FieldValue N) → Step f fields (some v) true (ok (insert f.target v fields))
    skip : Step f fields none true (ok fields)
    fail : (o : Option (FieldValue N)) (e : MqttEngineError) → Step f fields o false (err e)

  coerce-Step :
      (f : FieldMapping N) (fields : BTreeMap (FieldValue N)) (value : Value N)
      → Step f fields (some (from_json value)) (has_type f.value_type value) (
          coerce_field_value f.target value f.value_type >>= λ value.
          ok (insert f.target value fields))
  unfolding coerce_field_value
  coerce-Step f fields value = elim (Bool-cases (has_type f.value_type value)) [
    | inl e ↦ rw e (put (from_json value))
    | inr e ↦ rw e (fail (some (from_json value)) _)
  ]

  default-Step :
      (f : FieldMapping N) (fields : BTreeMap (FieldValue N)) (required : Bool)
      → f.required ≡ required
      → Step f fields
          (convert (if required then none else f.default))
          (fits required f.value_type (if required then none else f.default))
          (default_field f fields)
  unfolding default_field
  default-Step f fields true e = simp e (fail none _)
  default-Step f fields false e = elim (Option-cases f.default) [
    | inl h ↦ simp (e, h) skip
    | inr (value, h) ↦ simp (e, h) (coerce-Step f fields value)
  ]

  extract_field-Step :
      (f : FieldMapping N) (fields : BTreeMap (FieldValue N))
      → Step f fields (convert (source_value f)) (admits f) (extract_field f payload fields)
  unfolding extract_field
  extract_field-Step f fields = elim (Option-cases (get_json_path payload (segments f.source))) [
    | inl h ↦ rw (h, admits, source_value, extract_field) (default-Step f fields f.required refl)
    | inr (value, h) ↦ rw (h, admits, source_value, extract_field) (coerce-Step f fields value)
  ]

  or_else_later :
      (o : Option (FieldValue N)) (same : Bool) (v : FieldValue N) (rest : Option (FieldValue N))
      → or_else o (if same then some v else rest)
        ≡ or_else (or_else o (if same then some v else none)) rest
  or_else_later (some w) same v rest = refl
  or_else_later none true v rest = refl
  or_else_later none false v rest = refl

  or_else_skip :
      (o : Option (FieldValue N)) (same : Bool) (rest : Option (FieldValue N))
      → or_else o rest ≡ or_else (or_else o (if same then none else none)) rest
  or_else_skip (some w) same rest = refl
  or_else_skip none true rest = refl
  or_else_skip none false rest = refl

  all-cons : {a : Bool} {b : Bool} → a ≡ true → b ≡ true → (a && b) ≡ true
  all-cons h k = rw (h, k) refl

  module _ (f : FieldMapping N) (fs : List (FieldMapping N))
      (fields : BTreeMap (FieldValue N)) where
    put-Outcome :
        (v : FieldValue N) {r : Result MqttEngineError (BTreeMap (FieldValue N))}
        → convert (source_value f) ≡ some v
        → admits f ≡ true
        → Outcome fs (insert f.target v fields) r
        → Outcome (f ∷ fs) fields r
    unfolding last_value
    put-Outcome v same fit (done fields' ok' looks size) =
        done fields' (all-cons fit ok')
          (λ target. rw (same) (
            looks target
            ∙ ap (or_else (last_value target fs)) (lookup-insert f.target target v fields)
            ∙ or_else_later (last_value target fs) (str_eq f.target target) v
                (lookup target fields)))
          (omega (arith, size, length-insert f.target v fields))
    put-Outcome v same fit (refused e h) = refused e (rw (fit, h) refl)

    skip-Outcome :
        {r : Result MqttEngineError (BTreeMap (FieldValue N))}
        → convert (source_value f) ≡ none
        → admits f ≡ true
        → Outcome fs fields r
        → Outcome (f ∷ fs) fields r
    unfolding last_value
    skip-Outcome same fit (done fields' ok' looks size) =
        done fields' (all-cons fit ok')
          (λ target. rw (same) (
            looks target
            ∙ or_else_skip (last_value target fs) (str_eq f.target target) (lookup target fields)))
          (omega (arith, size))
    skip-Outcome same fit (refused e h) = refused e (rw (fit, h) refl)

    Step-Outcome :
        {o : Option (FieldValue N)} {a : Bool}
        {r : Result MqttEngineError (BTreeMap (FieldValue N))}
        → Step f fields o a r
        → convert (source_value f) ≡ o
        → admits f ≡ a
        → ((fields' : BTreeMap (FieldValue N))
            → Outcome fs fields' (extract_each fs payload fields'))
        → Outcome (f ∷ fs) fields (r >>= λ fields'. extract_each fs payload fields')
    Step-Outcome (put v) same fit rest = put-Outcome v same fit (rest (insert f.target v fields))
    Step-Outcome skip same fit rest = skip-Outcome same fit (rest fields)
    Step-Outcome (fail o e) same fit rest = refused e (rw fit refl)

  extract_each-Outcome :
      (mappings : List (FieldMapping N)) (fields : BTreeMap (FieldValue N))
      → Outcome mappings fields (extract_each mappings payload fields)
  unfolding extract_each last_value
  extract_each-Outcome [] fields = done fields refl (λ target. refl) (omega arith)
  extract_each-Outcome (f ∷ fs) fields =
      Step-Outcome f fs fields (extract_field-Step f fields) refl refl (extract_each-Outcome fs)

module _ {N : Type 0} where
  -- For a JSON object and a valid mapping of at most as many fields as allowed, the extraction
  -- succeeds exactly if every field mapping is satisfied, by a value of its type or, unless it is
  -- required, by none; it then gives every target the value of the last mapping that has one, and
  -- nothing else.
  pub extract_fields-Outcome :
      (mapping : PayloadSchemaMapping N) (members : Members N) (limit : ℕ)
      → validate_mapping mapping ≡ ok tt
      → length mapping.fields ≤ limit
      → Outcome
          (object members)
          mapping.fields
          []
          (extract_fields (some mapping) (json_payload (object members)) limit)
  unfolding extract_fields
  extract_fields-Outcome mapping members limit valid small =
      let within : ltb limit (length mapping.fields) ≡ false = ground arith in
      rw (valid, within) (extract_each-Outcome (object members) mapping.fields [])
