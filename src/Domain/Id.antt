-- ===== src/Domain/Id.antt =====
-- crates/pipe-bolt-domain/src/id.rs. An id is its text; `new_id` is the constructor that the macro
-- `define_id` gives each of the id types.
pub mod Laws
use pipe_bolt.Prelude.{
  Bool, List, Result, String, [], all, any, false, for_each, is_empty, ltb, not, ok, reject_if, ℕ,
  ◌==◌, ◌>>=◌, ◌>>◌, ◌||◌, ◌∷◌,
}
use pipe_bolt.Text.{
  Str, byte_len, contains_str, is_ascii_alphanumeric, is_control, split, starts_with, trim,
}
use pipe_bolt.Domain.Error.{
  Check, DomainError, empty_field, field_too_long, invalid_control_characters, invalid_field_path,
}

abbrev pub Identifier : Type 0
Identifier = Str

abbrev pub max_id_bytes : ℕ
max_id_bytes = 128

unfoldable pub validate_text : String → Str → ℕ → Check DomainError
validate_text field value max_bytes = do
  reject_if (is_empty (trim value)) (empty_field field)
  reject_if (ltb max_bytes (byte_len value)) (field_too_long field max_bytes)
  reject_if (any is_control value) (invalid_control_characters field)

-- The bytes of an identifier.
abbrev pub is_identifier_byte : ℕ → Bool
is_identifier_byte c = is_ascii_alphanumeric c || c == b'-' || c == b'_' || c == b'.' || c == b':'

unfoldable pub validate_identifier : String → Str → Check DomainError
unfolding validate_text
validate_identifier field value = do
  validate_text field value max_id_bytes
  reject_if (not (all is_identifier_byte value)) (invalid_control_characters field)

unfoldable pub new_id : String → Str → Result DomainError Identifier
unfolding validate_identifier
new_id field value = do validate_identifier field value; ok value

abbrev pub is_path_byte : ℕ → Bool
is_path_byte c = is_ascii_alphanumeric c || c == b'_' || c == b'-'

-- `str::ends_with` at a character
unfoldable pub ends_with : ℕ → Str → Bool
ends_with c [] = false
ends_with c (x ∷ []) = x == c
ends_with c (x ∷ y ∷ s) = ends_with c (y ∷ s)

abbrev check_segment : Str → Check DomainError
check_segment segment =
    reject_if (not (all is_path_byte segment))
      (invalid_field_path "path segment contains unsupported characters")

unfoldable pub validate_field_path : Str → Check DomainError
unfolding validate_text ends_with
validate_field_path path = do
  validate_text "field_path" path 256
  reject_if
      (starts_with (b'.' ∷ []) path
        || (ends_with b'.' path || contains_str (b'.' ∷ b'.' ∷ []) path))
      (invalid_field_path "path must contain non-empty dot-separated segments")
  for_each check_segment (split b'.' path)

-- A `FieldPath` is its text.
abbrev pub FieldPath : Type 0
FieldPath = Str

unfoldable pub new_field_path : Str → Result DomainError FieldPath
unfolding validate_field_path
new_field_path path = do validate_field_path path; ok path

-- `FieldPath::segments`
unfoldable pub segments : FieldPath → List Str
segments path = split b'.' path
