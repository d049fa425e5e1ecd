-- ===== src/Domain/Id/Laws.antt =====
-- What a text that passes validation satisfies.
use pipe_bolt.Prelude.{
  >>=-eq-ok, String, [], all, and-eq-true, any, ap, arith, false, is_empty, length, ok, refl, sym,
  true, ℕ, ◌↔◌, ◌∷◌, ◌≡◌, ◌≤◌,
}
use pipe_bolt.Text.{
  Str, byte_len, byte_width, is_control, is_whitespace, trim, trim_end, trim_start,
}
use pipe_bolt.Domain.Id.{
  is_identifier_byte, max_id_bytes, new_id, validate_identifier, validate_text,
}

pub record IsText (max_bytes : ℕ) (value : Str) : Type 0 where
  pub not_blank : is_empty (trim value) ≡ false
  pub fits : byte_len value ≤ max_bytes
  pub no_control : any is_control value ≡ false

-- `validate_text` accepts exactly the texts that are not blank, fit and have no control character.
pub validate_text_iff :
    (field : String) (value : Str) (max_bytes : ℕ)
    → (validate_text field value max_bytes ≡ ok tt) ↔ IsText max_bytes value
unfolding validate_text
validate_text_iff field value max_bytes = (
  λ h. record { not_blank = ground arith; fits = ground arith; no_control = ground arith },
  λ t. ground (arith, t.not_blank, t.fits, t.no_control),
)

-- The characters of identifiers are one byte long, and neither white space nor control characters.
identifier_byte_width : (c : ℕ) → is_identifier_byte c ≡ true → byte_width c ≡ 1
identifier_byte_width c h = ground arith

identifier_byte_space : (c : ℕ) → is_identifier_byte c ≡ true → is_whitespace c ≡ false
identifier_byte_space c h = ground arith

identifier_byte_control : (c : ℕ) → is_identifier_byte c ≡ true → is_control c ≡ false
identifier_byte_control c h = ground arith

byte_len_identifier : (s : Str) → all is_identifier_byte s ≡ true → byte_len s ≡ length s
unfolding byte_len
byte_len_identifier [] h = refl
byte_len_identifier (c ∷ s) h =
    let (p, q) = and-eq-true (is_identifier_byte c) (all is_identifier_byte s) h in
    omega (arith, byte_len_identifier s q, identifier_byte_width c p)

trim_start_identifier : (s : Str) → all is_identifier_byte s ≡ true → trim_start s ≡ s
unfolding trim_start
trim_start_identifier [] h = refl
trim_start_identifier (c ∷ s) h = let (p, q) = and-eq-true _ _ h in rw (identifier_byte_space c p)

trim_end_identifier : (s : Str) → all is_identifier_byte s ≡ true → trim_end s ≡ s
unfolding trim_end
trim_end_identifier [] h = refl
trim_end_identifier (c ∷ []) h = let (p, q) = and-eq-true _ _ h in rw (identifier_byte_space c p)
trim_end_identifier (c ∷ d ∷ s) h =
    let (p, q) = and-eq-true _ _ h in rw (trim_end_identifier (d ∷ s) q)

control_identifier : (s : Str) → all is_identifier_byte s ≡ true → any is_control s ≡ false
control_identifier [] h = refl
control_identifier (c ∷ s) h =
    let (p, q) = and-eq-true _ _ h in rw (identifier_byte_control c p) (control_identifier s q)

-- What an identifier is, said without trimming, byte lengths and control characters.
pub record IsIdentifier (value : Str) : Type 0 where
  pub not_empty : is_empty value ≡ false
  pub short : length value ≤ max_id_bytes
  pub bytes : all is_identifier_byte value ≡ true

trim_identifier : (s : Str) → all is_identifier_byte s ≡ true → trim s ≡ s
unfolding trim
trim_identifier s h = rw (trim_start_identifier s h) (trim_end_identifier s h)

is_empty-trim_nil : is_empty (trim []) ≡ true
unfolding trim
is_empty-trim_nil = refl

not_empty_of_not_blank : (s : Str) → is_empty (trim s) ≡ false → is_empty s ≡ false
not_empty_of_not_blank [] h = cc (is_empty-trim_nil)
not_empty_of_not_blank (c ∷ s) h = refl

IsIdentifier-of_valid :
    (field : String) (value : Str) → validate_identifier field value ≡ ok tt → IsIdentifier value
unfolding validate_identifier validate_text
IsIdentifier-of_valid field value h =
    let bytes : all is_identifier_byte value ≡ true = ground arith in
    record {
      not_empty = not_empty_of_not_blank value (ground arith);
      short = ground (arith, byte_len_identifier value bytes);
      bytes = bytes;
    }

valid_of_IsIdentifier :
    (field : String) (value : Str) → IsIdentifier value → validate_identifier field value ≡ ok tt
unfolding validate_identifier validate_text
valid_of_IsIdentifier field value h =
    rw (trim_identifier value h.bytes, h.not_empty, h.bytes, control_identifier value h.bytes)
      (ground (arith, byte_len_identifier value h.bytes, h.short))

-- An id is accepted exactly if it has from 1 to 128 characters and each of them is an ASCII letter
-- or digit, or one of `-`, `_`, `.` and `:`; it is then unchanged.
pub new_id_iff :
    (field : String) (value id : Str)
    → (new_id field value ≡ ok id) ↔ (IsIdentifier value × (id ≡ value))
unfolding new_id
new_id_iff field value id = (
  λ h.
      let (u, valid, same) = >>=-eq-ok (validate_identifier field value) _ h in
      (IsIdentifier-of_valid field value valid, cc),
  λ h. rw (valid_of_IsIdentifier field value h.0) (ap ok (sym h.1)),
)
