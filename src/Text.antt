-- ===== src/Text.antt =====
-- Rust's `str`: a text is the sequence of its Unicode scalar values. `len` is the length of its
-- UTF-8 encoding in bytes, as in the source. A test on the bytes of a text that only ASCII bytes
-- pass is the same test on its scalar values, since all bytes of the others are at least 0x80.
pub mod Equality
pub mod Levels
use Prim.Native.Char.{code}
use Prim.Native.String
use pipe_bolt.Prelude.{
  ℕ, ◌+◌, String, Bool, true, false, ◌&&◌, ◌||◌, List, [], ◌∷◌, ◌++◌, ltb, leb, ◌==◌, if◌then◌else◌,
}

abbrev pub Str : Type 0
Str = List ℕ

-- The text of a literal.
abbrev pub codes : String → Str
codes String.[] = []
codes (String.◌∷◌ first rest) = code first ∷ codes rest

abbrev pub byte_width : ℕ → ℕ
byte_width c = if ltb c 0x80 then 1 else if ltb c 0x800 then 2 else if ltb c 0x10000 then 3 else 4

-- `str::len`
unfoldable pub byte_len : Str → ℕ
byte_len [] = 0
byte_len (c ∷ s) = byte_width c + byte_len s

-- `==` on texts
unfoldable pub str_eq : Str → Str → Bool
str_eq [] [] = true
str_eq (c ∷ s) (d ∷ t) = c == d && str_eq s t
str_eq _ _ = false

-- `str::contains` at a character
unfoldable pub contains : ℕ → Str → Bool
contains c [] = false
contains c (x ∷ s) = x == c || contains c s

-- `str::starts_with` at a text
unfoldable pub starts_with : Str → Str → Bool
starts_with [] s = true
starts_with (p ∷ ps) [] = false
starts_with (p ∷ ps) (c ∷ s) = p == c && starts_with ps s

-- `str::contains` at a text
unfoldable pub contains_str : Str → Str → Bool
unfolding starts_with
contains_str p [] = starts_with p []
contains_str p (c ∷ s) = starts_with p (c ∷ s) || contains_str p s

-- `char::is_whitespace`: the Unicode property White_Space.
abbrev pub is_whitespace : ℕ → Bool
is_whitespace c =
    (leb 0x09 c && leb c 0x0d)
    || c == 0x20
    || c == 0x85
    || c == 0xa0
    || c == 0x1680
    || (leb 0x2000 c && leb c 0x200a)
    || c == 0x2028
    || c == 0x2029
    || c == 0x202f
    || c == 0x205f
    || c == 0x3000

-- `char::is_control`: the general category Cc.
abbrev pub is_control : ℕ → Bool
is_control c = ltb c 0x20 || (leb 0x7f c && leb c 0x9f)

-- `u8::is_ascii_control`
abbrev pub is_ascii_control : ℕ → Bool
is_ascii_control c = ltb c 0x20 || c == 0x7f

-- `u8::is_ascii_alphanumeric`
abbrev pub is_ascii_alphanumeric : ℕ → Bool
is_ascii_alphanumeric c =
    (leb b'0' c && leb c b'9') || (leb b'A' c && leb c b'Z') || (leb b'a' c && leb c b'z')

unfoldable pub trim_start : Str → Str
trim_start [] = []
trim_start (c ∷ s) = let rest = trim_start s in if is_whitespace c then rest else c ∷ s

-- Keeps a character that is no white space, or that such a character follows.
trim_end_cons : ℕ → Str → Str
trim_end_cons c [] = if is_whitespace c then [] else c ∷ []
trim_end_cons c (d ∷ s) = c ∷ d ∷ s

unfoldable pub trim_end : Str → Str
unfolding trim_end_cons
trim_end [] = []
trim_end (c ∷ s) = trim_end_cons c (trim_end s)

-- `str::trim`
unfoldable pub trim : Str → Str
unfolding trim_start trim_end
trim s = trim_end (trim_start s)

pub push_head : ℕ → List Str → List Str
push_head c [] = (c ∷ []) ∷ []
push_head c (p ∷ ps) = (c ∷ p) ∷ ps

-- `str::split` at a character: always at least one part.
unfoldable pub split : ℕ → Str → List Str
unfolding push_head
split sep [] = [] ∷ []
split sep (c ∷ s) = let rest = split sep s in if c == sep then [] ∷ rest else push_head c rest

-- `[String]::join`
unfoldable pub join : ℕ → List Str → Str
join sep [] = []
join sep (p ∷ []) = p
join sep (p ∷ q ∷ ps) = p ++ (sep ∷ join sep (q ∷ ps))
