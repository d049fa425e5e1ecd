-- ===== src/Egress.antt =====
-- The egress policy of webhooks: crates/pipe-bolt-core/src/forwarder.rs. URLs and the parser of
-- addresses are parameters. The masks of the source are written as divisions by powers of two.
pub mod Admission
pub mod Networks
use pipe_bolt.Prelude.{
  >>=-eq-ok, Bool, Bool-cases, List, Option, Result, String, [], any, ap, arith, err, false,
  if◌then◌else◌, inl, inr, is_empty, leb, map, none, not, ok, ok-injective, or-eq-false, refl,
  reject_if, reject_if-eq-ok, some, subst, true, ℕ, ◌&&◌, ◌+◌, ◌/◌, ◌==◌, ◌>>=◌, ◌>>◌, ◌||◌, ◌∷◌,
  ◌≡◌, ◌⊎◌,
}
use pipe_bolt.Text.{Str, codes, str_eq}
use pipe_bolt.Error.{DispatchError, invalid_dispatch_config}

pub data IpAddr : Type 0 where
  v4 : ℕ → ℕ → ℕ → ℕ → IpAddr
  v6 : ℕ → ℕ → ℕ → ℕ → ℕ → ℕ → ℕ → ℕ → IpAddr

pub record UrlLib : Type 1 where
  pub Url : Type 0
  -- `Url::parse`
  pub parse : Str → Option Url
  pub scheme : Url → Str
  pub host_str : Url → Option Str
  -- `str::parse::<IpAddr>`
  pub parse_ip : Str → Option IpAddr

pub record EgressPolicy : Type 0 where
  pub require_https : Bool
  pub allow_private_networks : Bool
  pub allowed_hosts : List Str

abbrev pub default_policy : EgressPolicy
default_policy = record { require_https = true; allow_private_networks = false; allowed_hosts = [] }

-- `trim_end_matches('.')`
unfoldable pub trim_end_dots : Str → Str
trim_end_dots [] = []
trim_end_dots (c ∷ s) =
    let rest = trim_end_dots s in if c == b'.' && is_empty rest then [] else c ∷ rest

abbrev pub to_lower : ℕ → ℕ
to_lower c = if leb b'A' c && leb c b'Z' then c + 32 else c

-- `to_ascii_lowercase`
abbrev pub lowercase : Str → Str
lowercase = map to_lower

abbrev pub eq_ignore_case : Str → Str → Bool
eq_ignore_case s t = str_eq (lowercase s) (lowercase t)

abbrev pub normalize_host : Str → Str
normalize_host host = lowercase (trim_end_dots host)

-- `Ipv4Addr::is_private`
abbrev pub is_private : ℕ → ℕ → Bool
is_private a b = a == 10 || (a == 172 && (leb 16 b && leb b 31)) || (a == 192 && b == 168)

-- `Ipv4Addr::is_documentation`
abbrev pub is_documentation : ℕ → ℕ → ℕ → Bool
is_documentation a b c =
    (a == 192 && (b == 0 && c == 2))
    || (a == 198 && (b == 51 && c == 100))
    || (a == 203 && (b == 0 && c == 113))

unfoldable pub is_blocked_ip : IpAddr → Bool
is_blocked_ip (v4 a b c d) =
    is_private a b
    || a == 127
    || (a == 169 && b == 254)
    || (leb 224 a && leb a 239)
    || (a == 255 && (b == 255 && (c == 255 && d == 255)))
    || is_documentation a b c
    || (a == 0 && (b == 0 && (c == 0 && d == 0)))
is_blocked_ip (v6 a b c d e f g h) =
    (a == 0 && (b == 0 && (c == 0 && (d == 0 && (e == 0 && (f == 0 && (g == 0 && h == 1)))))))
    || a / 0x100 == 0xff
    || (a == 0 && (b == 0 && (c == 0 && (d == 0 && (e == 0 && (f == 0 && (g == 0 && h == 0)))))))
    || a / 0x200 == 0x7e
    || a / 0x40 == 0x3fa

abbrev pub is_blocked_address : Option IpAddr → Bool
is_blocked_address none = false
is_blocked_address (some ip) = is_blocked_ip ip

module _ (L : UrlLib) where
  open L use {Url, parse, scheme, host_str, parse_ip}

  unfoldable pub validate_egress_host : Str → EgressPolicy → Result DispatchError (Unit {0})
  validate_egress_host host policy = do
    reject_if
        (not (is_empty policy.allowed_hosts)
          && not
              (any (λ allowed. eq_ignore_case allowed (normalize_host host)) policy.allowed_hosts))
        (invalid_dispatch_config "sink webhook host is not allowed by egress policy")
    reject_if
        (str_eq (normalize_host host) (codes "localhost")
          || str_eq (normalize_host host) (codes "localhost.localdomain"))
        (invalid_dispatch_config "sink webhook host must not target localhost")
    reject_if
        (not policy.allow_private_networks && is_blocked_address (parse_ip (normalize_host host)))
        (invalid_dispatch_config "sink webhook host targets a private or reserved network")

  -- The `match` on the scheme in `parse_url`.
  unfoldable pub validate_scheme : Str → EgressPolicy → Result DispatchError (Unit {0})
  validate_scheme name policy =
      if str_eq name (codes "https")
      then ok tt
      else if not (str_eq name (codes "http"))
      then err (invalid_dispatch_config "sink webhook URL must use HTTP or HTTPS")
      else reject_if policy.require_https
          (invalid_dispatch_config "sink webhook URL must use HTTPS")

  abbrev pub required : {A : Type 0} → String → Option A → Result DispatchError A
  required reason none = err (invalid_dispatch_config reason)
  required reason (some a) = ok a

  unfoldable pub parse_url : Str → EgressPolicy → Result DispatchError Url
  parse_url value policy = do
    url ← required "sink webhook URL is invalid" (parse value)
    validate_scheme (scheme url) policy
    host ← required "sink webhook URL must include a host" (host_str url)
    validate_egress_host host policy
    ok url

and-false : (a : Bool) → (not a && false) ≡ false
and-false true = refl
and-false false = refl

module _ (L : UrlLib) where
  open L use {Url, parse, scheme, host_str, parse_ip}

  -- If the parser of addresses takes no text that starts with a bracket, then a URL with a scheme
  -- that the policy takes, whose host starts with a bracket, is accepted by any policy without a
  -- list of allowed hosts, whatever address stands in the brackets.
  pub parse_url-bracketed :
      (policy : EgressPolicy) (value : Str) (url : Url) (s : Str)
      → ((t : Str) → parse_ip (b'[' ∷ t) ≡ none)
      → policy.allowed_hosts ≡ []
      → parse value ≡ some url
      → validate_scheme L (scheme url) policy ≡ ok tt
      → host_str url ≡ some (b'[' ∷ s)
      → parse_url L value policy ≡ ok url
  unfolding parse_url validate_egress_host trim_end_dots str_eq
  parse_url-bracketed policy value url s bracket open_policy parsed scheme_ok host = simp (
    parsed,
    scheme_ok,
    host,
    open_policy,
    bracket (lowercase (trim_end_dots s)),
    and-false policy.allow_private_networks,
  )
