-- ===== src/Egress/Admission.antt =====
-- The URLs that a sink may call: `parse_url` of crates/pipe-bolt-core/src/forwarder.rs.
use pipe_bolt.Prelude.{
  not-eq-false, >>=-eq-ok, Bool, Bool-cases, Exists, Exists-map, List, Option, String, [], any,
  any_iff, ap, false, inl, inr, is_empty, none, not, ok, ok-injective, or-eq-false, refl, reject_if,
  reject_if-eq-ok, some, subst, sym, true, true≢false, ◌&&◌, ◌∙◌, ◌∷◌, ◌↔◌, ◌≡◌, ◌≢◌, ◌⊎◌,
}
use pipe_bolt.Text.{Str, codes, str_eq}
use pipe_bolt.Text.Equality.{eq_of_str_eq, str_eq_iff}
use pipe_bolt.Egress.{
  EgressPolicy, IpAddr, UrlLib, eq_ignore_case, is_blocked_address, is_blocked_ip, lowercase,
  normalize_host, parse_url, required, validate_egress_host, validate_scheme,
}
use pipe_bolt.Egress.Networks.{IsReserved, is_blocked_ip_iff}

-- The list of allowed hosts, if it has any, has the host in some case.
abbrev pub IsListed : List Str → Str → Type 0
IsListed hosts host =
    (hosts ≡ []) ⊎ Exists (λ allowed. lowercase allowed ≡ lowercase (normalize_host host)) hosts

-- A text that is no address stands for none.
abbrev pub IsOutside : Option IpAddr → Type 0
IsOutside none = Unit
IsOutside (some ip) = ¬ IsReserved ip

abbrev is_unlisted : List Str → Str → Bool
is_unlisted hosts host =
    not (is_empty hosts)
    && not (any (λ allowed. eq_ignore_case allowed (normalize_host host)) hosts)

is_unlisted_iff :
    (hosts : List Str) (host : Str) → (is_unlisted hosts host ≡ false) ↔ IsListed hosts host
is_unlisted_iff [] host = (λ h. inl refl, λ h. refl)
is_unlisted_iff (x ∷ xs) host =
    let test = λ (allowed : Str). eq_ignore_case allowed (normalize_host host) in
    let found = any_iff test (x ∷ xs) in
    (
      λ h. inr (
          Exists-map _ _ (λ a e. eq_of_str_eq _ _ e) (x ∷ xs)
            (found.0 (not-eq-false (any test (x ∷ xs)) h))),
      λ h. elim h [
        | inl e ↦ cc
        | inr some_host ↦
            rw (found.1 (Exists-map _ _ (λ a e. (str_eq_iff _ _).1 e) (x ∷ xs) some_host)) refl
      ],
    )

is_blocked_address_iff :
    (allow : Bool) (ip : Option IpAddr)
    → ((not allow && is_blocked_address ip) ≡ false) ↔ ((allow ≡ true) ⊎ IsOutside ip)
is_blocked_address_iff true ip = (λ h. inl refl, λ h. refl)
is_blocked_address_iff false none = (λ h. inr tt, λ h. refl)
is_blocked_address_iff false (some ip) = (
  λ h. inr (λ reserved. true≢false (sym ((is_blocked_ip_iff ip).1 reserved) ∙ h)),
  λ h. elim h [
    | inl e ↦ cc
    | inr free ↦ elim (Bool-cases (is_blocked_ip ip)) [
      | inr e ↦ e
      | inl e ↦ absurd (free ((is_blocked_ip_iff ip).0 e))
    ]
  ],
)

ne_iff : (s t : Str) → (str_eq s t ≡ false) ↔ (s ≢ t)
ne_iff s t = (
  λ h e. true≢false (sym ((str_eq_iff s t).1 e) ∙ h),
  λ h. elim (Bool-cases (str_eq s t)) [ inl e ↦ absurd (h (eq_of_str_eq s t e)) | inr e ↦ e ],
)

module _ (L : UrlLib) where
  open L use {Url, parse, scheme, host_str, parse_ip}

  abbrev pub IsSecure : EgressPolicy → Str → Type 0
  IsSecure policy name =
      (name ≡ codes "https") ⊎ ((name ≡ codes "http") × (policy.require_https ≡ false))

  -- What holds of a URL that a sink may call.
  pub record IsAdmitted (policy : EgressPolicy) (value : Str) (url : Url) : Type 0 where
    pub host : Str
    pub parsed : parse value ≡ some url
    pub has_host : host_str url ≡ some host
    pub secure : IsSecure policy (scheme url)
    pub listed : IsListed policy.allowed_hosts host
    pub remote : normalize_host host ≢ codes "localhost"
    pub named : normalize_host host ≢ codes "localhost.localdomain"
    pub outside :
        (policy.allow_private_networks ≡ true) ⊎ IsOutside (parse_ip (normalize_host host))

  required-eq-ok :
      {A : Type 0} (reason : String) (o : Option A) {a : A}
      → required L reason o ≡ ok a
      → o ≡ some a
  required-eq-ok reason none h = cc
  required-eq-ok reason (some a) h = ap some (ok-injective h)

  validate_scheme-IsSecure :
      (name : Str) (policy : EgressPolicy)
      → validate_scheme L name policy ≡ ok tt
      → IsSecure policy name
  unfolding validate_scheme
  validate_scheme-IsSecure name policy h = elim (Bool-cases (str_eq name (codes "https"))) [
    | inl e ↦ inl (eq_of_str_eq _ _ e)
    | inr other ↦ elim (Bool-cases (str_eq name (codes "http"))) [
      | inl plain ↦ inr (eq_of_str_eq _ _ plain, reject_if-eq-ok _ _ (rw (other, plain) at h))
      | inr unknown ↦ let wrong = rw (other, unknown) at h in cc
    ]
  ]

  IsSecure-validate_scheme :
      (name : Str) (policy : EgressPolicy)
      → IsSecure policy name
      → validate_scheme L name policy ≡ ok tt
  unfolding validate_scheme str_eq
  IsSecure-validate_scheme name policy (inl e) = rw e refl
  IsSecure-validate_scheme name policy (inr (e, plain)) = rw (e, plain) refl

  parse_url_lem :
      (policy : EgressPolicy) (value : Str) (url : Url)
      → parse_url L value policy ≡ ok url
      → IsAdmitted policy value url
  unfolding parse_url validate_egress_host
  parse_url_lem policy value url h =
      let (u, parses, h) = >>=-eq-ok (required L "sink webhook URL is invalid" (parse value)) _ h in
      let (u1, secures, h) = >>=-eq-ok (validate_scheme L (scheme u) policy) _ h in
      let (host, hosts, h) =
        >>=-eq-ok (required L "sink webhook URL must include a host" (host_str u)) _ h in
      let (u2, checks, h) = >>=-eq-ok (validate_egress_host L host policy) _ h in
      let (u3, listed, checks) = >>=-eq-ok (reject_if _ _) _ checks in
      let (u4, remote, checks) = >>=-eq-ok (reject_if _ _) _ checks in
      let (far, unnamed) = or-eq-false _ _ (reject_if-eq-ok _ _ remote) in
      subst (IsAdmitted policy value) (ok-injective h) (record {
        host = host;
        parsed = required-eq-ok _ _ parses;
        has_host = required-eq-ok _ _ hosts;
        secure = validate_scheme-IsSecure (scheme u) policy secures;
        listed = (is_unlisted_iff policy.allowed_hosts host).0 (reject_if-eq-ok _ _ listed);
        remote = (ne_iff _ _).0 far;
        named = (ne_iff _ _).0 unnamed;
        outside =
            (is_blocked_address_iff policy.allow_private_networks _).0 (reject_if-eq-ok _ _ checks);
      })

  IsAdmitted-parse_url :
      (policy : EgressPolicy) (value : Str) (url : Url)
      → IsAdmitted policy value url
      → parse_url L value policy ≡ ok url
  unfolding parse_url validate_egress_host
  IsAdmitted-parse_url policy value url a = rw (
    a.parsed,
    IsSecure-validate_scheme (scheme url) policy a.secure,
    a.has_host,
    (is_unlisted_iff policy.allowed_hosts a.host).1 a.listed,
    (ne_iff (normalize_host a.host) (codes "localhost")).1 a.remote,
    (ne_iff (normalize_host a.host) (codes "localhost.localdomain")).1 a.named,
    (is_blocked_address_iff policy.allow_private_networks (parse_ip (normalize_host a.host))).1
        a.outside,
  )

  -- A webhook URL is accepted, as it is parsed, exactly if it has the scheme `https`, or `http` if the
  -- policy takes it, and a host that, in lower case and without dots at its end, is in the list of
  -- allowed hosts in some case, if there are any, is neither `localhost` nor `localhost.localdomain`,
  -- and, unless private networks are allowed, is no text that the parser of addresses reads as an
  -- address of a private, loopback, link-local, multicast, broadcast, documentation, unspecified or
  -- unique local range.
  pub parse_url-IsAdmitted :
      (policy : EgressPolicy) (value : Str) (url : Url)
      → (parse_url L value policy ≡ ok url) ↔ IsAdmitted policy value url
  parse_url-IsAdmitted policy value url =
      (parse_url_lem policy value url, IsAdmitted-parse_url policy value url)
