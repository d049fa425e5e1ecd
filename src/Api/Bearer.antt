-- ===== src/Api/Bearer.antt =====
-- Which headers a bearer token opens the API for: crates/pipe-bolt-api/src/auth.rs.
use pipe_bolt.Prelude.{
  some-injective, ==_iff, >>=-eq-ok, Bool, Bool-cases, List, Option, Option-cases, Result, [], any,
  ap, arith, err, false, if◌then◌else◌, inl, inr, none, not, ok, ok-injective, or-eq-false, refl,
  some, subst, sym, true, ℕ, ◌++◌, ◌==◌, ◌>>=◌, ◌||◌, ◌↔◌, ◌∙◌, ◌∷◌, ◌≡◌, ◌≢◌,
}
use pipe_bolt.Text.{Str, codes}
use pipe_bolt.Text.Equality.{eq_of_str_eq}
use pipe_bolt.Domain.Id.{Identifier}
use pipe_bolt.Command.{string_bytes}
use pipe_bolt.Api.{ApiError, unauthorized}
use pipe_bolt.Api.Auth.{
  AuthContext, ManagementProjectScope, ManagementRole, ManagementToken, authenticate,
  bearer_token_format_is_valid, bearer_with_context, eq_ignore_ascii_case, last_match, new_token,
  ok_or_unauthorized, parse_bearer_token, split_once, to_ascii_lowercase, to_lower, token_of,
  validate_bearer_token_secret,
}

is_space : ℕ → Bool
is_space c = c == 32

none≢some : {A : Type 0} {a : A} → none ≢ some a
none≢some e = cc

rejoin :
    {before after first second s : Str}
    → ◌≡◌ {A = Str × Str} (before, after) (first, second)
    → s ≡ before ++ 32 ∷ after
    → s ≡ first ++ 32 ∷ second
rejoin {s = s} pair e = subst (λ (p : Str × Str). s ≡ p.0 ++ 32 ∷ p.1) pair e

split_once-joins :
    (s first second : Str) → split_once s ≡ some (first, second) → s ≡ first ++ 32 ∷ second
unfolding split_once
split_once-joins [] first second h = cc
split_once-joins (c ∷ s) first second h = elim (Bool-cases (c == 32)) [
  | inl space ↦
      let pair : ◌≡◌ {A = Str × Str} ([], s) (first, second) = some-injective (rw space at h) in
      rejoin pair (ap (λ d. d ∷ s) ((==_iff c 32).0 space))
  | inr other ↦ elim (Option-cases (split_once s)) [
    | inl e ↦ elim (none≢some (rw (other, e) at h)) [ ]
    | inr ((before, after), e) ↦
        let pair : ◌≡◌ {A = Str × Str} (c ∷ before, after) (first, second) =
          some-injective (rw (other, e) at h) in
        rejoin pair (ap (λ rest. c ∷ rest) (split_once-joins s before after e))
  ]
]

split_once-append :
    (first second : Str)
    → any is_space first ≡ false
    → split_once (first ++ 32 ∷ second) ≡ some (first, second)
unfolding split_once is_space
split_once-append [] second h = refl
split_once-append (c ∷ first) second h =
    let (here, later) = or-eq-false (c == 32) (any is_space first) h in
    rw (here, split_once-append first second later) refl

to_lower-space : (c : ℕ) → is_space (to_lower c) ≡ is_space c
unfolding is_space
to_lower-space c = ground arith

lowercase-spaces : (s : Str) → any is_space (to_ascii_lowercase s) ≡ any is_space s
lowercase-spaces [] = refl
lowercase-spaces (c ∷ s) = rw (to_lower-space c, lowercase-spaces s) refl

scheme-spaces : (s : Str) → eq_ignore_ascii_case s (codes "Bearer") ≡ true → any is_space s ≡ false
unfolding is_space
scheme-spaces s h = sym (lowercase-spaces s) ∙ ap (any is_space) (eq_of_str_eq _ _ h) ∙ refl

gate :
    (b c : Bool) (t p : Str)
    → (if not b || not c then err unauthorized else ok t) ≡ ok p
    → (b ≡ true) × (c ≡ true) × (t ≡ p)
gate true true t p h = (refl, refl, ok-injective h)
gate true false t p h = elim (err≢ok h) [ ]
  where
    err≢ok : {p : Str} → ◌≢◌ {A = Result ApiError Str} (err unauthorized) (ok p)
    err≢ok e = cc
gate false c t p h = elim (err≢ok h) [ ]
  where
    err≢ok : {p : Str} → ◌≢◌ {A = Result ApiError Str} (err unauthorized) (ok p)
    err≢ok e = cc

token_of-parts :
    (o : Option (Str × Str)) (presented : Str)
    → token_of o ≡ ok presented
    → (scheme : Str) × (o ≡ some (scheme, presented))
      × (eq_ignore_ascii_case scheme (codes "Bearer") ≡ true)
      × (bearer_token_format_is_valid presented ≡ true)
token_of-parts none presented h = elim (err≢ok h) [ ]
  where
    err≢ok : {p : Str} → ◌≢◌ {A = Result ApiError Str} (err unauthorized) (ok p)
    err≢ok e = cc
token_of-parts (some (scheme, token)) presented h =
    let (bearer, valid, same) =
      gate (eq_ignore_ascii_case scheme (codes "Bearer")) (bearer_token_format_is_valid token) token
        presented h in
    (scheme, rw same refl, bearer, rw (← same) valid)

module _ {D : Type 0} (digest : List ℕ → D) (ct_eq : D → D → Bool)
    (ct_eq_iff : (a b : D) → (ct_eq a b ≡ true) ↔ (a ≡ b)) where
  -- A header that shows a token: the scheme, a space, and a well-formed text with the digest of the
  -- token.
  pub record Shows (token header : Str) : Type 0 where
    pub scheme : Str
    pub presented : Str
    pub split : header ≡ scheme ++ 32 ∷ presented
    pub is_bearer : eq_ignore_ascii_case scheme (codes "Bearer") ≡ true
    pub is_well_formed : bearer_token_format_is_valid presented ≡ true
    pub same_digest : digest (string_bytes token) ≡ digest (string_bytes presented)

  made_token :
      (token : Str) (actor_id : Identifier) (role : ManagementRole) (scope : ManagementProjectScope)
      (auth : List (ManagementToken digest ct_eq))
      → bearer_with_context digest ct_eq token actor_id role scope ≡ ok auth
      → auth
        ≡ record {
          token_digest = digest (string_bytes token);
          context = record { actor_id = actor_id; role = role; project_scope = scope };
        }
          ∷ []
  unfolding bearer_with_context new_token
  made_token token actor_id role scope auth h =
      let (t, made, h) = >>=-eq-ok (new_token digest ct_eq token _) _ h in
      let (u, valid, made) = >>=-eq-ok (validate_bearer_token_secret token) _ made in
      sym (ok-injective h) ∙ ap (λ t. t ∷ []) (sym (ok-injective made))

  -- When the comparison of digests decides their equality, an API with one token opens for a header
  -- exactly when the header shows the token, and then to the actor of the token.
  pub authenticate-Shows :
      (token : Str) (actor_id : Identifier) (role : ManagementRole) (scope : ManagementProjectScope)
      (auth : List (ManagementToken digest ct_eq)) (header : Str) (context : AuthContext)
      → bearer_with_context digest ct_eq token actor_id role scope ≡ ok auth
      → (authenticate digest ct_eq auth (some header) ≡ ok context) ↔ (
          Shows token header
          × (context ≡ record { actor_id = actor_id; role = role; project_scope = scope }))
  unfolding authenticate parse_bearer_token last_match
  authenticate-Shows token actor_id role scope auth header context h =
      rw (made_token token actor_id role scope auth h) (forth, back)
    where
      owner : AuthContext
      owner = record { actor_id = actor_id; role = role; project_scope = scope }

      matched :
          (presented : Str)
          → ok_or_unauthorized digest ct_eq (
              if ct_eq (digest (string_bytes token)) (digest (string_bytes presented))
              then some owner
              else none)
            ≡ ok context
          → (digest (string_bytes token) ≡ digest (string_bytes presented)) × (context ≡ owner)
      matched presented h =
          elim (Bool-cases
            (ct_eq (digest (string_bytes token)) (digest (string_bytes presented)))) [
              | inl same ↦ ((ct_eq_iff _ _).0 same, sym (ok-injective (rw same at h)))
              | inr other ↦ elim (err≢ok (rw other at h)) [ ]
            ]
        where
          err≢ok :
              {c : AuthContext} → ◌≢◌ {A = Result ApiError AuthContext} (err unauthorized) (ok c)
          err≢ok e = cc

      forth :
          (token_of (split_once header) >>= λ presented. ok_or_unauthorized digest ct_eq (
              if ct_eq (digest (string_bytes token)) (digest (string_bytes presented))
              then some owner
              else none))
            ≡ ok context
          → Shows token header × (context ≡ owner)
      forth h =
          let (presented, parsed, h) = >>=-eq-ok (token_of (split_once header)) _ h in
          let (scheme, parts, bearer, valid) =
            token_of-parts (split_once header) presented parsed in
          let (same, is_owner) = matched presented h in
          (
            record {
              scheme = scheme;
              presented = presented;
              split = split_once-joins header scheme presented parts;
              is_bearer = bearer;
              is_well_formed = valid;
              same_digest = same;
            },
            is_owner,
          )

      back :
          Shows token header × (context ≡ owner)
          → (token_of (split_once header) >>= λ presented. ok_or_unauthorized digest ct_eq (
              if ct_eq (digest (string_bytes token)) (digest (string_bytes presented))
              then some owner
              else none))
            ≡ ok context
      back (s, is_owner) =
          let parts : split_once header ≡ some (s.scheme, s.presented) =
            rw s.split
              (split_once-append s.scheme s.presented (scheme-spaces s.scheme s.is_bearer)) in
          let same : ct_eq (digest (string_bytes token)) (digest (string_bytes s.presented))
              ≡ true =
            (ct_eq_iff _ _).1 s.same_digest in
          rw (parts, s.is_bearer, s.is_well_formed, same) (ap ok (sym is_owner))
