-- ===== src/Api/Auth.antt =====
-- crates/pipe-bolt-api/src/auth.rs: bearer tokens, roles and project scopes. The digest and the
-- comparison of digests belong to libraries.
use pipe_bolt.Prelude.{
  Bool, List, Option, Result, String, [], any, err, false, if◌then◌else◌, is_empty, leb, ltb, map,
  none, not, ok, reject_if, some, true, ℕ, ◌&&◌, ◌++◌, ◌+◌, ◌==◌, ◌>>=◌, ◌>>◌, ◌||◌, ◌∷◌,
}
use pipe_bolt.Text.{Str, byte_len, codes, str_eq, trim}
use pipe_bolt.Domain.Id.{Identifier}
use pipe_bolt.Command.{string_bytes}
use pipe_bolt.Api.{ApiError, forbidden, internal, unauthorized}

pub data ManagementPermission : Type 0 where
  project_read project_config_write command_execute runtime_reload failure_resolve :
      ManagementPermission

-- `as_str` of a permission
abbrev pub permission_name : ManagementPermission → String
permission_name project_read = "project:read"
permission_name project_config_write = "project_config:write"
permission_name command_execute = "command:execute"
permission_name runtime_reload = "runtime:reload"
permission_name failure_resolve = "failure:resolve"

pub data ManagementRole : Type 0 where
  admin operator viewer : ManagementRole

-- `as_str` of a role
abbrev pub role_name : ManagementRole → String
role_name admin = "admin"
role_name operator = "operator"
role_name viewer = "viewer"

abbrev pub to_lower : ℕ → ℕ
to_lower c = if leb 65 c && leb c 90 then c + 32 else c

-- `str::to_ascii_lowercase`
abbrev pub to_ascii_lowercase : Str → Str
to_ascii_lowercase s = map to_lower s

abbrev pub role_of : Str → Option ManagementRole
role_of name =
    if str_eq name (codes "admin")
    then some admin
    else if str_eq name (codes "operator")
    then some operator
    else if str_eq name (codes "viewer")
    then some viewer
    else none

-- `ManagementRole::parse`
unfoldable pub parse_role : Str → Option ManagementRole
parse_role value = role_of (to_ascii_lowercase (trim value))

-- `ManagementRole::allows`
abbrev pub role_allows : ManagementRole → ManagementPermission → Bool
role_allows admin permission = true
role_allows operator project_read = true
role_allows operator project_config_write = false
role_allows operator command_execute = true
role_allows operator runtime_reload = true
role_allows operator failure_resolve = true
role_allows viewer project_read = true
role_allows viewer project_config_write = false
role_allows viewer command_execute = false
role_allows viewer runtime_reload = false
role_allows viewer failure_resolve = false

pub data ManagementProjectScope : Type 0 where
  all_projects : ManagementProjectScope
  projects : List Identifier → ManagementProjectScope

-- `ManagementProjectScope::allows`
abbrev pub scope_allows : ManagementProjectScope → Identifier → Bool
scope_allows all_projects project_id = true
scope_allows (projects ids) project_id = any (λ allowed. str_eq allowed project_id) ids

pub record AuthContext : Type 0 where
  pub actor_id : Identifier
  pub role : ManagementRole
  pub project_scope : ManagementProjectScope

-- `AuthContext::authorize_project`
unfoldable pub authorize_project :
    AuthContext → Identifier → ManagementPermission → Result ApiError (Unit {0})
authorize_project context project_id permission = do
  reject_if (not (role_allows context.role permission)) (
      forbidden (
        codes "permission '"
        ++ codes (permission_name permission)
        ++ codes "' is required for role '"
        ++ codes (role_name context.role)
        ++ codes "'"))
  reject_if (not (scope_allows context.project_scope project_id)) (
      forbidden (
        codes "actor '"
        ++ context.actor_id
        ++ codes "' is not authorized for project '"
        ++ project_id
        ++ codes "'"))

-- `u8::is_ascii_whitespace`. A byte of a character that is not ASCII is none of these.
abbrev pub is_ascii_whitespace : ℕ → Bool
is_ascii_whitespace c = c == 32 || c == 9 || c == 10 || c == 12 || c == 13

unfoldable pub bearer_token_format_is_valid : Str → Bool
bearer_token_format_is_valid token = not (is_empty token) && not (any is_ascii_whitespace token)

abbrev pub min_bearer_token_bytes : ℕ
min_bearer_token_bytes = 32

unfoldable pub validate_bearer_token_secret : Str → Result ApiError (Unit {0})
validate_bearer_token_secret token =
    reject_if
      (not (bearer_token_format_is_valid token) || ltb (byte_len token) min_bearer_token_bytes)
      (internal
        (codes "management bearer token must be at least 32 bytes and contain no whitespace"))

abbrev push_first : ℕ → Option (Str × Str) → Option (Str × Str)
push_first c none = none
push_first c (some (first, second)) = some (c ∷ first, second)

-- `str::split_once(' ')`
unfoldable pub split_once : Str → Option (Str × Str)
split_once [] = none
split_once (c ∷ s) = let rest = split_once s in if c == 32 then some ([], s) else push_first c rest

-- `eq_ignore_ascii_case`
abbrev pub eq_ignore_ascii_case : Str → Str → Bool
eq_ignore_ascii_case s t = str_eq (to_ascii_lowercase s) (to_ascii_lowercase t)

-- `parse_bearer_token` at the parts of a header.
abbrev pub token_of : Option (Str × Str) → Result ApiError Str
token_of none = err unauthorized
token_of (some (scheme, token)) =
    if not (eq_ignore_ascii_case scheme (codes "Bearer"))
      || not (bearer_token_format_is_valid token)
    then err unauthorized
    else ok token

unfoldable pub parse_bearer_token : Option Str → Result ApiError Str
parse_bearer_token none = err unauthorized
parse_bearer_token (some header) = token_of (split_once header)

module _ {D : Type 0} (digest : List ℕ → D) (ct_eq : D → D → Bool) where
  pub record ManagementToken : Type 0 where
    pub token_digest : D
    pub context : AuthContext

  abbrev pub bearer_token_digest : Str → D
  bearer_token_digest token = digest (string_bytes token)

  -- `ManagementToken::new`
  unfoldable pub new_token : Str → AuthContext → Result ApiError ManagementToken
  new_token token context = do
    validate_bearer_token_secret token
    ok (record { token_digest = bearer_token_digest token; context = context })

  -- `ManagementAuth::bearer_with_context`; a `ManagementAuth` is the list of its tokens.
  unfoldable pub bearer_with_context :
      Str
      → Identifier
      → ManagementRole
      → ManagementProjectScope
      → Result ApiError (List ManagementToken)
  unfolding new_token
  bearer_with_context token actor_id role project_scope = do
    made ←
        new_token token (record { actor_id = actor_id; role = role; project_scope = project_scope })
    ok (made ∷ [])

  -- The loop of `authenticate`, at what has matched so far.
  unfoldable pub last_match : D → Option AuthContext → List ManagementToken → Option AuthContext
  last_match presented matched [] = matched
  last_match presented matched (t ∷ ts) =
      last_match presented (if ct_eq t.token_digest presented then some t.context else matched) ts

  abbrev pub ok_or_unauthorized : Option AuthContext → Result ApiError AuthContext
  ok_or_unauthorized none = err unauthorized
  ok_or_unauthorized (some context) = ok context

  -- `ManagementAuth::authenticate`
  unfoldable pub authenticate : List ManagementToken → Option Str → Result ApiError AuthContext
  unfolding last_match
  authenticate tokens authorization_header = do
    token ← parse_bearer_token authorization_header
    ok_or_unauthorized (last_match (bearer_token_digest token) none tokens)
