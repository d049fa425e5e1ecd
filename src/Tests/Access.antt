-- ===== src/Tests/Access.antt =====
-- The access to the management API.
use pipe_bolt.Prelude.{List, [], ok, refl, some, ℕ, ◌↔◌, ◌∷◌, ◌≡◌}
use pipe_bolt.Text.{Str, byte_len, codes, str_eq}
use pipe_bolt.Text.Equality.{str_eq_iff}
use pipe_bolt.Command.{string_bytes}
use pipe_bolt.Api.Auth.{
  AuthContext, ManagementToken, authenticate, authorize_project, bearer_token_format_is_valid,
  bearer_with_context, last_match, new_token, operator, parse_bearer_token, projects,
  runtime_reload, split_once, validate_bearer_token_secret,
}
use pipe_bolt.Api.Access.{InScope, MayDo, authorize_project-MayDo}
use pipe_bolt.Api.Bearer.{Shows, authenticate-Shows}

abbrev operator_context : AuthContext
operator_context = record {
  actor_id = codes "user-1";
  role = operator;
  project_scope = projects (codes "project-1" ∷ []);
}

operator_reloads : authorize_project operator_context (codes "project-1") runtime_reload ≡ ok tt
unfolding authorize_project str_eq
operator_reloads = refl

authorize_project-MayDo_example :
    (authorize_project operator_context (codes "project-1") runtime_reload ≡ ok tt)
    ↔ (MayDo operator runtime_reload × InScope operator_context.project_scope (codes "project-1"))
authorize_project-MayDo_example =
    authorize_project-MayDo operator_context (codes "project-1") runtime_reload

abbrev token : Str
token = codes "0123456789abcdef0123456789abcdef"

-- The digest of a text is the text.
abbrev digest_text : List ℕ → List ℕ
digest_text bytes = bytes

abbrev auth : List (ManagementToken digest_text str_eq)
auth = record { token_digest = token; context = operator_context } ∷ []

auth_made :
    bearer_with_context digest_text str_eq token
      (codes "user-1")
      operator
      (projects (codes "project-1" ∷ []))
    ≡ ok auth
unfolding bearer_with_context new_token validate_bearer_token_secret bearer_token_format_is_valid
    byte_len string_bytes
auth_made = refl

header_accepted :
    authenticate digest_text str_eq auth (some (codes "bearer 0123456789abcdef0123456789abcdef"))
    ≡ ok operator_context
unfolding authenticate last_match parse_bearer_token split_once bearer_token_format_is_valid str_eq
    string_bytes
header_accepted = refl

authenticate-Shows_example :
    (authenticate digest_text str_eq auth (some (codes "bearer 0123456789abcdef0123456789abcdef"))
      ≡ ok operator_context)
    ↔ (Shows digest_text str_eq str_eq_iff token (codes "bearer 0123456789abcdef0123456789abcdef")
        × (operator_context ≡ operator_context))
authenticate-Shows_example =
    authenticate-Shows digest_text str_eq str_eq_iff token (codes "user-1") operator
      (projects (codes "project-1" ∷ [])) auth (codes "bearer 0123456789abcdef0123456789abcdef")
      operator_context auth_made
