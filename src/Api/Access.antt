-- ===== src/Api/Access.antt =====
-- Which actor may do what: the roles and the scopes of crates/pipe-bolt-api/src/auth.rs.
use pipe_bolt.Prelude.{
  Exists, Exists-map, any_iff, both_iff, false, not-eq-false_iff, ok, refl, reject_if-eq-ok_iff,
  sym, then-eq-ok_iff, trans_iff, true, true≢false, ◌↔◌, ◌≡◌, ◌≢◌,
}
use pipe_bolt.Text.{str_eq}
use pipe_bolt.Text.Equality.{eq_of_str_eq, str_eq_iff}
use pipe_bolt.Domain.Id.{Identifier}
use pipe_bolt.Api.Auth.{
  AuthContext, ManagementPermission, ManagementProjectScope, ManagementRole, admin, all_projects,
  authorize_project, command_execute, failure_resolve, operator, project_config_write, project_read,
  projects, role_allows, runtime_reload, scope_allows, viewer,
}

-- Who may do what, from the roles: everybody reads, operators act on a running project, and
-- administrators also change its configuration.
pub data MayDo : ManagementRole → ManagementPermission → Type 0 where
  anybody_reads : (role : ManagementRole) → MayDo role project_read
  admin_writes : MayDo admin project_config_write
  staff_acts :
      (role : ManagementRole) (permission : ManagementPermission)
      → role ≢ viewer
      → permission ≢ project_config_write
      → MayDo role permission

abbrev pub InScope : ManagementProjectScope → Identifier → Type 0
InScope all_projects id = Unit
InScope (projects ids) id = Exists (λ allowed. allowed ≡ id) ids

operator≢viewer : operator ≢ viewer
operator≢viewer e = cc

admin≢viewer : admin ≢ viewer
admin≢viewer e = cc

viewer-only_reads :
    (permission : ManagementPermission) → permission ≢ project_read → MayDo viewer permission → ⊥
viewer-only_reads project_read n m = n refl
viewer-only_reads permission n (staff_acts r p not_viewer w) = not_viewer refl

role_allows_iff_MayDo :
    (role : ManagementRole) (permission : ManagementPermission)
    → (role_allows role permission ≡ true) ↔ MayDo role permission
role_allows_iff_MayDo admin project_read = (λ h. anybody_reads admin, λ m. refl)
role_allows_iff_MayDo admin project_config_write = (λ h. admin_writes, λ m. refl)
role_allows_iff_MayDo admin command_execute =
    (λ h. staff_acts admin command_execute admin≢viewer (λ e. cc), λ m. refl)
role_allows_iff_MayDo admin runtime_reload =
    (λ h. staff_acts admin runtime_reload admin≢viewer (λ e. cc), λ m. refl)
role_allows_iff_MayDo admin failure_resolve =
    (λ h. staff_acts admin failure_resolve admin≢viewer (λ e. cc), λ m. refl)
role_allows_iff_MayDo operator project_read = (λ h. anybody_reads operator, λ m. refl)
role_allows_iff_MayDo operator project_config_write = (λ h. elim (true≢false (sym h)) [ ], refused)
  where
    refused : MayDo operator project_config_write → false ≡ true
    refused (staff_acts r p n w) = elim (w refl) [ ]
role_allows_iff_MayDo operator command_execute =
    (λ h. staff_acts operator command_execute operator≢viewer (λ e. cc), λ m. refl)
role_allows_iff_MayDo operator runtime_reload =
    (λ h. staff_acts operator runtime_reload operator≢viewer (λ e. cc), λ m. refl)
role_allows_iff_MayDo operator failure_resolve =
    (λ h. staff_acts operator failure_resolve operator≢viewer (λ e. cc), λ m. refl)
role_allows_iff_MayDo viewer project_read = (λ h. anybody_reads viewer, λ m. refl)
role_allows_iff_MayDo viewer project_config_write = (
  λ h. elim (true≢false (sym h)) [ ],
  λ m. elim (viewer-only_reads project_config_write (λ e. cc) m) [ ],
)
role_allows_iff_MayDo viewer command_execute = (
  λ h. elim (true≢false (sym h)) [ ],
  λ m. elim (viewer-only_reads command_execute (λ e. cc) m) [ ],
)
role_allows_iff_MayDo viewer runtime_reload = (
  λ h. elim (true≢false (sym h)) [ ],
  λ m. elim (viewer-only_reads runtime_reload (λ e. cc) m) [ ],
)
role_allows_iff_MayDo viewer failure_resolve = (
  λ h. elim (true≢false (sym h)) [ ],
  λ m. elim (viewer-only_reads failure_resolve (λ e. cc) m) [ ],
)

scope_allows_iff_InScope :
    (scope : ManagementProjectScope) (id : Identifier)
    → (scope_allows scope id ≡ true) ↔ InScope scope id
scope_allows_iff_InScope all_projects id = (λ h. tt, λ h. refl)
scope_allows_iff_InScope (projects ids) id =
    let found = any_iff (λ allowed. str_eq allowed id) ids in
    (
      λ h. Exists-map _ _ (λ allowed e. eq_of_str_eq allowed id e) ids (found.0 h),
      λ h. found.1 (Exists-map _ _ (λ allowed e. (str_eq_iff allowed id).1 e) ids h),
    )

-- An actor is allowed an operation on a project exactly when its role may do it (everybody reads, only
-- an administrator writes the configuration, and the rest is for administrators and operators) and the
-- project is in its scope.
pub authorize_project-MayDo :
    (context : AuthContext) (project_id : Identifier) (permission : ManagementPermission)
    → (authorize_project context project_id permission ≡ ok tt)
      ↔ (MayDo context.role permission × InScope context.project_scope project_id)
unfolding authorize_project
authorize_project-MayDo context project_id permission = trans_iff (then-eq-ok_iff _ _) (
    both_iff
      (trans_iff (reject_if-eq-ok_iff _ _) (
        trans_iff (not-eq-false_iff (role_allows context.role permission))
          (role_allows_iff_MayDo context.role permission)))
      (trans_iff (reject_if-eq-ok_iff _ _) (
        trans_iff (not-eq-false_iff (scope_allows context.project_scope project_id))
          (scope_allows_iff_InScope context.project_scope project_id))))
