-- ===== src/Administration/Examples.antt =====
-- internal/administration: two administrators, and the theorems at concrete inputs.
use certus.Common.{
  string_key, trim_space, reject, ◌≤◌, ◌≡◌, refl, false, ◌||◌, [], ◌∷◌, arith, err, any, reject,
  is_empty, trim_space,
}
use certus.Administration.Roles.{
  super_admin, all_permissions, definitions, valid_role, validate_roles_from, validate_roles,
  add_role, collect_access, access_for, has, has_role, last_super_admin,
}
use certus.Administration.Repository.{
  new_memory_repository, grant_roles, super_admin_count, replace_user_roles, run, MemoryRepository,
  Call,
}
use certus.Administration.LastAdmin.{super_admin_remains}
use certus.Administration.Granted.{role_grants, has-access_for}

abbrev appoint : Call
appoint = record {
  user_id = "ada";
  roles = super_admin ∷ "auditor" ∷ [];
  granted_by = "root";
  now = 5;
}

abbrev resign : Call
resign = record { user_id = "ada"; roles = "auditor" ∷ []; granted_by = "ada"; now = 9 }

abbrev appointed : MemoryRepository
appointed = run new_memory_repository (appoint ∷ [])

resign_refused :
    (replace_user_roles appointed "ada" ("auditor" ∷ []) "ada" 9).1 ≡ err last_super_admin
unfolding run replace_user_roles validate_roles validate_roles_from valid_role definitions has_role
    grant_roles super_admin_count trim_space reject
resign_refused = refl

appointed_count : 1 ≤ super_admin_count appointed
unfolding run replace_user_roles validate_roles validate_roles_from valid_role definitions has_role
    grant_roles super_admin_count trim_space reject
appointed_count = omega arith

super_admin_remains_example : 1 ≤ super_admin_count (run appointed (resign ∷ []))
super_admin_remains_example = super_admin_remains appointed (resign ∷ []) appointed_count

auditor_cannot_write : has (access_for "eve" ("auditor" ∷ "owner" ∷ [])) "admin.users.write" ≡ false
unfolding has access_for collect_access add_role valid_role definitions trim_space
auditor_cannot_write = refl

has-access_for_example : has (access_for "eve" ("auditor" ∷ "owner" ∷ [])) "admin.users.read" ≡ (
    any (λ role. role_grants definitions role all_permissions) ("auditor" ∷ "owner" ∷ [])
    || is_empty "admin.users.read"
    || any (λ role. role_grants definitions role "admin.users.read") ("auditor" ∷ "owner" ∷ []))
has-access_for_example = has-access_for "eve" ("auditor" ∷ "owner" ∷ []) "admin.users.read"
