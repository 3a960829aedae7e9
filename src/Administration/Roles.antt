-- ===== src/Administration/Roles.antt =====
-- internal/administration/administration.go: the roles, their permissions and what follows from them.

use certus.Access.Types.{Set}
use certus.Access.Repository.{string_le, keys}
use certus.Common.{
  string_key, ◌>>◌, String, Bool, not, ◌||◌, List, [], ◌∷◌, ◌==◌, if◌then◌else◌, Result, ok, Time,
  any, reject, sort_by, put, is_empty, trim_space,
}

-- The errors that the functions answer; ErrNotFound is answered by none.
pub data Error : Type 0 where
  invalid last_super_admin : Error

abbrev pub Reply : Type 0 → Type 0
Reply A = Result Error A

-- Role and Permission are strings. The names and descriptions of the roles are for people to read.
pub record RoleDefinition : Type 0 where
  pub code : String
  pub permissions : List String

pub record Grant : Type 0 where
  pub user_id : String
  pub role : String
  pub granted_at : Time
  pub granted_by : String

pub record Access : Type 0 where
  pub user_id : String
  pub roles : List String
  pub permissions : List String

abbrev pub super_admin : String
super_admin = "super_admin"

abbrev pub all_permissions : String
all_permissions = "*"

unfoldable pub definitions : List RoleDefinition
definitions =
    (record { code = super_admin; permissions = all_permissions ∷ [] })
    ∷ (record {
      code = "identity_admin";
      permissions =
          "admin.users.read" ∷ "admin.users.write" ∷ "admin.identity_sources.read"
          ∷ "admin.identity_sources.write" ∷ [];
    })
    ∷ (record {
      code = "application_admin";
      permissions =
          "admin.clients.read" ∷ "admin.clients.write" ∷ "admin.access.read" ∷ "admin.access.write"
          ∷ "admin.users.read" ∷ "admin.identity_sources.read" ∷ [];
    })
    ∷ (record {
      code = "security_admin";
      permissions =
          "admin.security.read" ∷ "admin.security.write" ∷ "admin.maintenance.execute"
          ∷ "admin.audit.read" ∷ "admin.users.read" ∷ "admin.identity_sources.read"
          ∷ "admin.identity_sources.write" ∷ [];
    })
    ∷ (record {
      code = "auditor";
      permissions =
          "admin.users.read" ∷ "admin.clients.read" ∷ "admin.access.read" ∷ "admin.audit.read"
          ∷ "admin.security.read" ∷ "admin.roles.read" ∷ "admin.identity_sources.read" ∷ [];
    })
    ∷ []

unfoldable pub valid_role : String → Bool
valid_role role = any (λ (d : RoleDefinition). d.code == role) definitions

-- The loop of ValidateRoles, with the roles that it has seen.
unfoldable pub validate_roles_from : List String → List String → Reply (Unit {0})
validate_roles_from seen [] = ok tt
validate_roles_from seen (role ∷ roles) = do
  reject (not (valid_role role)) invalid
  reject (any (λ r. r == role) seen) invalid
  validate_roles_from (role ∷ seen) roles

unfoldable pub validate_roles : List String → Reply (Unit {0})
unfolding validate_roles_from
validate_roles roles = validate_roles_from [] roles

abbrev pub add_all : List String → Set → Set
add_all [] found = found
add_all (p ∷ ps) found = add_all ps (put p tt found)

-- The permissions of the definitions with the code `role`, added to those found so far.
unfoldable pub add_role : String → List RoleDefinition → Set → Set
add_role role [] found = found
add_role role (d ∷ ds) found =
    let skipped = add_role role ds found in
    let added = add_role role ds (add_all d.permissions found) in
    if not (d.code == role) then skipped else added

-- The loop of AccessFor: its sets of roles and of permissions.
unfoldable pub collect_access : List String → Set × Set → Set × Set
unfolding add_role
collect_access [] found = found
collect_access (role ∷ roles) found =
    let skipped = collect_access roles found in
    let added = collect_access roles (put role tt found.0, add_role role definitions found.1) in
    if not (valid_role role) then skipped else added

unfoldable pub access_for : String → List String → Access
unfolding collect_access
access_for user_id roles =
    let found = collect_access roles ([], []) in
    record {
      user_id = trim_space user_id;
      roles = sort_by string_le (keys found.0);
      permissions = sort_by string_le (keys found.1);
    }

abbrev contains : List String → String → Bool
contains xs x = any (λ y. y == x) xs

-- The method Has of Access.
unfoldable pub has : Access → String → Bool
has a permission =
    contains a.permissions all_permissions
    || is_empty permission
    || contains a.permissions permission

unfoldable pub has_role : List String → String → Bool
has_role roles expected = contains roles expected
