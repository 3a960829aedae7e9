-- ===== src/Administration/Granted.antt =====
-- internal/administration/administration.go: the permissions that follow from roles.

use certus.Access.Effective.{any-keys-put}
use certus.Access.Types.{Set}
use certus.Access.Repository.{string_le, keys}
use certus.Common.{
  string_key, Bool-cases, String, ◌≡◌, refl, inl, inr, Bool, false, ◌&&◌, ◌||◌, List, [], ◌∷◌,
  arith, ◌==◌, Bool-cases, any, any-sort_by, put, is_empty,
}
use certus.Administration.Roles.{
  all_permissions, definitions, valid_role, add_all, add_role, collect_access, access_for, has,
  RoleDefinition,
}

-- The role has the permission by its definition.
abbrev pub role_grants : List RoleDefinition → String → String → Bool
role_grants ds role permission =
    any (λ (d : RoleDefinition). d.code == role && any (λ p. p == permission) d.permissions) ds

any-keys-add_all :
    (ps : List String) (found : Set) (x : String)
    → any (λ p. p == x) (keys (add_all ps found))
      ≡ (any (λ p. p == x) (keys found) || any (λ p. p == x) ps)
any-keys-add_all [] found x = ground arith
any-keys-add_all (p ∷ ps) found x =
    ground (arith, any-keys-add_all ps (put p tt found) x, any-keys-put x p found)

any-keys-add_role :
    (role : String) (ds : List RoleDefinition) (found : Set) (x : String)
    → any (λ p. p == x) (keys (add_role role ds found))
      ≡ (any (λ p. p == x) (keys found) || role_grants ds role x)
unfolding add_role
any-keys-add_role role [] found x = ground arith
any-keys-add_role role (d ∷ ds) found x = ground (
  arith,
  any-keys-add_role role ds found x,
  any-keys-add_role role ds (add_all d.permissions found) x,
  any-keys-add_all d.permissions found x,
)

-- A role without a definition grants nothing.
role_grants-valid :
    (ds : List RoleDefinition) (role x : String)
    → any (λ (d : RoleDefinition). d.code == role) ds ≡ false
    → role_grants ds role x ≡ false
role_grants-valid [] role x h = refl
role_grants-valid (d ∷ ds) role x h = ground (arith, h, role_grants-valid ds role x)

any-keys-collect_access :
    (roles : List String) (found : Set × Set) (x : String)
    → any (λ p. p == x) (keys (collect_access roles found).1)
      ≡ (any (λ p. p == x) (keys found.1) || any (λ role. role_grants definitions role x) roles)
unfolding collect_access valid_role
any-keys-collect_access [] found x = ground arith
any-keys-collect_access (role ∷ roles) found x = elim (Bool-cases (valid_role role)) [
  | inl known ↦
      rw (known, collect_access)
        (ground (
          arith,
          any-keys-collect_access roles (put role tt found.0, add_role role definitions found.1) x,
          any-keys-add_role role definitions found.1 x,
        ))
  | inr unknown ↦
      rw (unknown, collect_access)
        (ground (
          arith,
          any-keys-collect_access roles found x,
          role_grants-valid definitions role x unknown,
        ))
]

-- The access that follows from roles has a permission exactly if it is no permission at all, or some of
-- the roles grants it, or grants everything; roles that are not defined grant nothing.
pub has-access_for :
    (user_id : String) (roles : List String) (permission : String)
    → has (access_for user_id roles) permission ≡ (
        any (λ role. role_grants definitions role all_permissions) roles
        || is_empty permission
        || any (λ role. role_grants definitions role permission) roles)
unfolding has access_for
has-access_for user_id roles permission =
    let found = collect_access roles ([], []) in
    let everything = any-sort_by string_le (λ p. p == all_permissions) (keys found.1) in
    let this_one = any-sort_by string_le (λ p. p == permission) (keys found.1) in
    ground (
      arith,
      everything,
      this_one,
      any-keys-collect_access roles ([], []) all_permissions,
      any-keys-collect_access roles ([], []) permission,
    )
