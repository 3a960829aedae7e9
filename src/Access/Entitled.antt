-- ===== src/Access/Entitled.antt =====
-- internal/access/memory_repository.go: what a user is entitled to.
use certus.Common.{
  string_key, String, Bool, false, not, ◌&&◌, ◌||◌, none, some, List, [], ◌∷◌, map, ◌==◌,
  if◌then◌else◌, ok, err, Time, sort_by, lookup, put, is_empty,
}
use certus.Access.Types.{
  Reply, Permission, Set, UserRole, Entitlements, MemoryUserRole, MemoryRepository,
}
use certus.Access.Definitions.{in_the_past}
use certus.Access.Repository.{string_le, by_code, find_definition, members, keys}

-- The zero value of Permission.
abbrev pub zero_permission : Permission
zero_permission = record {
  id = "";
  client_id = "";
  code = "";
  name = "";
  description = "";
  created_at = 0;
  updated_at = 0;
}

abbrev pub permission_at : MemoryRepository → String × Unit {0} → Permission
permission_at r e = elim (lookup e.0 r.permissions) [ none ↦ zero_permission | some p ↦ p ]

unfoldable pub list_role_permissions : MemoryRepository → String → String → Reply (List Permission)
list_role_permissions r client_id role_id = elim (find_definition r.roles client_id role_id) [
  | err e ↦ err e
  | ok role ↦ ok (sort_by by_code (map (permission_at r) (members role_id r)))
]

-- The loop of ListUserRoles.
unfoldable pub collect_user_roles :
    MemoryRepository → String → String → Bool → Time → List MemoryUserRole → List UserRole
collect_user_roles r user_id client_id include_expired now [] = []
collect_user_roles r user_id client_id include_expired now (u ∷ us) =
    let rest = collect_user_roles r user_id client_id include_expired now us in
    elim (lookup u.role_id r.roles) [
      | none ↦ rest
      | some role ↦
          if not (u.user_id == user_id)
            || not (is_empty client_id) && not (role.client_id == client_id)
          then rest
          else if not include_expired && in_the_past now u.expires_at
          then rest
          else record {
            user_id = user_id;
            role = role;
            granted_at = u.granted_at;
            granted_by = u.granted_by;
            expires_at = u.expires_at;
          }
            ∷ rest
    ]

abbrev pub by_client_and_code : UserRole → UserRole → Bool
by_client_and_code a b =
    if a.role.client_id == b.role.client_id
    then string_le a.role.code b.role.code
    else string_le a.role.client_id b.role.client_id

unfoldable pub list_user_roles : MemoryRepository → String → String → Bool → Time → List UserRole
unfolding collect_user_roles
list_user_roles r user_id client_id include_expired now =
    sort_by by_client_and_code
      (collect_user_roles r user_id client_id include_expired now r.user_roles)

-- The body of Effective's inner loop.
unfoldable pub add_permission : MemoryRepository → String → String → Set → Set
add_permission r client_id id codes_found = elim (lookup id r.permissions) [
  | none ↦ codes_found
  | some p ↦ if p.client_id == client_id then put p.code tt codes_found else codes_found
]

-- The inner loop of Effective.
unfoldable pub add_permissions : MemoryRepository → String → Set → Set → Set
unfolding add_permission
add_permissions r client_id codes_found [] = codes_found
add_permissions r client_id codes_found ((id, _) ∷ ids) =
    add_permissions r client_id (add_permission r client_id id codes_found) ids

-- The outer loop of Effective.
unfoldable pub permission_set : MemoryRepository → String → Set → List UserRole → Set
unfolding add_permissions
permission_set r client_id found [] = found
permission_set r client_id found (a ∷ assignments) =
    permission_set r client_id (add_permissions r client_id found (members a.role.id r)) assignments

-- Effective takes its lock twice: `later` is the repository at the second time.
unfoldable pub effective :
    MemoryRepository → MemoryRepository → String → String → Time → Entitlements
unfolding list_user_roles permission_set
effective r later user_id client_id now =
    let assignments = list_user_roles r user_id client_id false now in
    record {
      user_id = user_id;
      client_id = client_id;
      roles = sort_by string_le (map (λ (a : UserRole). a.role.code) assignments);
      permissions = sort_by string_le (keys (permission_set later client_id [] assignments));
    }
