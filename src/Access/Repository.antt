-- ===== src/Access/Repository.antt =====
-- internal/access/memory_repository.go: the methods of the memory repository. The methods on roles and
-- on permissions have the same text but for the map and the test for a use.
use certus.Common.{
  string_key, codes, ℕ, String, Bool, true, false, not, ◌&&◌, none, some, List, [], ◌∷◌, ◌++◌, map,
  ◌==◌, ltb, eqb, if◌then◌else◌, ok, err, Time, is_nil, filter, any, sort_by, lookup, put, delete,
  codes,
}
use certus.Access.Types.{
  Reply, Role, Permission, Set, Definition, RoleGrant, MemoryUserRole, MemoryRepository, not_found,
  conflict, in_use,
}

-- Go's order on strings, by bytes, is the order by code points.
abbrev pub codes_le : List ℕ → List ℕ → Bool
codes_le [] ys = true
codes_le (x ∷ xs) [] = false
codes_le (x ∷ xs) (y ∷ ys) = if eqb x y then codes_le xs ys else ltb x y

abbrev pub string_le : String → String → Bool
string_le a b = codes_le (codes a) (codes b)

abbrev pub by_code : Definition → Definition → Bool
by_code a b = string_le a.code b.code

abbrev pub Definitions : Type 0
Definitions = List (String × Definition)

-- ListRoles and ListPermissions
unfoldable pub list_definitions : Definitions → String → List Definition
list_definitions m client_id = sort_by by_code (
    filter (λ (d : Definition). d.client_id == client_id)
      (map (λ (e : String × Definition). e.1) m))

abbrev pub same_code : Definition → String × Definition → Bool
same_code value e = e.1.client_id == value.client_id && e.1.code == value.code

-- CreateRole and CreatePermission
unfoldable pub create_definition : Definitions → Definition → Definitions × Reply Definition
create_definition m value =
    if any (same_code value) m then (m, err conflict) else (put value.id value m, ok value)

-- FindRole and FindPermission
unfoldable pub find_definition : Definitions → String → String → Reply Definition
find_definition m client_id id = elim (lookup id m) [
  | none ↦ err not_found
  | some value ↦ if not (value.client_id == client_id) then err not_found else ok value
]

-- ReplaceRole and ReplacePermission
unfoldable pub replace_definition : Definitions → Definition → Definitions × Reply Definition
replace_definition m value = elim (lookup value.id m) [
  | none ↦ (m, err not_found)
  | some current ↦
      if not (current.client_id == value.client_id)
      then (m, err not_found)
      else if any (λ (e : String × Definition). not (e.0 == value.id) && same_code value e) m
      then (m, err conflict)
      else (put value.id value m, ok value)
]

unfoldable pub create_role : MemoryRepository → Role → MemoryRepository × Reply Role
unfolding create_definition
create_role r value =
    let (roles, answer) = create_definition r.roles value in (record r { roles = roles }, answer)

unfoldable pub create_permission :
    MemoryRepository → Permission → MemoryRepository × Reply Permission
unfolding create_definition
create_permission r value =
    let (permissions, answer) = create_definition r.permissions value in
    (record r { permissions = permissions }, answer)

unfoldable pub replace_role : MemoryRepository → Role → MemoryRepository × Reply Role
unfolding replace_definition
replace_role r value =
    let (roles, answer) = replace_definition r.roles value in (record r { roles = roles }, answer)

unfoldable pub replace_permission :
    MemoryRepository → Permission → MemoryRepository × Reply Permission
unfolding replace_definition
replace_permission r value =
    let (permissions, answer) = replace_definition r.permissions value in
    (record r { permissions = permissions }, answer)

unfoldable pub delete_role :
    MemoryRepository → String → String → MemoryRepository × Reply (Unit {0})
delete_role r client_id role_id = elim (find_definition r.roles client_id role_id) [
  | err e ↦ (r, err e)
  | ok value ↦
      if any (λ (u : MemoryUserRole). u.role_id == role_id) r.user_roles then (r, err in_use) else (
        record r {
          roles = delete role_id r.roles;
          role_permissions = delete role_id r.role_permissions;
        },
        ok tt,
      )
]

abbrev pub has_member : String → String × Set → Bool
has_member permission_id e = not (is_nil (lookup permission_id e.1))

unfoldable pub delete_permission :
    MemoryRepository → String → String → MemoryRepository × Reply (Unit {0})
delete_permission r client_id permission_id =
    elim (find_definition r.permissions client_id permission_id) [
      | err e ↦ (r, err e)
      | ok value ↦
          if any (has_member permission_id) r.role_permissions
          then (r, err in_use)
          else (record r { permissions = delete permission_id r.permissions }, ok tt)
    ]

-- The loop of SetRolePermissions: the set of the identifiers, if each is a permission of the client.
unfoldable pub collect_permissions : Definitions → String → Set → List String → Reply Set
collect_permissions m client_id values [] = ok values
collect_permissions m client_id values (id ∷ ids) = elim (find_definition m client_id id) [
  | err e ↦ err e
  | ok _ ↦ collect_permissions m client_id (put id tt values) ids
]

unfoldable pub set_role_permissions :
    MemoryRepository → String → String → List String → MemoryRepository × Reply (Unit {0})
unfolding collect_permissions
set_role_permissions r client_id role_id permission_ids =
    elim (find_definition r.roles client_id role_id) [
      | err e ↦ (r, err e)
      | ok role ↦ elim (collect_permissions r.permissions client_id [] permission_ids) [
        | err e ↦ (r, err e)
        | ok values ↦ (record r { role_permissions = put role_id values r.role_permissions }, ok tt)
      ]
    ]

abbrev pub members : String → MemoryRepository → Set
members role_id r = elim (lookup role_id r.role_permissions) [ none ↦ [] | some ids ↦ ids ]

abbrev pub keys : Set → List String
keys = map (λ (e : String × Unit {0}). e.0)

-- `grant.RoleID` is not a role.
abbrev pub is_dangling : MemoryRepository → RoleGrant → Bool
is_dangling r g = is_nil (lookup g.role_id r.roles)

abbrev pub granted : String → String → Time → RoleGrant → MemoryUserRole
granted user_id granted_by now g = record {
  user_id = user_id;
  role_id = g.role_id;
  granted_at = now;
  granted_by = granted_by;
  expires_at = g.expires_at;
}

unfoldable pub replace_user_roles :
    MemoryRepository → String → List RoleGrant → String → Time → MemoryRepository × Reply (Unit {0})
replace_user_roles r user_id grants granted_by now =
    if any (is_dangling r) grants then (r, err not_found) else (
      record r {
        user_roles =
            filter (λ (u : MemoryUserRole). not (u.user_id == user_id)) r.user_roles
            ++ map (granted user_id granted_by now) grants;
      },
      ok tt,
    )
