-- ===== src/Access/Effective.antt =====
-- internal/access: Effective, and the grants of a user.
use certus.Common.{
  string_key, String, ◌≡◌, refl, ◌∙◌, inl, inr, Bool, false, not, ◌&&◌, ◌||◌, none, some, List, [],
  ◌∷◌, arith, ◌==◌, eq_iff, Time, Option-cases, any, any-sort_by, lookup, put, is_empty,
}
use certus.Access.Types.{Set, UserRole, MemoryUserRole, MemoryRepository}
use certus.Access.Definitions.{in_the_past}
use certus.Access.Repository.{string_le, members, keys}
use certus.Access.Entitled.{
  collect_user_roles, by_client_and_code, list_user_roles, add_permission, add_permissions,
  permission_set, effective,
}

-- A permission of the client with this code.
abbrev pub is_permission : MemoryRepository → String → String → String × Unit {0} → Bool
is_permission r client_id code e = elim (lookup e.0 r.permissions) [
  | none ↦ false
  | some p ↦ p.client_id == client_id && p.code == code
]

-- A grant to the user that has not expired, of a role of the client that holds such a permission.
abbrev pub is_in_force : MemoryRepository → String → String → Time → String → MemoryUserRole → Bool
is_in_force r user_id client_id now code u = elim (lookup u.role_id r.roles) [
  | none ↦ false
  | some role ↦
      u.user_id == user_id
      && (is_empty client_id || role.client_id == client_id)
      && not (in_the_past now u.expires_at)
      && any (is_permission r client_id code) (members role.id r)
]

pub any-keys-put :
    (code k : String) (s : Set)
    → any (λ c. c == code) (keys (put k tt s)) ≡ (k == code || any (λ c. c == code) (keys s))
any-keys-put code k [] = refl
any-keys-put code k ((j, _) ∷ s) =
    ground (arith, eq_iff j k, eq_iff j code, eq_iff k code, any-keys-put code k s)

any-add_permission :
    (r : MemoryRepository) (client_id code : String) (found : Set) (e : String × Unit {0})
    → any (λ c. c == code) (keys (add_permission r client_id e.0 found))
      ≡ (any (λ c. c == code) (keys found) || is_permission r client_id code e)
unfolding add_permission
any-add_permission r client_id code found e = elim (Option-cases (lookup e.0 r.permissions)) [
  | inl none_there ↦ rw (none_there, add_permission, is_permission) (ground arith)
  | inr (p, there) ↦
      rw (there, add_permission, is_permission) (ground (arith, any-keys-put code p.code found))
]

any-add_permissions :
    (r : MemoryRepository) (client_id code : String) (found ids : Set)
    → any (λ c. c == code) (keys (add_permissions r client_id found ids))
      ≡ (any (λ c. c == code) (keys found) || any (is_permission r client_id code) ids)
unfolding add_permissions
any-add_permissions r client_id code found [] = ground arith
any-add_permissions r client_id code found ((id, u) ∷ ids) =
    let one = any-add_permission r client_id code found (id, u) in
    let rest = any-add_permissions r client_id code (add_permission r client_id id found) ids in
    ground (arith, one, rest)

-- A permission of the client with this code is in the role of the assignment.
abbrev gives : MemoryRepository → String → String → UserRole → Bool
gives r client_id code a = any (is_permission r client_id code) (members a.role.id r)

any-permission_set :
    (r : MemoryRepository) (client_id code : String) (found : Set) (assignments : List UserRole)
    → any (λ c. c == code) (keys (permission_set r client_id found assignments))
      ≡ (any (λ c. c == code) (keys found) || any (gives r client_id code) assignments)
unfolding permission_set
any-permission_set r client_id code found [] = ground arith
any-permission_set r client_id code found (a ∷ assignments) =
    let one = any-add_permissions r client_id code found (members a.role.id r) in
    let rest =
      any-permission_set r client_id code (add_permissions r client_id found (members a.role.id r))
        assignments in
    ground (arith, one, rest)

any-collect_user_roles :
    (r : MemoryRepository) (user_id client_id code : String) (now : Time) (us : List MemoryUserRole)
    → any (gives r client_id code) (collect_user_roles r user_id client_id false now us)
      ≡ any (is_in_force r user_id client_id now code) us
unfolding collect_user_roles
any-collect_user_roles r user_id client_id code now [] = refl
any-collect_user_roles r user_id client_id code now (u ∷ us) =
    let rest = any-collect_user_roles r user_id client_id code now us in
    elim (Option-cases (lookup u.role_id r.roles)) [
      | inl e ↦ rw (e, collect_user_roles, is_in_force) (ground (arith, rest))
      | inr (role, e) ↦ rw (e, collect_user_roles, is_in_force) (ground (arith, rest))
    ]

-- When no write comes between its two reads, Effective lists a permission code if and only if the
-- user has a grant that has not expired, of a role of the client that holds a permission of the
-- client with that code.
pub effective-permissions :
    (r : MemoryRepository) (user_id client_id code : String) (now : Time)
    → any (λ c. c == code) (effective r r user_id client_id now).permissions
      ≡ any (is_in_force r user_id client_id now code) r.user_roles
unfolding effective list_user_roles
effective-permissions r user_id client_id code now =
    any-sort_by string_le (λ c. c == code)
      (keys (permission_set r client_id [] (list_user_roles r user_id client_id false now)))
    ∙ any-permission_set r client_id code [] (list_user_roles r user_id client_id false now)
    ∙ any-sort_by by_client_and_code (gives r client_id code)
        (collect_user_roles r user_id client_id false now r.user_roles)
    ∙ any-collect_user_roles r user_id client_id code now r.user_roles
