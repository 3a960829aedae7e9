-- ===== src/Administration/Repository.antt =====
-- internal/administration/memory_repository.go: the methods of MemoryRepository.

use certus.Access.Repository.{string_le}
use certus.Common.{
  string_key, ◌>>◌, ℕ, String, Bool, not, ◌&&◌, ◌||◌, none, some, List, [], ◌∷◌, map, leb,
  if◌then◌else◌, ok, err, Time, filter, count_if, reject, sort_by, lookup, put, is_empty,
  trim_space,
}
use certus.Administration.Roles.{
  Reply, super_admin, valid_role, validate_roles, access_for, has_role, Grant, Access, invalid,
  last_super_admin,
}

pub record MemoryRepository : Type 0 where
  pub grants : List (String × List Grant)

-- NewMemoryRepository
abbrev pub new_memory_repository : MemoryRepository
new_memory_repository = record { grants = [] }

-- `r.grants[userID]`, which is empty for a user without an entry.
abbrev pub grants_of : MemoryRepository → String → List Grant
grants_of r user_id = elim (lookup user_id r.grants) [ none ↦ [] | some gs ↦ gs ]

unfoldable pub grant_roles : List Grant → List String
grant_roles gs = map (λ (g : Grant). g.role) gs

unfoldable pub list_user_roles : MemoryRepository → String → List Grant
list_user_roles r user_id = sort_by (λ (a b : Grant). string_le a.role b.role) (grants_of r user_id)

-- The user of this entry holds the role.
abbrev pub holds : String → String × List Grant → Bool
holds role e = has_role (grant_roles e.1) role

unfoldable pub list_role_users : MemoryRepository → String → Reply (List String)
list_role_users r role = do
  reject (not (valid_role role)) invalid
  ok (sort_by string_le (map (λ (e : String × List Grant). e.0) (filter (holds role) r.grants)))

unfoldable pub super_admin_count : MemoryRepository → ℕ
super_admin_count r = count_if (holds super_admin) r.grants

abbrev pub granted : String → String → Time → String → Grant
granted user_id granted_by now role = record {
  user_id = user_id;
  role = role;
  granted_at = now;
  granted_by = granted_by;
}

unfoldable pub replace_user_roles :
    MemoryRepository → String → List String → String → Time → MemoryRepository × Reply (Unit {0})
unfolding super_admin_count
replace_user_roles r user_id roles granted_by now = elim (validate_roles roles) [
  | err e ↦ (r, err e)
  | ok _ ↦
      if is_empty (trim_space user_id) || is_empty (trim_space granted_by)
      then (r, err invalid)
      else if has_role (grant_roles (grants_of r user_id)) super_admin
          && not (has_role roles super_admin)
          && leb (super_admin_count r) 1
      then (r, err last_super_admin)
      else (
        record { grants = put user_id (map (granted user_id granted_by now) roles) r.grants },
        ok tt,
      )
]

unfoldable pub effective : MemoryRepository → String → Access
effective r user_id = access_for user_id (grant_roles (grants_of r user_id))

-- A call of ReplaceUserRoles, the only method that writes.
pub record Call : Type 0 where
  pub user_id : String
  pub roles : List String
  pub granted_by : String
  pub now : Time

unfoldable pub run : MemoryRepository → List Call → MemoryRepository
unfolding replace_user_roles
run r [] = r
run r (c ∷ cs) = run (replace_user_roles r c.user_id c.roles c.granted_by c.now).0 cs
