-- ===== src/Access/Types.antt =====
-- internal/access/access.go and memory_repository.go: the types and the repository's state.
use certus.Common.{String, Option, List, [], Result, Time}

-- The errors that the package names, and one for a random number generator that fails.
pub data Error : Type 0 where
  not_found conflict in_use invalid random_failed : Error

abbrev pub Reply : Type 0 → Type 0
Reply A = Result Error A

-- Role and Permission, which have the same fields.
pub record Definition : Type 0 where
  pub id : String
  pub client_id : String
  pub code : String
  pub name : String
  pub description : String
  pub created_at : Time
  pub updated_at : Time

abbrev pub Role : Type 0
Role = Definition

abbrev pub Permission : Type 0
Permission = Definition

-- CreateRole, CreatePermission, UpdateRole and UpdatePermission, which have the same fields.
pub record Input : Type 0 where
  pub code : String
  pub name : String
  pub description : String

pub record RoleGrant : Type 0 where
  pub role_id : String
  pub expires_at : Option Time

pub record UserRole : Type 0 where
  pub user_id : String
  pub role : Role
  pub granted_at : Time
  pub granted_by : String
  pub expires_at : Option Time

pub record Entitlements : Type 0 where
  pub user_id : String
  pub client_id : String
  pub roles : List String
  pub permissions : List String

pub record MemoryUserRole : Type 0 where
  pub user_id : String
  pub role_id : String
  pub granted_at : Time
  pub granted_by : String
  pub expires_at : Option Time

-- `map[string]struct{}`
abbrev pub Set : Type 0
Set = List (String × Unit {0})

pub record MemoryRepository : Type 0 where
  pub roles : List (String × Role)
  pub permissions : List (String × Permission)
  pub role_permissions : List (String × Set)
  pub user_roles : List MemoryUserRole

-- NewMemoryRepository
abbrev pub new_memory_repository : MemoryRepository
new_memory_repository = record {
  roles = [];
  permissions = [];
  role_permissions = [];
  user_roles = [];
}
