-- ===== src/Access/Operations.antt =====
-- internal/access/memory_repository.go: the methods that write the repository, as steps.
use certus.Common.{string_key, String, ◌≡◌, none, List, [], ◌∷◌, Time, lookup}
use certus.Access.Types.{Role, Permission, RoleGrant, MemoryRepository}
use certus.Access.Repository.{
  create_role, create_permission, replace_role, replace_permission, delete_role, delete_permission,
  set_role_permissions, replace_user_roles,
}

pub data Call : Type 0 where
  create_role_call : Role → Call
  replace_role_call : Role → Call
  delete_role_call : String → String → Call
  create_permission_call : Permission → Call
  replace_permission_call : Permission → Call
  delete_permission_call : String → String → Call
  set_permissions_call : String → String → List String → Call
  replace_user_roles_call : String → List RoleGrant → String → Time → Call

unfoldable pub step : MemoryRepository → Call → MemoryRepository
step r (create_role_call value) = (create_role r value).0
step r (replace_role_call value) = (replace_role r value).0
step r (delete_role_call client_id role_id) = (delete_role r client_id role_id).0
step r (create_permission_call value) = (create_permission r value).0
step r (replace_permission_call value) = (replace_permission r value).0
step r (delete_permission_call client_id permission_id) =
    (delete_permission r client_id permission_id).0
step r (set_permissions_call client_id role_id ids) =
    (set_role_permissions r client_id role_id ids).0
step r (replace_user_roles_call user_id grants granted_by now) =
    (replace_user_roles r user_id grants granted_by now).0

unfoldable pub run : MemoryRepository → List Call → MemoryRepository
unfolding step
run r [] = r
run r (c ∷ cs) = run (step r c) cs

-- A call that creates an object has an identifier that is not in use, as a random UUID has.
abbrev pub IsFresh : MemoryRepository → Call → Type 0
IsFresh r (create_role_call value) = lookup value.id r.roles ≡ none
IsFresh r (create_permission_call value) = lookup value.id r.permissions ≡ none
IsFresh r _ = Unit

abbrev pub AllFresh : MemoryRepository → List Call → Type 0
AllFresh r [] = Unit
AllFresh r (c ∷ cs) = IsFresh r c × AllFresh (step r c) cs
