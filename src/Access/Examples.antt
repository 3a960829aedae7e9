-- ===== src/Access/Examples.antt =====
-- internal/access: one client with a role and a permission, run on small inputs.
use certus.Common.{string_key, String, ◌≡◌, refl, some, List, [], ◌∷◌, arith, ◌==◌, Time, any}
use certus.Access.Types.{new_memory_repository, Definition, RoleGrant, MemoryRepository}
use certus.Access.Repository.{
  create_definition, find_definition, create_role, create_permission, delete_role,
  delete_permission, collect_permissions, set_role_permissions, granted, replace_user_roles,
}
use certus.Access.Operations.{
  step, run, AllFresh, Call, create_role_call, delete_role_call, create_permission_call,
  delete_permission_call, set_permissions_call, replace_user_roles_call,
}
use certus.Access.Entitled.{
  collect_user_roles, list_user_roles, add_permission, add_permissions, permission_set, effective,
}
use certus.Access.Effective.{is_in_force, effective-permissions}
use certus.Access.Integrity.{IsConsistent}
use certus.Access.Consistent.{run-IsConsistent}
use certus.Access.CodesKept.{AllCodesUnique, run-AllCodesUnique}

abbrev defined : String → String → Definition
defined id code = record {
  id = id;
  client_id = "app";
  code = code;
  name = code;
  description = "";
  created_at = 1;
  updated_at = 1;
}

abbrev grant_until : Time → RoleGrant
grant_until t = record { role_id = "r1"; expires_at = some t }

abbrev history : List Call
history =
    create_role_call (defined "r1" "editor")
    ∷ create_permission_call (defined "p1" "pages.write")
    ∷ set_permissions_call "app" "r1" ("p1" ∷ [])
    ∷ replace_user_roles_call "alice" (grant_until 50 ∷ []) "root" 10
    ∷ delete_permission_call "app" "p1"
    ∷ delete_role_call "app" "r1"
    ∷ []

abbrev stored : MemoryRepository
stored = record {
  roles = ("r1", defined "r1" "editor") ∷ [];
  permissions = ("p1", defined "p1" "pages.write") ∷ [];
  role_permissions = ("r1", ("p1", tt) ∷ []) ∷ [];
  user_roles = granted "alice" "root" 10 (grant_until 50) ∷ [];
}

-- What is in use is not deleted.
history_test : run new_memory_repository history ≡ stored
unfolding run step create_role create_permission set_role_permissions collect_permissions
    replace_user_roles delete_permission delete_role create_definition find_definition
history_test = refl

-- The permission ends with the grant.
effective_test :
    ((effective stored stored "alice" "app" 49).permissions ≡ "pages.write" ∷ [])
    × ((effective stored stored "alice" "app" 50).permissions ≡ [])
unfolding effective list_user_roles collect_user_roles permission_set add_permissions add_permission
effective_test = (refl, refl)

history-AllFresh : AllFresh new_memory_repository history
unfolding step create_role create_permission create_definition
history-AllFresh = (refl, (refl, (tt, (tt, (tt, (tt, tt))))))

empty-IsConsistent : IsConsistent new_memory_repository
empty-IsConsistent = record { grants = tt; holds = λ k s e. ground arith }

run-IsConsistent_example : IsConsistent (run new_memory_repository history)
run-IsConsistent_example =
    run-IsConsistent new_memory_repository history history-AllFresh empty-IsConsistent

effective-permissions_example :
    any (λ c. c == "pages.write") (effective stored stored "alice" "app" 20).permissions
    ≡ any (is_in_force stored "alice" "app" 20 "pages.write") stored.user_roles
effective-permissions_example = effective-permissions stored "alice" "app" "pages.write" 20

empty-AllCodesUnique : AllCodesUnique new_memory_repository
empty-AllCodesUnique =
    (λ i j a b e f client code. ground (arith, e), λ i j a b e f client code. ground (arith, e))

run-AllCodesUnique_example : AllCodesUnique (run new_memory_repository history)
run-AllCodesUnique_example = run-AllCodesUnique new_memory_repository history empty-AllCodesUnique
