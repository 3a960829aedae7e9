-- ===== src/Access/CodesKept.antt =====
-- internal/access: the codes of roles and permissions over a history of calls.
use certus.Common.{string_key, if-both, Result-cases, String, inl, inr, List, [], ◌∷◌, ◌==◌, any}
use certus.Access.Types.{Reply, MemoryUserRole, MemoryRepository}
use certus.Access.Repository.{
  find_definition, create_role, create_permission, replace_role, replace_permission, delete_role,
  has_member, delete_permission, collect_permissions, set_role_permissions, is_dangling,
  replace_user_roles,
}
use certus.Access.Operations.{
  step, run, Call, create_role_call, replace_role_call, delete_role_call, create_permission_call,
  replace_permission_call, delete_permission_call, set_permissions_call, replace_user_roles_call,
}
use certus.Access.Codes.{CodesUnique, delete-CodesUnique, create-CodesUnique, replace-CodesUnique}

abbrev pub AllCodesUnique : MemoryRepository → Type 0
AllCodesUnique r = CodesUnique r.roles × CodesUnique r.permissions

abbrev After : MemoryRepository × Reply (Unit {0}) → Type 0
After z = AllCodesUnique z.0

delete_role-AllCodesUnique :
    (r : MemoryRepository) (client_id role_id : String)
    → AllCodesUnique r
    → AllCodesUnique (delete_role r client_id role_id).0
unfolding delete_role
delete_role-AllCodesUnique r client_id role_id (a, b) =
    elim (Result-cases (find_definition r.roles client_id role_id)) [
      | inl (x, e) ↦ rw (e, delete_role) (a, b)
      | inr (d, e) ↦
          rw (e, delete_role)
            (if-both After (any (λ (u : MemoryUserRole). u.role_id == role_id) r.user_roles) _ _
              (λ used. (a, b)) (λ unused. (delete-CodesUnique r.roles role_id a, b)))
    ]

delete_permission-AllCodesUnique :
    (r : MemoryRepository) (client_id permission_id : String)
    → AllCodesUnique r
    → AllCodesUnique (delete_permission r client_id permission_id).0
unfolding delete_permission
delete_permission-AllCodesUnique r client_id permission_id (a, b) =
    elim (Result-cases (find_definition r.permissions client_id permission_id)) [
      | inl (x, e) ↦ rw (e, delete_permission) (a, b)
      | inr (d, e) ↦
          rw (e, delete_permission)
            (if-both After (any (has_member permission_id) r.role_permissions) _ _ (λ used. (a, b))
              (λ unused. (a, delete-CodesUnique r.permissions permission_id b)))
    ]

set_role_permissions-AllCodesUnique :
    (r : MemoryRepository) (client_id role_id : String) (ids : List String)
    → AllCodesUnique r
    → AllCodesUnique (set_role_permissions r client_id role_id ids).0
unfolding set_role_permissions
set_role_permissions-AllCodesUnique r client_id role_id ids h =
    elim (Result-cases (find_definition r.roles client_id role_id)) [
      | inl (x, e) ↦ rw (e, set_role_permissions) h
      | inr (role, e) ↦ elim (Result-cases (collect_permissions r.permissions client_id [] ids)) [
        | inl (x, f) ↦ rw (e, f, set_role_permissions) h
        | inr (values, f) ↦ rw (e, f, set_role_permissions) h
      ]
    ]

step-AllCodesUnique :
    (r : MemoryRepository) (c : Call) → AllCodesUnique r → AllCodesUnique (step r c)
unfolding step create_role create_permission replace_role replace_permission replace_user_roles
step-AllCodesUnique r (create_role_call value) (a, b) = (create-CodesUnique r.roles value a, b)
step-AllCodesUnique r (replace_role_call value) (a, b) = (replace-CodesUnique r.roles value a, b)
step-AllCodesUnique r (delete_role_call client_id role_id) h =
    delete_role-AllCodesUnique r client_id role_id h
step-AllCodesUnique r (create_permission_call value) (a, b) =
    (a, create-CodesUnique r.permissions value b)
step-AllCodesUnique r (replace_permission_call value) (a, b) =
    (a, replace-CodesUnique r.permissions value b)
step-AllCodesUnique r (delete_permission_call client_id permission_id) h =
    delete_permission-AllCodesUnique r client_id permission_id h
step-AllCodesUnique r (set_permissions_call client_id role_id ids) h =
    set_role_permissions-AllCodesUnique r client_id role_id ids h
step-AllCodesUnique r (replace_user_roles_call user_id grants granted_by now) h =
    if-both After (any (is_dangling r) grants) _ _ (λ dangling. h) (λ known. h)

-- If no two roles and no two permissions of a client have one code, that stays so whatever calls are
-- made.
pub run-AllCodesUnique :
    (r : MemoryRepository) (cs : List Call) → AllCodesUnique r → AllCodesUnique (run r cs)
unfolding run
run-AllCodesUnique r [] h = h
run-AllCodesUnique r (c ∷ cs) h = run-AllCodesUnique (step r c) cs (step-AllCodesUnique r c h)
