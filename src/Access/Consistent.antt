-- ===== src/Access/Consistent.antt =====
-- internal/access: the references between the maps over a history of calls.
use certus.Common.{
  string_key, if-both, Result-cases, String, ◌≡◌, sym, ◌∙◌, subst, inl, inr, false, not, some, List,
  [], ◌∷◌, map, arith, ◌==◌, eq_iff, Time, Bool-cases, filter, any, All, All-append, All-filter,
  lookup, lookup-put,
}
use certus.Access.Types.{Reply, RoleGrant, MemoryUserRole, MemoryRepository}
use certus.Access.Repository.{
  find_definition, create_role, create_permission, replace_role, replace_permission,
  collect_permissions, set_role_permissions, is_dangling, granted, replace_user_roles,
}
use certus.Access.Operations.{
  step, run, IsFresh, AllFresh, Call, create_role_call, replace_role_call, delete_role_call,
  create_permission_call, replace_permission_call, delete_permission_call, set_permissions_call,
  replace_user_roles_call,
}
use certus.Access.Integrity.{
  AllHave, Exists, create-Extends, replace-Extends, roles-IsConsistent, permissions-IsConsistent,
  IsConsistent,
}
use certus.Access.References.{
  find_definition_ok, delete_role-IsConsistent, delete_permission-IsConsistent,
  collect_permissions-AllHave,
}

set_role_permissions-IsConsistent :
    (r : MemoryRepository) (client_id role_id : String) (ids : List String)
    → IsConsistent r
    → IsConsistent (set_role_permissions r client_id role_id ids).0
unfolding set_role_permissions
set_role_permissions-IsConsistent r client_id role_id ids h =
    elim (Result-cases (find_definition r.roles client_id role_id)) [
      | inl (x, e) ↦ rw (e, set_role_permissions) h
      | inr (role, e) ↦ elim (Result-cases (collect_permissions r.permissions client_id [] ids)) [
        | inl (x, f) ↦ rw (e, f, set_role_permissions) h
        | inr (values, f) ↦
            let (there, mine) = find_definition_ok r.roles client_id role_id role e in
            let known = collect_permissions-AllHave r.permissions client_id [] values ids tt f in
            rw (e, f, set_role_permissions)
              (record {
                grants = h.grants;
                holds = λ k s found. elim (Bool-cases (role_id == k)) [
                  | inl hit ↦
                      let a : role_id ≡ k = (eq_iff role_id k).0 hit in
                      let b : some values ≡ some s =
                        sym (lookup-put role_id k values r.role_permissions ∙ rw hit) ∙ found in
                      let c : values ≡ s = ground arith in
                      (
                        role,
                        subst (λ z. lookup z r.roles ≡ some role) a there,
                        subst (λ z. AllHave r.permissions z s) (sym mine)
                            (subst (AllHave r.permissions client_id) c known),
                      )
                  | inr miss ↦
                      h.holds k s
                        (sym (lookup-put role_id k values r.role_permissions ∙ rw miss) ∙ found)
                ];
              })
      ]
    ]

granted-Exists :
    (r : MemoryRepository) (user_id granted_by : String) (now : Time) (gs : List RoleGrant)
    → any (is_dangling r) gs ≡ false
    → All (Exists r.roles) (map (granted user_id granted_by now) gs)
granted-Exists r user_id granted_by now [] h = tt
granted-Exists r user_id granted_by now (g ∷ gs) h =
    (ground arith, granted-Exists r user_id granted_by now gs (ground arith))

replace_user_roles-IsConsistent :
    (r : MemoryRepository) (user_id : String) (grants : List RoleGrant) (granted_by : String)
    (now : Time)
    → IsConsistent r
    → IsConsistent (replace_user_roles r user_id grants granted_by now).0
unfolding replace_user_roles
replace_user_roles-IsConsistent r user_id grants granted_by now h =
    if-both (λ (z : MemoryRepository × Reply (Unit {0})). IsConsistent z.0)
      (any (is_dangling r) grants) _ _ (λ dangling. h)
      (λ known. record {
        grants =
            All-append (Exists r.roles)
              (filter (λ (u : MemoryUserRole). not (u.user_id == user_id)) r.user_roles)
              (map (granted user_id granted_by now) grants)
              (All-filter (Exists r.roles) (λ (u : MemoryUserRole). not (u.user_id == user_id))
                r.user_roles h.grants)
              (granted-Exists r user_id granted_by now grants known);
        holds = h.holds;
      })

step-IsConsistent :
    (r : MemoryRepository) (c : Call) → IsFresh r c → IsConsistent r → IsConsistent (step r c)
unfolding step create_role create_permission replace_role replace_permission
step-IsConsistent r (create_role_call value) fresh h =
    roles-IsConsistent r _ (create-Extends r.roles value fresh) h
step-IsConsistent r (replace_role_call value) fresh h =
    roles-IsConsistent r _ (replace-Extends r.roles value) h
step-IsConsistent r (delete_role_call client_id role_id) fresh h =
    delete_role-IsConsistent r client_id role_id h
step-IsConsistent r (create_permission_call value) fresh h =
    permissions-IsConsistent r _ (create-Extends r.permissions value fresh) h
step-IsConsistent r (replace_permission_call value) fresh h =
    permissions-IsConsistent r _ (replace-Extends r.permissions value) h
step-IsConsistent r (delete_permission_call client_id permission_id) fresh h =
    delete_permission-IsConsistent r client_id permission_id h
step-IsConsistent r (set_permissions_call client_id role_id ids) fresh h =
    set_role_permissions-IsConsistent r client_id role_id ids h
step-IsConsistent r (replace_user_roles_call user_id grants granted_by now) fresh h =
    replace_user_roles-IsConsistent r user_id grants granted_by now h

-- Whatever calls are made, every grant stays one of a role that exists, and every permission that a
-- role holds exists and belongs to the role's client, if new roles and permissions have identifiers
-- that are not in use.
pub run-IsConsistent :
    (r : MemoryRepository) (cs : List Call)
    → AllFresh r cs
    → IsConsistent r
    → IsConsistent (run r cs)
unfolding run
run-IsConsistent r [] fresh h = h
run-IsConsistent r (c ∷ cs) fresh h =
    run-IsConsistent (step r c) cs fresh.1 (step-IsConsistent r c fresh.0 h)
