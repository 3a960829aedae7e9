-- ===== src/Access/References.antt =====
-- internal/access: each call on the references between the maps.
use certus.Common.{
  string_key, if-both, Result-cases, String, ◌≡◌, sym, ap, ◌∙◌, subst, inl, inr, true, false, none,
  some, List, [], ◌∷◌, arith, ◌==◌, eq_iff, ok, err, Bool-cases, Option-cases, any, All, lookup,
  put, delete, lookup-delete, any-false-lookup,
}
use certus.Access.Types.{Reply, Set, Definition, MemoryUserRole, MemoryRepository, not_found}
use certus.Access.Repository.{
  Definitions, find_definition, delete_role, has_member, delete_permission, collect_permissions,
}
use certus.Access.Integrity.{Has, AllHave, Exists, IsConsistent}

-- A successful look-up of the client's definition.
pub find_definition_ok :
    (m : Definitions) (client_id id : String) (d : Definition)
    → find_definition m client_id id ≡ ok d
    → (lookup id m ≡ some d) × (d.client_id ≡ client_id)
unfolding find_definition
find_definition_ok m client_id id d h = elim (Option-cases (lookup id m)) [
  | inl e ↦
      let refused : ◌≡◌ {A = Reply Definition} (err not_found) (ok d) =
        rw (e, find_definition) at h in
      ground arith
  | inr (c, e) ↦
      let answer = rw (e, find_definition) at h in
      let mine : c.client_id == client_id ≡ true = ground arith in
      let same_one : c ≡ d = ground arith in
      (
        e ∙ ap some same_one,
        subst (λ z. z.client_id ≡ client_id) same_one ((eq_iff c.client_id client_id).0 mine),
      )
]

-- Deleting a role without grants keeps the grants' roles.
Exists-delete :
    (m : Definitions) (role_id : String) (us : List MemoryUserRole)
    → any (λ (u : MemoryUserRole). u.role_id == role_id) us ≡ false
    → All (Exists m) us
    → All (Exists (delete role_id m)) us
Exists-delete m role_id [] unused h = tt
Exists-delete m role_id (u ∷ us) unused h = (
  ground (
    arith,
    unused,
    h.0,
    lookup-delete role_id u.role_id m,
    eq_iff u.role_id role_id,
    eq_iff role_id u.role_id,
  ),
  Exists-delete m role_id us (ground arith) h.1,
)

pub delete_role-IsConsistent :
    (r : MemoryRepository) (client_id role_id : String)
    → IsConsistent r
    → IsConsistent (delete_role r client_id role_id).0
unfolding delete_role
delete_role-IsConsistent r client_id role_id h =
    elim (Result-cases (find_definition r.roles client_id role_id)) [
      | inl (x, e) ↦ rw (e, delete_role) h
      | inr (d, e) ↦
          rw (e, delete_role)
            (if-both (λ (z : MemoryRepository × Reply (Unit {0})). IsConsistent z.0)
              (any (λ (u : MemoryUserRole). u.role_id == role_id) r.user_roles) _ _ (λ used. h)
              (λ unused. record {
                grants = Exists-delete r.roles role_id r.user_roles unused h.grants;
                holds = λ k s there. elim (Bool-cases (role_id == k)) [
                  | inl hit ↦
                      let gone : none ≡ some s =
                        sym (lookup-delete role_id k r.role_permissions ∙ rw hit) ∙ there in
                      ground (arith, gone)
                  | inr miss ↦
                      let before : lookup k r.role_permissions ≡ some s =
                        sym (lookup-delete role_id k r.role_permissions ∙ rw miss) ∙ there in
                      let (role, e, all_held) = h.holds k s before in
                      (role, lookup-delete role_id k r.roles ∙ rw miss e, all_held)
                ];
              }))
    ]

-- A set without the permission does not miss it.
AllHave-delete :
    (m : Definitions) (client_id permission_id : String) (s : Set)
    → lookup permission_id s ≡ none
    → AllHave m client_id s
    → AllHave (delete permission_id m) client_id s
AllHave-delete m client_id permission_id [] unused h = tt
AllHave-delete m client_id permission_id ((id, u) ∷ s) unused ((d, e, mine), h) =
    elim (Bool-cases (id == permission_id)) [
      | inl hit ↦ let clash = rw hit at unused in ground (arith, clash)
      | inr miss ↦
          let other : permission_id == id ≡ false =
            ground (arith, miss, eq_iff permission_id id, eq_iff id permission_id) in
          (
            (d, lookup-delete permission_id id m ∙ rw other e, mine),
            AllHave-delete m client_id permission_id s (rw miss at unused) h,
          )
    ]

pub delete_permission-IsConsistent :
    (r : MemoryRepository) (client_id permission_id : String)
    → IsConsistent r
    → IsConsistent (delete_permission r client_id permission_id).0
unfolding delete_permission
delete_permission-IsConsistent r client_id permission_id h =
    elim (Result-cases (find_definition r.permissions client_id permission_id)) [
      | inl (x, e) ↦ rw (e, delete_permission) h
      | inr (d, e) ↦
          rw (e, delete_permission)
            (if-both (λ (z : MemoryRepository × Reply (Unit {0})). IsConsistent z.0)
              (any (has_member permission_id) r.role_permissions) _ _ (λ used. h)
              (λ unused. record {
                grants = h.grants;
                holds = λ k s there.
                    let (role, e, all_held) = h.holds k s there in
                    let without =
                      any-false-lookup (has_member permission_id) k s r.role_permissions unused
                        there in
                    let absent : lookup permission_id s ≡ none = ground (arith, without) in
                    (
                      role,
                      e,
                      AllHave-delete r.permissions role.client_id permission_id s absent all_held,
                    );
              }))
    ]

AllHave-put :
    (m : Definitions) (client_id id : String) (s : Set)
    → Has m client_id id
    → AllHave m client_id s
    → AllHave m client_id (put id tt s)
AllHave-put m client_id id [] one h = (one, tt)
AllHave-put m client_id id ((j, u) ∷ s) one h = elim (Bool-cases (j == id)) [
  | inl hit ↦ rw hit h
  | inr miss ↦ rw miss (h.0, AllHave-put m client_id id s one h.1)
]

pub collect_permissions-AllHave :
    (m : Definitions) (client_id : String) (acc values : Set) (ids : List String)
    → AllHave m client_id acc
    → collect_permissions m client_id acc ids ≡ ok values
    → AllHave m client_id values
unfolding collect_permissions
collect_permissions-AllHave m client_id acc values [] h e =
    let same_set : acc ≡ values = ground arith in subst (AllHave m client_id) same_set h
collect_permissions-AllHave m client_id acc values (id ∷ ids) h e =
    elim (Result-cases (find_definition m client_id id)) [
      | inl (x, f) ↦
          let refused : ◌≡◌ {A = Reply Set} (err x) (ok values) =
            rw (f, collect_permissions) at e in
          ground arith
      | inr (d, f) ↦
          let (there, mine) = find_definition_ok m client_id id d f in
          collect_permissions-AllHave m client_id (put id tt acc) values ids
            (AllHave-put m client_id id acc (d, there, mine) h) (rw (f, collect_permissions) at e)
    ]
