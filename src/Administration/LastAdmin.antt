-- ===== src/Administration/LastAdmin.antt =====
-- internal/administration/memory_repository.go: ReplaceUserRoles and the last super administrator.

use certus.Common.{
  string_key, if-both, Option-cases, Result-cases, ℕ, ◌+◌, ◌≤◌, String, ◌≡◌, refl, inl, inr, Bool,
  true, false, not, ◌&&◌, ◌||◌, none, some, List, [], ◌∷◌, map, arith, leb, Time, Option-cases,
  count_if, lookup, put, is_empty, trim_space,
}
use certus.Administration.Roles.{Reply, super_admin, validate_roles, has_role, Grant}
use certus.Administration.Repository.{
  grants_of, grant_roles, super_admin_count, granted, replace_user_roles, run, MemoryRepository,
  Call,
}

abbrev one_if : Bool → ℕ
one_if true = 1
one_if false = 0

-- A test on the value that a key has, if it has one.
abbrev value_passes : (List Grant → Bool) → String → List (String × List Grant) → Bool
value_passes p k m = elim (lookup k m) [ none ↦ false | some gs ↦ p gs ]

-- How a write changes the number of entries that pass a test.
count_if-put :
    (p : List Grant → Bool) (k : String) (gs : List Grant) (m : List (String × List Grant))
    → count_if (λ (e : String × List Grant). p e.1) (put k gs m) + one_if (value_passes p k m)
      ≡ count_if (λ (e : String × List Grant). p e.1) m + one_if (p gs)
count_if-put p k gs [] = ground arith
count_if-put p k gs ((j, old) ∷ m) = ground (arith, count_if-put p k gs m)

has_role-granted :
    (user_id granted_by : String) (now : Time) (roles : List String) (role : String)
    → has_role (grant_roles (map (granted user_id granted_by now) roles)) role ≡ has_role roles role
unfolding has_role grant_roles
has_role-granted user_id granted_by now [] role = refl
has_role-granted user_id granted_by now (r ∷ rs) role =
    ground (arith, has_role-granted user_id granted_by now rs role)

-- The user's roles, if the map has no entry, hold nothing.
value_passes-grants_of :
    (r : MemoryRepository) (user_id : String)
    → value_passes (λ gs. has_role (grant_roles gs) super_admin) user_id r.grants
      ≡ has_role (grant_roles (grants_of r user_id)) super_admin
unfolding has_role grant_roles
value_passes-grants_of r user_id = elim (Option-cases (lookup user_id r.grants)) [
  | inl e ↦ rw (e, value_passes, grants_of) refl
  | inr (gs, e) ↦ rw (e, value_passes, grants_of) refl
]

super_admin_kept :
    (r : MemoryRepository) (user_id : String) (roles : List String) (granted_by : String)
    (now : Time)
    → 1 ≤ super_admin_count r
    → 1 ≤ super_admin_count (replace_user_roles r user_id roles granted_by now).0
unfolding replace_user_roles super_admin_count
super_admin_kept r user_id roles granted_by now h = elim (Result-cases (validate_roles roles)) [
  | inl (e, f) ↦ rw (f, replace_user_roles) h
  | inr (u, f) ↦
      rw (f, replace_user_roles)
        (if-both (λ (z : MemoryRepository × Reply (Unit {0})). 1 ≤ super_admin_count z.0)
          (is_empty (trim_space user_id) || is_empty (trim_space granted_by)) _ _ (λ x. h)
          (λ x.
            if-both (λ (z : MemoryRepository × Reply (Unit {0})). 1 ≤ super_admin_count z.0)
              (has_role (grant_roles (grants_of r user_id)) super_admin
                && not (has_role roles super_admin)
                && leb (super_admin_count r) 1)
              _ _ (λ y. h)
              (λ y. ground (
                arith,
                h,
                y,
                count_if-put (λ gs. has_role (grant_roles gs) super_admin) user_id
                    (map (granted user_id granted_by now) roles) r.grants,
                has_role-granted user_id granted_by now roles super_admin,
                value_passes-grants_of r user_id,
              ))))
]

-- Once there is a super administrator, there is one after every call, and so after any number of calls:
-- the call that would take the role from the last one is refused.
pub super_admin_remains :
    (r : MemoryRepository) (cs : List Call)
    → 1 ≤ super_admin_count r
    → 1 ≤ super_admin_count (run r cs)
unfolding run
super_admin_remains r [] h = h
super_admin_remains r (c ∷ cs) h =
    super_admin_remains (replace_user_roles r c.user_id c.roles c.granted_by c.now).0 cs
      (super_admin_kept r c.user_id c.roles c.granted_by c.now h)
