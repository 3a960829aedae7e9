-- ===== src/Access/Grants.antt =====
-- internal/access/access.go: what ValidateRoleGrants accepts.
use certus.Common.{
  string_key, ◌≡◌, refl, ◌∙◌, ◌↔◌, Bool, false, none, List, [], ◌∷◌, arith, ◌==◌, ok, Time, before,
  All, Unique, lookup, put, lookup-put, is_empty, trim_space,
}
use certus.Access.Types.{Set, RoleGrant}
use certus.Access.Definitions.{in_the_past, validate_grants_from, validate_role_grants}

-- The grant has a role, and does not end by now.
abbrev pub IsUsable : Time → RoleGrant → Type 0
IsUsable now g = (is_empty (trim_space g.role_id) ≡ false) × (in_the_past now g.expires_at ≡ false)

-- Two grants of one role.
abbrev pub same_role : RoleGrant → RoleGrant → Bool
same_role a b = a.role_id == b.role_id

-- The role is not among those seen.
abbrev Unseen : Set → RoleGrant → Type 0
Unseen seen g = lookup g.role_id seen ≡ none

Unseen-put :
    (seen : Set) (g : RoleGrant) (gs : List RoleGrant)
    → All (Unseen (put g.role_id tt seen)) gs
    → All (λ (b : RoleGrant). same_role g b ≡ false) gs × All (Unseen seen) gs
Unseen-put seen g [] h = (tt, tt)
Unseen-put seen g (b ∷ gs) h =
    let rest = Unseen-put seen g gs h.1 in
    let look = lookup-put g.role_id b.role_id tt seen in
    ((ground (arith, look, h.0), rest.0), (ground (arith, look, h.0), rest.1))

put-Unseen :
    (seen : Set) (g : RoleGrant) (gs : List RoleGrant)
    → All (λ (b : RoleGrant). same_role g b ≡ false) gs
    → All (Unseen seen) gs
    → All (Unseen (put g.role_id tt seen)) gs
put-Unseen seen g [] h k = tt
put-Unseen seen g (b ∷ gs) h k =
    (lookup-put g.role_id b.role_id tt seen ∙ rw (h.0, k.0), put-Unseen seen g gs h.1 k.1)

validate_grants_from_iff :
    (seen : Set) (gs : List RoleGrant) (now : Time)
    → (validate_grants_from seen gs now ≡ ok tt)
      ↔ (All (IsUsable now) gs × Unique same_role gs × All (Unseen seen) gs)
unfolding validate_grants_from
validate_grants_from_iff seen [] now = (λ h. (tt, tt, tt), λ h. refl)
validate_grants_from_iff seen (g ∷ gs) now =
    let rest = validate_grants_from_iff (put g.role_id tt seen) gs now in
    (
      λ h.
          let (usable, differ, unseen) = rest.0 (ground (arith, h)) in
          let (apart, before) = Unseen-put seen g gs unseen in
          (
            ((ground (arith, h), ground (arith, h)), usable),
            (apart, differ),
            (ground (arith, h), before),
          ),
      λ (usable, differ, unseen).
          let later = rest.1 (usable.1, differ.1, put-Unseen seen g gs differ.0 unseen.1) in
          ground (arith, later, usable.0, unseen.0),
    )

-- ValidateRoleGrants accepts a list if and only if every grant has a role that is not blank and has
-- not ended by now, and no two grants are of the same role.
validate_role_grants_iff :
    (gs : List RoleGrant) (now : Time)
    → (validate_role_grants gs now ≡ ok tt) ↔ (All (IsUsable now) gs × Unique same_role gs)
unfolding validate_role_grants
validate_role_grants_iff gs now =
    let all_unseen = unseen gs in
    (
      λ h.
          let (usable, differ, rest) = (validate_grants_from_iff [] gs now).0 h in (usable, differ),
      λ (usable, differ). (validate_grants_from_iff [] gs now).1 (usable, differ, all_unseen),
    )
  where
    unseen : (gs : List RoleGrant) → All (Unseen []) gs
    unseen [] = tt
    unseen (g ∷ gs) = (refl, unseen gs)
