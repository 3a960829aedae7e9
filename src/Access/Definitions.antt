-- ===== src/Access/Definitions.antt =====
-- internal/access/access.go: new and changed definitions, and the validation of grants.
use certus.Common.{
  string_key, codes, String, Bool, false, not, ◌||◌, Option, none, some, List, [], ◌∷◌, ltb,
  if◌then◌else◌, ok, err, Time, after, is_nil, length, lookup, put, is_empty, trim_space, codes,
  is_digit, is_lower, is_one_of, first_then,
}
use certus.Access.Types.{Reply, Set, Definition, Input, RoleGrant, invalid, random_failed}

-- codePattern, `^[a-z][a-z0-9._-]{1,63}$`
unfoldable pub code_pattern : String → Bool
code_pattern s =
    first_then is_lower (λ c. is_lower c || is_digit c || is_one_of (b'.' ∷ b'_' ∷ b'-' ∷ []) c) 1
      63 (codes s)

-- `to_lower` is strings.ToLower.
unfoldable pub validate_definition : (String → String) → String → Input → Reply Input
unfolding code_pattern
validate_definition to_lower client_id input =
    let code = to_lower (trim_space input.code) in
    let name = trim_space input.name in
    let description = trim_space input.description in
    if is_empty (trim_space client_id)
    then err invalid
    else if not (code_pattern code)
    then err invalid
    else if is_empty name || ltb 128 (length (codes name))
    then err invalid
    else if ltb 512 (length (codes description))
    then err invalid
    else ok (record { code = code; name = name; description = description })

-- NewRole and NewPermission; `id` is what security.RandomUUID drew, if it drew one.
unfoldable pub new_definition :
    (String → String) → Option String → String → Input → Time → Reply Definition
new_definition to_lower none client_id input now = err random_failed
new_definition to_lower (some id) client_id input now =
    elim (validate_definition to_lower client_id input) [
      | err e ↦ err e
      | ok valid ↦ ok (record {
        id = id;
        client_id = trim_space client_id;
        code = valid.code;
        name = valid.name;
        description = valid.description;
        created_at = now;
        updated_at = now;
      })
    ]

-- The method Updated of Role and Permission.
unfoldable pub updated : (String → String) → Definition → Input → Time → Reply Definition
updated to_lower r input now = elim (validate_definition to_lower r.client_id input) [
  | err e ↦ err e
  | ok valid ↦ ok (record r {
    code = valid.code;
    name = valid.name;
    description = valid.description;
    updated_at = now;
  })
]

abbrev pub in_the_past : Time → Option Time → Bool
in_the_past now none = false
in_the_past now (some t) = not (after t now)

-- The loop of ValidateRoleGrants, with the identifiers that it has seen.
unfoldable pub validate_grants_from : Set → List RoleGrant → Time → Reply (Unit {0})
validate_grants_from seen [] now = ok tt
validate_grants_from seen (g ∷ gs) now =
    let rest = validate_grants_from (put g.role_id tt seen) gs now in
    if is_empty (trim_space g.role_id)
    then err invalid
    else if not (is_nil (lookup g.role_id seen))
    then err invalid
    else if in_the_past now g.expires_at
    then err invalid
    else rest

unfoldable pub validate_role_grants : List RoleGrant → Time → Reply (Unit {0})
unfolding validate_grants_from
validate_role_grants values now = validate_grants_from [] values now
