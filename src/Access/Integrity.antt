-- ===== src/Access/Integrity.antt =====
-- internal/access: what it is for the references between the maps to be intact.
use certus.Common.{
  string_key, if-both, String, ◌≡◌, refl, sym, ◌∙◌, subst, inl, inr, false, not, ◌&&◌, none, some,
  List, [], ◌∷◌, arith, ◌==◌, eq_iff, is_nil, Bool-cases, Option-cases, any, All, All-mono, lookup,
  put, lookup-put,
}
use certus.Access.Types.{Reply, Role, Set, Definition, MemoryUserRole, MemoryRepository}
use certus.Access.Repository.{Definitions, same_code, create_definition, replace_definition}

-- A definition of this client is stored under the identifier.
abbrev pub Has : Definitions → String → String → Type 0
Has m client_id id = (d : Definition) × (lookup id m ≡ some d) × (d.client_id ≡ client_id)

abbrev pub AllHave : Definitions → String → Set → Type 0
AllHave m client_id s = All (λ (e : String × Unit {0}). Has m client_id e.0) s

abbrev pub Exists : Definitions → MemoryUserRole → Type 0
Exists m u = is_nil (lookup u.role_id m) ≡ false

pub record IsConsistent (r : MemoryRepository) : Type 0 where
  pub grants : All (Exists r.roles) r.user_roles
  pub holds :
      (k : String) (s : Set)
      → lookup k r.role_permissions ≡ some s
      → (role : Role) × (lookup k r.roles ≡ some role) × AllHave r.permissions role.client_id s

-- A write that keeps every client of what is stored.
abbrev pub Extends : Definitions → Definitions → Type 0
Extends m n = (client_id id : String) → Has m client_id id → Has n client_id id

AllHave-Extends :
    (m n : Definitions) (client_id : String) (s : Set)
    → Extends m n
    → AllHave m client_id s
    → AllHave n client_id s
AllHave-Extends m n client_id s f =
    All-mono (λ (e : String × Unit {0}). Has m client_id e.0)
      (λ (e : String × Unit {0}). Has n client_id e.0) s (λ e. f client_id e.0)

Exists-Extends :
    (m n : Definitions) (us : List MemoryUserRole)
    → Extends m n
    → All (Exists m) us
    → All (Exists n) us
Exists-Extends m n [] f h = tt
Exists-Extends m n (u ∷ us) f h = (one, Exists-Extends m n us f h.1)
  where
    one : Exists n u
    one = elim (Option-cases (lookup u.role_id m)) [
      | inl e ↦ let clash = rw e at h.0 in ground (arith, clash)
      | inr (d, e) ↦ let (c, there, same) = f d.client_id u.role_id (d, e, refl) in rw there refl
    ]

-- Writing a definition whose key is new or has the same client.
put-Extends :
    (m : Definitions) (value : Definition)
    → ((d : Definition) → lookup value.id m ≡ some d → d.client_id ≡ value.client_id)
    → Extends m (put value.id value m)
put-Extends m value keep client_id id (d, e, mine) = elim (Bool-cases (value.id == id)) [
  | inl hit ↦
      let a : value.id ≡ id = (eq_iff value.id id).0 hit in
      (
        value,
        lookup-put value.id id value m ∙ rw hit,
        sym (keep d (subst (λ z. lookup z m ≡ some d) (sym a) e)) ∙ mine,
      )
  | inr miss ↦ (d, lookup-put value.id id value m ∙ rw miss e, mine)
]

pub create-Extends :
    (m : Definitions) (value : Definition)
    → lookup value.id m ≡ none
    → Extends m (create_definition m value).0
unfolding create_definition
create-Extends m value fresh =
    if-both (λ (z : Definitions × Reply Definition). Extends m z.0) (any (same_code value) m) _ _
      (λ taken client_id id h. h)
      (λ free. put-Extends m value (λ d e. let clash = sym fresh ∙ e in ground (arith, clash)))

pub replace-Extends :
    (m : Definitions) (value : Definition) → Extends m (replace_definition m value).0
unfolding replace_definition
replace-Extends m value = elim (Option-cases (lookup value.id m)) [
  | inl e ↦ rw (e, replace_definition) (λ client_id id h. h)
  | inr (current, e) ↦
      rw (e, replace_definition)
        (if-both (λ (z : Definitions × Reply Definition). Extends m z.0)
          (not (current.client_id == value.client_id)) _ _ (λ other client_id id h. h)
          (λ mine.
            if-both (λ (z : Definitions × Reply Definition). Extends m z.0)
              (any (λ (e : String × Definition). not (e.0 == value.id) && same_code value e) m) _ _
              (λ taken client_id id h. h)
              (λ free. put-Extends m value (λ d there.
                let one : some current ≡ some d = sym e ∙ there in
                let same_one : current ≡ d = ground arith in
                let mine_too : current.client_id ≡ value.client_id =
                  (eq_iff current.client_id value.client_id).0 (ground arith) in
                subst (λ z. z.client_id ≡ value.client_id) same_one mine_too))))
]

pub roles-IsConsistent :
    (r : MemoryRepository) (roles : Definitions)
    → Extends r.roles roles
    → IsConsistent r
    → IsConsistent (record r { roles = roles })
roles-IsConsistent r roles f h = record {
  grants = Exists-Extends r.roles roles r.user_roles f h.grants;
  holds = λ k s e.
      let (role, there, all_held) = h.holds k s e in
      let (c, there_too, same_client) = f role.client_id k (role, there, refl) in
      (c, there_too, subst (λ z. AllHave r.permissions z s) (sym same_client) all_held);
}

pub permissions-IsConsistent :
    (r : MemoryRepository) (permissions : Definitions)
    → Extends r.permissions permissions
    → IsConsistent r
    → IsConsistent (record r { permissions = permissions })
permissions-IsConsistent r permissions f h = record {
  grants = h.grants;
  holds = λ k s e.
      let (role, there, all_held) = h.holds k s e in
      (role, there, AllHave-Extends r.permissions permissions role.client_id s f all_held);
}
