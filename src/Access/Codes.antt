-- ===== src/Access/Codes.antt =====
-- internal/access: the codes of a client's roles and permissions, and each call on them.
use certus.Common.{
  string_key, if-both, String, ◌≡◌, sym, ap, ◌∙◌, ◌≢◌, ◌⊎◌, inl, inr, false, not, ◌&&◌, none, some,
  arith, ◌==◌, eq_iff, Bool-cases, Option-cases, any, lookup, put, delete, lookup-put,
  lookup-delete, any-false-lookup,
}
use certus.Access.Types.{Reply, Definition}
use certus.Access.Repository.{Definitions, same_code, create_definition, replace_definition}

-- Two identifiers whose definitions have the same client and the same code are one.
abbrev pub CodesUnique : Definitions → Type 0
CodesUnique m =
    (i j : String) (a b : Definition)
    → lookup i m ≡ some a
    → lookup j m ≡ some b
    → a.client_id ≡ b.client_id
    → a.code ≡ b.code
    → i ≡ j

-- What is found after a write is what was written, or was there under another key.
found-put :
    (m : Definitions) (value a : Definition) (i : String)
    → lookup i (put value.id value m) ≡ some a
    → ((value.id ≡ i) × (value ≡ a)) ⊎ ((i == value.id ≡ false) × (lookup i m ≡ some a))
found-put m value a i h = elim (Bool-cases (value.id == i)) [
  | inl hit ↦
      let written : some value ≡ some a = sym (lookup-put value.id i value m ∙ rw hit) ∙ h in
      inl ((eq_iff value.id i).0 hit, ground arith)
  | inr miss ↦ inr (
    ground (arith, miss, eq_iff i value.id, eq_iff value.id i),
    sym (lookup-put value.id i value m ∙ rw miss) ∙ h,
  )
]

-- The test same_code, read as equations.
same_code-false :
    (value b : Definition) (j : String)
    → same_code value (j, b) ≡ false
    → b.client_id ≡ value.client_id
    → b.code ≢ value.code
same_code-false value b j h client code =
    ground
      (arith, h, (eq_iff b.client_id value.client_id).1 client, (eq_iff b.code value.code).1 code)

put-CodesUnique :
    (m : Definitions) (value : Definition)
    → ((j : String) (b : Definition)
        → lookup j m ≡ some b
        → j == value.id ≡ false
        → same_code value (j, b) ≡ false)
    → CodesUnique m
    → CodesUnique (put value.id value m)
put-CodesUnique m value apart h i j a b e f client code = elim (found-put m value a i e) [
  | inl (x, here) ↦ elim (found-put m value b j f) [
    | inl (y, there) ↦ sym x ∙ y
    | inr (other, found) ↦
        let clash =
          same_code-false value b j (apart j b found other)
            (sym client ∙ ap (λ (z : Definition). z.client_id) (sym here))
            (sym code ∙ ap (λ (z : Definition). z.code) (sym here)) in
        ground (arith, clash)
  ]
  | inr (other, found) ↦ elim (found-put m value b j f) [
    | inl (y, there) ↦
        let clash =
          same_code-false value a i (apart i a found other)
            (client ∙ ap (λ (z : Definition). z.client_id) (sym there))
            (code ∙ ap (λ (z : Definition). z.code) (sym there)) in
        ground (arith, clash)
    | inr (other_too, found_too) ↦ h i j a b found found_too client code
  ]
]

found-delete :
    (m : Definitions) (a : Definition) (i k : String)
    → lookup i (delete k m) ≡ some a
    → lookup i m ≡ some a
found-delete m a i k h = elim (Bool-cases (k == i)) [
  | inl hit ↦
      let gone : none ≡ some a = sym (lookup-delete k i m ∙ rw hit) ∙ h in ground (arith, gone)
  | inr miss ↦ sym (lookup-delete k i m ∙ rw miss) ∙ h
]

pub delete-CodesUnique : (m : Definitions) (k : String) → CodesUnique m → CodesUnique (delete k m)
delete-CodesUnique m k h i j a b e f = h i j a b (found-delete m a i k e) (found-delete m b j k f)

pub create-CodesUnique :
    (m : Definitions) (value : Definition)
    → CodesUnique m
    → CodesUnique (create_definition m value).0
unfolding create_definition
create-CodesUnique m value h =
    if-both (λ (z : Definitions × Reply Definition). CodesUnique z.0) (any (same_code value) m) _ _
      (λ taken. h)
      (λ free.
        put-CodesUnique m value
          (λ j b found other. any-false-lookup (same_code value) j b m free found) h)

pub replace-CodesUnique :
    (m : Definitions) (value : Definition)
    → CodesUnique m
    → CodesUnique (replace_definition m value).0
unfolding replace_definition
replace-CodesUnique m value h = elim (Option-cases (lookup value.id m)) [
  | inl e ↦ rw (e, replace_definition) h
  | inr (current, e) ↦
      rw (e, replace_definition)
        (if-both (λ (z : Definitions × Reply Definition). CodesUnique z.0)
          (not (current.client_id == value.client_id)) _ _ (λ other. h)
          (λ mine.
            if-both (λ (z : Definitions × Reply Definition). CodesUnique z.0)
              (any (λ (e : String × Definition). not (e.0 == value.id) && same_code value e) m) _ _
              (λ taken. h)
              (λ free.
                put-CodesUnique m value
                  (λ j b found other.
                    let clear =
                      any-false-lookup
                        (λ (e : String × Definition). not (e.0 == value.id) && same_code value e) j
                        b m free found in
                    ground (arith, clear, other))
                  h)))
]
