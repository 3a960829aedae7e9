-- ===== src/Oauth/Grants/ScopeMerge.antt =====
-- internal/oauth/store.go: mergeScopes, and the consents that grantConsentLocked writes.
use certus.Common.{
  String, ◌≡◌, ◌∙◌, subst, inl, inr, Bool, true, ◌||◌, none, some, List, [], ◌∷◌, ◌++◌, arith, ◌==◌,
  eq_iff, eq_refl, ok, Time, Bool-cases, Option-cases, find_first, find_first-change_first,
  any-sort_by,
}
use certus.Oauth.Types.{Consent, MemoryRepository}
use certus.Oauth.Consents.{
  string_le, add_scopes, merge_scopes, consent_of, find_consent, renewed, grant_consent,
}
use certus.Oauth.Grants.Scopes.{has}

has-append : (xs : List String) (x s : String) → has (xs ++ x ∷ []) s ≡ (has xs s || x == s)
has-append [] x s = ground arith
has-append (y ∷ ys) x s = ground (arith, has-append ys x s)

add_scopes-has :
    (result requested : List String) (s : String)
    → has (add_scopes result requested) s ≡ (has result s || has requested s)
unfolding add_scopes
add_scopes-has result [] s = ground arith
add_scopes-has result (x ∷ xs) s = elim (Bool-cases (has result x)) [
  | inl old ↦
      rw (old, add_scopes-has result xs s)
        (elim (Bool-cases (x == s)) [
          | inl same ↦
              let p : x ≡ s = (eq_iff x s).0 same in
              let q : has result s ≡ true = subst (λ t. has result t ≡ true) p old in ground arith
          | inr other ↦ ground arith
        ])
  | inr fresh ↦
      rw (fresh, add_scopes-has (result ++ x ∷ []) xs s, has-append result x s) (ground arith)
]

-- A merge holds exactly the scopes of its two parts.
pub merge_scopes-has :
    (current requested : List String) (s : String)
    → has (merge_scopes current requested) s ≡ (has current s || has requested s)
unfolding merge_scopes
merge_scopes-has current requested s =
    any-sort_by string_le (λ g. g == s) (add_scopes current requested)
    ∙ add_scopes-has current requested s

find_first-append_new :
    {A : Type 0} (m : A → Bool) (xs : List A) (y : A)
    → find_first m xs ≡ none
    → m y ≡ true
    → find_first m (xs ++ y ∷ []) ≡ some y
find_first-append_new m [] y h e = ground arith
find_first-append_new m (x ∷ xs) y h e = ground (arith, find_first-append_new m xs y)

-- The scopes that a user had granted to a client, if any.
abbrev pub granted : MemoryRepository → String → String → List String
granted r user_id client_id = elim (find_first (consent_of user_id client_id) r.consents) [
  | none ↦ []
  | some c ↦ c.scopes
]

-- After a grant the consent of this user and client is the one returned, and it holds exactly the
-- scopes granted before and those granted now.
find_consent-grant_consent :
    (r : MemoryRepository) (user_id client_id : String) (scopes : List String) (now : Time)
    (s : String)
    → (find_consent (grant_consent r user_id client_id scopes now).0 user_id client_id
        ≡ ok (grant_consent r user_id client_id scopes now).1)
      × (has (grant_consent r user_id client_id scopes now).1.scopes s
          ≡ (has (granted r user_id client_id) s || has scopes s))
unfolding find_consent grant_consent
find_consent-grant_consent r user_id client_id scopes now s =
    elim (Option-cases (find_first (consent_of user_id client_id) r.consents)) [
      | inl e ↦
          let value : Consent = record {
            user_id = user_id;
            client_id = client_id;
            scopes = merge_scopes [] scopes;
            granted_at = now;
            updated_at = now;
          } in
          rw (e, grant_consent, granted)
            (
              rw (
                find_first-append_new (consent_of user_id client_id) r.consents value e
                    (simp eq_refl),
                find_consent,
              ),
              merge_scopes-has [] scopes s,
            )
      | inr (c, e) ↦
          rw (e, grant_consent, granted)
            (
              rw (
                find_first-change_first (consent_of user_id client_id) (renewed scopes now)
                    r.consents c (λ x m. m) e,
                find_consent,
              ),
              merge_scopes-has c.scopes scopes s,
            )
    ]
