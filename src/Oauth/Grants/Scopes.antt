-- ===== src/Oauth/Grants/Scopes.antt =====
-- internal/oauth/store.go: ScopesCover.
use certus.Common.{
  String, ◌≡◌, ◌↔◌, subst, refl, List, [], ◌∷◌, arith, inl, inr, Bool-cases, eq_iff, eq_refl, true,
  Bool, ◌==◌, any,
}
use certus.Oauth.Tokens.{scopes_cover}

-- `slices.Contains(scopes, s)`
abbrev pub has : List String → String → Bool
has scopes s = any (λ g. g == s) scopes

scopes_cover-has :
    (granted requested : List String)
    → scopes_cover granted requested ≡ true
    → (s : String) → has requested s ≡ true
    → has granted s ≡ true
unfolding scopes_cover
scopes_cover-has granted [] h s e = ground arith
scopes_cover-has granted (x ∷ xs) h s e = elim (Bool-cases (x == s)) [
  | inl same ↦
      let p : x ≡ s = (eq_iff x s).0 same in subst (λ t. has granted t ≡ true) p (ground arith)
  | inr other ↦ scopes_cover-has granted xs (ground arith) s (ground arith)
]

has-scopes_cover :
    (granted requested : List String)
    → ((s : String) → has requested s ≡ true → has granted s ≡ true)
    → scopes_cover granted requested ≡ true
unfolding scopes_cover
has-scopes_cover granted [] h = refl
has-scopes_cover granted (x ∷ xs) h =
    let first : has granted x ≡ true = h x (rw eq_refl) in
    let rest : scopes_cover granted xs ≡ true =
      has-scopes_cover granted xs (λ s e. h s (ground (arith, e))) in
    ground arith

-- `ScopesCover` holds exactly when every scope asked for is among those granted.
scopes_cover_iff :
    (granted requested : List String)
    → (scopes_cover granted requested ≡ true)
      ↔ ((s : String) → has requested s ≡ true → has granted s ≡ true)
scopes_cover_iff granted requested =
    (scopes_cover-has granted requested, has-scopes_cover granted requested)
