-- ===== src/Client/Redirects.antt =====
-- internal/client/client.go: the redirect URIs that a valid client allows.
use certus.Common.{
  String, ◌≡◌, ap, subst, ◌↔◌, inl, inr, true, false, some, List, [], ◌∷◌, arith, ◌==◌, eq_iff, ok,
  Bool-cases, Option-cases, All, is_empty,
}
use certus.Client.Types.{Url, Platform, Client}
use certus.Client.Policy.{
  contains, allows_uri, allows_redirect_uri, allows_post_logout_redirect_uri,
}
use certus.Client.Validate.{validate}
use certus.Client.Valid.{IsEndpoint}
use certus.Client.Accepts.{validate_iff}

All-contains :
    (P : String → Type 0) (x : String) (xs : List String) → All P xs → contains xs x ≡ true → P x
All-contains P x [] h e = ground arith
All-contains P x (y ∷ ys) h e = elim (Bool-cases (y == x)) [
  | inl hit ↦ subst P ((eq_iff y x).0 hit) h.0
  | inr miss ↦ All-contains P x ys h.1 (ground arith)
]

scheme-IsEndpoint :
    (g : Platform) (value : String)
    → IsEndpoint g value
    → (u : Url) × (g.parse_url value ≡ some u)
      × (is_empty u.scheme ≡ false)
      × (is_empty u.fragment ≡ true)
scheme-IsEndpoint g value (u, parsed, host, fragment, user, inl https) =
    (u, parsed, ap is_empty https, ap is_empty fragment)
scheme-IsEndpoint g value (u, parsed, host, fragment, user, inr http) =
    (u, parsed, ap is_empty http.0, ap is_empty fragment)

allows_uri-valid :
    (g : Platform) (uris : List String) (candidate : String)
    → All (IsEndpoint g) uris
    → (allows_uri g uris candidate ≡ true) ↔ (contains uris candidate ≡ true)
unfolding allows_uri
allows_uri-valid g uris candidate h = (
  λ x. elim (Option-cases (g.parse_url candidate)) [
    | inl e ↦ let y = rw (e, allows_uri) at x in ground arith
    | inr (u, e) ↦ let y = rw (e, allows_uri) at x in ground arith
  ],
  λ x.
      let (u, e, scheme, fragment) =
        scheme-IsEndpoint g candidate (All-contains (IsEndpoint g) candidate uris h x) in
      rw (e, allows_uri) (ground arith),
)

-- For a client that Validate accepts, a redirect URI is allowed exactly if it is registered character
-- by character, and what is allowed is an endpoint: over TLS or on the loopback interface, with a host,
-- without a user and without a fragment. The same holds of the redirect URIs after a logout.
pub valid_redirects :
    (g : Platform) (c : Client) (uri : String)
    → validate g c ≡ ok tt
    → ((allows_redirect_uri g c uri ≡ true) ↔ (contains c.redirect_uris uri ≡ true))
      × (allows_redirect_uri g c uri ≡ true → IsEndpoint g uri)
      × ((allows_post_logout_redirect_uri g c uri ≡ true)
          ↔ (contains c.post_logout_redirect_uris uri ≡ true))
      × (allows_post_logout_redirect_uri g c uri ≡ true → IsEndpoint g uri)
unfolding allows_redirect_uri allows_post_logout_redirect_uri
valid_redirects g c uri h =
    let (few, endpoints, few_logout, oauth, logout) = ((validate_iff g c).0 h).redirects in
    let first = allows_uri-valid g c.redirect_uris uri endpoints in
    let second_one = allows_uri-valid g c.post_logout_redirect_uris uri logout in
    (
      first,
      λ x. All-contains (IsEndpoint g) uri c.redirect_uris endpoints (first.0 x),
      second_one,
      λ x. All-contains (IsEndpoint g) uri c.post_logout_redirect_uris logout (second_one.0 x),
    )
