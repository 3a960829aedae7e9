-- ===== src/Client/Policy.antt =====
-- internal/client/client.go: the questions that other parts ask of a client, and the helpers of its
-- validation.
use certus.Common.{
  negsuc, ◌%◌, ◌/◌, pos, ℕ, ◌-◌, ◌*◌, String, Bool, true, false, not, ◌||◌, none, some, List, [],
  ◌∷◌, ◌==◌, ltb, if◌then◌else◌, ok, second, any, reject, is_positive, to_ℕ, below, above, is_zero,
  ℤ, is_empty, codes, is_digit, is_lower, is_upper, is_one_of, in_class, first_then,
}
use certus.Client.Types.{
  Reply, default_access_token_lifetime, default_refresh_token_lifetime, application_confidential,
  auth_none, auth_secret_basic, protocol_oauth20, protocol_oauth21, Platform, Client, invalid,
}

-- `slices.Contains`
abbrev pub contains : List String → String → Bool
contains xs x = any (λ y. y == x) xs

-- clientIDPattern, `^[a-z0-9][a-z0-9_-]{1,62}$`
unfoldable pub client_id_pattern : String → Bool
client_id_pattern s =
    first_then (λ c. is_lower c || is_digit c)
      (λ c. is_lower c || is_digit c || is_one_of (b'_' ∷ b'-' ∷ []) c) 1 62 (codes s)

-- scopePattern, `^[a-zA-Z0-9._:/-]{1,64}$`
unfoldable pub scope_pattern : String → Bool
scope_pattern s =
    in_class
      (λ c.
        is_lower c
        || is_upper c
        || is_digit c
        || is_one_of (b'.' ∷ b'_' ∷ b':' ∷ b'/' ∷ b'-' ∷ []) c)
      1 64 (codes s)

unfoldable pub valid_endpoint_url : Platform → String → Bool
valid_endpoint_url g value = elim (g.parse_url value) [
  | none ↦ false
  | some parsed ↦
      if is_empty parsed.host || not (is_empty parsed.fragment) || parsed.has_user
      then false
      else if parsed.scheme == "https"
      then true
      else if not (parsed.scheme == "http")
      then false
      else g.equal_fold parsed.hostname "localhost" || g.is_loopback parsed.hostname
]

-- AllowsRedirectURI and AllowsPostLogoutRedirectURI, which differ in the list.
unfoldable pub allows_uri : Platform → List String → String → Bool
allows_uri g uris candidate = elim (g.parse_url candidate) [
  | none ↦ false
  | some parsed ↦
      if is_empty parsed.scheme || not (is_empty parsed.fragment)
      then false
      else contains uris candidate
]

unfoldable pub allows_redirect_uri : Platform → Client → String → Bool
unfolding allows_uri
allows_redirect_uri g c candidate = allows_uri g c.redirect_uris candidate

unfoldable pub allows_post_logout_redirect_uri : Platform → Client → String → Bool
unfolding allows_uri
allows_post_logout_redirect_uri g c candidate = allows_uri g c.post_logout_redirect_uris candidate

unfoldable pub allows_introspection_by : Client → String → Bool
allows_introspection_by c candidate = c.id == candidate || contains c.introspectable_by candidate

unfoldable pub supports_protocol : Client → String → Bool
supports_protocol c protocol = contains c.protocols protocol

unfoldable pub supports_oauth : Client → Bool
unfolding supports_protocol
supports_oauth c = supports_protocol c protocol_oauth20 || supports_protocol c protocol_oauth21

unfoldable pub supports_grant : Client → String → Bool
supports_grant c grant = contains c.grant_types grant

unfoldable pub default_token_endpoint_auth_method : String → String
default_token_endpoint_auth_method application_type =
    if application_type == application_confidential then auth_secret_basic else auth_none

unfoldable pub effective_token_endpoint_auth_method : Client → String
unfolding default_token_endpoint_auth_method
effective_token_endpoint_auth_method c =
    if is_empty c.token_endpoint_auth_method
    then default_token_endpoint_auth_method c.application_type
    else c.token_endpoint_auth_method

-- An int64 after an overflow of a product that is not negative.
abbrev pub int64 : ℕ → ℤ
int64 n =
    let m = n % 18446744073709551616 in
    if ltb m 9223372036854775808 then pos m else negsuc (18446744073709551615 - m)

-- A duration is a number of nanoseconds.
unfoldable pub effective_token_lifetime : ℤ → ℕ → ℤ
effective_token_lifetime value fallback =
    if not (is_positive value) then pos fallback else int64 (to_ℕ value * second)

unfoldable pub access_token_lifetime : Client → ℤ
unfolding effective_token_lifetime
access_token_lifetime c =
    effective_token_lifetime c.access_token_lifetime_seconds default_access_token_lifetime

unfoldable pub refresh_token_lifetime : Client → ℤ
unfolding effective_token_lifetime
refresh_token_lifetime c =
    effective_token_lifetime c.refresh_token_lifetime_seconds default_refresh_token_lifetime

unfoldable pub normalized_token_lifetime_seconds : ℤ → ℕ → ℤ
normalized_token_lifetime_seconds value fallback =
    if is_zero value then pos (fallback / second) else value

unfoldable pub validate_token_lifetime : ℤ → ℕ → ℕ → Reply (Unit {0})
validate_token_lifetime value minimum maximum =
    if is_zero value
    then ok tt
    else reject (below value (minimum / second) || above value (maximum / second)) invalid

-- DisplayName, DisplayDescription and DisplayFaviconURL
unfoldable pub display_name : Client → String
display_name c = elim c.system [ none ↦ c.name | some s ↦ s.name ]

unfoldable pub display_description : Client → String
display_description c = elim c.system [ none ↦ c.description | some s ↦ s.description ]

unfoldable pub display_favicon_url : Client → String
display_favicon_url c = elim c.system [ none ↦ c.favicon_url | some s ↦ s.favicon_url ]
