-- ===== src/Client/Valid.antt =====
-- internal/client/client.go: what a valid client is, said without the code of Validate.
use certus.Common.{
  negsuc, zero, suc, List, ◌∷◌, pos, ℕ, ◌≤◌, String, ◌≡◌, ◌≢◌, ◌⊎◌, true, false, some, [], length,
  All, ℤ, is_empty, codes,
}
use certus.Client.Types.{
  login_password, login_ldap, login_oidc, application_public, application_confidential, auth_none,
  auth_secret_basic, auth_secret_post, protocol_oauth20, protocol_oauth21, protocol_cas,
  grant_authorization_code, grant_refresh_token, grant_client_credentials, grant_device_code,
  cas_version1, cas_version2, cas_version3, Url, Platform, Client,
}
use certus.Client.Validate.{bytes}

-- The list has the string as an element.
abbrev pub Has : List String → String → Type 0
Has [] x = ⊥
Has (y ∷ ys) x = (y ≡ x) ⊎ Has ys x

abbrev pub IsSmall : ℕ → Type 0
IsSmall c = (b'a' ≤ c) × (c ≤ b'z')

abbrev pub IsCapital : ℕ → Type 0
IsCapital c = (b'A' ≤ c) × (c ≤ b'Z')

abbrev pub IsNumeral : ℕ → Type 0
IsNumeral c = (b'0' ≤ c) × (c ≤ b'9')

abbrev pub StartsId : ℕ → Type 0
StartsId c = IsSmall c ⊎ IsNumeral c

abbrev pub ContinuesId : ℕ → Type 0
ContinuesId c = StartsId c ⊎ ((c ≡ b'_') ⊎ (c ≡ b'-'))

-- An identifier: 2 to 63 small letters, digits, underscores and dashes, first a letter or a digit.
abbrev pub IsId : String → Type 0
IsId s =
    (c : ℕ) × (cs : List ℕ) × (codes s ≡ c ∷ cs)
    × StartsId c
    × All ContinuesId cs
    × (1 ≤ length cs)
    × (length cs ≤ 62)

abbrev pub IsScopeCharacter : ℕ → Type 0
IsScopeCharacter c =
    IsSmall c
    ⊎ (IsCapital c
        ⊎ (IsNumeral c ⊎ ((c ≡ b'.') ⊎ ((c ≡ b'_') ⊎ ((c ≡ b':') ⊎ ((c ≡ b'/') ⊎ (c ≡ b'-')))))))

-- A scope has 1 to 64 of these characters.
abbrev pub IsScope : String → Type 0
IsScope s = All IsScopeCharacter (codes s) × (1 ≤ length (codes s)) × (length (codes s) ≤ 64)

abbrev pub HasOauth : Client → Type 0
HasOauth c = Has c.protocols protocol_oauth20 ⊎ Has c.protocols protocol_oauth21

-- Users log in at the client: by CAS, or by a code for a browser or for a device.
abbrev pub IsInteractive : Client → Type 0
IsInteractive c =
    Has c.protocols protocol_cas
    ⊎ (Has c.grant_types grant_authorization_code ⊎ Has c.grant_types grant_device_code)

-- An endpoint: a URL with a host, no user and no fragment, over TLS or on the loopback interface.
abbrev pub IsEndpoint : Platform → String → Type 0
IsEndpoint g value =
    (u : Url) × (g.parse_url value ≡ some u)
    × (is_empty u.host ≡ false)
    × (u.fragment ≡ "")
    × (u.has_user ≡ false)
    × ((u.scheme ≡ "https")
        ⊎ ((u.scheme ≡ "http")
            × ((g.equal_fold u.hostname "localhost" ≡ true) ⊎ (g.is_loopback u.hostname ≡ true))))

abbrev pub IsLink : Platform → String → Type 0
IsLink g s = (s ≡ "") ⊎ ((bytes (codes s) ≤ 2048) × IsEndpoint g s)

abbrev pub IsNamed : Client → Type 0
IsNamed c = (IsId c.id) × (IsId c.system_id) × (c.name ≢ "") × (length (codes c.name) ≤ 128)

abbrev pub IsLinked : Platform → Client → Type 0
IsLinked g c = IsLink g c.favicon_url × IsLink g c.launch_uri

-- The application type fixes how the client authenticates at the token endpoint.
abbrev pub IsApplication : Client → Type 0
IsApplication c =
    ((c.application_type ≡ application_public) × (c.token_endpoint_auth_method ≡ auth_none))
    ⊎ ((c.application_type ≡ application_confidential)
        × ((c.token_endpoint_auth_method ≡ auth_secret_basic)
            ⊎ (c.token_endpoint_auth_method ≡ auth_secret_post)))

abbrev pub IsProtocol : String → Type 0
IsProtocol p = (p ≡ protocol_oauth20) ⊎ ((p ≡ protocol_oauth21) ⊎ (p ≡ protocol_cas))

abbrev pub HasProtocols : Client → Type 0
HasProtocols c = (c.protocols ≢ []) × All IsProtocol c.protocols

abbrev pub IsGrant : String → Type 0
IsGrant p =
    (p ≡ grant_authorization_code)
    ⊎ ((p ≡ grant_refresh_token) ⊎ ((p ≡ grant_client_credentials) ⊎ (p ≡ grant_device_code)))

abbrev pub HasGrants : Client → Type 0
HasGrants c =
    HasOauth c
    → (c.grant_types ≢ [])
      × All IsGrant c.grant_types
      × (Has c.grant_types grant_client_credentials → c.application_type ≡ application_confidential)
      × (Has c.grant_types grant_refresh_token
          → (Has c.grant_types grant_authorization_code) ⊎ (Has c.grant_types grant_device_code))
      × (Has c.grant_types grant_authorization_code → c.redirect_uris ≢ [])

abbrev pub HasRedirects : Platform → Client → Type 0
HasRedirects g c =
    (length c.redirect_uris ≤ 20)
    × All (IsEndpoint g) c.redirect_uris
    × (length c.post_logout_redirect_uris ≤ 20)
    × (c.post_logout_redirect_uris ≢ [] → HasOauth c)
    × All (IsEndpoint g) c.post_logout_redirect_uris

abbrev pub HasBackchannel : Platform → Client → Type 0
HasBackchannel g c =
    ((c.backchannel_logout_uri ≡ "") × (c.backchannel_logout_session_required ≡ false))
    ⊎ ((c.backchannel_logout_uri ≢ "") × (HasOauth c) × IsEndpoint g c.backchannel_logout_uri)

abbrev pub IsMethod : String → Type 0
IsMethod m = (m ≡ login_password) ⊎ ((m ≡ login_ldap) ⊎ (m ≡ login_oidc))

abbrev pub HasLogin : Client → Type 0
HasLogin c =
    (IsInteractive c → c.login_methods ≢ [])
    × All IsMethod c.login_methods
    × (length c.identity_source_ids ≤ 20)
    × (c.identity_source_ids ≢ []
        → (Has c.login_methods login_ldap) ⊎ (Has c.login_methods login_oidc))
    × All IsId c.identity_source_ids

abbrev pub HasIntrospection : Client → Type 0
HasIntrospection c =
    (length c.introspectable_by ≤ 20)
    × (c.introspectable_by ≢ [] → HasOauth c)
    × All (λ id. IsId id × (id ≢ c.id)) c.introspectable_by

abbrev pub HasScopes : Client → Type 0
HasScopes c = All IsScope c.allowed_scopes

-- A lifetime in seconds within bounds; 0 asks for the default.
abbrev pub IsLifetime : ℕ → ℕ → ℤ → Type 0
IsLifetime low high z = (z ≡ pos 0) ⊎ ((n : ℕ) × (z ≡ pos n) × (low ≤ n) × (n ≤ high))

-- The seconds that a registration asks for.
abbrev pub asked_seconds : ℕ → ℤ → ℕ
asked_seconds fallback (pos zero) = fallback
asked_seconds fallback (pos (suc n)) = suc n
asked_seconds fallback (negsuc n) = fallback

-- The access token does not outlive the refresh token; their defaults are 15 minutes and 30 days.
abbrev pub HasLifetimes : Client → Type 0
HasLifetimes c =
    IsLifetime 60 86400 c.access_token_lifetime_seconds
    × IsLifetime 3600 31536000 c.refresh_token_lifetime_seconds
    × (asked_seconds 900 c.access_token_lifetime_seconds
        ≤ asked_seconds 2592000 c.refresh_token_lifetime_seconds)

abbrev pub IsCasVersion : String → Type 0
IsCasVersion v = (v ≡ cas_version1) ⊎ ((v ≡ cas_version2) ⊎ (v ≡ cas_version3))

abbrev pub HasCas : Platform → Client → Type 0
HasCas g c =
    Has c.protocols protocol_cas
    → IsCasVersion c.cas_version
      × (c.cas_service_urls ≢ [])
      × (length c.cas_service_urls ≤ 20)
      × All (IsEndpoint g) c.cas_service_urls
      × (c.cas_proxy ≡ true → c.cas_version ≢ cas_version1)

pub record IsValid (g : Platform) (c : Client) : Type 0 where
  pub names : IsNamed c
  pub links : IsLinked g c
  pub application : IsApplication c
  pub protocols : HasProtocols c
  pub grants : HasGrants c
  pub redirects : HasRedirects g c
  pub backchannel : HasBackchannel g c
  pub login : HasLogin c
  pub introspection : HasIntrospection c
  pub scopes : HasScopes c
  pub lifetimes : HasLifetimes c
  pub cas : HasCas g c
