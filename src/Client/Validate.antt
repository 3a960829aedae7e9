-- ===== src/Client/Validate.antt =====
-- internal/client/client.go: the method Validate of Client, in parts by what they check, in the order
-- of the source, and that of System. A loop that answers ErrInvalid at the first bad element is `any`.
use certus.Common.{
  ◌>>◌, ℕ, ◌+◌, String, Bool, true, false, not, ◌&&◌, ◌||◌, List, [], ◌∷◌, ◌==◌, ltb, if◌then◌else◌,
  ok, length, any, reject, at_most, is_empty, codes,
}
use certus.Client.Types.{
  Reply, min_access_token_lifetime, max_access_token_lifetime, min_refresh_token_lifetime,
  max_refresh_token_lifetime, login_password, login_ldap, login_oidc, application_public,
  application_confidential, auth_none, auth_secret_basic, auth_secret_post, protocol_oauth20,
  protocol_oauth21, protocol_cas, grant_authorization_code, grant_refresh_token,
  grant_client_credentials, grant_device_code, cas_version1, cas_version2, cas_version3, Platform,
  System, Client, invalid,
}
use certus.Client.Policy.{
  contains, client_id_pattern, scope_pattern, valid_endpoint_url, supports_protocol, supports_oauth,
  supports_grant, access_token_lifetime, refresh_token_lifetime, validate_token_lifetime,
}

-- `c.Name == "" || len([]rune(c.Name)) > 128`
abbrev pub bad_name : String → Bool
bad_name name = is_empty name || ltb 128 (length (codes name))

-- The length of a string in bytes, as UTF-8.
abbrev pub bytes : List ℕ → ℕ
bytes [] = 0
bytes (c ∷ cs) =
    (if ltb c 0x80 then 1 else if ltb c 0x800 then 2 else if ltb c 0x1_0000 then 3 else 4)
    + bytes cs

-- The test of FaviconURL and of LaunchURI.
abbrev pub bad_link : Platform → String → Bool
bad_link g value =
    not (is_empty value) && (ltb 2048 (bytes (codes value)) || not (valid_endpoint_url g value))

unfoldable pub validate_names : Client → Reply (Unit {0})
validate_names c = do
  reject (not (client_id_pattern c.id)) invalid
  reject (not (client_id_pattern c.system_id)) invalid
  reject (bad_name c.name) invalid

unfoldable pub validate_links : Platform → Client → Reply (Unit {0})
validate_links g c = do
  reject (bad_link g c.favicon_url) invalid
  reject (bad_link g c.launch_uri) invalid

unfoldable pub validate_application : Client → Reply (Unit {0})
validate_application c = do
  reject
      (not (c.application_type == application_public)
        && not (c.application_type == application_confidential))
      invalid
  reject
      (c.application_type == application_public && not (c.token_endpoint_auth_method == auth_none))
      invalid
  reject
      (c.application_type == application_confidential
        && (not (c.token_endpoint_auth_method == auth_secret_basic)
            && not (c.token_endpoint_auth_method == auth_secret_post)))
      invalid

abbrev pub is_nil_list : List String → Bool
is_nil_list [] = true
is_nil_list (x ∷ xs) = false

abbrev pub bad_protocol : String → Bool
bad_protocol p =
    not (p == protocol_oauth20) && not (p == protocol_oauth21) && not (p == protocol_cas)

unfoldable pub validate_protocols : Client → Reply (Unit {0})
validate_protocols c = do
  reject (is_nil_list c.protocols) invalid
  reject (any bad_protocol c.protocols) invalid

abbrev pub bad_grant : String → Bool
bad_grant p =
    not (p == grant_authorization_code)
    && not (p == grant_refresh_token)
    && not (p == grant_client_credentials)
    && not (p == grant_device_code)

unfoldable pub validate_grants : Client → Reply (Unit {0})
validate_grants c = if not (supports_oauth c) then ok tt else do
  reject (is_nil_list c.grant_types) invalid
  reject (any bad_grant c.grant_types) invalid
  reject
      (supports_grant c grant_client_credentials
        && not (c.application_type == application_confidential))
      invalid
  reject
      (supports_grant c grant_refresh_token
        && not (supports_grant c grant_authorization_code)
        && not (supports_grant c grant_device_code))
      invalid
  reject (supports_grant c grant_authorization_code && is_nil_list c.redirect_uris) invalid

abbrev pub bad_url : Platform → String → Bool
bad_url g uri = not (valid_endpoint_url g uri)

unfoldable pub validate_redirects : Platform → Client → Reply (Unit {0})
validate_redirects g c = do
  reject (ltb 20 (length c.redirect_uris)) invalid
  reject (any (bad_url g) c.redirect_uris) invalid
  reject (ltb 20 (length c.post_logout_redirect_uris)) invalid
  reject (ltb 0 (length c.post_logout_redirect_uris) && not (supports_oauth c)) invalid
  reject (any (bad_url g) c.post_logout_redirect_uris) invalid

unfoldable pub validate_backchannel : Platform → Client → Reply (Unit {0})
validate_backchannel g c =
    if is_empty c.backchannel_logout_uri
    then reject c.backchannel_logout_session_required invalid
    else do
      reject (not (supports_oauth c)) invalid
      reject (not (valid_endpoint_url g c.backchannel_logout_uri)) invalid

abbrev pub bad_method : String → Bool
bad_method m = not (m == login_password) && not (m == login_ldap) && not (m == login_oidc)

unfoldable pub interactive : Client → Bool
interactive c =
    supports_protocol c protocol_cas
    || supports_grant c grant_authorization_code
    || supports_grant c grant_device_code

unfoldable pub validate_login : Client → Reply (Unit {0})
unfolding interactive
validate_login c = do
  reject (interactive c && is_nil_list c.login_methods) invalid
  reject (any bad_method c.login_methods) invalid
  reject (ltb 20 (length c.identity_source_ids)) invalid
  reject
      (ltb 0 (length c.identity_source_ids)
        && not (contains c.login_methods login_ldap)
        && not (contains c.login_methods login_oidc))
      invalid
  reject (any (λ id. not (client_id_pattern id)) c.identity_source_ids) invalid

unfoldable pub validate_introspection : Client → Reply (Unit {0})
validate_introspection c = do
  reject (ltb 20 (length c.introspectable_by)) invalid
  reject (ltb 0 (length c.introspectable_by) && not (supports_oauth c)) invalid
  reject (any (λ id. not (client_id_pattern id) || id == c.id) c.introspectable_by) invalid

unfoldable pub validate_scopes : Client → Reply (Unit {0})
validate_scopes c = reject (any (λ s. not (scope_pattern s)) c.allowed_scopes) invalid

unfoldable pub validate_lifetimes : Client → Reply (Unit {0})
unfolding validate_token_lifetime
validate_lifetimes c = do
  validate_token_lifetime c.access_token_lifetime_seconds min_access_token_lifetime
      max_access_token_lifetime
  validate_token_lifetime c.refresh_token_lifetime_seconds min_refresh_token_lifetime
      max_refresh_token_lifetime
  reject (not (at_most (access_token_lifetime c) (refresh_token_lifetime c))) invalid

unfoldable pub validate_cas : Platform → Client → Reply (Unit {0})
validate_cas g c = if not (supports_protocol c protocol_cas) then ok tt else do
  reject
      (not (c.cas_version == cas_version1)
        && not (c.cas_version == cas_version2)
        && not (c.cas_version == cas_version3))
      invalid
  reject (is_nil_list c.cas_service_urls || ltb 20 (length c.cas_service_urls)) invalid
  reject (any (bad_url g) c.cas_service_urls) invalid
  reject (c.cas_proxy && c.cas_version == cas_version1) invalid

unfoldable pub validate : Platform → Client → Reply (Unit {0})
validate g c = do
  validate_names c
  validate_links g c
  validate_application c
  validate_protocols c
  validate_grants c
  validate_redirects g c
  validate_backchannel g c
  validate_login c
  validate_introspection c
  validate_scopes c
  validate_lifetimes c
  validate_cas g c

-- The method Validate of System.
unfoldable pub validate_system : Platform → System → Reply (Unit {0})
validate_system g s = do
  reject (not (client_id_pattern s.id)) invalid
  reject (bad_name s.name) invalid
  reject (ltb 512 (length (codes s.description))) invalid
  reject (bad_link g s.favicon_url) invalid
  reject (bad_link g s.launch_uri) invalid
