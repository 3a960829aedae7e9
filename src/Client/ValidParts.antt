-- ===== src/Client/ValidParts.antt =====
-- internal/client/client.go: Validate, part by part.
use certus.Common.{
  ◌≤◌, String, ◌≡◌, refl, ap, ◌≢◌, ◌↔◌, inl, inr, true, false, not, ◌||◌, List, [], ◌∷◌, arith,
  ◌==◌, eq_iff, ltb, ok, Bool-cases, Option-cases, length, reject-ok_iff, reject->>-iff, iff_trans,
  any-false_iff, is_empty, codes,
}
use certus.Client.Types.{
  login_password, login_ldap, login_oidc, application_public, application_confidential, auth_none,
  auth_secret_basic, auth_secret_post, protocol_oauth20, protocol_oauth21, protocol_cas,
  grant_authorization_code, grant_refresh_token, grant_client_credentials, grant_device_code,
  cas_version1, cas_version2, cas_version3, Platform, Client,
}
use certus.Client.Policy.{
  contains, supports_grant, client_id_pattern, scope_pattern, valid_endpoint_url, supports_protocol,
  supports_oauth,
}
use certus.Client.Validate.{
  bad_name, bad_link, validate_names, validate_links, validate_application, is_nil_list,
  bad_protocol, validate_protocols, bad_grant, validate_grants, bad_url, validate_redirects,
  validate_backchannel, bad_method, validate_login, validate_introspection, validate_scopes,
  validate_cas,
}
use certus.Client.Words.{
  contains_iff, client_id_pattern-IsId_iff, scope_pattern-IsScope_iff, supports_oauth-HasOauth_iff,
  interactive-IsInteractive_iff,
}
use certus.Client.Valid.{
  IsId, IsScope, IsEndpoint, IsLink, IsNamed, IsLinked, IsApplication, IsProtocol, HasProtocols,
  IsGrant, HasGrants, HasRedirects, HasBackchannel, IsMethod, HasLogin, HasIntrospection, HasScopes,
  HasCas,
}

is_empty_iff : (s : String) → (is_empty s ≡ true) ↔ (s ≡ "")
is_empty_iff String.[] = (λ h. refl, λ h. refl)
is_empty_iff (String.◌∷◌ c s) = (λ h. ground arith, λ h. ap is_empty h)

pub validate_application_iff : (c : Client) → (validate_application c ≡ ok tt) ↔ IsApplication c
unfolding validate_application
validate_application_iff c =
    let distinct : application_public ≢ application_confidential = λ e.
      let clash : false ≡ true = (eq_iff application_public application_confidential).1 e in
      ground arith in
    iff_trans (reject->>-iff _ _ _ (reject->>-iff _ _ _ (reject-ok_iff _ _))) (
      ground (
        arith,
        distinct,
        eq_iff c.application_type application_public,
        eq_iff c.application_type application_confidential,
        eq_iff c.token_endpoint_auth_method auth_none,
        eq_iff c.token_endpoint_auth_method auth_secret_basic,
        eq_iff c.token_endpoint_auth_method auth_secret_post,
      ))

pub valid_endpoint_url_iff :
    (g : Platform) (value : String) → (valid_endpoint_url g value ≡ true) ↔ IsEndpoint g value
unfolding valid_endpoint_url
valid_endpoint_url_iff g value = elim (Option-cases (g.parse_url value)) [
  | inl e ↦ rw e (λ h. ground arith, λ h. ground arith)
  | inr (u, e) ↦
      rw e ground (arith, is_empty_iff u.fragment, eq_iff u.scheme "https", eq_iff u.scheme "http")
]

bad_name_iff :
    (name : String) → (bad_name name ≡ false) ↔ ((name ≢ "") × (length (codes name) ≤ 128))
bad_name_iff name = ground (arith, is_empty_iff name)

bad_link_iff : (g : Platform) (s : String) → (bad_link g s ≡ false) ↔ IsLink g s
bad_link_iff g s = ground (arith, is_empty_iff s, valid_endpoint_url_iff g s)

is_nil_list_iff : (xs : List String) → (is_nil_list xs ≡ true) ↔ (xs ≡ [])
is_nil_list_iff [] = (λ h. refl, λ h. refl)
is_nil_list_iff (x ∷ xs) = (λ h. ground arith, λ h. ground arith)

nonempty_iff : (xs : List String) → (ltb 0 (length xs) ≡ true) ↔ (xs ≢ [])
nonempty_iff [] = (λ h. ground arith, λ h. ground arith)
nonempty_iff (x ∷ xs) = (λ h. ground arith, λ h. ground arith)

bad_protocol_iff : (p : String) → (bad_protocol p ≡ false) ↔ IsProtocol p
bad_protocol_iff p =
    ground (arith, eq_iff p protocol_oauth20, eq_iff p protocol_oauth21, eq_iff p protocol_cas)

bad_grant_iff : (p : String) → (bad_grant p ≡ false) ↔ IsGrant p
bad_grant_iff p = ground (
  arith,
  eq_iff p grant_authorization_code,
  eq_iff p grant_refresh_token,
  eq_iff p grant_client_credentials,
  eq_iff p grant_device_code,
)

bad_method_iff : (m : String) → (bad_method m ≡ false) ↔ IsMethod m
bad_method_iff m = ground (arith, eq_iff m login_password, eq_iff m login_ldap, eq_iff m login_oidc)

bad_url_iff : (g : Platform) (s : String) → (bad_url g s ≡ false) ↔ IsEndpoint g s
bad_url_iff g s = ground (arith, valid_endpoint_url_iff g s)

pub validate_names_iff : (c : Client) → (validate_names c ≡ ok tt) ↔ IsNamed c
unfolding validate_names
validate_names_iff c = iff_trans (reject->>-iff _ _ _ (reject->>-iff _ _ _ (reject-ok_iff _ _))) (
    ground (
      arith,
      bad_name_iff c.name,
      client_id_pattern-IsId_iff c.id,
      client_id_pattern-IsId_iff c.system_id,
    ))

pub validate_links_iff : (g : Platform) (c : Client) → (validate_links g c ≡ ok tt) ↔ IsLinked g c
unfolding validate_links
validate_links_iff g c =
    iff_trans (reject->>-iff _ _ _ (reject-ok_iff _ _))
      (ground (arith, bad_link_iff g c.favicon_url, bad_link_iff g c.launch_uri))

pub validate_protocols_iff : (c : Client) → (validate_protocols c ≡ ok tt) ↔ HasProtocols c
unfolding validate_protocols
validate_protocols_iff c = iff_trans (reject->>-iff _ _ _ (reject-ok_iff _ _)) (
    ground (
      arith,
      is_nil_list_iff c.protocols,
      any-false_iff bad_protocol IsProtocol c.protocols bad_protocol_iff,
    ))

pub validate_grants_iff : (c : Client) → (validate_grants c ≡ ok tt) ↔ HasGrants c
unfolding validate_grants supports_grant
validate_grants_iff c = elim (Bool-cases (supports_oauth c)) [
  | inl e ↦ rw e (
      iff_trans
        (reject->>-iff _ _ _
          (reject->>-iff _ _ _ (reject->>-iff _ _ _ (reject->>-iff _ _ _ (reject-ok_iff _ _)))))
        (ground (
          arith,
          e,
          supports_oauth-HasOauth_iff c,
          contains_iff c.grant_types grant_client_credentials,
          contains_iff c.grant_types grant_refresh_token,
          contains_iff c.grant_types grant_authorization_code,
          contains_iff c.grant_types grant_device_code,
          is_nil_list_iff c.grant_types,
          is_nil_list_iff c.redirect_uris,
          any-false_iff bad_grant IsGrant c.grant_types bad_grant_iff,
          eq_iff c.application_type application_confidential,
        )))
  | inr e ↦ rw e (ground (arith, e, supports_oauth-HasOauth_iff c))
]

pub validate_redirects_iff :
    (g : Platform) (c : Client) → (validate_redirects g c ≡ ok tt) ↔ HasRedirects g c
unfolding validate_redirects
validate_redirects_iff g c =
    iff_trans
      (reject->>-iff _ _ _
        (reject->>-iff _ _ _ (reject->>-iff _ _ _ (reject->>-iff _ _ _ (reject-ok_iff _ _)))))
      (ground (
        arith,
        supports_oauth-HasOauth_iff c,
        nonempty_iff c.post_logout_redirect_uris,
        any-false_iff (bad_url g) (IsEndpoint g) c.redirect_uris (bad_url_iff g),
        any-false_iff (bad_url g) (IsEndpoint g) c.post_logout_redirect_uris (bad_url_iff g),
      ))

pub validate_backchannel_iff :
    (g : Platform) (c : Client) → (validate_backchannel g c ≡ ok tt) ↔ HasBackchannel g c
unfolding validate_backchannel
validate_backchannel_iff g c = elim (Bool-cases (is_empty c.backchannel_logout_uri)) [
  | inl e ↦
      rw e
        (iff_trans (reject-ok_iff _ _) (ground (arith, e, is_empty_iff c.backchannel_logout_uri)))
  | inr e ↦ rw e (
      iff_trans (reject->>-iff _ _ _ (reject-ok_iff _ _)) (
        ground (
          arith,
          e,
          supports_oauth-HasOauth_iff c,
          is_empty_iff c.backchannel_logout_uri,
          valid_endpoint_url_iff g c.backchannel_logout_uri,
        )))
]

pub validate_login_iff : (c : Client) → (validate_login c ≡ ok tt) ↔ HasLogin c
unfolding validate_login
validate_login_iff c =
    iff_trans
      (reject->>-iff _ _ _
        (reject->>-iff _ _ _ (reject->>-iff _ _ _ (reject->>-iff _ _ _ (reject-ok_iff _ _)))))
      (ground (
        arith,
        is_nil_list_iff c.login_methods,
        nonempty_iff c.identity_source_ids,
        any-false_iff bad_method IsMethod c.login_methods bad_method_iff,
        interactive-IsInteractive_iff c,
        contains_iff c.login_methods login_ldap,
        contains_iff c.login_methods login_oidc,
        any-false_iff (λ id. not (client_id_pattern id)) IsId c.identity_source_ids
            (λ id. ground (arith, client_id_pattern-IsId_iff id)),
      ))

pub validate_introspection_iff :
    (c : Client) → (validate_introspection c ≡ ok tt) ↔ HasIntrospection c
unfolding validate_introspection
validate_introspection_iff c =
    iff_trans (reject->>-iff _ _ _ (reject->>-iff _ _ _ (reject-ok_iff _ _))) (
      ground (
        arith,
        supports_oauth-HasOauth_iff c,
        nonempty_iff c.introspectable_by,
        any-false_iff (λ id. not (client_id_pattern id) || id == c.id) (λ id. IsId id × (id ≢ c.id))
            c.introspectable_by
            (λ id. ground (arith, eq_iff id c.id, client_id_pattern-IsId_iff id)),
      ))

pub validate_scopes_iff : (c : Client) → (validate_scopes c ≡ ok tt) ↔ HasScopes c
unfolding validate_scopes
validate_scopes_iff c = iff_trans (reject-ok_iff _ _) (
    any-false_iff (λ s. not (scope_pattern s)) IsScope c.allowed_scopes
      (λ s. ground (arith, scope_pattern-IsScope_iff s)))

pub validate_cas_iff : (g : Platform) (c : Client) → (validate_cas g c ≡ ok tt) ↔ HasCas g c
unfolding validate_cas supports_protocol
validate_cas_iff g c = elim (Bool-cases (contains c.protocols protocol_cas)) [
  | inl e ↦ rw e (
      iff_trans
        (reject->>-iff _ _ _ (reject->>-iff _ _ _ (reject->>-iff _ _ _ (reject-ok_iff _ _))))
        (ground (
          arith,
          e,
          contains_iff c.protocols protocol_cas,
          is_nil_list_iff c.cas_service_urls,
          any-false_iff (bad_url g) (IsEndpoint g) c.cas_service_urls (bad_url_iff g),
          eq_iff c.cas_version cas_version1,
          eq_iff c.cas_version cas_version2,
          eq_iff c.cas_version cas_version3,
        )))
  | inr e ↦ rw e (ground (arith, e, contains_iff c.protocols protocol_cas))
]
