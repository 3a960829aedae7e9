-- ===== src/Authorize/Examples.antt =====
-- internal/oauth/authorize.go: an authorization request of the portal, and the theorems on it.
use certus.Common.{
  string_key, reject, fields, String, ◌≡◌, refl, ◌↔◌, true, some, [], ◌∷◌, ok, err, All, reject,
  fields,
}
use certus.Client.Policy.{
  contains, allows_uri, allows_redirect_uri, supports_protocol, supports_oauth, supports_grant,
}
use certus.Client.Valid.{IsEndpoint}
use certus.Client.Examples.{platform, portal, portal_validates}
use certus.Authorize.Request.{
  Values, code_challenge_pattern, prompt_values, prompt_of, parse_prompt, max_age_of, parse_max_age,
  parse_authorization_request, AuthorizationRequest, prompt_none_combined, bad_max_age,
}
use certus.Authorize.Exact.{parse_authorization_request_iff, accepted_request_safe, IsAuthorized}

abbrev challenge : String
challenge = "abcdefghijklmnopqrstuvwxyzABCDEFGHIJKLMNOPQ"

abbrev request : Values
request =
    ("client_id", "portal" ∷ [])
    ∷ ("response_type", "code" ∷ [])
    ∷ ("redirect_uri", "https://app.example/cb" ∷ [])
    ∷ ("code_challenge_method", "S256" ∷ [])
    ∷ ("code_challenge", challenge ∷ [])
    ∷ ("state", "xyz" ∷ [])
    ∷ ("scope", "openid  email" ∷ [])
    ∷ ("prompt", "login consent" ∷ [])
    ∷ ("max_age", "300" ∷ [])
    ∷ []

abbrev accepted : AuthorizationRequest
accepted = record {
  client_id = "portal";
  redirect_uri = "https://app.example/cb";
  scope = "openid" ∷ "email" ∷ [];
  state = "xyz";
  nonce = "";
  code_challenge = challenge;
  code_challenge_method = "S256";
  prompt = "login" ∷ "consent" ∷ [];
  max_age = some 300;
}

request-accepted : parse_authorization_request platform request portal ≡ ok accepted
unfolding parse_authorization_request code_challenge_pattern parse_prompt prompt_of prompt_values
    parse_max_age max_age_of fields reject supports_oauth supports_protocol supports_grant
    allows_redirect_uri allows_uri
request-accepted = refl

prompt_accepted : parse_prompt request ≡ ok ("login" ∷ "consent" ∷ [])
unfolding parse_prompt prompt_of prompt_values fields reject
prompt_accepted = refl

-- A prompt of none with another value is refused.
none_alone : parse_prompt (("prompt", "none login" ∷ []) ∷ []) ≡ err prompt_none_combined
unfolding parse_prompt prompt_of prompt_values fields reject
none_alone = refl

-- An age beyond 64 bits is refused.
age_overflow : parse_max_age (("max_age", "9223372036854775808" ∷ []) ∷ []) ≡ err bad_max_age
unfolding parse_max_age max_age_of reject
age_overflow = refl

parse_authorization_request_iff_example :
    (parse_authorization_request platform request portal ≡ ok accepted)
    ↔ IsAuthorized platform request portal accepted
parse_authorization_request_iff_example =
    parse_authorization_request_iff platform request portal accepted

accepted_request_safe_example :
    (contains portal.redirect_uris accepted.redirect_uri ≡ true)
    × IsEndpoint platform accepted.redirect_uri
    × All (λ s. contains portal.allowed_scopes s ≡ true) accepted.scope
    × (accepted.code_challenge_method ≡ "S256")
    × (code_challenge_pattern accepted.code_challenge ≡ true)
accepted_request_safe_example =
    accepted_request_safe platform request portal accepted portal_validates request-accepted
