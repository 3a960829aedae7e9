-- ===== src/Authorize/Exact.antt =====
-- internal/oauth/authorize.go: which requests are accepted, and with which contents.
use certus.Common.{
  string_key, ◌>>=◌, call-ok, iff_trans, reject-then_iff, call-then_iff, value_of_ok, any-false_iff,
  String, ◌≡◌, refl, sym, ap, ◌∙◌, subst, ◌≢◌, ◌↔◌, true, false, not, arith, eq_iff, ok, All, ◌>>=◌,
  call-ok, iff_trans, any-false_iff, value_of_ok, reject-then_iff, call-then_iff, is_empty, fields,
}
use certus.Client.Types.{grant_authorization_code, Platform, Client}
use certus.Client.Policy.{contains, allows_redirect_uri, supports_oauth, supports_grant}
use certus.Client.Validate.{validate}
use certus.Client.Valid.{IsEndpoint}
use certus.Client.Redirects.{valid_redirects}
use certus.Authorize.Request.{
  Values, get, code_challenge_pattern, parse_prompt, parse_max_age, authorization_request,
  parse_authorization_request, AuthorizationRequest,
}

-- What an accepted request has to satisfy, and where each field of the answer comes from.
pub record IsAuthorized (g : Platform) (values : Values) (c : Client) (r : AuthorizationRequest)
    : Type 0 where
  pub enabled : c.enabled ≡ true
  pub oauth : supports_oauth c ≡ true
  pub grant : supports_grant c grant_authorization_code ≡ true
  pub for_client : get values "client_id" ≡ c.id
  pub code_response : get values "response_type" ≡ "code"
  pub allowed : allows_redirect_uri g c (get values "redirect_uri") ≡ true
  pub s256 : get values "code_challenge_method" ≡ "S256"
  pub challenge : code_challenge_pattern (get values "code_challenge") ≡ true
  pub state : get values "state" ≢ ""
  pub scopes : All (λ s. contains c.allowed_scopes s ≡ true) (fields (get values "scope"))
  pub prompt : parse_prompt values ≡ ok r.prompt
  pub max_age : parse_max_age values ≡ ok r.max_age
  pub answer : r ≡ authorization_request values c r.prompt r.max_age

not_empty : (s : String) → s ≢ "" → is_empty s ≡ false
not_empty String.[] h = ground arith
not_empty (String.◌∷◌ c s) h = refl

-- ParseAuthorizationRequest accepts a request with the answer r exactly if all the conditions hold: the
-- client is enabled and may use the code grant, the request is for it, asks for a code, names an
-- allowed redirect URI, an S256 challenge, a state and allowed scopes only, its prompt and its max_age
-- parse, and r holds what the request says.
pub parse_authorization_request_iff :
    (g : Platform) (values : Values) (c : Client) (r : AuthorizationRequest)
    → (parse_authorization_request g values c ≡ ok r) ↔ IsAuthorized g values c r
unfolding parse_authorization_request
parse_authorization_request_iff g values c r =
    let rest = call-then_iff {x = r} (parse_prompt values) (λ prompt.
      parse_max_age values >>= λ max_age. ok (authorization_request values c prompt max_age)) in
    iff_trans
      (reject-then_iff _ _ _ (
        reject-then_iff _ _ _ (
          reject-then_iff _ _ _ (
            reject-then_iff _ _ _ (
              reject-then_iff _ _ _ (
                reject-then_iff _ _ _
                  (reject-then_iff _ _ _ (reject-then_iff _ _ _ (reject-then_iff _ _ _ rest)))))))))
      (
        λ (a, (b, (d, (e, (f, (h, (i, (j, (k, (p, prompt, tail)))))))))).
            let (m, age, last) =
              call-ok (parse_max_age values)
                (λ max_age. ok (authorization_request values c p max_age)) tail in
            let built : authorization_request values c p m ≡ r = value_of_ok last in
            record {
              enabled = ground (arith, a);
              oauth = ground (arith, b);
              grant = ground (arith, b);
              for_client = ground (arith, d, eq_iff (get values "client_id") c.id);
              code_response = ground (arith, e, eq_iff (get values "response_type") "code");
              allowed = ground (arith, f);
              s256 = ground (arith, h, eq_iff (get values "code_challenge_method") "S256");
              challenge = ground (arith, i);
              state = λ z. let clash = ap is_empty z in ground (arith, j, clash);
              scopes =
                  (any-false_iff (λ s. not (contains c.allowed_scopes s))
                      (λ s. contains c.allowed_scopes s ≡ true) (fields (get values "scope"))
                      (λ s. ground arith)).0
                    k;
              prompt = prompt ∙ ap (λ (z : AuthorizationRequest). ok z.prompt) built;
              max_age = age ∙ ap (λ (z : AuthorizationRequest). ok z.max_age) built;
              answer =
                  subst
                    (λ (z : AuthorizationRequest).
                      z ≡ authorization_request values c z.prompt z.max_age)
                    built refl;
            },
        λ v. (
          ground (arith, v.enabled),
          (
            ground (arith, v.oauth, v.grant),
            (
              ground (arith, v.for_client, eq_iff (get values "client_id") c.id),
              (
                ground (arith, v.code_response, eq_iff (get values "response_type") "code"),
                (
                  ground (arith, v.allowed),
                  (
                    ground (arith, v.s256, eq_iff (get values "code_challenge_method") "S256"),
                    (
                      ground (arith, v.challenge),
                      (
                        not_empty (get values "state") v.state,
                        (
                          (any-false_iff (λ s. not (contains c.allowed_scopes s))
                                (λ s. contains c.allowed_scopes s ≡ true)
                                (fields (get values "scope")) (λ s. ground arith)).1
                              v.scopes,
                          (
                            r.prompt,
                            v.prompt,
                            ap (λ z. z >>= λ m. ok (authorization_request values c r.prompt m))
                                  v.max_age
                                ∙ ap ok (sym v.answer),
                          ),
                        ),
                      ),
                    ),
                  ),
                ),
              ),
            ),
          ),
        ),
      )

-- A request that is accepted for a client that Validate accepts names a redirect URI of that client that
-- is an endpoint: over TLS or on the loopback interface, with a host, without a user and without a
-- fragment. Its scopes are among the client's, and an S256 challenge is part of it.
pub accepted_request_safe :
    (g : Platform) (values : Values) (c : Client) (r : AuthorizationRequest)
    → validate g c ≡ ok tt
    → parse_authorization_request g values c ≡ ok r
    → (contains c.redirect_uris r.redirect_uri ≡ true)
      × IsEndpoint g r.redirect_uri
      × All (λ s. contains c.allowed_scopes s ≡ true) r.scope
      × (r.code_challenge_method ≡ "S256")
      × (code_challenge_pattern r.code_challenge ≡ true)
accepted_request_safe g values c r valid h =
    let v = (parse_authorization_request_iff g values c r).0 h in
    let (registered, endpoint, logout, logout_endpoint) =
      valid_redirects g c (get values "redirect_uri") valid in
    subst
      (λ (z : AuthorizationRequest).
        (contains c.redirect_uris z.redirect_uri ≡ true)
        × IsEndpoint g z.redirect_uri
        × All (λ s. contains c.allowed_scopes s ≡ true) z.scope
        × (z.code_challenge_method ≡ "S256")
        × (code_challenge_pattern z.code_challenge ≡ true))
      (sym v.answer) (registered.0 v.allowed, endpoint v.allowed, v.scopes, refl, v.challenge)
