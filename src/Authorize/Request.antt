-- ===== src/Authorize/Request.antt =====
-- internal/oauth/authorize.go: ParseAuthorizationRequest and what it calls.
use certus.Common.{
  string_key, ◌>>◌, ◌>>=◌, ℕ, ◌+◌, ◌-◌, ◌*◌, String, Bool, not, ◌&&◌, ◌||◌, Option, none, some,
  List, [], ◌∷◌, ◌==◌, ltb, eqb, if◌then◌else◌, Result, ok, err, length, any, all, reject, lookup,
  is_empty, codes, is_digit, is_lower, is_upper, is_one_of, in_class, fields,
}
use certus.Client.Types.{Platform, Client, grant_authorization_code}
use certus.Client.Policy.{contains, allows_redirect_uri, supports_oauth, supports_grant}

-- The errors, one for each text.
pub data Error : Type 0 where
  client_disabled grant_not_enabled bad_client_id bad_response_type bad_redirect_uri : Error
  bad_challenge_method bad_challenge no_state scope_not_allowed : Error
  prompt_parameter_repeated prompt_empty prompt_unsupported prompt_value_repeated : Error
  prompt_none_combined bad_max_age : Error

abbrev pub Reply : Type 0 → Type 0
Reply A = Result Error A

-- url.Values
abbrev pub Values : Type 0
Values = List (String × List String)

pub record AuthorizationRequest : Type 0 where
  pub client_id : String
  pub redirect_uri : String
  pub scope : List String
  pub state : String
  pub nonce : String
  pub code_challenge : String
  pub code_challenge_method : String
  pub prompt : List String
  pub max_age : Option ℕ

-- The method Get of url.Values.
abbrev pub get : Values → String → String
get values name = elim (lookup name values) [
  | none ↦ ""
  | some texts ↦ elim texts [ [] ↦ "" | text ∷ _ ↦ text ]
]

-- codeChallengePattern, `^[A-Za-z0-9_-]{43,128}$`
unfoldable pub code_challenge_pattern : String → Bool
code_challenge_pattern s =
    in_class (λ c. is_upper c || is_lower c || is_digit c || is_one_of (b'_' ∷ b'-' ∷ []) c) 43 128
      (codes s)

-- codeVerifierPattern, `^[A-Za-z0-9._~-]{43,128}$`, and ValidCodeVerifier
unfoldable pub valid_code_verifier : String → Bool
valid_code_verifier s =
    in_class
      (λ c. is_upper c || is_lower c || is_digit c || is_one_of (b'.' ∷ b'_' ∷ b'~' ∷ b'-' ∷ []) c)
      43 128 (codes s)

-- The loop of parsePrompt, with the values that it has seen.
unfoldable pub prompt_values : List String → List String → Reply (List String)
prompt_values seen [] = ok seen
prompt_values seen (v ∷ vs) =
    let rest = prompt_values (v ∷ seen) vs in
    if not (v == "none") && not (v == "login") && not (v == "consent")
    then err prompt_unsupported
    else if contains seen v
    then err prompt_value_repeated
    else rest

-- parsePrompt on the texts of the parameter.
unfoldable pub prompt_of : List String → Reply (List String)
unfolding prompt_values
prompt_of [] = err prompt_parameter_repeated
prompt_of (text ∷ others) = do
  reject (ltb 0 (length others)) prompt_parameter_repeated
  reject (eqb (length (fields text)) 0) prompt_empty
  seen ← prompt_values [] (fields text)
  reject (contains seen "none" && not (eqb (length seen) 1)) prompt_none_combined
  ok (fields text)

unfoldable pub parse_prompt : Values → Reply (List String)
unfolding prompt_of
parse_prompt values = elim (lookup "prompt" values) [ none ↦ ok [] | some raw ↦ prompt_of raw ]

-- The value of decimal digits.
abbrev pub decimal : ℕ → List ℕ → ℕ
decimal acc [] = acc
decimal acc (c ∷ cs) = decimal (acc * 10 + (c - b'0')) cs

-- maxAgePattern, `^[0-9]+$`, and strconv.ParseInt of 64 bits, on the texts of the parameter.
unfoldable pub max_age_of : List String → Reply (Option ℕ)
max_age_of [] = err bad_max_age
max_age_of (text ∷ others) = do
  reject (ltb 0 (length others) || not (all is_digit (codes text) && ltb 0 (length (codes text))))
      bad_max_age
  reject (not (ltb (decimal 0 (codes text)) 9223372036854775808)) bad_max_age
  ok (some (decimal 0 (codes text)))

unfoldable pub parse_max_age : Values → Reply (Option ℕ)
unfolding max_age_of
parse_max_age values = elim (lookup "max_age" values) [ none ↦ ok none | some raw ↦ max_age_of raw ]

-- What ParseAuthorizationRequest answers.
abbrev pub authorization_request : Values → Client → List String → Option ℕ → AuthorizationRequest
authorization_request values registered prompt max_age = record {
  client_id = registered.id;
  redirect_uri = get values "redirect_uri";
  scope = fields (get values "scope");
  state = get values "state";
  nonce = get values "nonce";
  code_challenge = get values "code_challenge";
  code_challenge_method = "S256";
  prompt = prompt;
  max_age = max_age;
}

-- ParseAuthorizationRequest
unfoldable pub parse_authorization_request : Platform → Values → Client → Reply AuthorizationRequest
parse_authorization_request g values registered = do
  reject (not registered.enabled) client_disabled
  reject
      (not (supports_oauth registered) || not (supports_grant registered grant_authorization_code))
      grant_not_enabled
  reject (not (get values "client_id" == registered.id)) bad_client_id
  reject (not (get values "response_type" == "code")) bad_response_type
  reject (not (allows_redirect_uri g registered (get values "redirect_uri"))) bad_redirect_uri
  reject (not (get values "code_challenge_method" == "S256")) bad_challenge_method
  reject (not (code_challenge_pattern (get values "code_challenge"))) bad_challenge
  reject (is_empty (get values "state")) no_state
  reject (any (λ s. not (contains registered.allowed_scopes s)) (fields (get values "scope")))
      scope_not_allowed
  prompt ← parse_prompt values
  max_age ← parse_max_age values
  ok (authorization_request values registered prompt max_age)

unfoldable pub has_prompt : AuthorizationRequest → String → Bool
has_prompt r expected = contains r.prompt expected
