-- ===== src/Oauth/Grants/Revoked.antt =====
-- internal/oauth/store.go: the revocation of all that belongs to a session, a user or a client.
use certus.Common.{
  Bool, String, ◌≡◌, refl, ◌≢◌, not, none, arith, Time, Hash, inl, inr, filter, find_first-map,
  true, false, All, All-map, Bool-cases, ok, find_first-All,
}
use certus.Oauth.Types.{
  DeviceAuthorization, AuthorizationCode, MemoryAuthorizationCode, MemoryRefreshToken,
  MemoryAccessToken, MemoryRepository,
}
use certus.Oauth.Tokens.{access_is_live, refresh_is_live, code_has_hash, consume_authorization_code}
use certus.Oauth.Revocation.{
  deny_if, approved_by, open_of_client, of_client, of_user, revoke_client_tokens,
  revoke_user_tokens, Matches, revoke_code, revoke_access, revoke_refresh, revoke_matching_tokens,
}
use certus.Oauth.Grants.Codes.{consume_ok_iff}
use certus.Oauth.Grants.Reuse.{SameTokens, SameTokens-found, SameTokens-same}

-- The repository without the tokens that match.
abbrev pub without_matching : Matches → MemoryRepository → MemoryRepository
without_matching matches r = record r {
  refresh = filter (λ t. not (matches t.user_id t.session_id t.client_id)) r.refresh;
  access_tokens = filter (λ t. not (matches t.user_id t.session_id t.client_id)) r.access_tokens;
}

pub matching-SameTokens :
    (r : MemoryRepository) (matches : Matches) (now : Time)
    → SameTokens (revoke_matching_tokens r matches now) (without_matching matches r)
unfolding revoke_matching_tokens
matching-SameTokens r matches now =
    SameTokens-found (revoke_matching_tokens r matches now) (without_matching matches r)
      (λ hash t.
        find_first-map (access_is_live hash t)
          (λ (x : MemoryAccessToken). matches x.user_id x.session_id x.client_id)
          (revoke_access matches now) (λ x e. ground arith) (λ x e. ground arith) r.access_tokens)
      (λ hash t.
        find_first-map (refresh_is_live hash t)
          (λ (x : MemoryRefreshToken). matches x.user_id x.session_id x.client_id)
          (revoke_refresh matches now) (λ x e. ground arith) (λ x e. ground arith) r.refresh)

abbrev IsRevokedIf : Matches → MemoryAuthorizationCode → Type 0
IsRevokedIf matches c = matches c.user_id c.session_id c.client_id ≡ true → c.revoked_at ≢ none

codes_revoked :
    (r : MemoryRepository) (matches : Matches) (now : Time)
    → All (IsRevokedIf matches) (revoke_matching_tokens r matches now).codes
unfolding revoke_matching_tokens
codes_revoked r matches now =
    All-map (IsRevokedIf matches) (revoke_code matches now) r.codes (λ c. ground arith)

codes_refused :
    (r : MemoryRepository) (matches : Matches) (hash : Hash)
    (client_id redirect_uri code_challenge : String) (now : Time) (a : AuthorizationCode)
    → All (IsRevokedIf matches) r.codes
    → (consume_authorization_code r hash client_id redirect_uri code_challenge now).1 ≡ ok a
    → matches a.user_id a.session_id a.client_id ≡ false
codes_refused r matches hash client_id redirect_uri code_challenge now a all_revoked h =
    let (c, e, v, same) = (consume_ok_iff client_id redirect_uri code_challenge now r hash a).0 h in
    let gone = find_first-All (IsRevokedIf matches) (code_has_hash hash) r.codes c all_revoked e in
    elim (Bool-cases (matches a.user_id a.session_id a.client_id)) [
      | inl m ↦ absurd (gone (rw same at m) v.unrevoked)
      | inr m ↦ m
    ]

-- Once the user is signed out everywhere but in the session `except`, no code of the user from
-- another session is handed out.
revoked_codes_refused :
    (r : MemoryRepository) (user_id except : String) (revoked : Time) (hash : Hash)
    (client_id redirect_uri code_challenge : String) (now : Time) (a : AuthorizationCode)
    → (consume_authorization_code
        (revoke_user_tokens r user_id except revoked)
        hash
        client_id
        redirect_uri
        code_challenge
        now).1
      ≡ ok a
    → of_user user_id except a.user_id a.session_id a.client_id ≡ false
unfolding revoke_user_tokens
revoked_codes_refused r user_id except revoked hash client_id redirect_uri code_challenge now a h =
    codes_refused (revoke_user_tokens r user_id except revoked) (of_user user_id except) hash
      client_id redirect_uri code_challenge now a (codes_revoked r (of_user user_id except) revoked)
      h

-- No device that the test picks is left.
abbrev pub NoDevice : (DeviceAuthorization → Bool) → MemoryRepository → Type 0
NoDevice p r = All (λ d. p d ≡ false) r.devices

-- Revoking a user's tokens answers every later look-up as if the user's tokens of all sessions but
-- `except` were deleted and the others were not touched, and leaves no device that this user has
-- approved.
revoke_user-SameTokens :
    (r : MemoryRepository) (user_id except : String) (now : Time)
    → SameTokens
        (revoke_user_tokens r user_id except now)
        (without_matching (of_user user_id except) r)
      × NoDevice (approved_by user_id) (revoke_user_tokens r user_id except now)
unfolding revoke_user_tokens
revoke_user-SameTokens r user_id except now = (
  SameTokens-same (revoke_user_tokens r user_id except now) _ _ refl refl
      (matching-SameTokens r (of_user user_id except) now),
  All-map (λ d. approved_by user_id d ≡ false) (deny_if (approved_by user_id)) _
      (λ d. ground arith),
)

-- Revoking a client's tokens does so for all tokens of the client, and leaves no device of the
-- client that waits for a decision or for its token.
revoke_client-SameTokens :
    (r : MemoryRepository) (client_id : String) (now : Time)
    → SameTokens (revoke_client_tokens r client_id now) (without_matching (of_client client_id) r)
      × NoDevice (open_of_client client_id) (revoke_client_tokens r client_id now)
unfolding revoke_client_tokens
revoke_client-SameTokens r client_id now = (
  SameTokens-same (revoke_client_tokens r client_id now) _ _ refl refl
      (matching-SameTokens r (of_client client_id) now),
  All-map (λ d. open_of_client client_id d ≡ false) (deny_if (open_of_client client_id)) _
      (λ d. ground arith),
)
