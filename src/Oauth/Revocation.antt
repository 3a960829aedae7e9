-- ===== src/Oauth/Revocation.antt =====
-- internal/oauth/store.go: the revocation of the tokens that match, and of the devices with them.
use certus.Common.{String, Bool, not, ◌&&◌, ◌||◌, map, ◌==◌, Time, if◌then◌else◌}
use certus.Oauth.Types.{
  DeviceAuthorization, pending, approved, denied, status_eq, MemoryAuthorizationCode,
  MemoryAccessToken, MemoryRefreshToken, MemoryRepository,
}
use certus.Oauth.Tokens.{mark}

-- The function argument of revokeMatchingTokens, over user, session and client.
abbrev pub Matches : Type 0
Matches = String → String → String → Bool

abbrev pub revoke_code : Matches → Time → MemoryAuthorizationCode → MemoryAuthorizationCode
revoke_code matches now c =
    if matches c.user_id c.session_id c.client_id
    then record c { revoked_at = mark c.revoked_at now }
    else c

abbrev pub revoke_access : Matches → Time → MemoryAccessToken → MemoryAccessToken
revoke_access matches now t =
    if matches t.user_id t.session_id t.client_id
    then record t { revoked_at = mark t.revoked_at now }
    else t

abbrev pub revoke_refresh : Matches → Time → MemoryRefreshToken → MemoryRefreshToken
revoke_refresh matches now t =
    if matches t.user_id t.session_id t.client_id
    then record t { revoked_at = mark t.revoked_at now }
    else t

unfoldable pub revoke_matching_tokens : MemoryRepository → Matches → Time → MemoryRepository
revoke_matching_tokens r matches now = record r {
  codes = map (revoke_code matches now) r.codes;
  access_tokens = map (revoke_access matches now) r.access_tokens;
  refresh = map (revoke_refresh matches now) r.refresh;
}

abbrev pub of_session : String → String → Matches
of_session user_id session_id = λ u s c. u == user_id && s == session_id

abbrev pub of_user : String → String → Matches
of_user user_id except = λ u s c. u == user_id && (except == "" || not (s == except))

abbrev pub of_client : String → Matches
of_client client_id = λ u s c. c == client_id

abbrev pub of_consent : String → String → Matches
of_consent user_id client_id = λ u s c. u == user_id && c == client_id

unfoldable pub revoke_session_tokens : MemoryRepository → String → String → Time → MemoryRepository
unfolding revoke_matching_tokens
revoke_session_tokens r user_id session_id now =
    revoke_matching_tokens r (of_session user_id session_id) now

-- The loops that deny the devices which match.
abbrev pub deny_if : (DeviceAuthorization → Bool) → DeviceAuthorization → DeviceAuthorization
deny_if p d = if p d then record d { status = denied } else d

abbrev pub approved_by : String → DeviceAuthorization → Bool
approved_by user_id d = d.user_id == user_id && status_eq d.status approved

abbrev pub open_of_client : String → DeviceAuthorization → Bool
open_of_client client_id d =
    d.client_id == client_id && (status_eq d.status pending || status_eq d.status approved)

abbrev pub approved_for : String → String → DeviceAuthorization → Bool
approved_for user_id client_id d =
    d.user_id == user_id && d.client_id == client_id && status_eq d.status approved

unfoldable pub revoke_user_tokens : MemoryRepository → String → String → Time → MemoryRepository
unfolding revoke_matching_tokens
revoke_user_tokens r user_id except now =
    let s = revoke_matching_tokens r (of_user user_id except) now in
    record s { devices = map (deny_if (approved_by user_id)) s.devices }

unfoldable pub revoke_client_tokens : MemoryRepository → String → Time → MemoryRepository
unfolding revoke_matching_tokens
revoke_client_tokens r client_id now =
    let s = revoke_matching_tokens r (of_client client_id) now in
    record s { devices = map (deny_if (open_of_client client_id)) s.devices }
