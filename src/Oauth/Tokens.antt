-- ===== src/Oauth/Tokens.antt =====
-- internal/oauth/store.go: authorization codes, access tokens and refresh tokens.
use certus.Common.{
  String, Bool, not, ◌&&◌, ◌||◌, Option, none, some, List, [], ◌∷◌, ◌++◌, map, ◌==◌, Time, Hash,
  after, is_nil, bytes_equal, if◌then◌else◌, find_first, change_first, visit_first, all, any, ok,
  err,
}
use certus.Oauth.Types.{
  AuthorizationCode, AccessToken, RefreshToken, MemoryAuthorizationCode, MemoryAccessToken,
  MemoryRefreshToken, MemoryRepository, Reply, Slice, items, clone_slice, grant_not_found,
  grant_expired, grant_consumed, refresh_reuse, invalid_scope,
}

-- ScopesCover
unfoldable pub scopes_cover : List String → List String → Bool
scopes_cover granted requested = all (λ scope. any (λ g. g == scope) granted) requested

unfoldable pub save_authorization_code : MemoryRepository → AuthorizationCode → MemoryRepository
save_authorization_code r value = record r {
  codes = r.codes ++ record { code = value; consumed_at = none; revoked_at = none } ∷ [];
}

abbrev pub code_has_hash : Hash → MemoryAuthorizationCode → Bool
code_has_hash hash record' = bytes_equal record'.hash hash

-- The body of ConsumeAuthorizationCode's loop at the record whose hash matches.
unfoldable pub consume_code :
    String
    → String
    → String
    → Time
    → MemoryAuthorizationCode
    → MemoryAuthorizationCode × Reply AuthorizationCode
consume_code client_id redirect_uri code_challenge now c =
    if not (c.client_id == client_id)
      || not (c.redirect_uri == redirect_uri)
      || not (c.code_challenge == code_challenge)
    then (c, err grant_not_found)
    else if not (is_nil c.consumed_at)
    then (c, err grant_consumed)
    else if not (is_nil c.revoked_at)
    then (c, err grant_not_found)
    else if not (after c.expires_at now)
    then (c, err grant_expired)
    else (record c { consumed_at = some now }, ok c.code)

unfoldable pub consume_authorization_code :
    MemoryRepository
    → Hash
    → String
    → String
    → String
    → Time
    → MemoryRepository × Reply AuthorizationCode
consume_authorization_code r hash client_id redirect_uri code_challenge now =
    let visited =
      visit_first (code_has_hash hash) (consume_code client_id redirect_uri code_challenge now)
        (err grant_not_found) r.codes in
    (record r { codes = visited.0 }, visited.1)

unfoldable pub save_access_token : MemoryRepository → AccessToken → MemoryRepository
save_access_token r value = record r {
  access_tokens = r.access_tokens ++ record { token = value; revoked_at = none } ∷ [];
}

abbrev pub access_is_live : Hash → Time → MemoryAccessToken → Bool
access_is_live hash now t = bytes_equal t.hash hash && is_nil t.revoked_at && after t.expires_at now

unfoldable pub find_access_token : MemoryRepository → Hash → Time → Reply AccessToken
find_access_token r hash now = elim (find_first (access_is_live hash now) r.access_tokens) [
  | none ↦ err grant_not_found
  | some t ↦ ok t.token
]

-- `if record.revokedAt == nil { record.revokedAt = &now }`
abbrev pub mark : Option Time → Time → Option Time
mark none now = some now
mark (some t) now = some t

unfoldable pub revoke_access_token :
    MemoryRepository → Hash → String → Time → MemoryRepository × Reply (Unit {0})
revoke_access_token r hash client_id now =
    let visited =
      visit_first (λ (t : MemoryAccessToken). bytes_equal t.hash hash && t.client_id == client_id)
        (λ t. (record t { revoked_at = mark t.revoked_at now }, ok tt)) (err grant_not_found)
        r.access_tokens in
    (record r { access_tokens = visited.0 }, visited.1)

unfoldable pub save_refresh_token : MemoryRepository → RefreshToken → MemoryRepository
save_refresh_token r value = record r {
  refresh =
      r.refresh
      ++ record {
        token = record value { scope = clone_slice value.scope };
        consumed_at = none;
        revoked_at = none;
      }
        ∷ [];
}

abbrev pub refresh_is_live : Hash → Time → MemoryRefreshToken → Bool
refresh_is_live hash now t =
    bytes_equal t.hash hash && is_nil t.consumed_at && is_nil t.revoked_at && after t.expires_at now

-- The copy of a stored token that the methods return.
abbrev pub cloned : RefreshToken → RefreshToken
cloned t = record t { scope = clone_slice t.scope }

unfoldable pub find_refresh_token : MemoryRepository → Hash → Time → Reply RefreshToken
find_refresh_token r hash now = elim (find_first (refresh_is_live hash now) r.refresh) [
  | none ↦ err grant_not_found
  | some t ↦ ok (cloned t.token)
]

abbrev pub revoke_refresh_in : String → Time → MemoryRefreshToken → MemoryRefreshToken
revoke_refresh_in family now t =
    if t.family_id == family then record t { revoked_at = some now } else t

abbrev pub revoke_access_in : String → Time → MemoryAccessToken → MemoryAccessToken
revoke_access_in family now t =
    if t.family_id == family then record t { revoked_at = some now } else t

-- The two loops, in RotateRefreshToken and in RevokeRefreshToken, over the tokens of a family.
unfoldable pub revoke_family : MemoryRepository → String → Time → MemoryRepository
revoke_family r family now = record r {
  refresh = map (revoke_refresh_in family now) r.refresh;
  access_tokens = map (revoke_access_in family now) r.access_tokens;
}

abbrev pub refresh_has_hash : Hash → MemoryRefreshToken → Bool
refresh_has_hash hash t = bytes_equal t.hash hash

abbrev pub consume_refresh : Time → MemoryRefreshToken → MemoryRefreshToken
consume_refresh now t = record t { consumed_at = some now }

-- `if replacement.Scope == nil { replacement.Scope = append([]string(nil), record.Scope...) }`
abbrev pub scope_or : Slice String → Slice String → Slice String
scope_or none old = clone_slice old
scope_or (some xs) old = some xs

abbrev pub inherit : RefreshToken → RefreshToken → RefreshToken
inherit old replacement = record replacement {
  family_id = old.family_id;
  user_id = old.user_id;
  session_id = old.session_id;
  scope = scope_or replacement.scope old.scope;
}

-- The body of RotateRefreshToken's loop at the record whose hash matches.
unfoldable pub rotate_at :
    MemoryRepository
    → Hash
    → RefreshToken
    → Time
    → MemoryRefreshToken
    → MemoryRepository × Reply RefreshToken
unfolding scopes_cover revoke_family
rotate_at r hash replacement now t =
    let heir = inherit t.token replacement in
    if not (t.client_id == replacement.client_id)
    then (r, err grant_not_found)
    else if not (is_nil t.revoked_at) || not (is_nil t.consumed_at)
    then (revoke_family r t.family_id now, err refresh_reuse)
    else if not (after t.expires_at now)
    then (r, err grant_expired)
    else if not (scopes_cover (items t.scope) (items heir.scope))
    then (r, err invalid_scope)
    else (
      record r {
        refresh =
            change_first (refresh_has_hash hash) (consume_refresh now) r.refresh
            ++ record { token = heir; consumed_at = none; revoked_at = none } ∷ [];
      },
      ok (cloned t.token),
    )

unfoldable pub rotate_refresh_token :
    MemoryRepository → Hash → RefreshToken → Time → MemoryRepository × Reply RefreshToken
rotate_refresh_token r hash replacement now = elim (find_first (refresh_has_hash hash) r.refresh) [
  | none ↦ (r, err grant_not_found)
  | some t ↦ rotate_at r hash replacement now t
]

unfoldable pub revoke_refresh_token :
    MemoryRepository → Hash → String → Time → MemoryRepository × Reply (Unit {0})
revoke_refresh_token r hash client_id now =
    elim (find_first
      (λ (t : MemoryRefreshToken). bytes_equal t.hash hash && t.client_id == client_id) r.refresh) [
        | none ↦ (r, err grant_not_found)
        | some t ↦ (revoke_family r t.family_id now, ok tt)
      ]
