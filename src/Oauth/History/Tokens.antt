-- ===== src/Oauth/History/Tokens.antt =====
-- internal/oauth/store.go: the calls on codes and tokens, and what is stored.
use certus.Common.{
  String, none, List, [], ◌∷◌, ◌++◌, arith, Time, Hash, bytes_equal, ◌&&◌, ◌==◌, find_first,
  change_first, visit_first-state, Grows, Grows-append, Grows-map, Grows-trans, Grows-change_first,
  inl, inr, Option-cases,
}
use certus.Oauth.Types.{MemoryRepository, MemoryAuthorizationCode, MemoryRefreshToken, RefreshToken}
use certus.Oauth.Tokens.{
  code_has_hash, consume_code, consume_authorization_code, revoke_access_token, revoke_refresh_in,
  revoke_access_in, revoke_family, refresh_has_hash, consume_refresh, inherit, rotate_at,
  rotate_refresh_token, revoke_refresh_token,
}
use certus.Oauth.Revocation.{
  Matches, revoke_code, revoke_access, revoke_refresh, revoke_matching_tokens,
}
use certus.Oauth.History.Keeps.{
  KeepsCode, KeepsAccess, KeepsRefresh, KeepsCode-refl, KeepsAccess-refl, KeepsRefresh-refl,
  KeepsRefresh-trans,
}
use certus.Oauth.History.Persists.{
  Persists, Persists-refl, codes_refl, access_refl, refresh_refl, devices_refl,
}

pub consume_code-Keeps :
    (client_id redirect_uri code_challenge : String) (now : Time) (c : MemoryAuthorizationCode)
    → KeepsCode c (consume_code client_id redirect_uri code_challenge now c).0
unfolding consume_code
consume_code-Keeps client_id redirect_uri code_challenge now c = ground arith

pub consume-Persists :
    (r : MemoryRepository) (hash : Hash) (client_id redirect_uri code_challenge : String)
    (now : Time)
    → Persists r (consume_authorization_code r hash client_id redirect_uri code_challenge now).0
unfolding consume_authorization_code
consume-Persists r hash client_id redirect_uri code_challenge now = record {
  codes = rw visit_first-state (
      Grows-change_first KeepsCode KeepsCode-refl (code_has_hash hash) _
        (λ c _. consume_code-Keeps client_id redirect_uri code_challenge now c) r.codes);
  access_tokens = access_refl r.access_tokens;
  refresh = refresh_refl r.refresh;
  devices = devices_refl r.devices;
}

pub revoke_access-Persists :
    (r : MemoryRepository) (hash : Hash) (client_id : String) (now : Time)
    → Persists r (revoke_access_token r hash client_id now).0
unfolding revoke_access_token
revoke_access-Persists r hash client_id now = record {
  codes = codes_refl r.codes;
  access_tokens =
      rw visit_first-state
        (Grows-change_first KeepsAccess KeepsAccess-refl _ _ (λ t _. ground arith) r.access_tokens);
  refresh = refresh_refl r.refresh;
  devices = devices_refl r.devices;
}

pub revoke_family-Persists :
    (r : MemoryRepository) (family : String) (now : Time) → Persists r (revoke_family r family now)
unfolding revoke_family
revoke_family-Persists r family now = record {
  codes = codes_refl r.codes;
  access_tokens =
      Grows-map KeepsAccess (revoke_access_in family now) (λ t. ground arith) r.access_tokens;
  refresh = Grows-map KeepsRefresh (revoke_refresh_in family now) (λ t. ground arith) r.refresh;
  devices = devices_refl r.devices;
}

-- The appended heir stands behind the consumed token.
pub rotated-Grows :
    (hash : Hash) (now : Time) (xs : List MemoryRefreshToken) (heir : MemoryRefreshToken)
    → Grows KeepsRefresh xs
        (change_first (refresh_has_hash hash) (consume_refresh now) xs ++ heir ∷ [])
rotated-Grows hash now xs heir =
    Grows-trans KeepsRefresh KeepsRefresh-trans xs _ _
      (Grows-change_first KeepsRefresh KeepsRefresh-refl _ _ (λ t _. ground arith) xs)
      (Grows-append KeepsRefresh KeepsRefresh-refl _ (heir ∷ []))

pub rotate_at-Persists :
    (r : MemoryRepository) (hash : Hash) (replacement : RefreshToken) (now : Time)
    (t : MemoryRefreshToken)
    → Persists r (rotate_at r hash replacement now t).0
unfolding rotate_at
rotate_at-Persists r hash replacement now t = ground (
  arith,
  Persists-refl r,
  revoke_family-Persists r t.family_id now,
  rotated-Grows hash now r.refresh
      (record { token = inherit t.token replacement; consumed_at = none; revoked_at = none }),
)

pub rotate-Persists :
    (r : MemoryRepository) (hash : Hash) (replacement : RefreshToken) (now : Time)
    → Persists r (rotate_refresh_token r hash replacement now).0
unfolding rotate_refresh_token
rotate-Persists r hash replacement now =
    elim (Option-cases (find_first (refresh_has_hash hash) r.refresh)) [
      | inl e ↦ rw (e, rotate_refresh_token) (Persists-refl r)
      | inr (t, e) ↦ rw (e, rotate_refresh_token) (rotate_at-Persists r hash replacement now t)
    ]

pub revoke_refresh-Persists :
    (r : MemoryRepository) (hash : Hash) (client_id : String) (now : Time)
    → Persists r (revoke_refresh_token r hash client_id now).0
unfolding revoke_refresh_token
revoke_refresh-Persists r hash client_id now =
    elim (Option-cases (
      find_first (λ (t : MemoryRefreshToken). bytes_equal t.hash hash && t.client_id == client_id)
        r.refresh)) [
          | inl e ↦ rw (e, revoke_refresh_token) (Persists-refl r)
          | inr (t, e) ↦ rw (e, revoke_refresh_token) (revoke_family-Persists r t.family_id now)
        ]

pub matching-Persists :
    (r : MemoryRepository) (matches : Matches) (now : Time)
    → Persists r (revoke_matching_tokens r matches now)
unfolding revoke_matching_tokens
matching-Persists r matches now = record {
  codes = Grows-map KeepsCode (revoke_code matches now) (λ c. ground arith) r.codes;
  access_tokens =
      Grows-map KeepsAccess (revoke_access matches now) (λ t. ground arith) r.access_tokens;
  refresh = Grows-map KeepsRefresh (revoke_refresh matches now) (λ t. ground arith) r.refresh;
  devices = devices_refl r.devices;
}
