-- ===== src/Oauth/Grants/Keys.antt =====
-- internal/oauth/store.go: the keys of consents and of client sessions.
use certus.Common.{
  String, ◌≡◌, refl, inl, inr, Bool, true, false, not, List, [], ◌∷◌, arith, ◌==◌, eq_iff, Time,
  Hash, Bool-cases, Option-cases, any, All-mono, find_first, change_first, Unique, any-false,
  none-find_first, Unique-filter, Unique-remove_first, Unique-append, Unique-change_first,
}
use certus.Oauth.Types.{
  new_memory_repository, RefreshToken, OidcClientSession, Consent, MemoryRepository,
}
use certus.Oauth.Tokens.{
  save_authorization_code, consume_authorization_code, save_access_token, revoke_access_token,
  save_refresh_token, revoke_family, rotate_at, rotate_refresh_token, revoke_refresh_token,
}
use certus.Oauth.Revocation.{revoke_session_tokens, revoke_user_tokens, revoke_client_tokens}
use certus.Oauth.Consents.{merge_scopes, consent_of, renewed, grant_consent, delete_consent}
use certus.Oauth.Devices.{
  save_device_authorization, awaits_decision, decided, decide_device_authorization,
  poll_device_authorization, session_of, save_oidc_client_session, delete_oidc_client_sessions,
  Decision,
}
use certus.Oauth.Operations.{
  step, run, Call, rotate, revoke_refresh_call, decide, save_client_session, delete_client_sessions,
  grant, withdraw,
}

abbrev pub same_consent : Consent → Consent → Bool
same_consent x y = consent_of x.user_id x.client_id y

abbrev pub same_session : OidcClientSession → OidcClientSession → Bool
same_session x y = session_of x.session_id x.client_id y

-- One consent for each user and client, one client session for each session and client.
pub record IsKeyed (r : MemoryRepository) : Type 0 where
  pub consents : Unique same_consent r.consents
  pub sessions : Unique same_session r.oidc_sessions

new_consent :
    (user_id client_id : String) (x y : Consent)
    → y.user_id ≡ user_id
    → y.client_id ≡ client_id
    → consent_of user_id client_id x ≡ false
    → same_consent x y ≡ false
new_consent user_id client_id x y u c h = ground (
  arith,
  eq_iff x.user_id user_id,
  eq_iff x.client_id client_id,
  eq_iff y.user_id x.user_id,
  eq_iff y.client_id x.client_id,
)

grant-Unique :
    (r : MemoryRepository) (user_id client_id : String) (scopes : List String) (now : Time)
    → Unique same_consent r.consents
    → Unique same_consent (grant_consent r user_id client_id scopes now).0.consents
unfolding grant_consent
grant-Unique r user_id client_id scopes now h =
    elim (Option-cases (find_first (consent_of user_id client_id) r.consents)) [
      | inl e ↦
          let value : Consent = record {
            user_id = user_id;
            client_id = client_id;
            scopes = merge_scopes [] scopes;
            granted_at = now;
            updated_at = now;
          } in
          rw (e, grant_consent)
            (Unique-append same_consent r.consents value h (
              All-mono (λ x. consent_of user_id client_id x ≡ false)
                (λ x. same_consent x value ≡ false) r.consents
                (λ x k. new_consent user_id client_id x value refl refl k)
                (none-find_first (consent_of user_id client_id) r.consents e)))
      | inr (c, e) ↦
          rw (e, grant_consent)
            (Unique-change_first same_consent (consent_of user_id client_id) (renewed scopes now)
              (λ x y m. refl) (λ x y m. refl) r.consents h)
    ]

grant-sessions :
    (r : MemoryRepository) (user_id client_id : String) (scopes : List String) (now : Time)
    → (grant_consent r user_id client_id scopes now).0.oidc_sessions ≡ r.oidc_sessions
unfolding grant_consent
grant-sessions r user_id client_id scopes now = ground arith

new_session :
    (value x : OidcClientSession)
    → session_of value.session_id value.client_id x ≡ false
    → same_session x value ≡ false
new_session value x h = ground (
  arith,
  eq_iff x.session_id value.session_id,
  eq_iff x.client_id value.client_id,
  eq_iff value.session_id x.session_id,
  eq_iff value.client_id x.client_id,
)

replaced_left :
    (value x y : OidcClientSession)
    → session_of value.session_id value.client_id x ≡ true
    → same_session value y ≡ same_session x y
replaced_left value x y m =
    let s : x.session_id ≡ value.session_id =
      ground (arith, eq_iff x.session_id value.session_id) in
    let c : x.client_id ≡ value.client_id = ground (arith, eq_iff x.client_id value.client_id) in
    rw (s, c)

replaced_right :
    (value x y : OidcClientSession)
    → session_of value.session_id value.client_id y ≡ true
    → same_session x value ≡ same_session x y
replaced_right value x y m =
    let s : y.session_id ≡ value.session_id =
      ground (arith, eq_iff y.session_id value.session_id) in
    let c : y.client_id ≡ value.client_id = ground (arith, eq_iff y.client_id value.client_id) in
    rw (s, c)

save_session-Unique :
    (r : MemoryRepository) (value : OidcClientSession)
    → Unique same_session r.oidc_sessions
    → Unique same_session (save_oidc_client_session r value).oidc_sessions
unfolding save_oidc_client_session
save_session-Unique r value h =
    elim (Bool-cases (any (session_of value.session_id value.client_id) r.oidc_sessions)) [
      | inl e ↦ rw e (
          Unique-change_first same_session (session_of value.session_id value.client_id)
            (λ _. value) (λ x y m. replaced_left value x y m) (λ x y m. replaced_right value x y m)
            r.oidc_sessions h)
      | inr e ↦ rw e (
          Unique-append same_session r.oidc_sessions value h (
            All-mono (λ x. session_of value.session_id value.client_id x ≡ false)
              (λ x. same_session x value ≡ false) r.oidc_sessions (λ x k. new_session value x k)
              (any-false _ r.oidc_sessions e)))
    ]

save_session-consents :
    (r : MemoryRepository) (value : OidcClientSession)
    → (save_oidc_client_session r value).consents ≡ r.consents
unfolding save_oidc_client_session
save_session-consents r value = ground arith

grant-IsKeyed :
    (r : MemoryRepository) (user_id client_id : String) (scopes : List String) (now : Time)
    → IsKeyed r
    → IsKeyed (grant_consent r user_id client_id scopes now).0
grant-IsKeyed r user_id client_id scopes now h = record {
  consents = grant-Unique r user_id client_id scopes now h.consents;
  sessions = rw grant-sessions h.sessions;
}

IsKeyed-same :
    (r s : MemoryRepository)
    → s.consents ≡ r.consents
    → s.oidc_sessions ≡ r.oidc_sessions
    → IsKeyed r
    → IsKeyed s
IsKeyed-same r s c o h = record { consents = rw c h.consents; sessions = rw o h.sessions }

decide-IsKeyed :
    (r : MemoryRepository) (user_hash : Hash) (c : Decision) (now : Time)
    → IsKeyed r
    → IsKeyed (decide_device_authorization r user_hash c now).0
unfolding decide_device_authorization
decide-IsKeyed r user_hash c now h =
    elim (Option-cases (find_first (awaits_decision user_hash now) r.devices)) [
      | inl e ↦ rw (e, decide_device_authorization) h
      | inr (d, e) ↦
          let s : MemoryRepository = record r {
            devices = change_first (awaits_decision user_hash now) (decided c) r.devices;
          } in
          let k : IsKeyed s = IsKeyed-same r s refl refl h in
          rw (e, decide_device_authorization)
            (ground (arith, k, grant-IsKeyed s c.user_id d.client_id d.scope now k))
    ]

delete_consent-IsKeyed :
    (r : MemoryRepository) (user_id client_id : String) (now : Time)
    → IsKeyed r
    → IsKeyed (delete_consent r user_id client_id now).0
unfolding delete_consent
delete_consent-IsKeyed r user_id client_id now h =
    elim (Bool-cases (any (consent_of user_id client_id) r.consents)) [
      | inl e ↦ rw e (record {
        consents =
            Unique-remove_first same_consent (consent_of user_id client_id) r.consents h.consents;
        sessions = h.sessions;
      })
      | inr e ↦ rw e h
    ]

rotate-IsKeyed :
    (r : MemoryRepository) (hash : Hash) (replacement : RefreshToken) (now : Time)
    → IsKeyed r
    → IsKeyed (rotate_refresh_token r hash replacement now).0
unfolding rotate_refresh_token rotate_at
rotate-IsKeyed r hash replacement now h = IsKeyed-same r _ (ground arith) (ground arith) h

revoke_refresh-IsKeyed :
    (r : MemoryRepository) (hash : Hash) (client_id : String) (now : Time)
    → IsKeyed r
    → IsKeyed (revoke_refresh_token r hash client_id now).0
unfolding revoke_refresh_token revoke_family
revoke_refresh-IsKeyed r hash client_id now h = IsKeyed-same r _ (ground arith) (ground arith) h

pub step-IsKeyed : (r : MemoryRepository) (c : Call) → IsKeyed r → IsKeyed (step r c)
unfolding step save_authorization_code consume_authorization_code save_access_token
    revoke_access_token save_refresh_token save_device_authorization poll_device_authorization
    revoke_session_tokens revoke_user_tokens revoke_client_tokens delete_oidc_client_sessions
step-IsKeyed r (rotate hash replacement now) h = rotate-IsKeyed r hash replacement now h
step-IsKeyed r (revoke_refresh_call hash client_id now) h =
    revoke_refresh-IsKeyed r hash client_id now h
step-IsKeyed r (decide user_hash c now) h = decide-IsKeyed r user_hash c now h
step-IsKeyed r (save_client_session value) h = record {
  consents = rw save_session-consents h.consents;
  sessions = save_session-Unique r value h.sessions;
}
step-IsKeyed r (delete_client_sessions session_id) h = record {
  consents = h.consents;
  sessions =
      Unique-filter same_session (λ v. not (v.session_id == session_id)) r.oidc_sessions h.sessions;
}
step-IsKeyed r (grant user_id client_id scopes now) h =
    grant-IsKeyed r user_id client_id scopes now h
step-IsKeyed r (withdraw user_id client_id now) h = delete_consent-IsKeyed r user_id client_id now h
step-IsKeyed r _ h = IsKeyed-same r _ refl refl h

run-keeps : (r : MemoryRepository) (cs : List Call) → IsKeyed r → IsKeyed (run r cs)
unfolding run
run-keeps r [] h = h
run-keeps r (c ∷ cs) h = run-keeps (step r c) cs (step-IsKeyed r c h)

-- Whatever is called on a new repository, no user has two consents for one client, and no session
-- is listed twice for one client.
pub run-IsKeyed : (cs : List Call) → IsKeyed (run new_memory_repository cs)
run-IsKeyed cs = run-keeps new_memory_repository cs (record { consents = tt; sessions = tt })
