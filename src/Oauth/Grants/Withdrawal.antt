-- ===== src/Oauth/Grants/Withdrawal.antt =====
-- internal/oauth/store.go: DeleteConsent, and the lists by user and by session.
use certus.Common.{
  String, ◌≡◌, inl, inr, true, false, not, none, List, [], ◌∷◌, arith, ◌==◌, eq_iff, leb,
  if◌then◌else◌, ok, err, Time, Bool-cases, filter, any, All-map, find_first, IsSorted,
  sort_by-perm, sort_by-IsSorted, remove_first, find_first-none, remove_first-none,
}
use certus.Common.{Perm}
use certus.Oauth.Types.{OidcClientSession, Consent, MemoryRepository, consent_not_found}
use certus.Oauth.Tokens.{find_access_token, find_refresh_token}
use certus.Oauth.Revocation.{of_consent, deny_if, approved_for}
use certus.Oauth.Consents.{consent_of, find_consent, list_consents_by_user, delete_consent}
use certus.Oauth.Devices.{list_oidc_client_sessions, delete_oidc_client_sessions}
use certus.Oauth.Grants.Reuse.{SameTokens}
use certus.Oauth.Grants.Revoked.{without_matching, matching-SameTokens, NoDevice}
use certus.Oauth.Grants.Keys.{same_consent, IsKeyed}

-- Removing the first consent of a user and client, where there is one at most.
apart :
    (user_id client_id : String) (x y : Consent)
    → consent_of user_id client_id x ≡ true
    → same_consent x y ≡ false
    → consent_of user_id client_id y ≡ false
apart user_id client_id x y m h =
    let u : x.user_id ≡ user_id = ground (arith, eq_iff x.user_id user_id) in
    let c : x.client_id ≡ client_id = ground (arith, eq_iff x.client_id client_id) in rw (u, c) at h

-- A consent that is withdrawn is gone, the tokens issued to that client for that user are as good
-- as deleted, the others answer as before, and no device of the pair is left approved.
delete_consent-withdraws :
    (r : MemoryRepository) (user_id client_id : String) (now : Time)
    → IsKeyed r
    → (delete_consent r user_id client_id now).1 ≡ ok tt
    → (find_consent (delete_consent r user_id client_id now).0 user_id client_id
        ≡ err consent_not_found)
      × SameTokens
          (delete_consent r user_id client_id now).0
          (without_matching (of_consent user_id client_id) r)
      × NoDevice (approved_for user_id client_id) (delete_consent r user_id client_id now).0
unfolding delete_consent find_consent find_access_token find_refresh_token
delete_consent-withdraws r user_id client_id now keyed h =
    elim (Bool-cases (any (consent_of user_id client_id) r.consents)) [
      | inl e ↦
          let left : MemoryRepository = record r {
            consents = remove_first (consent_of user_id client_id) r.consents;
          } in
          let gone : find_first (consent_of user_id client_id) left.consents ≡ none =
            find_first-none (consent_of user_id client_id) left.consents (
              remove_first-none same_consent (consent_of user_id client_id)
                (apart user_id client_id) r.consents keyed.consents) in
          rw e (
            rw (gone, find_consent),
            record {
              access = (matching-SameTokens left (of_consent user_id client_id) now).access;
              refresh = (matching-SameTokens left (of_consent user_id client_id) now).refresh;
            },
            All-map (λ d. approved_for user_id client_id d ≡ false)
                (deny_if (approved_for user_id client_id)) _ (λ d. ground arith),
          )
      | inr e ↦ absurd (cc (rw e at h))
    ]

-- A user's consents are listed newest first: the list is in order, and has exactly the consents of
-- the user that are stored.
list_consents_by_user-IsSorted :
    (r : MemoryRepository) (user_id : String)
    → IsSorted (λ a b. leb b.updated_at a.updated_at) (list_consents_by_user r user_id)
      × Perm (list_consents_by_user r user_id) (filter (λ c. c.user_id == user_id) r.consents)
unfolding list_consents_by_user
list_consents_by_user-IsSorted r user_id = (
  sort_by-IsSorted (λ (a b : Consent). leb b.updated_at a.updated_at) (λ x y z p q. ground arith)
      (λ x y p. ground arith) (filter (λ c. c.user_id == user_id) r.consents),
  sort_by-perm _ _,
)

filter-filter :
    (session_id other : String) (xs : List OidcClientSession)
    → filter
        (λ (v : OidcClientSession). v.session_id == other)
        (filter (λ v. not (v.session_id == session_id)) xs)
      ≡ (if session_id == other
          then []
          else filter (λ (v : OidcClientSession). v.session_id == other) xs)
filter-filter session_id other [] = ground arith
filter-filter session_id other (x ∷ xs) = ground (
  arith,
  filter-filter session_id other xs,
  eq_iff x.session_id session_id,
  eq_iff x.session_id other,
  eq_iff session_id other,
)

-- After the client sessions of a session are deleted, that session lists none, and the list of any
-- other session is what it was.
list-delete_oidc_client_sessions :
    (r : MemoryRepository) (session_id other : String)
    → list_oidc_client_sessions (delete_oidc_client_sessions r session_id) other
      ≡ (if session_id == other then [] else list_oidc_client_sessions r other)
unfolding list_oidc_client_sessions delete_oidc_client_sessions
list-delete_oidc_client_sessions r session_id other = filter-filter session_id other r.oidc_sessions
