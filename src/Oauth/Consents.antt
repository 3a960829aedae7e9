-- ===== src/Oauth/Consents.antt =====
-- internal/oauth/store.go: consents.
use Prim.Native.Nat.{Ordering}
use Prim.Native.String.{compare}
use certus.Common.{
  String, Bool, true, false, ◌&&◌, none, some, List, [], ◌∷◌, ◌++◌, map, ◌==◌, Time, if◌then◌else◌,
  find_first, change_first, filter, any, sort_by, remove_first, leb, ok, err,
}
use certus.Oauth.Types.{Consent, MemoryRepository, Reply, consent_not_found}
use certus.Oauth.Tokens.{scopes_cover}
use certus.Oauth.Revocation.{revoke_matching_tokens, of_consent, deny_if, approved_for}

-- Go's `<=` on strings.
abbrev pub string_le : String → String → Bool
string_le a b = elim (compare a b) [ Ordering.gt ↦ false | _ ↦ true ]

-- The loop of mergeScopes.
unfoldable pub add_scopes : List String → List String → List String
add_scopes result [] = result
add_scopes result (scope ∷ requested) =
    add_scopes (if any (λ g. g == scope) result then result else result ++ scope ∷ []) requested

unfoldable pub merge_scopes : List String → List String → List String
unfolding add_scopes
merge_scopes current requested = sort_by string_le (add_scopes current requested)

-- Consent.Covers
unfoldable pub covers : Consent → List String → Bool
unfolding scopes_cover
covers c scopes = scopes_cover c.scopes scopes

abbrev pub consent_of : String → String → Consent → Bool
consent_of user_id client_id c = c.user_id == user_id && c.client_id == client_id

unfoldable pub find_consent : MemoryRepository → String → String → Reply Consent
find_consent r user_id client_id = elim (find_first (consent_of user_id client_id) r.consents) [
  | none ↦ err consent_not_found
  | some c ↦ ok c
]

abbrev pub renewed : List String → Time → Consent → Consent
unfolding merge_scopes
renewed scopes now c = record c { scopes = merge_scopes c.scopes scopes; updated_at = now }

-- grantConsentLocked
unfoldable pub grant_consent :
    MemoryRepository → String → String → List String → Time → MemoryRepository × Consent
unfolding merge_scopes
grant_consent r user_id client_id scopes now =
    elim (find_first (consent_of user_id client_id) r.consents) [
      | none ↦
          let value : Consent = record {
            user_id = user_id;
            client_id = client_id;
            scopes = merge_scopes [] scopes;
            granted_at = now;
            updated_at = now;
          } in
          (record r { consents = r.consents ++ value ∷ [] }, value)
      | some c ↦ (
        record r {
          consents = change_first (consent_of user_id client_id) (renewed scopes now) r.consents;
        },
        renewed scopes now c,
      )
    ]

unfoldable pub list_consents_by_user : MemoryRepository → String → List Consent
list_consents_by_user r user_id =
    sort_by (λ a b. leb b.updated_at a.updated_at) (filter (λ c. c.user_id == user_id) r.consents)

unfoldable pub delete_consent :
    MemoryRepository → String → String → Time → MemoryRepository × Reply (Unit {0})
unfolding revoke_matching_tokens
delete_consent r user_id client_id now =
    if any (consent_of user_id client_id) r.consents
    then (let s =
          revoke_matching_tokens
            (record r { consents = remove_first (consent_of user_id client_id) r.consents })
            (of_consent user_id client_id) now in
        (record s { devices = map (deny_if (approved_for user_id client_id)) s.devices }, ok tt))
    else (r, err consent_not_found)
