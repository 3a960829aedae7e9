-- ===== src/Oauth/Examples/Tokens.antt =====
-- internal/oauth: the theorems on codes and tokens at concrete inputs.
use certus.Common.{
  ◌≡◌, refl, ◌≢◌, none, some, [], ◌∷◌, arith, ◌==◌, if◌then◌else◌, ok, err, bytes_equal, find_first,
}
use certus.Oauth.Types.{
  RefreshToken, MemoryRefreshToken, MemoryRepository, grant_not_found, refresh_reuse,
}
use certus.Oauth.Tokens.{
  consume_code, consume_authorization_code, refresh_has_hash, rotate_at, rotate_refresh_token,
}
use certus.Oauth.Revocation.{revoke_user_tokens}
use certus.Oauth.Operations.{run}
use certus.Oauth.History.Persists.{Persists}
use certus.Oauth.Grants.Codes.{consume_ok_iff, code_single_use}
use certus.Oauth.Grants.Rotation.{rotate_ok, refresh_single_use, Rotates, IsCopy}
use certus.Oauth.Grants.Reuse.{without_family, reuse_revokes_family, SameTokens}
use certus.Oauth.Examples.{a_code, a_token, next_token, stored, a_history}

consume_ok_iff_example :
    (consume_authorization_code stored (1 ∷ 2 ∷ []) "portal" "https://portal/cb" "c" 20).1
    ≡ ok a_code
unfolding bytes_equal
consume_ok_iff_example =
    (consume_ok_iff "portal" "https://portal/cb" "c" 20 stored (1 ∷ 2 ∷ []) a_code).1 (
      record { code = a_code; consumed_at = none; revoked_at = none },
      refl,
      record {
        client = refl;
        redirect = refl;
        challenge = refl;
        unspent = refl;
        unrevoked = refl;
        unexpired = omega arith;
      },
      refl,
    )

consume_stored :
    (consume_authorization_code stored (1 ∷ 2 ∷ []) "portal" "https://portal/cb" "c" 20).1
    ≡ ok a_code
unfolding consume_authorization_code consume_code bytes_equal
consume_stored = refl

code_single_use_example :
    (consume_authorization_code
      (run
        (consume_authorization_code stored (1 ∷ 2 ∷ []) "portal" "https://portal/cb" "c" 20).0
        a_history)
      (1 ∷ 2 ∷ [])
      "portal"
      "https://portal/cb"
      "c"
      30).1
    ≢ ok a_code
code_single_use_example =
    code_single_use stored (1 ∷ 2 ∷ []) "portal" "https://portal/cb" "c" 20 a_code a_history
      "portal" "https://portal/cb" "c" 30 a_code consume_stored

rotate_stored : (rotate_refresh_token stored (3 ∷ []) next_token 20).1 ≡ ok a_token
unfolding rotate_refresh_token rotate_at bytes_equal
rotate_stored = refl

abbrev rotated : MemoryRepository
rotated = (rotate_refresh_token stored (3 ∷ []) next_token 20).0

rotate_ok_example :
    (t : MemoryRefreshToken) × (heir : RefreshToken) × (find_first
        (λ x. bytes_equal x.hash (3 ∷ []))
        stored.refresh
      ≡ some t)
    × Rotates stored rotated (3 ∷ []) next_token 20 t heir
    × IsCopy a_token t.token
rotate_ok_example = rotate_ok stored (3 ∷ []) next_token 20 a_token rotate_stored

refresh_single_use_example :
    (rotate_refresh_token (run rotated a_history) (3 ∷ []) next_token 30).1
    ≡ (if "portal" == "portal" then err refresh_reuse else err grant_not_found)
refresh_single_use_example =
    refresh_single_use stored (3 ∷ []) next_token 20 a_token a_history next_token 30 rotate_stored

reused : (rotate_refresh_token rotated (3 ∷ []) next_token 30).1 ≡ err refresh_reuse
unfolding rotate_refresh_token rotate_at bytes_equal
reused = refl

reuse_revokes_family_example :
    (t : MemoryRefreshToken) × (find_first (refresh_has_hash (3 ∷ [])) rotated.refresh ≡ some t)
    × SameTokens
        (rotate_refresh_token rotated (3 ∷ []) next_token 30).0
        (without_family t.family_id rotated)
reuse_revokes_family_example = reuse_revokes_family rotated (3 ∷ []) next_token 30 reused

-- The session `s1` is the one kept, so its code is still handed out.
kept_code :
    (consume_authorization_code
      (revoke_user_tokens stored "alice" "s1" 15)
      (1 ∷ 2 ∷ [])
      "portal"
      "https://portal/cb"
      "c"
      20).1
    ≡ ok a_code
unfolding consume_authorization_code consume_code bytes_equal revoke_user_tokens
kept_code = refl
