-- ===== src/Session/Examples.antt =====
-- internal/session: the theorems at concrete inputs.
use certus.Common.{
  ◌+◌, String, ◌≡◌, refl, ◌≢◌, false, none, some, List, [], ◌∷◌, ◌==◌, ltb, if◌then◌else◌, ok, err,
  Hash, bytes_equal,
}
use certus.Session.Types.{Session, MemoryRepository, not_found}
use certus.Session.Repository.{find, is_active, revoke}
use certus.Session.Service.{find_token}
use certus.Session.Lifecycle.{run, Call, IsWellFormed, create_call, find_call, revoke_all_call}
use certus.Session.Revoked.{revoked_session_unusable}
use certus.Session.Tokens.{new_session, created, find_token-create_with_methods}

abbrev a_session : Session
a_session = record {
  id = "1";
  user_id = "alice";
  authenticated_at = 10;
  expires_at = 100;
  last_seen_at = 10;
  ip_address = "";
  user_agent = "";
  session_revoked_at = none;
  auth_methods = [];
  assurance_level = "";
}

abbrev stored : MemoryRepository
stored = record {
  records =
      ("1", record { session = a_session; hash = 1 ∷ []; revoked_at = none })
      ∷ (
        "2",
        record {
          session = record a_session { id = "2"; last_seen_at = 30 };
          hash = 2 ∷ [];
          revoked_at = none;
        },
      )
      ∷ [];
}

stored-IsWellFormed : IsWellFormed stored
stored-IsWellFormed = record { dict = (refl, (refl, tt)); keys = (refl, (refl, tt)) }

abbrev a_history : List Call
a_history =
    find_call (2 ∷ []) 40
    ∷ revoke_all_call "alice" "2" 41
    ∷ create_call a_session (3 ∷ []) "" "" (some "3")
    ∷ []

revoked_once : (revoke stored "1" 20).1 ≡ ok tt
unfolding revoke
revoked_once = refl

revoked_session_unusable_example :
    (is_active (run (revoke stored "1" 20).0 a_history) "alice" "1" 50 ≡ false)
    × ((find (run (revoke stored "1" 20).0 a_history) (1 ∷ []) 50).1 ≢ ok a_session)
revoked_session_unusable_example =
    revoked_session_unusable stored "1" 20 a_history "alice" (1 ∷ []) 50 a_session
      stored-IsWellFormed revoked_once (tt, (tt, (refl, tt))) refl

-- A stand-in for SHA-256.
abbrev a_hash : String → Hash
a_hash token = if token == "t" then 9 ∷ [] else []

find_token-create_with_methods_example :
    ((created a_hash
        (record { repository = stored; lifetime = 60 })
        "bob"
        ""
        ""
        []
        "aal1"
        "t"
        "3"
        20).1
      ≡ ok (
        new_session "3" (record { repository = stored; lifetime = 60 }) "bob" "" "" [] "aal1" 20,
        "t",
      ))
    × ((find_token a_hash
          (created a_hash
            (record { repository = stored; lifetime = 60 })
            "bob"
            ""
            ""
            []
            "aal1"
            "t"
            "3"
            20).0
          "t"
          30).1
        ≡ (if ltb 30 (20 + 60)
            then ok
                (record (new_session "3"
                  (record { repository = stored; lifetime = 60 })
                  "bob"
                  ""
                  ""
                  []
                  "aal1"
                  20) { last_seen_at = 30 })
            else err not_found))
unfolding bytes_equal
find_token-create_with_methods_example =
    find_token-create_with_methods a_hash (record { repository = stored; lifetime = 60 }) "bob" ""
      "" [] "aal1" "t" "3" 20 30 refl (refl, (refl, tt))
