-- ===== src/Session/Tokens.antt =====
-- internal/session: a new session and the look-up by its token.
use certus.Common.{
  string_key, put, ◌+◌, String, ◌≡◌, refl, inl, inr, true, false, none, some, List, [], ◌∷◌, arith,
  ◌==◌, ltb, if◌then◌else◌, ok, err, Time, Hash, bytes_equal, bytes_equal_refl, Bool-cases, All,
  All-mono, find_first, find_first-none,
}
use certus.Session.Types.{Reply, Session, MemoryRecord, not_found}
use certus.Session.Repository.{create, answers, seen, find}
use certus.Session.Service.{create_with_methods, find_token, Service}

-- The entry's session was not created with the hash.
abbrev pub HasOtherHash : Hash → String × MemoryRecord → Type 0
HasOtherHash hash (key, m) = bytes_equal m.hash hash ≡ false

find_first-put :
    (hash : Hash) (now : Time) (k : String) (v : MemoryRecord) (m : List (String × MemoryRecord))
    → All (HasOtherHash hash) m
    → answers hash now (k, v) ≡ true
    → (key : String) × (find_first (answers hash now) (put k v m) ≡ some (key, v))
find_first-put hash now k v [] h a = (k, rw a)
find_first-put hash now k v ((i, w) ∷ m) h a = elim (Bool-cases (i == k)) [
  | inl hit ↦ (i, rw (hit, a))
  | inr miss ↦ let (key, e) = find_first-put hash now k v m h.1 a in (key, rw (miss, h.0) e)
]

find_first-put-none :
    (hash : Hash) (now : Time) (k : String) (v : MemoryRecord) (m : List (String × MemoryRecord))
    → All (HasOtherHash hash) m
    → answers hash now (k, v) ≡ false
    → find_first (answers hash now) (put k v m) ≡ none
find_first-put-none hash now k v [] h a = rw a
find_first-put-none hash now k v ((i, w) ∷ m) h a = elim (Bool-cases (i == k)) [
  | inl hit ↦
      rw (hit, a)
        (find_first-none (answers hash now) m (
          All-mono (HasOtherHash hash) (λ e. answers hash now e ≡ false) m
            (λ e q. ground (arith, q)) h.1))
  | inr miss ↦ rw (miss, h.0) (find_first-put-none hash now k v m h.1 a)
]

find-put :
    (hash : Hash) (now : Time) (k : String) (v : MemoryRecord) (m : List (String × MemoryRecord))
    → All (HasOtherHash hash) m
    → bytes_equal v.hash hash ≡ true
    → v.revoked_at ≡ none
    → (find (record { records = put k v m }) hash now).1
      ≡ (if ltb now v.expires_at then ok (seen now v).session else err not_found)
unfolding find
find-put hash now k v m h same unrevoked = elim (Bool-cases (ltb now v.expires_at)) [
  | inl live ↦ let (key, e) = find_first-put hash now k v m h (ground arith) in rw (e, find, live)
  | inr over ↦ rw (find_first-put-none hash now k v m h (ground arith), find, over)
]

-- The session that Service.CreateWithMethods builds, with the identifier that the repository drew.
abbrev pub new_session :
    String → Service → String → String → String → List String → String → Time → Session
new_session id s user_id ip_address user_agent auth_methods assurance_level now = record {
  id = id;
  user_id = user_id;
  authenticated_at = now;
  expires_at = now + s.lifetime;
  last_seen_at = now;
  ip_address = ip_address;
  user_agent = user_agent;
  session_revoked_at = none;
  auth_methods = auth_methods;
  assurance_level = assurance_level;
}

module _ (hash_token : String → Hash) (s : Service) (user_id ip_address user_agent : String)
    (auth_methods : List String) (assurance_level token id : String) (now : Time) where
  abbrev pub created : Service × Reply (Session × String)
  created =
      create_with_methods hash_token s user_id ip_address user_agent auth_methods assurance_level
        (some token) (some id) now

  -- A session is created with its token, and where no stored session has the token's hash, the token
  -- finds that session, seen just then, while the service's lifetime has not passed, and finds
  -- nothing afterwards.
  pub find_token-create_with_methods :
      (later : Time)
      → token == "" ≡ false
      → All (HasOtherHash (hash_token token)) s.repository.records
      → (created.1
          ≡ ok (
            new_session id s user_id ip_address user_agent auth_methods assurance_level now,
            token,
          ))
        × ((find_token hash_token created.0 token later).1 ≡ (
            if ltb later (now + s.lifetime)
            then ok
                (record (new_session id s user_id ip_address user_agent auth_methods assurance_level
                  now) { last_seen_at = later })
            else err not_found))
  unfolding create_with_methods create find_token
  find_token-create_with_methods later named fresh = (
    refl,
    rw named (
        find-put (hash_token token) later id
          (record {
            session =
                new_session id s user_id ip_address user_agent auth_methods assurance_level now;
            hash = hash_token token;
            revoked_at = none;
          })
          s.repository.records fresh (bytes_equal_refl (hash_token token)) refl),
  )
