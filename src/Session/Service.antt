-- ===== src/Session/Service.antt =====
-- internal/session/session.go: the service over the memory repository. Sampled values are
-- arguments: the time, and the tokens that security.RandomToken draws. `hash_token` stands for
-- security.HashToken, a SHA-256.
use certus.Common.{
  [], ℕ, ◌+◌, ◌*◌, String, Bool, false, not, ◌||◌, Option, none, some, List, ◌==◌, if◌then◌else◌,
  ok, err, Time, second, Hash, is_positive, to_ℕ, ℤ,
}
use certus.Session.Types.{Reply, Session, MemoryRepository, not_found, random_failed}
use certus.Session.Repository.{create, find, is_active, revoke, revoke_for_user, revoke_all}

pub record Service : Type 0 where
  pub repository : MemoryRepository
  pub lifetime : ℕ

abbrev pub default_lifetime : ℕ
default_lifetime = 12 * 3600 * second

-- NewService
unfoldable pub new_service : MemoryRepository → ℤ → Service
new_service repository lifetime = record {
  repository = repository;
  lifetime = if not (is_positive lifetime) then default_lifetime else to_ℕ lifetime;
}

module _ (hash_token : String → Hash) where
  unfoldable pub create_with_methods :
      Service
      → String
      → String
      → String
      → List String
      → String
      → Option String
      → Option String
      → Time
      → Service × Reply (Session × String)
  create_with_methods s user_id ip_address user_agent auth_methods assurance_level none id now =
      (s, err random_failed)
  create_with_methods s user_id ip_address user_agent auth_methods assurance_level (some token) id
        now =
      let value : Session = record {
        id = "";
        user_id = user_id;
        authenticated_at = now;
        expires_at = now + s.lifetime;
        last_seen_at = now;
        ip_address = ip_address;
        user_agent = user_agent;
        session_revoked_at = none;
        auth_methods = auth_methods;
        assurance_level = assurance_level;
      } in
      let made = create s.repository value (hash_token token) ip_address user_agent id in
      (
        record s { repository = made.0 },
        elim made.1 [ err e ↦ err e | ok created ↦ ok (created, token) ],
      )

  -- Create
  unfoldable pub create_session :
      Service
      → String
      → String
      → String
      → Option String
      → Option String
      → Time
      → Service × Reply (Session × String)
  unfolding create_with_methods
  create_session s user_id ip_address user_agent token id now =
      create_with_methods s user_id ip_address user_agent [] "urn:certus:aal:1" token id now

  unfoldable pub find_token : Service → String → Time → Service × Reply Session
  find_token s token now =
      if token == ""
      then (s, err not_found)
      else (let found = find s.repository (hash_token token) now in
          (record s { repository = found.0 }, found.1))

unfoldable pub revoke_session : Service → String → Time → Service × Reply (Unit {0})
revoke_session s id now =
    if id == ""
    then (s, ok tt)
    else (let done = revoke s.repository id now in (record s { repository = done.0 }, done.1))

unfoldable pub session_is_active : Service → String → String → Time → Bool
session_is_active s user_id id now =
    if user_id == "" || id == "" then false else is_active s.repository user_id id now

unfoldable pub revoke_session_for_user :
    Service → String → String → Time → Service × Reply (Unit {0})
revoke_session_for_user s user_id id now =
    if user_id == "" || id == ""
    then (s, err not_found)
    else (let done = revoke_for_user s.repository user_id id now in
        (record s { repository = done.0 }, done.1))

unfoldable pub revoke_all_sessions : Service → String → String → Time → Service × Reply ℕ
revoke_all_sessions s user_id except now =
    if user_id == ""
    then (s, err not_found)
    else (let done = revoke_all s.repository user_id except now in
        (record s { repository = done.0 }, ok done.1))
