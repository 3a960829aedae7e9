-- ===== src/Session/Types.antt =====
-- internal/session: the records, the repository's state and the errors.
use certus.Common.{String, Option, List, [], Time, Hash, Result}

-- `random_failed` stands for the error of security.RandomToken.
pub data Error : Type 0 where
  not_found random_failed : Error

abbrev pub Reply : Type 0 → Type 0
Reply A = Result Error A

pub record Session : Type 0 where
  pub id : String
  pub user_id : String
  pub authenticated_at : Time
  pub expires_at : Time
  pub last_seen_at : Time
  pub ip_address : String
  pub user_agent : String
  pub session_revoked_at : Option Time
  pub auth_methods : List String
  pub assurance_level : String

-- The source's memoryRecord has a `revokedAt` beside the `RevokedAt` of the embedded Session, which
-- is `session_revoked_at` here.
pub record MemoryRecord : Type 0 where
  pub session : Session
  pub open session use *
  pub hash : Hash
  pub revoked_at : Option Time

pub record MemoryRepository : Type 0 where
  pub records : List (String × MemoryRecord)

-- NewMemoryRepository
abbrev pub new_memory_repository : MemoryRepository
new_memory_repository = record { records = [] }
