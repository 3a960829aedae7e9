-- ===== src/Mfa/Types.antt =====
-- internal/mfa/mfa.go and memory_repository.go: the types and the repository's state.
use certus.Common.{ℕ, String, Bool, Option, List, [], Result, Time, Hash, ℤ}

-- The errors that the package names, and one for a random number generator that fails.
pub data Error : Type 0 where
  not_found unavailable invalid_code locked replay already_enabled not_enabled
        trusted_device_not_found :
      Error
  random_failed : Error

abbrev pub Reply : Type 0 → Type 0
Reply A = Result Error A

pub record Credential : Type 0 where
  pub user_id : String
  pub secret : List ℕ
  pub enabled : Bool
  pub created_at : Time
  pub verified_at : Option Time
  pub last_used_step : ℤ
  pub failed_attempts : ℕ
  pub locked_until : Option Time
  pub recovery_codes : ℕ

pub record TrustedDevice : Type 0 where
  pub user_id : String
  pub token_hash : Hash
  pub user_agent_hash : Hash
  pub created_at : Time
  pub last_used_at : Time
  pub expires_at : Time

pub record TrustedDeviceToken : Type 0 where
  pub token : String
  pub expires_at : Time

pub record SecretRecord : Type 0 where
  pub user_id : String
  pub ciphertext : List ℕ

pub record Status : Type 0 where
  pub available : Bool
  pub enabled : Bool
  pub pending : Bool
  pub verified_at : Option Time
  pub recovery_codes : ℕ
  pub trusted_devices : ℕ

-- memoryCredential's own `recoveryCodes` are `stored_codes` here: the embedded Credential has a field
-- of that name.
pub record MemoryCredential : Type 0 where
  pub credential : Credential
  pub open credential use *
  pub stored_codes : List Hash

pub record MemoryRepository : Type 0 where
  pub credentials : List (String × MemoryCredential)
  pub trusted_devices : List (Hash × TrustedDevice)

-- NewMemoryRepository
abbrev pub new_memory_repository : MemoryRepository
new_memory_repository = record { credentials = []; trusted_devices = [] }
