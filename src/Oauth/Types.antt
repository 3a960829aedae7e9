-- ===== src/Oauth/Types.antt =====
-- internal/oauth/store.go: the records, the repository's state and the errors.
use certus.Common.{
  ℕ, String, Bool, true, false, Option, none, some, List, [], ◌∷◌, Time, Hash, Result,
}

-- A Go slice where the code tells nil from empty.
abbrev pub Slice {ℓ} : Type ℓ → Type ℓ
Slice A = Option (List A)

abbrev pub items {ℓ} : {A : Type ℓ} → Slice A → List A
items none = []
items (some xs) = xs

-- `append([]T(nil), xs...)`: nil if there is nothing to append.
abbrev pub clone_slice {ℓ} : {A : Type ℓ} → Slice A → Slice A
clone_slice none = none
clone_slice (some []) = none
clone_slice (some (x ∷ xs)) = some (x ∷ xs)

pub data Error : Type 0 where
  grant_not_found grant_expired grant_consumed refresh_reuse authorization_pending slow_down : Error
  access_denied consent_not_found invalid_scope : Error

abbrev pub Reply : Type 0 → Type 0
Reply A = Result Error A

pub record AuthorizationCode : Type 0 where
  pub hash : Hash
  pub client_id : String
  pub user_id : String
  pub session_id : String
  pub redirect_uri : String
  pub scope : List String
  pub nonce : String
  pub code_challenge : String
  pub authenticated_at : Time
  pub auth_methods : List String
  pub assurance_level : String
  pub created_at : Time
  pub expires_at : Time

pub record AccessToken : Type 0 where
  pub hash : Hash
  pub client_id : String
  pub user_id : String
  pub session_id : String
  pub family_id : String
  pub scope : List String
  pub issued_at : Time
  pub expires_at : Time

pub record RefreshToken : Type 0 where
  pub hash : Hash
  pub family_id : String
  pub client_id : String
  pub user_id : String
  pub session_id : String
  pub scope : Slice String
  pub issued_at : Time
  pub expires_at : Time

-- The source's `DeviceStatus` is a string that only ever holds one of these.
pub data DeviceStatus : Type 0 where
  pending approved denied consumed : DeviceStatus

pub record DeviceAuthorization : Type 0 where
  pub device_hash : Hash
  pub user_hash : Hash
  pub client_id : String
  pub user_id : String
  pub scope : List String
  pub status : DeviceStatus
  pub authenticated_at : Time
  pub auth_methods : List String
  pub assurance_level : String
  pub created_at : Time
  pub expires_at : Time
  pub interval : ℕ
  pub last_poll_at : Option Time

pub record OidcClientSession : Type 0 where
  pub session_id : String
  pub client_id : String
  pub user_id : String
  pub created_at : Time

pub record Consent : Type 0 where
  pub user_id : String
  pub client_id : String
  pub scopes : List String
  pub granted_at : Time
  pub updated_at : Time

pub record MemoryAuthorizationCode : Type 0 where
  pub code : AuthorizationCode
  pub open code use *
  pub consumed_at : Option Time
  pub revoked_at : Option Time

pub record MemoryRefreshToken : Type 0 where
  pub token : RefreshToken
  pub open token use *
  pub consumed_at : Option Time
  pub revoked_at : Option Time

pub record MemoryAccessToken : Type 0 where
  pub token : AccessToken
  pub open token use *
  pub revoked_at : Option Time

pub record MemoryRepository : Type 0 where
  pub codes : List MemoryAuthorizationCode
  pub access_tokens : List MemoryAccessToken
  pub refresh : List MemoryRefreshToken
  pub devices : List DeviceAuthorization
  pub oidc_sessions : List OidcClientSession
  pub consents : List Consent

-- NewMemoryRepository
abbrev pub new_memory_repository : MemoryRepository
new_memory_repository = record {
  codes = [];
  access_tokens = [];
  refresh = [];
  devices = [];
  oidc_sessions = [];
  consents = [];
}

-- `status == other`
abbrev pub status_eq : DeviceStatus → DeviceStatus → Bool
status_eq pending pending = true
status_eq approved approved = true
status_eq denied denied = true
status_eq consumed consumed = true
status_eq _ _ = false
