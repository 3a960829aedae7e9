-- ===== src/Oauth/History/Keeps.antt =====
-- internal/oauth/store.go: how a stored code, token or device may change.
use certus.Common.{◌≤◌, Bool, true, false, ◌≡◌, refl, arith, is_nil}
use certus.Oauth.Types.{
  MemoryAuthorizationCode, MemoryAccessToken, MemoryRefreshToken, DeviceAuthorization, DeviceStatus,
  pending, approved, denied, consumed, status_eq,
}

-- The code itself never changes, the first consumption stays, and a revocation stays one.
pub record KeepsCode (x y : MemoryAuthorizationCode) : Type 0 where
  pub same : y.code ≡ x.code
  pub spent : is_nil x.consumed_at ≡ false → y.consumed_at ≡ x.consumed_at
  pub gone : is_nil x.revoked_at ≡ false → is_nil y.revoked_at ≡ false

pub record KeepsAccess (x y : MemoryAccessToken) : Type 0 where
  pub same : y.token ≡ x.token
  pub gone : is_nil x.revoked_at ≡ false → is_nil y.revoked_at ≡ false

pub record KeepsRefresh (x y : MemoryRefreshToken) : Type 0 where
  pub same : y.token ≡ x.token
  pub spent : is_nil x.consumed_at ≡ false → is_nil y.consumed_at ≡ false
  pub gone : is_nil x.revoked_at ≡ false → is_nil y.revoked_at ≡ false

-- The moves of a device's status, in any number of calls.
abbrev pub may_become : DeviceStatus → DeviceStatus → Bool
may_become pending _ = true
may_become approved pending = false
may_become approved _ = true
may_become denied denied = true
may_become denied _ = false
may_become consumed consumed = true
may_become consumed _ = false

-- A decision is made once; an approved device may still be denied, when its approval is revoked. The
-- interval between polls never shrinks.
pub record KeepsDevice (x y : DeviceAuthorization) : Type 0 where
  pub device_hash : y.device_hash ≡ x.device_hash
  pub user_hash : y.user_hash ≡ x.user_hash
  pub client_id : y.client_id ≡ x.client_id
  pub scope : y.scope ≡ x.scope
  pub expires_at : y.expires_at ≡ x.expires_at
  pub status : may_become x.status y.status ≡ true
  pub user_id : status_eq x.status pending ≡ false → y.user_id ≡ x.user_id
  pub authenticated_at :
      status_eq x.status pending ≡ false → y.authenticated_at ≡ x.authenticated_at
  pub auth_methods : status_eq x.status pending ≡ false → y.auth_methods ≡ x.auth_methods
  pub assurance_level : status_eq x.status pending ≡ false → y.assurance_level ≡ x.assurance_level
  pub interval : x.interval ≤ y.interval

may_become_refl : (s : DeviceStatus) → may_become s s ≡ true
may_become_refl pending = refl
may_become_refl approved = refl
may_become_refl denied = refl
may_become_refl consumed = refl

pub KeepsCode-refl : (x : MemoryAuthorizationCode) → KeepsCode x x
KeepsCode-refl x = ground arith

pub KeepsCode-trans :
    (x y z : MemoryAuthorizationCode) → KeepsCode x y → KeepsCode y z → KeepsCode x z
KeepsCode-trans x y z h k = ground arith

pub KeepsAccess-refl : (x : MemoryAccessToken) → KeepsAccess x x
KeepsAccess-refl x = ground arith

pub KeepsAccess-trans :
    (x y z : MemoryAccessToken) → KeepsAccess x y → KeepsAccess y z → KeepsAccess x z
KeepsAccess-trans x y z h k = ground arith

pub KeepsRefresh-refl : (x : MemoryRefreshToken) → KeepsRefresh x x
KeepsRefresh-refl x = ground arith

pub KeepsRefresh-trans :
    (x y z : MemoryRefreshToken) → KeepsRefresh x y → KeepsRefresh y z → KeepsRefresh x z
KeepsRefresh-trans x y z h k = ground arith

pub KeepsDevice-refl : (x : DeviceAuthorization) → KeepsDevice x x
KeepsDevice-refl x = ground (arith, may_become_refl x.status)

pub KeepsDevice-trans :
    (x y z : DeviceAuthorization) → KeepsDevice x y → KeepsDevice y z → KeepsDevice x z
KeepsDevice-trans x y z h k = ground arith
