-- ===== src/Oauth/History/Persists.antt =====
-- internal/oauth/store.go: the relation between a repository and what any calls make of it.
use certus.Common.{List, ◌≡◌, Grows, Grows-refl, Grows-trans}
use certus.Oauth.Types.{
  MemoryRepository, MemoryAuthorizationCode, MemoryAccessToken, MemoryRefreshToken,
  DeviceAuthorization,
}
use certus.Oauth.History.Keeps.{
  KeepsCode, KeepsAccess, KeepsRefresh, KeepsDevice, KeepsCode-refl, KeepsAccess-refl,
  KeepsRefresh-refl, KeepsDevice-refl, KeepsCode-trans, KeepsAccess-trans, KeepsRefresh-trans,
  KeepsDevice-trans,
}

-- Every stored record is still at its place, changed as its kind may be.
pub record Persists (r s : MemoryRepository) : Type 0 where
  pub codes : Grows KeepsCode r.codes s.codes
  pub access_tokens : Grows KeepsAccess r.access_tokens s.access_tokens
  pub refresh : Grows KeepsRefresh r.refresh s.refresh
  pub devices : Grows KeepsDevice r.devices s.devices

pub codes_refl : (xs : List MemoryAuthorizationCode) → Grows KeepsCode xs xs
codes_refl = Grows-refl KeepsCode KeepsCode-refl

pub access_refl : (xs : List MemoryAccessToken) → Grows KeepsAccess xs xs
access_refl = Grows-refl KeepsAccess KeepsAccess-refl

pub refresh_refl : (xs : List MemoryRefreshToken) → Grows KeepsRefresh xs xs
refresh_refl = Grows-refl KeepsRefresh KeepsRefresh-refl

pub devices_refl : (xs : List DeviceAuthorization) → Grows KeepsDevice xs xs
devices_refl = Grows-refl KeepsDevice KeepsDevice-refl

pub Persists-refl : (r : MemoryRepository) → Persists r r
Persists-refl r = record {
  codes = codes_refl r.codes;
  access_tokens = access_refl r.access_tokens;
  refresh = refresh_refl r.refresh;
  devices = devices_refl r.devices;
}

pub Persists-trans : (r s t : MemoryRepository) → Persists r s → Persists s t → Persists r t
Persists-trans r s t h k = record {
  codes = Grows-trans KeepsCode KeepsCode-trans r.codes s.codes t.codes h.codes k.codes;
  access_tokens =
      Grows-trans KeepsAccess KeepsAccess-trans r.access_tokens s.access_tokens t.access_tokens
        h.access_tokens k.access_tokens;
  refresh =
      Grows-trans KeepsRefresh KeepsRefresh-trans r.refresh s.refresh t.refresh h.refresh k.refresh;
  devices =
      Grows-trans KeepsDevice KeepsDevice-trans r.devices s.devices t.devices h.devices k.devices;
}

pub Persists-same :
    (r s : MemoryRepository)
    → s.codes ≡ r.codes
    → s.access_tokens ≡ r.access_tokens
    → s.refresh ≡ r.refresh
    → s.devices ≡ r.devices
    → Persists r s
Persists-same r s c a f d = record {
  codes = rw c (codes_refl r.codes);
  access_tokens = rw a (access_refl r.access_tokens);
  refresh = rw f (refresh_refl r.refresh);
  devices = rw d (devices_refl r.devices);
}
