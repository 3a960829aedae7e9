-- ===== src/Client/Lifetimes.antt =====
-- internal/client/client.go: the token lifetimes and the redirect URIs of a valid client.
use certus.Common.{
  zero, suc, ◌⊎◌, negsuc, pos, ℕ, ◌*◌, ◌≤◌, ◌≡◌, refl, inl, inr, arith, ok, second, ℤ,
}
use certus.Client.Types.{
  default_refresh_token_lifetime, default_access_token_lifetime, min_access_token_lifetime,
  max_access_token_lifetime, min_refresh_token_lifetime, max_refresh_token_lifetime, Platform,
  Client,
}
use certus.Client.Policy.{access_token_lifetime, refresh_token_lifetime}
use certus.Client.Validate.{validate}
use certus.Client.Valid.{IsLifetime, asked_seconds}
use certus.Client.Words.{effective-asked}
use certus.Client.Accepts.{validate_iff}

-- A duration of `n` nanoseconds is what a registration asks for: its seconds in exact arithmetic, or
-- the default for 0.
abbrev pub IsAsked : ℤ → ℕ → ℕ → Type 0
IsAsked seconds fallback n =
    ((seconds ≡ pos 0) × (n ≡ fallback)) ⊎ ((k : ℕ) × (seconds ≡ pos k) × (n ≡ k * second))

asked_seconds-IsAsked :
    (z : ℤ) (fallback low high : ℕ)
    → low ≤ fallback
    → fallback ≤ high
    → IsLifetime low high z
    → IsAsked z (fallback * second) (asked_seconds fallback z * second)
      × (low ≤ asked_seconds fallback z)
      × (asked_seconds fallback z ≤ high)
asked_seconds-IsAsked (pos zero) fallback low high above_low below_high h =
    (inl (refl, refl), above_low, below_high)
asked_seconds-IsAsked (pos (suc n)) fallback low high above_low below_high h =
    (inr (suc n, refl, refl), ground arith, ground arith)
asked_seconds-IsAsked (negsuc n) fallback low high above_low below_high h = ground arith

-- A client that Validate accepts has an access token lifetime from one minute to one day and a
-- refresh token lifetime from one hour to a year that is not shorter. Each is the registration's
-- number times a second, or the default for 0, in exact arithmetic: the int64 product does not
-- overflow, whatever integers were sent.
pub valid_lifetimes_bounded :
    (g : Platform) (c : Client)
    → validate g c ≡ ok tt
    → (n m : ℕ) × (access_token_lifetime c ≡ pos n)
      × (refresh_token_lifetime c ≡ pos m)
      × IsAsked c.access_token_lifetime_seconds default_access_token_lifetime n
      × IsAsked c.refresh_token_lifetime_seconds default_refresh_token_lifetime m
      × (min_access_token_lifetime ≤ n)
      × (n ≤ max_access_token_lifetime)
      × (min_refresh_token_lifetime ≤ m)
      × (m ≤ max_refresh_token_lifetime)
      × (n ≤ m)
unfolding access_token_lifetime refresh_token_lifetime
valid_lifetimes_bounded g c h =
    let (a, b, order) = ((validate_iff g c).0 h).lifetimes in
    let (n_asked, low_n, n_high) =
      asked_seconds-IsAsked c.access_token_lifetime_seconds 900 60 86400 (omega arith) (omega arith)
        a in
    let (m_asked, low_m, m_high) =
      asked_seconds-IsAsked c.refresh_token_lifetime_seconds 2592000 3600 31536000 (omega arith)
        (omega arith) b in
    (
      asked_seconds 900 c.access_token_lifetime_seconds * second,
      asked_seconds 2592000 c.refresh_token_lifetime_seconds * second,
      effective-asked c.access_token_lifetime_seconds 900 60 86400 (omega arith) a,
      effective-asked c.refresh_token_lifetime_seconds 2592000 3600 31536000 (omega arith) b,
      n_asked,
      m_asked,
      omega (arith, low_n),
      omega (arith, n_high),
      omega (arith, low_m),
      omega (arith, m_high),
      omega (arith, order),
    )
