-- ===== src/Client/Words.antt =====
-- internal/client/client.go: the words of the description of a valid client, and the tests of the source.
use Prim.Native.Char.{code}
use certus.Common.{
  subst, negsuc, pos, is_digit, is_lower, is_upper, is_one_of, at_most, codes, second, ℕ, zero, suc,
  ◌*◌, ◌≤◌, String, ◌≡◌, refl, ◌↔◌, Bool, true, ◌||◌, List, [], ◌∷◌, arith, eq_iff, second, all,
  All, at_most, ℤ, codes, is_digit, is_lower, is_upper, is_one_of,
}
use certus.Client.Types.{
  protocol_oauth20, protocol_oauth21, protocol_cas, grant_authorization_code, grant_device_code,
  Client,
}
use certus.Client.Policy.{
  contains, client_id_pattern, scope_pattern, supports_protocol, supports_oauth, supports_grant,
  effective_token_lifetime, access_token_lifetime, refresh_token_lifetime,
}
use certus.Client.Validate.{interactive}
use certus.Client.Valid.{
  Has, StartsId, ContinuesId, IsId, IsScopeCharacter, IsScope, HasOauth, IsInteractive, IsLifetime,
  asked_seconds,
}

pub contains_iff : (xs : List String) (x : String) → (contains xs x ≡ true) ↔ Has xs x
contains_iff [] x = (λ h. ground arith, λ h. ground (arith, h))
contains_iff (y ∷ ys) x = ground (arith, eq_iff y x, contains_iff ys x)

all_iff :
    (p : ℕ → Bool) (P : ℕ → Type 0) (cs : List ℕ)
    → ((c : ℕ) → (p c ≡ true) ↔ P c)
    → (all p cs ≡ true) ↔ All P cs
all_iff p P [] h = (λ e. tt, λ e. refl)
all_iff p P (c ∷ cs) h = (
  λ e. ((h c).0 (ground arith), (all_iff p P cs h).0 (ground arith)),
  λ e. ground (arith, (h c).1 e.0, (all_iff p P cs h).1 e.1),
)

starts_iff : (c : ℕ) → ((is_lower c || is_digit c) ≡ true) ↔ StartsId c
starts_iff c = ground arith

continues_iff :
    (c : ℕ) → ((is_lower c || is_digit c || is_one_of (b'_' ∷ b'-' ∷ []) c) ≡ true) ↔ ContinuesId c
continues_iff c = ground arith

pub client_id_pattern-IsId_iff : (s : String) → (client_id_pattern s ≡ true) ↔ IsId s
unfolding client_id_pattern
client_id_pattern-IsId_iff String.[] =
    (λ h. ground arith, λ (c, cs, e, _, _, _, _). ground (arith, e))
client_id_pattern-IsId_iff (String.◌∷◌ c s) =
    let class = all_iff _ ContinuesId (codes s) continues_iff in
    (
      λ h. (
        code c,
        codes s,
        refl,
        (starts_iff (code c)).0 (ground (arith, h)),
        class.0 (ground (arith, h)),
        ground (arith, h),
        ground (arith, h),
      ),
      λ (d, cs, e, start, more, low, high).
          let head : d ≡ code c = ground (arith, e) in
          let tail : cs ≡ codes s = ground (arith, e) in
          let first = (starts_iff (code c)).1 (subst StartsId head start) in
          let others = class.1 (subst (All ContinuesId) tail more) in
          ground (arith, first, others, tail, low, high),
    )

scope_class_iff :
    (c : ℕ)
    → ((is_lower c
          || is_upper c
          || is_digit c
          || is_one_of (b'.' ∷ b'_' ∷ b':' ∷ b'/' ∷ b'-' ∷ []) c)
        ≡ true)
      ↔ IsScopeCharacter c
scope_class_iff c = ground arith

pub scope_pattern-IsScope_iff : (s : String) → (scope_pattern s ≡ true) ↔ IsScope s
unfolding scope_pattern
scope_pattern-IsScope_iff s = ground (arith, all_iff _ IsScopeCharacter (codes s) scope_class_iff)

pub supports_oauth-HasOauth_iff : (c : Client) → (supports_oauth c ≡ true) ↔ HasOauth c
unfolding supports_oauth
supports_oauth-HasOauth_iff c =
    ground
      (arith, contains_iff c.protocols protocol_oauth20, contains_iff c.protocols protocol_oauth21)

pub interactive-IsInteractive_iff : (c : Client) → (interactive c ≡ true) ↔ IsInteractive c
unfolding interactive supports_grant supports_protocol
interactive-IsInteractive_iff c = ground (
  arith,
  contains_iff c.protocols protocol_cas,
  contains_iff c.grant_types grant_authorization_code,
  contains_iff c.grant_types grant_device_code,
)

-- Within bounds, the product with a second does not overflow.
pub effective-asked :
    (z : ℤ) (fallback low high : ℕ)
    → high ≤ 31536000
    → IsLifetime low high z
    → effective_token_lifetime z (fallback * second) ≡ pos (asked_seconds fallback z * second)
unfolding effective_token_lifetime
effective-asked (pos zero) fallback low high small h = refl
effective-asked (pos (suc n)) fallback low high small h = ground arith
effective-asked (negsuc n) fallback low high small h = refl

pub lifetimes_order_iff :
    (c : Client)
    → IsLifetime 60 86400 c.access_token_lifetime_seconds
    → IsLifetime 3600 31536000 c.refresh_token_lifetime_seconds
    → (at_most (access_token_lifetime c) (refresh_token_lifetime c) ≡ true) ↔ (
        asked_seconds 900 c.access_token_lifetime_seconds
        ≤ asked_seconds 2592000 c.refresh_token_lifetime_seconds)
unfolding access_token_lifetime refresh_token_lifetime
lifetimes_order_iff c a b =
    let access = effective-asked c.access_token_lifetime_seconds 900 60 86400 (omega arith) a in
    let refresh =
      effective-asked c.refresh_token_lifetime_seconds 2592000 3600 31536000 (omega arith) b in
    rw (access, refresh) (ground arith)
