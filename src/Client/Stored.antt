-- ===== src/Client/Stored.antt =====
-- internal/client/client.go: the changes that the registry makes to a client, and Validate.
use certus.Common.{
  sym, subst, negsuc, pos, string_key, if-both, ℕ, ◌≤◌, String, ◌≡◌, refl, ap, ◌≢◌, ◌⊎◌, inl, inr,
  Bool, true, false, not, ◌||◌, Option, List, [], ◌∷◌, arith, ◌==◌, ltb, Time, Hash, Bool-cases,
  length, filter, all, All, All-filter, length-filter-le, ℤ, is_space, is_empty, codes, is_digit,
  is_lower, is_one_of, first_then, trim_space_self,
}
use certus.Client.Types.{
  default_access_token_lifetime, default_refresh_token_lifetime, Platform, Client,
}
use certus.Client.Policy.{contains, client_id_pattern, normalized_token_lifetime_seconds}
use certus.Client.Words.{client_id_pattern-IsId_iff}
use certus.Client.Valid.{IsId, HasOauth, asked_seconds, HasIntrospection, IsLifetime, IsValid}
use certus.Client.Define.{effective_system_id, with_default_token_lifetimes}
use certus.Client.Repository.{normalized, forget_introspector}

-- strings.ToLower leaves an identifier alone, which has no upper-case letters.
abbrev pub KeepsIds : Platform → Type 0
KeepsIds g = (s : String) → client_id_pattern s ≡ true → g.to_lower s ≡ s

all_mono :
    (p q : ℕ → Bool) (cs : List ℕ)
    → ((c : ℕ) → p c ≡ true → q c ≡ true)
    → all p cs ≡ true
    → all q cs ≡ true
all_mono p q [] f h = refl
all_mono p q (c ∷ cs) f h = ground (arith, f c, all_mono p q cs f)

abbrev id_first : ℕ → Bool
id_first c = is_lower c || is_digit c

abbrev id_class : ℕ → Bool
id_class c = is_lower c || is_digit c || is_one_of (b'_' ∷ b'-' ∷ []) c

first-plain : (c : ℕ) → id_first c ≡ true → not (is_space c) ≡ true
unfolding is_space
first-plain c h = ground arith

class-plain : (c : ℕ) → id_class c ≡ true → not (is_space c) ≡ true
unfolding is_space
class-plain c h = ground arith

pattern-plain :
    (cs : List ℕ)
    → first_then id_first id_class 1 62 cs ≡ true
    → all (λ c. not (is_space c)) cs ≡ true
pattern-plain [] h = ground arith
pattern-plain (c ∷ cs) h =
    ground (arith, h, first-plain c, all_mono id_class (λ x. not (is_space x)) cs class-plain)

pattern-nonempty : (s : String) → client_id_pattern s ≡ true → is_empty s ≡ false
unfolding client_id_pattern
pattern-nonempty String.[] h = ground arith
pattern-nonempty (String.◌∷◌ c s) h = refl

pub system_id-kept :
    (g : Platform) (s fallback : String)
    → KeepsIds g
    → client_id_pattern s ≡ true
    → effective_system_id g s fallback ≡ s
unfolding effective_system_id client_id_pattern
system_id-kept g s fallback keeps h =
    let trimmed = trim_space_self s (pattern-plain (codes s) h) in
    rw (trimmed, keeps s h, pattern-nonempty s h) refl

normalized-cases :
    (z : ℤ) (fallback : ℕ) → (z ≡ pos 0) ⊎ (normalized_token_lifetime_seconds z fallback ≡ z)
unfolding normalized_token_lifetime_seconds
normalized-cases (pos n) fallback = elim (Bool-cases (ltb n 1)) [
  | inl e ↦ let none_left : n ≡ 0 = ground arith in inl (ap pos none_left)
  | inr e ↦ inr (rw (e, normalized_token_lifetime_seconds) refl)
]
normalized-cases (negsuc n) fallback = inr refl

access-kept :
    (z : ℤ)
    → IsLifetime 60 86400 z
    → IsLifetime 60 86400 (normalized_token_lifetime_seconds z default_access_token_lifetime)
      × (asked_seconds 900 (normalized_token_lifetime_seconds z default_access_token_lifetime)
          ≡ asked_seconds 900 z)
unfolding normalized_token_lifetime_seconds
access-kept z h = elim (normalized-cases z default_access_token_lifetime) [
  | inl e ↦ rw e (inr (900, refl, omega arith, omega arith), refl)
  | inr e ↦ rw e (h, refl)
]

refresh-kept :
    (z : ℤ)
    → IsLifetime 3600 31536000 z
    → IsLifetime 3600 31536000 (normalized_token_lifetime_seconds z default_refresh_token_lifetime)
      × (asked_seconds 2592000 (normalized_token_lifetime_seconds z default_refresh_token_lifetime)
          ≡ asked_seconds 2592000 z)
unfolding normalized_token_lifetime_seconds
refresh-kept z h = elim (normalized-cases z default_refresh_token_lifetime) [
  | inl e ↦ rw e (inr (2592000, refl, omega arith, omega arith), refl)
  | inr e ↦ rw e (h, refl)
]

-- What Create and Replace store is valid if what they are given is.
pub normalized-IsValid :
    (g : Platform) (c : Client) → KeepsIds g → IsValid g c → IsValid g (normalized g c)
unfolding normalized with_default_token_lifetimes
normalized-IsValid g c keeps v =
    let (id, system_id, name, short) = v.names in
    let (a, b, order) = v.lifetimes in
    let (a_next, a_same) = access-kept c.access_token_lifetime_seconds a in
    let (b_next, b_same) = refresh-kept c.refresh_token_lifetime_seconds b in
    record {
      names = (
        id,
        subst IsId
            (sym (
              system_id-kept g c.system_id c.id keeps
                ((client_id_pattern-IsId_iff c.system_id).1 system_id)))
            system_id,
        name,
        short,
      );
      links = v.links;
      application = v.application;
      protocols = v.protocols;
      grants = v.grants;
      redirects = v.redirects;
      backchannel = v.backchannel;
      login = v.login;
      introspection = v.introspection;
      scopes = v.scopes;
      lifetimes = (a_next, b_next, rw (a_same, b_same) order);
      cas = v.cas;
    }

-- The registration without what Validate does not read.
pub sealed-IsValid :
    (g : Platform) (c : Client) (enabled : Bool) (at : Option Time) (hash : Hash)
    → IsValid g c
    → IsValid g (record c { enabled = enabled; archived_at = at; secret_hash = hash })
sealed-IsValid g c enabled at hash v = record {
  names = v.names;
  links = v.links;
  application = v.application;
  protocols = v.protocols;
  grants = v.grants;
  redirects = v.redirects;
  backchannel = v.backchannel;
  login = v.login;
  introspection = v.introspection;
  scopes = v.scopes;
  lifetimes = v.lifetimes;
  cas = v.cas;
}

-- `P` on all introspectors holds on those that are left.
left-HasIntrospection :
    (c : Client) (id : String)
    → HasIntrospection c
    → (length (filter (λ candidate. not (candidate == id)) c.introspectable_by) ≤ 20)
      × (filter (λ candidate. not (candidate == id)) c.introspectable_by ≢ [] → HasOauth c)
      × All
          (λ i. IsId i × (i ≢ c.id))
          (filter (λ candidate. not (candidate == id)) c.introspectable_by)
left-HasIntrospection c id (few, oauth, known) = (
  omega (arith, length-filter-le (λ candidate. not (candidate == id)) c.introspectable_by),
  λ some_left. oauth (λ e. some_left (ap (filter (λ candidate. not (candidate == id))) e)),
  All-filter (λ i. IsId i × (i ≢ c.id)) (λ candidate. not (candidate == id)) c.introspectable_by
      known,
)

pub forget-IsValid :
    (g : Platform) (c : Client) (id : String) → IsValid g c → IsValid g (forget_introspector id c)
forget-IsValid g c id v =
    if-both (IsValid g) (contains c.introspectable_by id) _ _
      (λ listed. record {
        names = v.names;
        links = v.links;
        application = v.application;
        protocols = v.protocols;
        grants = v.grants;
        redirects = v.redirects;
        backchannel = v.backchannel;
        login = v.login;
        introspection = left-HasIntrospection c id v.introspection;
        scopes = v.scopes;
        lifetimes = v.lifetimes;
        cas = v.cas;
      })
      (λ x. v)
