-- ===== src/Oauth/Grants/Codes.antt =====
-- internal/oauth/store.go: ConsumeAuthorizationCode.
use certus.Common.{
  String, ◌<◌, ◌≡◌, ◌≢◌, ◌↔◌, ap, none, some, List, arith, Time, Hash, is_nil, true, false,
  bytes_equal, inl, inr, find_first, visit_first-state, visit_first-result, find_first-change_first,
  find_first-Grows, Option-cases, eq_iff, ok, err,
}
use certus.Oauth.Types.{
  AuthorizationCode, MemoryAuthorizationCode, MemoryRepository, grant_not_found,
}
use certus.Oauth.Tokens.{code_has_hash, consume_code, consume_authorization_code}
use certus.Oauth.Operations.{Call, run}
use certus.Oauth.History.Keeps.{KeepsCode}
use certus.Oauth.History.Steps.{run-Persists}

-- What the request has to match for the stored code `c` to be handed out.
pub record IsRedeemable (c : MemoryAuthorizationCode)
    (client_id redirect_uri code_challenge : String) (now : Time) : Type 0 where
  pub client : c.client_id ≡ client_id
  pub redirect : c.redirect_uri ≡ redirect_uri
  pub challenge : c.code_challenge ≡ code_challenge
  pub unspent : c.consumed_at ≡ none
  pub unrevoked : c.revoked_at ≡ none
  pub unexpired : now < c.expires_at

-- `a` is the first code stored under `hash`, and the request may have it.
abbrev pub Redeems :
    MemoryRepository → Hash → String → String → String → Time → AuthorizationCode → Type 0
Redeems r hash client_id redirect_uri code_challenge now a =
    (c : MemoryAuthorizationCode) × (find_first (code_has_hash hash) r.codes ≡ some c)
    × IsRedeemable c client_id redirect_uri code_challenge now
    × (a ≡ c.code)

module _ (client_id redirect_uri code_challenge : String) (now : Time) where
  consume_code-ok :
      (c : MemoryAuthorizationCode) (a : AuthorizationCode)
      → (consume_code client_id redirect_uri code_challenge now c).1 ≡ ok a
      → IsRedeemable c client_id redirect_uri code_challenge now × (a ≡ c.code)
  unfolding consume_code
  consume_code-ok c a h = ground (
    arith,
    eq_iff c.client_id client_id,
    eq_iff c.redirect_uri redirect_uri,
    eq_iff c.code_challenge code_challenge,
  )

  ok-consume_code :
      (c : MemoryAuthorizationCode)
      → IsRedeemable c client_id redirect_uri code_challenge now
      → (consume_code client_id redirect_uri code_challenge now c).1 ≡ ok c.code
  unfolding consume_code
  ok-consume_code c v = ground (
    arith,
    eq_iff c.client_id client_id,
    eq_iff c.redirect_uri redirect_uri,
    eq_iff c.code_challenge code_challenge,
  )

  consume-result :
      (r : MemoryRepository) (hash : Hash)
      → (consume_authorization_code r hash client_id redirect_uri code_challenge now).1
        ≡ elim (find_first (code_has_hash hash) r.codes) [
          | none ↦ err grant_not_found
          | some c ↦ (consume_code client_id redirect_uri code_challenge now c).1
        ]
  unfolding consume_authorization_code
  consume-result r hash = visit_first-result _ _ _ r.codes

  -- A code is handed out exactly when the first record with its hash was issued to this client for
  -- this redirect URI and challenge, and is neither consumed, revoked nor expired; what is handed
  -- out is that record.
  pub consume_ok_iff :
      (r : MemoryRepository) (hash : Hash) (a : AuthorizationCode)
      → ((consume_authorization_code r hash client_id redirect_uri code_challenge now).1 ≡ ok a)
        ↔ Redeems r hash client_id redirect_uri code_challenge now a
  consume_ok_iff r hash a = (from, to)
    where
      from :
          (consume_authorization_code r hash client_id redirect_uri code_challenge now).1 ≡ ok a
          → Redeems r hash client_id redirect_uri code_challenge now a
      from h = elim (Option-cases (find_first (code_has_hash hash) r.codes)) [
        | inl e ↦ absurd (cc (rw (consume-result r hash, e) at h))
        | inr (c, e) ↦
            let (v, same) = consume_code-ok c a (rw (consume-result r hash, e) at h) in
            (c, e, v, same)
      ]

      to :
          Redeems r hash client_id redirect_uri code_challenge now a
          → (consume_authorization_code r hash client_id redirect_uri code_challenge now).1 ≡ ok a
      to (c, e, v, same) = rw (consume-result r hash, e, same) (ok-consume_code c v)

  consume_code-spends :
      (c : MemoryAuthorizationCode)
      → IsRedeemable c client_id redirect_uri code_challenge now
      → (consume_code client_id redirect_uri code_challenge now c).0.consumed_at ≡ some now
  unfolding consume_code
  consume_code-spends c v = ground (
    arith,
    eq_iff c.client_id client_id,
    eq_iff c.redirect_uri redirect_uri,
    eq_iff c.code_challenge code_challenge,
  )

  consume_code-hash :
      (hash : Hash) (c : MemoryAuthorizationCode)
      → code_has_hash hash c ≡ true
      → code_has_hash hash (consume_code client_id redirect_uri code_challenge now c).0 ≡ true
  unfolding consume_code
  consume_code-hash hash c h = ground arith

  -- After a successful consumption the first record with the hash is spent.
  consume-spends :
      (r : MemoryRepository) (hash : Hash) (a : AuthorizationCode)
      → (consume_authorization_code r hash client_id redirect_uri code_challenge now).1 ≡ ok a
      → (c : MemoryAuthorizationCode) × (find_first
            (code_has_hash hash)
            (consume_authorization_code r hash client_id redirect_uri code_challenge now).0.codes
          ≡ some c)
        × (c.consumed_at ≡ some now)
  unfolding consume_authorization_code
  consume-spends r hash a h =
      let (c, e, v, _) = (consume_ok_iff r hash a).0 h in
      (
        (consume_code client_id redirect_uri code_challenge now c).0,
        rw visit_first-state
            (find_first-change_first (code_has_hash hash) _ r.codes c (consume_code-hash hash) e),
        consume_code-spends c v,
      )

-- The first record with the hash is spent.
abbrev pub IsSpent : Hash → MemoryRepository → Type 0
IsSpent hash r =
    (c : MemoryAuthorizationCode) × (find_first (code_has_hash hash) r.codes ≡ some c)
    × (is_nil c.consumed_at ≡ false)

KeepsCode-hash :
    (hash : Hash) (x y : MemoryAuthorizationCode)
    → KeepsCode x y
    → code_has_hash hash y ≡ code_has_hash hash x
KeepsCode-hash hash x y k = ap (λ (c : AuthorizationCode). bytes_equal c.hash hash) k.same

run-IsSpent :
    (hash : Hash) (r : MemoryRepository) (cs : List Call) → IsSpent hash r → IsSpent hash (run r cs)
run-IsSpent hash r cs (c, e, spent) =
    let (b, found, k) =
      find_first-Grows KeepsCode (code_has_hash hash) (KeepsCode-hash hash) r.codes (run r cs).codes
        c (run-Persists r cs).codes e in
    (b, found, ground (arith, k.spent))

spent-ne-ok :
    (s : MemoryRepository) (hash : Hash) (client_id redirect_uri code_challenge : String)
    (now : Time) (b : AuthorizationCode)
    → IsSpent hash s
    → (consume_authorization_code s hash client_id redirect_uri code_challenge now).1 ≢ ok b
spent-ne-ok s hash client_id redirect_uri code_challenge now b (c, found, spent) again =
    let (y, first, v, _) =
      (consume_ok_iff client_id redirect_uri code_challenge now s hash b).0 again in
    cc (found, first, spent, v.unspent)

-- A code is handed out once: after a successful consumption, and whatever is called then, a later
-- consumption under the same hash hands out nothing, whoever asks and whenever.
pub code_single_use :
    (r : MemoryRepository) (hash : Hash) (client_id redirect_uri code_challenge : String)
    (now : Time) (a : AuthorizationCode) (cs : List Call)
    (client_id' redirect_uri' code_challenge' : String) (later : Time) (b : AuthorizationCode)
    → (consume_authorization_code r hash client_id redirect_uri code_challenge now).1 ≡ ok a
    → (consume_authorization_code
        (run (consume_authorization_code r hash client_id redirect_uri code_challenge now).0 cs)
        hash
        client_id'
        redirect_uri'
        code_challenge'
        later).1
      ≢ ok b
code_single_use r hash client_id redirect_uri code_challenge now a cs client_id' redirect_uri'
      code_challenge' later b h =
    let (c, e, spent) = consume-spends client_id redirect_uri code_challenge now r hash a h in
    spent-ne-ok
      (run (consume_authorization_code r hash client_id redirect_uri code_challenge now).0 cs) hash
      client_id' redirect_uri' code_challenge' later b
      (run-IsSpent hash _ cs (c, e, ap is_nil spent))
