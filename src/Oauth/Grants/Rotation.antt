-- ===== src/Oauth/Grants/Rotation.antt =====
-- internal/oauth/store.go: RotateRefreshToken when it succeeds, and after.
use certus.Common.{
  String, ◌<◌, ◌≡◌, sym, ap, ◌∙◌, refl, none, some, List, [], ◌∷◌, ◌++◌, arith, Time, Hash, is_nil,
  inl, inr, find_first, change_first, find_first-change_first, find_first-Grows, find_first-append,
  Option-cases, eq_iff, ok, err, true, false, bytes_equal, ◌==◌, if◌then◌else◌,
}
use certus.Oauth.Types.{
  Slice, clone_slice, RefreshToken, MemoryRefreshToken, MemoryRepository, items, grant_not_found,
  refresh_reuse,
}
use certus.Oauth.Tokens.{
  scopes_cover, refresh_has_hash, consume_refresh, inherit, cloned, rotate_at, rotate_refresh_token,
}
use certus.Oauth.Operations.{Call, run}
use certus.Oauth.History.Keeps.{KeepsRefresh}
use certus.Oauth.History.Steps.{run-Persists}

-- The token that a rotation of `old` by `replacement` stores: the family, the user and the session are
-- the old token's, and so is the scope if the replacement names none; all else is the replacement's.
pub record IsHeir (old replacement heir : RefreshToken) : Type 0 where
  pub hash : heir.hash ≡ replacement.hash
  pub family_id : heir.family_id ≡ old.family_id
  pub client_id : heir.client_id ≡ replacement.client_id
  pub user_id : heir.user_id ≡ old.user_id
  pub session_id : heir.session_id ≡ old.session_id
  pub kept_scope : replacement.scope ≡ none → items heir.scope ≡ items old.scope
  pub named_scope : (xs : List String) → replacement.scope ≡ some xs → heir.scope ≡ some xs
  pub issued_at : heir.issued_at ≡ replacement.issued_at
  pub expires_at : heir.expires_at ≡ replacement.expires_at

-- The same token; an empty scope may be a nil slice in one and not in the other.
abbrev pub IsCopy : RefreshToken → RefreshToken → Type 0
IsCopy x y = (record x { scope = y.scope } ≡ y) × (items x.scope ≡ items y.scope)

-- What a successful rotation of the stored token `t` needs, and what it leaves: the first token under
-- the hash is spent at this time, all else of it as before, and the heir, neither spent nor revoked,
-- stands last, with no scope that the token lacks.
pub record Rotates (r s : MemoryRepository) (hash : Hash) (replacement : RefreshToken) (now : Time)
    (t : MemoryRefreshToken) (heir : RefreshToken) : Type 0 where
  pub client : t.client_id ≡ replacement.client_id
  pub unspent : t.consumed_at ≡ none
  pub unrevoked : t.revoked_at ≡ none
  pub unexpired : now < t.expires_at
  pub heir_of : IsHeir t.token replacement heir
  pub narrowed : scopes_cover (items t.scope) (items heir.scope) ≡ true
  pub stored :
      s.refresh
      ≡ change_first
          (λ x. bytes_equal x.hash hash)
          (λ x. record x { consumed_at = some now })
          r.refresh
        ++ record { token = heir; consumed_at = none; revoked_at = none } ∷ []
  pub access : s.access_tokens ≡ r.access_tokens

items-clone_slice : (s : Slice String) → items (clone_slice s) ≡ items s
items-clone_slice none = refl
items-clone_slice (some []) = refl
items-clone_slice (some (x ∷ xs)) = refl

inherit-IsHeir : (old replacement : RefreshToken) → IsHeir old replacement (inherit old replacement)
inherit-IsHeir old replacement = record {
  hash = refl;
  family_id = refl;
  client_id = refl;
  user_id = refl;
  session_id = refl;
  kept_scope = λ e. rw e (items-clone_slice old.scope);
  named_scope = λ xs e. rw e refl;
  issued_at = refl;
  expires_at = refl;
}

rotate_at-ok :
    (r : MemoryRepository) (hash : Hash) (replacement : RefreshToken) (now : Time)
    (t : MemoryRefreshToken) (old : RefreshToken)
    → (rotate_at r hash replacement now t).1 ≡ ok old
    → Rotates r
        (rotate_at r hash replacement now t).0
        hash
        replacement
        now
        t
        (inherit t.token replacement)
      × (old ≡ cloned t.token)
unfolding rotate_at
rotate_at-ok r hash replacement now t old h =
    ground (arith, eq_iff t.client_id replacement.client_id, inherit-IsHeir t.token replacement)

pub rotate_at-found :
    (r : MemoryRepository) (hash : Hash) (replacement : RefreshToken) (now : Time)
    (t : MemoryRefreshToken)
    → find_first (refresh_has_hash hash) r.refresh ≡ some t
    → rotate_refresh_token r hash replacement now ≡ rotate_at r hash replacement now t
unfolding rotate_refresh_token
rotate_at-found r hash replacement now t e = rw (e, rotate_refresh_token)

pub rotate_at-missing :
    (r : MemoryRepository) (hash : Hash) (replacement : RefreshToken) (now : Time)
    → find_first (refresh_has_hash hash) r.refresh ≡ none
    → rotate_refresh_token r hash replacement now ≡ (r, err grant_not_found)
unfolding rotate_refresh_token
rotate_at-missing r hash replacement now e = rw (e, rotate_refresh_token)

cloned-IsCopy : (t old : RefreshToken) → old ≡ cloned t → IsCopy old t
cloned-IsCopy t old e = rw e (refl, items-clone_slice t.scope)

-- A rotation that succeeds spends the first token stored under the hash, issued to this client and
-- neither spent, revoked nor expired, returns it, and stores one token more: of its family, user and
-- session, and of its scope if the replacement names none, with the hash, the client and the times of
-- the replacement. Its scope covers that token's.
pub rotate_ok :
    (r : MemoryRepository) (hash : Hash) (replacement : RefreshToken) (now : Time)
    (old : RefreshToken)
    → (rotate_refresh_token r hash replacement now).1 ≡ ok old
    → (t : MemoryRefreshToken) × (heir : RefreshToken) × (find_first
          (λ x. bytes_equal x.hash hash)
          r.refresh
        ≡ some t)
      × Rotates r (rotate_refresh_token r hash replacement now).0 hash replacement now t heir
      × IsCopy old t.token
rotate_ok r hash replacement now old h =
    elim (Option-cases (find_first (refresh_has_hash hash) r.refresh)) [
      | inl e ↦ absurd (cc (rw (rotate_at-missing r hash replacement now e) at h))
      | inr (t, e) ↦
          let found = rotate_at-found r hash replacement now t e in
          let (done, same) = rotate_at-ok r hash replacement now t old (rw found at h) in
          (t, inherit t.token replacement, e, rw found done, cloned-IsCopy t.token old same)
    ]

-- The first token stored under the hash is spent; its client is `client_id`.
abbrev pub IsSpent : Hash → String → MemoryRepository → Type 0
IsSpent hash client_id r =
    (t : MemoryRefreshToken) × (find_first (refresh_has_hash hash) r.refresh ≡ some t)
    × (is_nil t.consumed_at ≡ false)
    × (t.client_id ≡ client_id)

KeepsRefresh-hash :
    (hash : Hash) (x y : MemoryRefreshToken)
    → KeepsRefresh x y
    → refresh_has_hash hash y ≡ refresh_has_hash hash x
KeepsRefresh-hash hash x y k = ap (λ (t : RefreshToken). bytes_equal t.hash hash) k.same

run-IsSpent :
    (hash : Hash) (client_id : String) (r : MemoryRepository) (cs : List Call)
    → IsSpent hash client_id r
    → IsSpent hash client_id (run r cs)
run-IsSpent hash client_id r cs (t, e, spent, client) =
    let (b, found, k) =
      find_first-Grows KeepsRefresh (refresh_has_hash hash) (KeepsRefresh-hash hash) r.refresh
        (run r cs).refresh t (run-Persists r cs).refresh e in
    (b, found, k.spent spent, ap (λ (x : RefreshToken). x.client_id) k.same ∙ client)

rotate-spends :
    (r : MemoryRepository) (hash : Hash) (replacement : RefreshToken) (now : Time)
    (old : RefreshToken)
    → (rotate_refresh_token r hash replacement now).1 ≡ ok old
    → IsSpent hash old.client_id (rotate_refresh_token r hash replacement now).0
rotate-spends r hash replacement now old h =
    let (t, heir, e, done, same) = rotate_ok r hash replacement now old h in
    let written =
      find_first-change_first (refresh_has_hash hash) (consume_refresh now) r.refresh t (λ x m. m)
        e in
    (
      consume_refresh now t,
      rw done.stored (
          find_first-append (refresh_has_hash hash)
            (change_first (refresh_has_hash hash) (consume_refresh now) r.refresh) _
            (consume_refresh now t) written),
      refl,
      sym (ap (λ (x : RefreshToken). x.client_id) same.0),
    )

rotate-spent :
    (s : MemoryRepository) (hash : Hash) (client_id : String) (replacement : RefreshToken)
    (now : Time)
    → IsSpent hash client_id s
    → (rotate_refresh_token s hash replacement now).1
      ≡ (if client_id == replacement.client_id then err refresh_reuse else err grant_not_found)
unfolding rotate_at
rotate-spent s hash client_id replacement now (t, e, spent, client) =
    rw (rotate_at-found s hash replacement now t e, ← client) (ground arith)

-- A refresh token is good for one rotation: after a successful one, and whatever is called then, a
-- rotation of the same hash is reported as reuse to its client, and as not found to any other.
pub refresh_single_use :
    (r : MemoryRepository) (hash : Hash) (replacement : RefreshToken) (now : Time)
    (old : RefreshToken) (cs : List Call) (replacement' : RefreshToken) (later : Time)
    → (rotate_refresh_token r hash replacement now).1 ≡ ok old
    → (rotate_refresh_token
        (run (rotate_refresh_token r hash replacement now).0 cs)
        hash
        replacement'
        later).1
      ≡ (if old.client_id == replacement'.client_id then err refresh_reuse else err grant_not_found)
refresh_single_use r hash replacement now old cs replacement' later h =
    rotate-spent (run (rotate_refresh_token r hash replacement now).0 cs) hash old.client_id
      replacement' later
      (run-IsSpent hash old.client_id _ cs (rotate-spends r hash replacement now old h))
