-- ===== src/Oauth/Grants/Reuse.antt =====
-- internal/oauth/store.go: the answer to a refresh token that is presented again.
use certus.Common.{
  String, ◌≡◌, ap, not, none, some, arith, Time, Hash, inl, inr, find_first, filter, find_first-map,
  Option-cases, err, ok, Option, ◌==◌, ◌&&◌, bytes_equal,
}
use certus.Oauth.Types.{
  RefreshToken, MemoryRefreshToken, MemoryAccessToken, MemoryRepository, refresh_reuse,
  grant_not_found, Reply, AccessToken,
}
use certus.Oauth.Tokens.{
  refresh_has_hash, rotate_at, rotate_refresh_token, revoke_refresh_token, revoke_family,
  revoke_refresh_in, revoke_access_in, find_access_token, find_refresh_token, access_is_live,
  refresh_is_live, cloned,
}
use certus.Oauth.Grants.Rotation.{rotate_at-found, rotate_at-missing}

-- The repository without the tokens of a family.
abbrev pub without_family : String → MemoryRepository → MemoryRepository
without_family family r = record r {
  refresh = filter (λ t. not (t.family_id == family)) r.refresh;
  access_tokens = filter (λ t. not (t.family_id == family)) r.access_tokens;
}

-- What the store answers to a token is the same in both repositories.
pub record SameTokens (r s : MemoryRepository) : Type 0 where
  pub access :
      (hash : Hash) (now : Time) → find_access_token r hash now ≡ find_access_token s hash now
  pub refresh :
      (hash : Hash) (now : Time) → find_refresh_token r hash now ≡ find_refresh_token s hash now

abbrev pub access_answer : Option MemoryAccessToken → Reply AccessToken
access_answer o = elim o [ none ↦ err grant_not_found | some t ↦ ok t.token ]

abbrev pub refresh_answer : Option MemoryRefreshToken → Reply RefreshToken
refresh_answer o = elim o [ none ↦ err grant_not_found | some t ↦ ok (cloned t.token) ]

pub SameTokens-found :
    (r s : MemoryRepository)
    → ((hash : Hash) (now : Time)
        → find_first (access_is_live hash now) r.access_tokens
          ≡ find_first (access_is_live hash now) s.access_tokens)
    → ((hash : Hash) (now : Time)
        → find_first (refresh_is_live hash now) r.refresh
          ≡ find_first (refresh_is_live hash now) s.refresh)
    → SameTokens r s
unfolding find_access_token find_refresh_token
SameTokens-found r s a f = record {
  access = λ hash now. ap access_answer (a hash now);
  refresh = λ hash now. ap refresh_answer (f hash now);
}

-- Only the lists of tokens matter.
pub SameTokens-same :
    (r s t : MemoryRepository)
    → r.access_tokens ≡ s.access_tokens
    → r.refresh ≡ s.refresh
    → SameTokens s t
    → SameTokens r t
unfolding find_access_token find_refresh_token
SameTokens-same r s t a f h = record {
  access = λ hash now. rw a (h.access hash now);
  refresh = λ hash now. rw f (h.refresh hash now);
}

pub revoke_family-SameTokens :
    (r : MemoryRepository) (family : String) (now : Time)
    → SameTokens (revoke_family r family now) (without_family family r)
unfolding revoke_family
revoke_family-SameTokens r family now =
    SameTokens-found (revoke_family r family now) (without_family family r)
      (λ hash t.
        find_first-map (access_is_live hash t) (λ (x : MemoryAccessToken). x.family_id == family)
          (revoke_access_in family now) (λ x e. ground arith) (λ x e. ground arith) r.access_tokens)
      (λ hash t.
        find_first-map (refresh_is_live hash t) (λ (x : MemoryRefreshToken). x.family_id == family)
          (revoke_refresh_in family now) (λ x e. ground arith) (λ x e. ground arith) r.refresh)

rotate_at-reuse :
    (r : MemoryRepository) (hash : Hash) (replacement : RefreshToken) (now : Time)
    (t : MemoryRefreshToken)
    → (rotate_at r hash replacement now t).1 ≡ err refresh_reuse
    → (rotate_at r hash replacement now t).0 ≡ revoke_family r t.family_id now
unfolding rotate_at
rotate_at-reuse r hash replacement now t h = ground arith

-- When a rotation reports reuse, the tokens of the presented one's family, access tokens too, are
-- as good as deleted: every later look-up answers as if the store held only the other families.
pub reuse_revokes_family :
    (r : MemoryRepository) (hash : Hash) (replacement : RefreshToken) (now : Time)
    → (rotate_refresh_token r hash replacement now).1 ≡ err refresh_reuse
    → (t : MemoryRefreshToken) × (find_first (refresh_has_hash hash) r.refresh ≡ some t)
      × SameTokens (rotate_refresh_token r hash replacement now).0 (without_family t.family_id r)
reuse_revokes_family r hash replacement now h =
    elim (Option-cases (find_first (refresh_has_hash hash) r.refresh)) [
      | inl e ↦ absurd (cc (rw (rotate_at-missing r hash replacement now e) at h))
      | inr (t, e) ↦
          let found = rotate_at-found r hash replacement now t e in
          (
            t,
            e,
            rw (found, rotate_at-reuse r hash replacement now t (rw found at h))
                (revoke_family-SameTokens r t.family_id now),
          )
    ]

-- Revoking a refresh token by its hash and client does the same to its family.
revoke_refresh_token-SameTokens :
    (r : MemoryRepository) (hash : Hash) (client_id : String) (now : Time)
    → (revoke_refresh_token r hash client_id now).1 ≡ ok tt
    → (t : MemoryRefreshToken) × (find_first
          (λ (x : MemoryRefreshToken). bytes_equal x.hash hash && x.client_id == client_id)
          r.refresh
        ≡ some t)
      × SameTokens (revoke_refresh_token r hash client_id now).0 (without_family t.family_id r)
unfolding revoke_refresh_token
revoke_refresh_token-SameTokens r hash client_id now h =
    elim (Option-cases (
      find_first (λ (x : MemoryRefreshToken). bytes_equal x.hash hash && x.client_id == client_id)
        r.refresh)) [
          | inl e ↦ absurd (cc (rw (e, revoke_refresh_token) at h))
          | inr (t, e) ↦
              (t, e, rw (e, revoke_refresh_token) (revoke_family-SameTokens r t.family_id now))
        ]
