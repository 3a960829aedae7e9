-- ===== src/Mfa/Rewrapped.antt =====
-- internal/mfa/mfa.go: RewrapSecrets, and the secrets before and after it.
use certus.Common.{
  eq_iff, subst, string_key, ℕ, ◌+◌, String, ◌≡◌, refl, sym, ap, ◌∙◌, inl, inr, true, false, Option,
  none, some, List, [], ◌∷◌, map, arith, ◌==◌, eq_refl, ok, Hash, bytes_equal_refl,
  eq_of_bytes_equal, Bool-cases, Option-cases, length, lookup, put, lookup-put, IsDict, codes,
}
use certus.Secrets.Keyring.{key_id_pattern, available}
use certus.Secrets.Envelope.{envelope_key_id, nonce_size}
use certus.Secrets.Sealed.{has_dot, decrypt-encrypt, IsCrypto}
use certus.Mfa.Types.{Reply, SecretRecord, MemoryCredential, MemoryRepository}
use certus.Mfa.Repository.{list_secret_ciphertexts, with_secret, replace_secret_ciphertext}
use certus.Mfa.Protection.{
  rewrap_secrets, totp_secret_purpose, decrypt_secret, is_current, rewrap_from, Protector,
}

-- The new ciphertext is in an envelope under the primary key and holds what the old one holds.
abbrev pub IsRewrapped : Protector → String → Hash → Hash → Type 0
IsRewrapped p user_id old new =
    (envelope_key_id p.c new ≡ some p.key_ring.primary_id)
    × (decrypt_secret p user_id new ≡ decrypt_secret p user_id old)

-- A key ring that can be relied on, and nonces of 12 bytes.
pub record IsReady (p : Protector) (draw : SecretRecord → Option Hash) : Type 0 where
  pub crypto : IsCrypto p.c
  pub usable : available p.key_ring ≡ true
  pub pattern : key_id_pattern p.key_ring.primary_id ≡ true
  pub no_dot : has_dot p.key_ring.primary_id ≡ false
  pub nonces : (s : SecretRecord) → (n : Hash) × (draw s ≡ some n) × (length n ≡ nonce_size)

abbrev record_of : String × MemoryCredential → SecretRecord
record_of e = record { user_id = e.1.user_id; ciphertext = e.1.secret }

current-key :
    (p : Protector) (ciphertext : Hash)
    → is_current p ciphertext ≡ true
    → envelope_key_id p.c ciphertext ≡ some p.key_ring.primary_id
unfolding is_current
current-key p ciphertext h = elim (Option-cases (envelope_key_id p.c ciphertext)) [
  | inl e ↦ let clash = rw (e, is_current) at h in ground arith
  | inr (id, e) ↦
      let same = rw (e, is_current) at h in
      e ∙ ap some (eq_of_bytes_equal id p.key_ring.primary_id same)
]

replaced-secret :
    (r : MemoryRepository) (m : MemoryCredential) (new : Hash)
    → lookup m.user_id r.credentials ≡ some m
    → replace_secret_ciphertext r m.user_id m.secret new
      ≡ (record r { credentials = put m.user_id (with_secret new m) r.credentials }, true)
unfolding replace_secret_ciphertext
replaced-secret r m new there =
    rw (there, bytes_equal_refl m.secret, replace_secret_ciphertext) refl

-- What the loop does with one record: it goes on, has touched that user alone, and the user's secret is
-- rewrapped.
abbrev Step :
    Protector
    → (SecretRecord → Option Hash)
    → MemoryRepository
    → ℕ
    → MemoryCredential
    → List SecretRecord
    → String
    → Type 0
Step p draw r count m rest k =
    (next : MemoryRepository) × (n : ℕ) × (changed : MemoryCredential) × (rewrap_from p draw r count
        (record_of (m.user_id, m) ∷ rest)
      ≡ rewrap_from p draw next n rest)
    × ((j : String) → k == j ≡ false → lookup j next.credentials ≡ lookup j r.credentials)
    × (lookup k next.credentials ≡ some changed)
    × IsRewrapped p k m.secret changed.secret

rewrap_one :
    (p : Protector) (draw : SecretRecord → Option Hash) (r : MemoryRepository) (count : ℕ)
    (m : MemoryCredential) (rest : List SecretRecord) (plaintext : Hash)
    → IsReady p draw
    → lookup m.user_id r.credentials ≡ some m
    → decrypt_secret p m.user_id m.secret ≡ ok plaintext
    → Step p draw r count m rest m.user_id
unfolding rewrap_from decrypt_secret
rewrap_one p draw r count m rest plaintext ready there opened =
    elim (Bool-cases (is_current p m.secret)) [
      | inl current ↦ (
        r,
        count,
        m,
        rw (current, rewrap_from) refl,
        λ j other. refl,
        there,
        (current-key p m.secret current, refl),
      )
      | inr stale ↦
          let (nonce, drawn, size) = ready.nonces (record_of (m.user_id, m)) in
          let (sealed, written, id, read) =
            decrypt-encrypt p.c p.key_ring nonce totp_secret_purpose (codes m.user_id) plaintext
              ready.crypto ready.usable size ready.pattern ready.no_dot in
          (
            record r { credentials = put m.user_id (with_secret sealed m) r.credentials },
            count + 1,
            with_secret sealed m,
            rw (stale, opened, drawn, written, replaced-secret r m sealed there, rewrap_from) refl,
            λ j other. lookup-put m.user_id j (with_secret sealed m) r.credentials ∙ rw other refl,
            lookup-put m.user_id m.user_id (with_secret sealed m) r.credentials
                ∙ rw (eq_refl m.user_id) refl,
            (id, rw (id, read, decrypt_secret) refl ∙ sym opened),
          )
    ]

-- Every stored secret can be read.
abbrev pub AllReadable : Protector → List (String × MemoryCredential) → Type 0
AllReadable p m =
    (k : String) (v : MemoryCredential)
    → lookup k m ≡ some v
    → (plaintext : Hash) × (decrypt_secret p k v.secret ≡ ok plaintext)

-- A credential stands under its user's identifier.
abbrev pub AllNamed : List (String × MemoryCredential) → Type 0
AllNamed m = (k : String) (v : MemoryCredential) → lookup k m ≡ some v → v.user_id ≡ k

-- What the loop leaves of the entries `xs`, from the state `r`.
abbrev Outcome :
    Protector
    → MemoryRepository
    → List (String × MemoryCredential)
    → MemoryRepository × ℕ × Reply (Unit {0})
    → Type 0
Outcome p r xs answer =
    (answer.2 ≡ ok tt)
    × ((k : String) → lookup k xs ≡ none → lookup k answer.0.credentials ≡ lookup k r.credentials)
    × ((k : String) (v : MemoryCredential)
        → lookup k xs ≡ some v
        → (changed : MemoryCredential) × (lookup k answer.0.credentials ≡ some changed)
          × IsRewrapped p k v.secret changed.secret)

-- The first entry's step and the outcome of the others.
Outcome-cons :
    (p : Protector) (r next : MemoryRepository) (k : String) (m changed : MemoryCredential)
    (xs : List (String × MemoryCredential)) (answer : MemoryRepository × ℕ × Reply (Unit {0}))
    → lookup k xs ≡ none
    → ((j : String) → k == j ≡ false → lookup j next.credentials ≡ lookup j r.credentials)
    → lookup k next.credentials ≡ some changed
    → IsRewrapped p k m.secret changed.secret
    → Outcome p next xs answer
    → Outcome p r ((k, m) ∷ xs) answer
Outcome-cons p r next k m changed xs answer fresh others written good (answered, kept, done) = (
  answered,
  λ j absent. elim (Bool-cases (k == j)) [
    | inl same ↦ let clash = rw same at absent in ground arith
    | inr other ↦ kept j (rw other at absent) ∙ others j other
  ],
  λ j v present. elim (Bool-cases (k == j)) [
    | inl same ↦
        let here : k ≡ j = (eq_iff k j).0 same in
        let it : m ≡ v = ground (arith, rw same at present) in
        (changed, rw (sym here) (kept k fresh ∙ written), rw (sym here, sym it) good)
    | inr other ↦ done j v (rw other at present)
  ],
)

rewrap_all :
    (p : Protector) (draw : SecretRecord → Option Hash) (r : MemoryRepository) (count : ℕ)
    (xs : List (String × MemoryCredential))
    → IsReady p draw
    → IsDict xs
    → AllNamed xs
    → AllReadable p xs
    → ((k : String) (v : MemoryCredential) → lookup k xs ≡ some v → lookup k r.credentials ≡ some v)
    → Outcome p r xs (rewrap_from p draw r count (map record_of xs))
unfolding rewrap_from
rewrap_all p draw r count [] ready dict named readable stored =
    (refl, λ k e. refl, λ k v e. ground arith)
rewrap_all p draw r count ((k, m) ∷ xs) ready dict named readable stored =
    let first : lookup k ((k, m) ∷ xs) ≡ some m = rw (eq_refl k) refl in
    let (plaintext, opened) = readable k m first in
    let name : m.user_id ≡ k = named k m first in
    let later : (j : String) (v : MemoryCredential) → lookup j xs ≡ some v → k == j ≡ false =
      λ j v e. elim (Bool-cases (k == j)) [
        | inl same ↦
            let clash = sym (subst (λ z. lookup z xs ≡ none) ((eq_iff k j).0 same) dict.0) ∙ e in
            ground arith
        | inr other ↦ other
      ] in
    let (next, n, changed, goes_on, others, written, good) =
      subst (Step p draw r count m (map record_of xs)) name (
        rewrap_one p draw r count m (map record_of xs) plaintext ready
          (subst (λ j. lookup j r.credentials ≡ some m) (sym name) (stored k m first))
          (subst (λ j. decrypt_secret p j m.secret ≡ ok plaintext) (sym name) opened)) in
    subst (Outcome p r ((k, m) ∷ xs)) (sym goes_on) (
      Outcome-cons p r next k m changed xs (rewrap_from p draw next n (map record_of xs)) dict.0
        others written good
        (rewrap_all p draw next n xs ready dict.1 (λ j v e. named j v (rw (later j v e) e))
          (λ j v e. readable j v (rw (later j v e) e))
          (λ j v e. others j (later j v e) ∙ stored j v (rw (later j v e) e))))

-- If the key ring is available, its primary identifier well formed and without a dot, AES-GCM and base64
-- do what they promise and the generator gives nonces, then on a repository in which each user has one
-- entry, under their own identifier, and in which every secret can be read, RewrapSecrets succeeds:
-- every user's new secret is in an envelope under the primary key and decrypts as the old one did, and
-- no other user appears.
pub rewrap_secrets_ok :
    (p : Protector) (draw : SecretRecord → Option Hash) (r : MemoryRepository)
    → IsReady p draw
    → IsDict r.credentials
    → AllNamed r.credentials
    → AllReadable p r.credentials
    → ((rewrap_secrets p draw r).2 ≡ ok tt)
      × ((k : String)
          → lookup k r.credentials ≡ none
          → lookup k (rewrap_secrets p draw r).0.credentials ≡ none)
      × ((k : String) (v : MemoryCredential)
          → lookup k r.credentials ≡ some v
          → (changed : MemoryCredential) × (lookup k (rewrap_secrets p draw r).0.credentials
              ≡ some changed)
            × IsRewrapped p k v.secret changed.secret)
unfolding rewrap_secrets list_secret_ciphertexts
rewrap_secrets_ok p draw r ready dict named readable =
    let (answered, kept, done) =
      rewrap_all p draw r 0 r.credentials ready dict named readable (λ k v e. e) in
    rw (ready.usable, rewrap_secrets) (answered, λ k absent. kept k absent ∙ absent, done)
