-- ===== src/Mfa/RewrapExamples.antt =====
-- internal/mfa/mfa.go: RewrapSecrets on a repository with one secret under the legacy key.
use certus.Mfa.Repository.{list_secret_ciphertexts, replace_secret_ciphertext}
use certus.Common.{
  string_key, hash_key, pos, bytes_equal, String, ◌≡◌, refl, sym, inl, inr, true, Option, none,
  some, [], ◌∷◌, ◌++◌, arith, ◌==◌, eq_iff, ok, Hash, bytes_equal, Bool-cases, lookup,
}
use certus.Secrets.Keyring.{key_id_pattern, available}
use certus.Secrets.Envelope.{
  encrypt, envelope_prefix, strip_prefix, parse_envelope, envelope_key_id,
}
use certus.Secrets.Standin.{standin, standin-IsCrypto, nonce, key, ring}
use certus.Mfa.Types.{SecretRecord, MemoryCredential, MemoryRepository}
use certus.Mfa.Protection.{
  is_current, decrypt_legacy_secret, decrypt_secret, rewrap_secrets, Protector,
}
use certus.Mfa.Rewrapped.{IsRewrapped, AllReadable, AllNamed, rewrap_secrets_ok, IsReady}

abbrev protector : Protector
protector = record { c = standin; key_ring = ring "k1"; legacy_key = key }

abbrev draw : SecretRecord → Option Hash
draw s = some nonce

-- The secret 4, 2 under the legacy key: the nonce, the 16 bytes of AES-GCM, and the plaintext.
abbrev bob : MemoryCredential
bob = record {
  credential = record {
    user_id = "bob";
    secret = nonce ++ standin.seal key nonce (4 ∷ 2 ∷ []) [];
    enabled = true;
    created_at = 0;
    verified_at = some 1;
    last_used_step = pos 7;
    failed_attempts = 0;
    locked_until = none;
    recovery_codes = 0;
  };
  stored_codes = [];
}

abbrev store : MemoryRepository
store = record { credentials = ("bob", bob) ∷ []; trusted_devices = [] }

protector-IsReady : IsReady protector draw
unfolding available key_id_pattern bytes_equal
protector-IsReady = record {
  crypto = standin-IsCrypto;
  usable = refl;
  pattern = refl;
  no_dot = refl;
  nonces = λ s. (nonce, refl, refl);
}

bob-only :
    (k : String) (v : MemoryCredential)
    → lookup k store.credentials ≡ some v
    → ("bob" ≡ k) × (bob ≡ v)
bob-only k v present = elim (Bool-cases ("bob" == k)) [
  | inl same ↦ ((eq_iff "bob" k).0 same, ground (arith, rw same at present))
  | inr other ↦ let clash = rw other at present in ground arith
]

store-AllNamed : AllNamed store.credentials
store-AllNamed k v present = let (name, it) = bob-only k v present in rw (sym it) name

bob-readable : decrypt_secret protector "bob" bob.secret ≡ ok (4 ∷ 2 ∷ [])
unfolding decrypt_secret decrypt_legacy_secret envelope_key_id parse_envelope strip_prefix
    envelope_prefix
bob-readable = refl

store-AllReadable : AllReadable protector store.credentials
store-AllReadable k v present =
    let (name, it) = bob-only k v present in (4 ∷ 2 ∷ [], rw (sym name, sym it) bob-readable)

-- The one secret is replaced.
rewrap_secrets_count : (rewrap_secrets protector draw store).1 ≡ 1
unfolding rewrap_secrets available bytes_equal list_secret_ciphertexts is_current envelope_key_id
    envelope_prefix decrypt_secret encrypt replace_secret_ciphertext
rewrap_secrets_count = refl

rewrap_secrets_ok_example :
    ((rewrap_secrets protector draw store).2 ≡ ok tt)
    × ((k : String)
        → lookup k store.credentials ≡ none
        → lookup k (rewrap_secrets protector draw store).0.credentials ≡ none)
    × ((k : String) (v : MemoryCredential)
        → lookup k store.credentials ≡ some v
        → (changed : MemoryCredential) × (lookup k
              (rewrap_secrets protector draw store).0.credentials
            ≡ some changed)
          × IsRewrapped protector k v.secret changed.secret)
rewrap_secrets_ok_example =
    rewrap_secrets_ok protector draw store protector-IsReady (refl, tt) store-AllNamed
      store-AllReadable
