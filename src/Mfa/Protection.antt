-- ===== src/Mfa/Protection.antt =====
-- internal/mfa/mfa.go: how TOTP secrets are protected, by the key ring or by the legacy key, and
-- RewrapSecrets, which moves them under the primary key.
use certus.Common.{
  string_key, ℕ, ◌+◌, String, Bool, false, not, ◌||◌, Option, none, some, List, [], ◌∷◌, ◌++◌, ltb,
  eqb, if◌then◌else◌, ok, err, Hash, bytes_equal, length, codes, is_one_of,
}
use certus.Secrets.Keyring.{Text, available, Crypto, KeyRing}
use certus.Secrets.Envelope.{envelope_key_id, nonce_size, encrypt, take, drop, decrypt}
use certus.Mfa.Types.{unavailable, Reply, SecretRecord, MemoryRepository, random_failed}
use certus.Mfa.Repository.{list_secret_ciphertexts, replace_secret_ciphertext}

-- `c` is what internal/secrets takes of Go; the key ring and the legacy key are the service's.
pub record Protector : Type 0 where
  pub c : Crypto
  pub key_ring : KeyRing
  pub legacy_key : Hash

-- totpSecretPurpose
unfoldable pub totp_secret_purpose : Text
totp_secret_purpose = codes "mfa-totp-secret"

unfoldable pub protector_available : Protector → Bool
protector_available p = available p.key_ring || eqb (length p.legacy_key) 32

-- aes.NewCipher takes keys of these lengths.
abbrev pub is_aes_key : Hash → Bool
is_aes_key key = is_one_of (16 ∷ 24 ∷ 32 ∷ []) (length key)

unfoldable pub encrypt_legacy_secret : Crypto → Hash → Option Hash → String → Hash → Reply Hash
encrypt_legacy_secret c key drawn user_id plaintext =
    if not (is_aes_key key) then err unavailable else elim drawn [
      | none ↦ err random_failed
      | some nonce ↦ ok (nonce ++ c.seal key nonce plaintext (codes user_id))
    ]

unfoldable pub decrypt_legacy_secret : Crypto → Hash → String → Hash → Reply Hash
decrypt_legacy_secret c key user_id ciphertext =
    if not (is_aes_key key) || ltb (length ciphertext) nonce_size
    then err unavailable
    else elim (c.unseal key (take nonce_size ciphertext) (drop nonce_size ciphertext)
        (codes user_id)) [ none ↦ err unavailable | some plaintext ↦ ok plaintext ]

-- The service's encrypt.
unfoldable pub encrypt_secret : Protector → Option Hash → String → Hash → Reply Hash
unfolding encrypt_legacy_secret
encrypt_secret p drawn user_id plaintext =
    if available p.key_ring
    then elim (encrypt p.c p.key_ring drawn totp_secret_purpose (codes user_id) plaintext) [
      | err _ ↦ err unavailable
      | ok answer ↦ ok answer.0
    ]
    else encrypt_legacy_secret p.c p.legacy_key drawn user_id plaintext

-- The service's decrypt.
unfoldable pub decrypt_secret : Protector → String → Hash → Reply Hash
unfolding decrypt_legacy_secret
decrypt_secret p user_id ciphertext = elim (envelope_key_id p.c ciphertext) [
  | some key_id ↦
      elim (decrypt p.c p.key_ring totp_secret_purpose (codes user_id) ciphertext key_id) [
        | err _ ↦ err unavailable
        | ok plaintext ↦ ok plaintext
      ]
  | none ↦ decrypt_legacy_secret p.c p.legacy_key user_id ciphertext
]

-- The secret is in an envelope under the primary key.
unfoldable pub is_current : Protector → Hash → Bool
is_current p ciphertext = elim (envelope_key_id p.c ciphertext) [
  | none ↦ false
  | some key_id ↦ bytes_equal key_id p.key_ring.primary_id
]

-- The loop of RewrapSecrets, with the state and the number of secrets replaced. `draw` gives the nonce
-- for a record. With an available key ring, Encrypt fails only if the generator does.
unfoldable pub rewrap_from :
    Protector
    → (SecretRecord → Option Hash)
    → MemoryRepository
    → ℕ
    → List SecretRecord
    → MemoryRepository × ℕ × Reply (Unit {0})
rewrap_from p draw r count [] = (r, count, ok tt)
rewrap_from p draw r count (s ∷ rest) =
    let skipped = rewrap_from p draw r count rest in
    if is_current p s.ciphertext then skipped else elim (decrypt_secret p s.user_id s.ciphertext) [
      | err e ↦ (r, count, err e)
      | ok plaintext ↦
          elim (encrypt p.c p.key_ring (draw s) totp_secret_purpose (codes s.user_id) plaintext) [
            | err _ ↦ (r, count, err random_failed)
            | ok answer ↦
                let written = replace_secret_ciphertext r s.user_id s.ciphertext answer.0 in
                rewrap_from p draw written.0 (if written.1 then count + 1 else count) rest
          ]
    ]

unfoldable pub rewrap_secrets :
    Protector
    → (SecretRecord → Option Hash)
    → MemoryRepository
    → MemoryRepository × ℕ × Reply (Unit {0})
unfolding rewrap_from
rewrap_secrets p draw r =
    if not (available p.key_ring)
    then (r, 0, ok tt)
    else rewrap_from p draw r 0 (list_secret_ciphertexts r)
