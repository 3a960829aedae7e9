-- ===== src/Mfa/Enrolment.antt =====
-- internal/mfa/mfa.go: recovery codes as they are issued, and the service's methods that enrol a user
-- or remember a device. What rand.Read or security.RandomToken drew is an argument, `none` if it
-- failed. The encodings in the answer of Setup are not modelled.
use certus.Common.{
  zero, suc, ◌%◌, pos, ◌/◌, string_key, hash_key, codes, ℕ, ◌+◌, ◌-◌, ◌*◌, String, false, not, ◌||◌,
  Option, none, some, List, [], ◌∷◌, ◌++◌, map, ltb, if◌then◌else◌, ok, err, Time, second, Hash,
  trim_space, codes,
}
use certus.Mfa.Types.{
  Reply, Credential, TrustedDeviceToken, MemoryRepository, not_found, unavailable, already_enabled,
  not_enabled, trusted_device_not_found, random_failed,
}
use certus.Mfa.Repository.{find, replace_pending, replace_recovery_codes, delete_credential}
use certus.Mfa.Devices.{store_trusted_device, rotate_trusted_device}
use certus.Mfa.Codes.{hash_recovery_code, byte_length, Crypto}

-- The bits of a byte, the most significant first.
abbrev pub bits_of : ℕ → List ℕ
bits_of b = map (λ (weight : ℕ). b / weight % 2) (128 ∷ 64 ∷ 32 ∷ 16 ∷ 8 ∷ 4 ∷ 2 ∷ 1 ∷ [])

unfoldable pub bits : List ℕ → List ℕ
bits [] = []
bits (b ∷ bs) = bits_of b ++ bits bs

-- Digits of five bits, the last one filled up with zeros.
unfoldable pub fives : List ℕ → List ℕ
fives [] = []
fives (a ∷ []) = (a * 16) ∷ []
fives (a ∷ b ∷ []) = (a * 16 + b * 8) ∷ []
fives (a ∷ b ∷ c ∷ []) = (a * 16 + b * 8 + c * 4) ∷ []
fives (a ∷ b ∷ c ∷ d ∷ []) = (a * 16 + b * 8 + c * 4 + d * 2) ∷ []
fives (a ∷ b ∷ c ∷ d ∷ e ∷ rest) = (a * 16 + b * 8 + c * 4 + d * 2 + e) ∷ fives rest

abbrev pub base32_digit : ℕ → ℕ
base32_digit v = if ltb v 26 then b'A' + v else b'2' + (v - 26)

-- base32.StdEncoding without padding.
unfoldable pub base32 : List ℕ → List ℕ
unfolding bits fives
base32 bytes = map base32_digit (fives (bits bytes))

-- The groups of five characters, joined by dashes.
unfoldable pub grouped : List ℕ → List ℕ
grouped [] = []
grouped (a ∷ []) = a ∷ []
grouped (a ∷ b ∷ []) = a ∷ b ∷ []
grouped (a ∷ b ∷ c ∷ []) = a ∷ b ∷ c ∷ []
grouped (a ∷ b ∷ c ∷ d ∷ []) = a ∷ b ∷ c ∷ d ∷ []
grouped (a ∷ b ∷ c ∷ d ∷ e ∷ []) = a ∷ b ∷ c ∷ d ∷ e ∷ []
grouped (a ∷ b ∷ c ∷ d ∷ e ∷ f ∷ rest) =
    let more = grouped (f ∷ rest) in a ∷ b ∷ c ∷ d ∷ e ∷ b'-' ∷ more

unfoldable pub new_recovery_code : List ℕ → List ℕ
unfolding base32 grouped
new_recovery_code value = grouped (base32 value)

-- The loop of newRecoveryCodes: the codes and their hashes. `draw n` is what rand.Read draws when `n`
-- codes are still to come behind it; one draw that fails fails the loop.
unfoldable pub recovery_codes_from :
    Crypto → (ℕ → Option (List ℕ)) → ℕ → Option (List (List ℕ) × List Hash)
unfolding new_recovery_code
recovery_codes_from c draw zero = some ([], [])
recovery_codes_from c draw (suc n) =
    let rest = recovery_codes_from c draw n in
    elim (draw n) [
      | none ↦ none
      | some value ↦ elim rest [
        | none ↦ none
        | some (made, hashes) ↦
            let code = new_recovery_code value in
            some (code ∷ made, hash_recovery_code c code ∷ hashes)
      ]
    ]

-- recoveryCodeCount
abbrev pub recovery_code_count : ℕ
recovery_code_count = 10

unfoldable pub new_recovery_codes :
    Crypto → (ℕ → Option (List ℕ)) → Option (List (List ℕ) × List Hash)
unfolding recovery_codes_from
new_recovery_codes c draw = recovery_codes_from c draw recovery_code_count

-- A credential that waits for its first code.
abbrev pub pending_credential : String → List ℕ → Time → Credential
pending_credential user_id encrypted now = record {
  user_id = user_id;
  secret = encrypted;
  enabled = false;
  created_at = now;
  verified_at = none;
  last_used_step = pos 0;
  failed_attempts = 0;
  locked_until = none;
  recovery_codes = 0;
}

-- Setup after its checks.
unfoldable pub enrol :
    Crypto
    → MemoryRepository
    → String
    → Option (List ℕ)
    → (ℕ → Option (List ℕ))
    → Time
    → MemoryRepository × Reply (List ℕ × List (List ℕ))
unfolding new_recovery_codes
enrol c r user_id none draw now = (r, err random_failed)
enrol c r user_id (some secret) draw now = elim (c.encrypt user_id secret) [
  | err e ↦ (r, err e)
  | ok encrypted ↦ elim (new_recovery_codes c draw) [
    | none ↦ (r, err random_failed)
    | some (made, hashes) ↦
        (replace_pending r (pending_credential user_id encrypted now) hashes, ok (secret, made))
  ]
]

unfoldable pub setup :
    Crypto
    → MemoryRepository
    → String
    → Option (List ℕ)
    → (ℕ → Option (List ℕ))
    → Time
    → MemoryRepository × Reply (List ℕ × List (List ℕ))
unfolding enrol
setup c r user_id secret draw now =
    if not c.available then (r, err unavailable) else elim (find r user_id) [
      | ok credential ↦
          if credential.enabled then (r, err already_enabled) else enrol c r user_id secret draw now
      | err not_found ↦ enrol c r user_id secret draw now
      | err e ↦ (r, err e)
    ]

unfoldable pub regenerate_recovery_codes :
    Crypto
    → MemoryRepository
    → String
    → (ℕ → Option (List ℕ))
    → MemoryRepository × Reply (List (List ℕ))
unfolding new_recovery_codes
regenerate_recovery_codes c r user_id draw = elim (find r user_id) [
  | err e ↦ (r, err e)
  | ok credential ↦
      if not credential.enabled then (r, err not_enabled) else elim (new_recovery_codes c draw) [
        | none ↦ (r, err random_failed)
        | some (made, hashes) ↦
            let (replaced, answer) = replace_recovery_codes r user_id hashes in
            (replaced, elim answer [ err e ↦ err e | ok _ ↦ ok made ])
      ]
]

-- The service's Disable.
abbrev pub disable : MemoryRepository → String → MemoryRepository × Reply (Unit {0})
disable = delete_credential

abbrev pub trusted_device_ttl : ℕ
trusted_device_ttl = 30 * 24 * 3600 * second

abbrev pub trusted_device_max : ℕ
trusted_device_max = 10

-- `hash_token` is security.HashToken.
unfoldable pub remember_device :
    (String → Hash)
    → MemoryRepository
    → String
    → String
    → Option String
    → Time
    → MemoryRepository × Reply TrustedDeviceToken
remember_device hash_token r user_id user_agent none now = (r, err random_failed)
remember_device hash_token r user_id user_agent (some token) now =
    let (stored, answer) =
      store_trusted_device r
        (record {
          user_id = user_id;
          token_hash = hash_token token;
          user_agent_hash = hash_token (trim_space user_agent);
          created_at = now;
          last_used_at = now;
          expires_at = now + trusted_device_ttl;
        })
        trusted_device_max in
    (
      stored,
      elim answer [
        | err e ↦ err e
        | ok _ ↦ ok (record { token = token; expires_at = now + trusted_device_ttl })
      ],
    )

-- `len` of a string: its bytes in UTF-8.
unfoldable pub use_trusted_device :
    (String → Hash)
    → MemoryRepository
    → String
    → String
    → String
    → Option String
    → Time
    → MemoryRepository × Reply (Option TrustedDeviceToken)
use_trusted_device hash_token r user_id token user_agent drawn now =
    if ltb (byte_length (codes token)) 32 || ltb 256 (byte_length (codes token))
    then (r, ok none)
    else elim drawn [
      | none ↦ (r, err random_failed)
      | some replacement ↦
          let (rotated_to, answer) =
            rotate_trusted_device r user_id (hash_token token) (hash_token replacement)
              (hash_token (trim_space user_agent)) now in
          (
            rotated_to,
            elim answer [
              | ok expires_at ↦ ok (some (record { token = replacement; expires_at = expires_at }))
              | err trusted_device_not_found ↦ ok none
              | err e ↦ err e
            ],
          )
    ]
