-- ===== src/Secrets/Envelope.antt =====
-- internal/secrets/keyring.go: Encrypt, Decrypt and the form of an envelope.
use certus.Common.{
  hash_key, string_key, ◌>>◌, ◌>>=◌, ℕ, zero, suc, ◌+◌, not, ◌&&◌, ◌||◌, Option, none, some, [],
  ◌∷◌, ◌++◌, ltb, eqb, if◌then◌else◌, ok, err, Hash, bytes_equal, length, reject, codes,
}
use certus.Secrets.Keyring.{
  Reply, Text, key_id_pattern, is_blank, cut, key_of, available, Crypto, KeyRing, unavailable,
  invalid_envelope, random_failed,
}

-- envelopePrefix
unfoldable pub envelope_prefix : Text
envelope_prefix = codes "certus-secret-v1."

-- strings.HasPrefix and strings.TrimPrefix in one.
unfoldable pub strip_prefix : Text → Text → Option Text
strip_prefix [] cs = some cs
strip_prefix (p ∷ ps) [] = none
strip_prefix (p ∷ ps) (c ∷ cs) = if eqb p c then strip_prefix ps cs else none

unfoldable pub parse_envelope : Crypto → Text → Reply (Text × Hash)
unfolding strip_prefix
parse_envelope c envelope = elim (strip_prefix envelope_prefix envelope) [
  | none ↦ err invalid_envelope
  | some rest ↦ elim (cut b'.' rest) [
    | none ↦ err invalid_envelope
    | some (key_id, encoded) ↦ do
      reject (not (key_id_pattern key_id) || is_blank encoded) invalid_envelope
      elim (c.decode encoded) [ none ↦ err invalid_envelope | some payload ↦ ok (key_id, payload) ]
  ]
]

unfoldable pub envelope_key_id : Crypto → Text → Option Text
unfolding parse_envelope
envelope_key_id c envelope = elim (parse_envelope c envelope) [
  | err e ↦ none
  | ok parsed ↦ some parsed.0
]

abbrev pub envelope_aad : Text → Text → Text → Hash
envelope_aad purpose record_id key_id = purpose ++ 0 ∷ (record_id ++ 0 ∷ key_id)

-- The nonce and the overhead of AES-GCM in bytes.
abbrev pub nonce_size : ℕ
nonce_size = 12

abbrev pub overhead : ℕ
overhead = 16

-- Encrypt; `drawn` is the nonce, if the random number generator gave one.
unfoldable pub encrypt : Crypto → KeyRing → Option Hash → Text → Text → Hash → Reply (Text × Text)
encrypt c k drawn purpose record_id plaintext =
    if not (available k) then err unavailable else elim drawn [
      | none ↦ err random_failed
      | some nonce ↦
          let sealed =
            c.seal (key_of k k.primary_id) nonce plaintext
              (envelope_aad purpose record_id k.primary_id) in
          ok (envelope_prefix ++ (k.primary_id ++ b'.' ∷ c.encode (nonce ++ sealed)), k.primary_id)
    ]

-- `payload[:n]` and `payload[n:]`
abbrev pub take : ℕ → Hash → Hash
take zero xs = []
take (suc n) [] = []
take (suc n) (x ∷ xs) = x ∷ take n xs

abbrev pub drop : ℕ → Hash → Hash
drop zero xs = xs
drop (suc n) [] = []
drop (suc n) (x ∷ xs) = drop n xs

unfoldable pub decrypt : Crypto → KeyRing → Text → Text → Text → Text → Reply Hash
decrypt c k purpose record_id envelope expected_key_id = do
  (key_id, payload) ← parse_envelope c envelope
  reject (not (is_blank expected_key_id) && not (bytes_equal expected_key_id key_id))
      invalid_envelope
  reject (not (eqb (length (key_of k key_id)) 32)) unavailable
  reject (ltb (length payload) (nonce_size + overhead)) invalid_envelope
  elim (c.unseal (key_of k key_id) (take nonce_size payload) (drop nonce_size payload)
      (envelope_aad purpose record_id key_id)) [
        | none ↦ err invalid_envelope
        | some plaintext ↦ ok plaintext
      ]
