-- ===== src/Secrets/Examples.antt =====
-- internal/secrets/keyring.go: a key ring with one key, run on small inputs.
use certus.Common.{
  string_key, hash_key, is_space, reject, bytes_equal, ◌≡◌, refl, true, some, [], ◌∷◌, ◌++◌, ok,
  err, bytes_equal, reject, is_space, codes,
}
use certus.Secrets.Keyring.{
  Text, key_id_pattern, trim_text, cut, split, parse_entries, parse_key_ring, available,
  invalid_envelope, duplicate_entry,
}
use certus.Secrets.Envelope.{envelope_key_id, encrypt, decrypt}
use certus.Secrets.Sealed.{decrypt-encrypt, dotted_envelope_unreadable}
use certus.Secrets.Standin.{standin, standin-IsCrypto, nonce, key, ring}

-- An identifier with a dot is accepted, and the spaces around an entry are dropped.
parse_key_ring_dotted :
    parse_key_ring standin (codes " k.1 = " ++ standin.encode key) ≡ ok (ring "k.1")
unfolding parse_key_ring parse_entries split trim_text cut key_id_pattern is_space bytes_equal
    reject
parse_key_ring_dotted = refl

-- Two entries with one identifier are refused.
parse_key_ring_twice :
    parse_key_ring standin
      (codes "a=" ++ (standin.encode key ++ (codes ",a=" ++ standin.encode key)))
    ≡ err duplicate_entry
unfolding parse_key_ring parse_entries split trim_text cut key_id_pattern is_space bytes_equal
    reject
parse_key_ring_twice = refl

ring-available : available (ring "k1") ≡ true
unfolding available bytes_equal
ring-available = refl

ring-pattern : key_id_pattern (codes "k1") ≡ true
unfolding key_id_pattern
ring-pattern = refl

decrypt-encrypt_example :
    (sealed : Text) × (encrypt standin
        (ring "k1")
        (some nonce)
        (codes "totp")
        (codes "alice")
        (4 ∷ 2 ∷ [])
      ≡ ok (sealed, codes "k1"))
    × (envelope_key_id standin sealed ≡ some (codes "k1"))
    × (decrypt standin (ring "k1") (codes "totp") (codes "alice") sealed (codes "k1")
        ≡ ok (4 ∷ 2 ∷ []))
decrypt-encrypt_example =
    decrypt-encrypt standin (ring "k1") nonce (codes "totp") (codes "alice") (4 ∷ 2 ∷ [])
      standin-IsCrypto ring-available refl ring-pattern refl

dotted_envelope_unreadable_example :
    (sealed : Text) × (encrypt standin
        (ring "k.1")
        (some nonce)
        (codes "totp")
        (codes "alice")
        (4 ∷ 2 ∷ [])
      ≡ ok (sealed, codes "k.1"))
    × (decrypt standin (ring "k.1") (codes "totp") (codes "alice") sealed (codes "k.1")
        ≡ err invalid_envelope)
dotted_envelope_unreadable_example =
    dotted_envelope_unreadable standin (codes " k.1 = " ++ standin.encode key) (ring "k.1")
      (ring "k.1") nonce (codes "totp") (codes "alice") (4 ∷ 2 ∷ []) (codes "k.1") standin-IsCrypto
      parse_key_ring_dotted refl
