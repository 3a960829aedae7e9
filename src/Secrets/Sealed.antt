-- ===== src/Secrets/Sealed.antt =====
-- internal/secrets/keyring.go: Decrypt on what Encrypt wrote.
use certus.Secrets.Parsed.{parse_key_ring_ok}
use certus.Common.{
  subst, ◌>>◌, bytes_equal_refl, not, ◌||◌, false, err, ltb, hash_key, reject, ℕ, ◌+◌, ◌≤◌, ◌≡◌,
  refl, sym, ap, inl, inr, Bool, true, false, none, some, [], ◌∷◌, ◌++◌, arith, eqb, ok, Hash,
  Bool-cases, length, any, length-append, reject,
}
use certus.Secrets.Keyring.{
  parse_key_ring, Error, Reply, invalid_envelope, Text, key_id_pattern, is_blank, cut, key_of,
  available, Crypto, KeyRing,
}
use certus.Secrets.Envelope.{
  envelope_key_id, decrypt, envelope_prefix, strip_prefix, parse_envelope, envelope_aad, nonce_size,
  overhead, encrypt, take, drop,
}

abbrev pub has_dot : Text → Bool
has_dot cs = any (λ c. eqb c b'.') cs

-- What the envelopes rely on: AES-GCM with a key of 32 bytes and a nonce of 12 opens what it sealed and
-- adds 16 bytes, base64 reads what it wrote, writes something for some bytes, and its alphabet has no
-- dot.
pub record IsCrypto (c : Crypto) : Type 0 where
  pub opens :
      (key nonce plaintext aad : Hash)
      → length key ≡ 32
      → length nonce ≡ nonce_size
      → c.unseal key nonce (c.seal key nonce plaintext aad) aad ≡ some plaintext
  pub adds :
      (key nonce plaintext aad : Hash)
      → length (c.seal key nonce plaintext aad) ≡ length plaintext + overhead
  pub reads : (bytes : Hash) → c.decode (c.encode bytes) ≡ some bytes
  pub writes : (bytes : Hash) → 1 ≤ length bytes → is_blank (c.encode bytes) ≡ false
  pub no_dot : (text : Text) → has_dot text ≡ true → c.decode text ≡ none

strip_prefix-append : (ps xs : Text) → strip_prefix ps (ps ++ xs) ≡ some xs
unfolding strip_prefix
strip_prefix-append [] xs = refl
strip_prefix-append (p ∷ ps) xs = ground (arith, strip_prefix-append ps xs)

cut-append : (id rest : Text) → has_dot id ≡ false → cut b'.' (id ++ b'.' ∷ rest) ≡ some (id, rest)
unfolding cut
cut-append [] rest h = ground arith
cut-append (c ∷ cs) rest h =
    let behind = cut-append cs rest (ground (arith, h)) in
    let other : eqb c b'.' ≡ false = ground (arith, h) in rw (behind, other) refl

has_dot-append : (cs rest : Text) → has_dot (cs ++ b'.' ∷ rest) ≡ true
has_dot-append [] rest = ground arith
has_dot-append (c ∷ cs) rest = ground (arith, has_dot-append cs rest)

-- With a dot in the identifier, the cut comes too early and leaves a dot behind.
cut-has_dot :
    (id rest : Text)
    → has_dot id ≡ true
    → (front behind : Text) × (cut b'.' (id ++ b'.' ∷ rest) ≡ some (front, behind))
      × (has_dot behind ≡ true)
unfolding cut
cut-has_dot [] rest h = ground arith
cut-has_dot (c ∷ cs) rest h = elim (Bool-cases (eqb c b'.')) [
  | inl hit ↦ ([], cs ++ b'.' ∷ rest, rw hit refl, has_dot-append cs rest)
  | inr miss ↦
      let (front, behind, found, dot) = cut-has_dot cs rest (ground (arith, h, miss)) in
      (c ∷ front, behind, rw (found, miss) refl, dot)
]

take-append : (xs ys : Hash) (n : ℕ) → length xs ≡ n → take n (xs ++ ys) ≡ xs
take-append [] ys n h = rw (sym h) refl
take-append (x ∷ xs) ys n h = rw (sym h) (ap (λ z. x ∷ z) (take-append xs ys (length xs) refl))

drop-append : (xs ys : Hash) (n : ℕ) → length xs ≡ n → drop n (xs ++ ys) ≡ ys
drop-append [] ys n h = rw (sym h) refl
drop-append (x ∷ xs) ys n h = rw (sym h) (drop-append xs ys (length xs) refl)

-- What Encrypt writes.
abbrev envelope : Crypto → KeyRing → Hash → Text → Text → Hash → Text
envelope c k nonce purpose record_id plaintext =
    envelope_prefix
    ++ (k.primary_id
        ++ b'.'
          ∷ c.encode (
              nonce
              ++ c.seal (key_of k k.primary_id) nonce plaintext
                  (envelope_aad purpose record_id k.primary_id)))

encrypt-envelope :
    (c : Crypto) (k : KeyRing) (nonce : Hash) (purpose record_id : Text) (plaintext : Hash)
    → available k ≡ true
    → encrypt c k (some nonce) purpose record_id plaintext
      ≡ ok (envelope c k nonce purpose record_id plaintext, k.primary_id)
unfolding encrypt
encrypt-envelope c k nonce purpose record_id plaintext h = rw (h, encrypt) refl

parse-envelope :
    (c : Crypto) (k : KeyRing) (nonce : Hash) (purpose record_id : Text) (plaintext : Hash)
    → IsCrypto c
    → length nonce ≡ nonce_size
    → key_id_pattern k.primary_id ≡ true
    → has_dot k.primary_id ≡ false
    → parse_envelope c (envelope c k nonce purpose record_id plaintext)
      ≡ ok (
        k.primary_id,
        nonce
            ++ c.seal
                (key_of k k.primary_id)
                nonce
                plaintext
                (envelope_aad purpose record_id k.primary_id),
      )
unfolding parse_envelope reject
parse-envelope c k nonce purpose record_id plaintext v size pattern dots =
    let payload =
      nonce
      ++ c.seal (key_of k k.primary_id) nonce plaintext
          (envelope_aad purpose record_id k.primary_id) in
    let long : 1 ≤ length payload = omega (
      arith,
      size,
      length-append nonce (
          c.seal (key_of k k.primary_id) nonce plaintext
            (envelope_aad purpose record_id k.primary_id)),
    ) in
    rw
      (
        strip_prefix-append envelope_prefix (k.primary_id ++ b'.' ∷ c.encode payload),
        cut-append k.primary_id (c.encode payload) dots,
        pattern,
        v.writes payload long,
        v.reads payload,
        parse_envelope,
      )
      refl

-- With an available key ring whose primary identifier is well formed and has no dot, Encrypt answers an
-- envelope under that identifier, and Decrypt reads the plaintext back from it, for the same purpose
-- and record. It takes what AES-GCM and base64 promise and a nonce of 12 bytes.
pub decrypt-encrypt :
    (c : Crypto) (k : KeyRing) (nonce : Hash) (purpose record_id : Text) (plaintext : Hash)
    → IsCrypto c
    → available k ≡ true
    → length nonce ≡ nonce_size
    → key_id_pattern k.primary_id ≡ true
    → has_dot k.primary_id ≡ false
    → (sealed : Text) × (encrypt c k (some nonce) purpose record_id plaintext
        ≡ ok (sealed, k.primary_id))
      × (envelope_key_id c sealed ≡ some k.primary_id)
      × (decrypt c k purpose record_id sealed k.primary_id ≡ ok plaintext)
unfolding envelope_key_id decrypt reject available
decrypt-encrypt c k nonce purpose record_id plaintext v h size pattern dots =
    let aad = envelope_aad purpose record_id k.primary_id in
    let key = key_of k k.primary_id in
    let body = c.seal key nonce plaintext aad in
    let parsed = parse-envelope c k nonce purpose record_id plaintext v size pattern dots in
    let key_size : eqb (length key) 32 ≡ true = ground (arith, h) in
    let nonblank : is_blank k.primary_id ≡ false = ground (arith, h) in
    let key_length : length key ≡ 32 = ground (arith, key_size) in
    let long : ltb (length (nonce ++ body)) 28 ≡ false =
      ground (arith, size, v.adds key nonce plaintext aad, length-append nonce body) in
    (
      envelope c k nonce purpose record_id plaintext,
      encrypt-envelope c k nonce purpose record_id plaintext h,
      rw (parsed, envelope_key_id) refl,
      rw
          (
            parsed,
            nonblank,
            bytes_equal_refl k.primary_id,
            key_size,
            long,
            take-append nonce body 12 size,
            drop-append nonce body 12 size,
            v.opens key nonce plaintext aad key_length size,
            decrypt,
          )
          refl,
    )

dotted-available :
    (c : Crypto) (specification : Text) (k : KeyRing)
    → parse_key_ring c specification ≡ ok k
    → has_dot k.primary_id ≡ true
    → available k ≡ true
dotted-available c specification k h dot = elim (parse_key_ring_ok c specification k h) [
  | inl nothing ↦ let clash = subst (λ z. has_dot z.primary_id ≡ true) nothing dot in ground arith
  | inr usable ↦ usable.0
]

refused :
    (b : Bool) (e : Error) (next : Reply (Text × Hash))
    → next ≡ err e
    → (reject b e >> next) ≡ err e
unfolding reject
refused true e next h = refl
refused false e next h = h

parse-dotted :
    (c : Crypto) (front behind rest : Text)
    → IsCrypto c
    → cut b'.' rest ≡ some (front, behind)
    → has_dot behind ≡ true
    → parse_envelope c (envelope_prefix ++ rest) ≡ err invalid_envelope
unfolding parse_envelope
parse-dotted c front behind rest v found left =
    rw (strip_prefix-append envelope_prefix rest, found, parse_envelope)
      (refused (not (key_id_pattern front) || is_blank behind) invalid_envelope _
        (rw (v.no_dot behind left) refl))

-- If ParseKeyRing answers a key ring whose primary identifier has a dot, Encrypt answers an envelope, but
-- no key ring reads it again: Decrypt answers that the envelope is not valid, whatever is expected. It
-- takes that base64 text with a dot does not decode.
pub dotted_envelope_unreadable :
    (c : Crypto) (specification : Text) (k other : KeyRing) (nonce : Hash)
    (purpose record_id : Text) (plaintext : Hash) (expected : Text)
    → IsCrypto c
    → parse_key_ring c specification ≡ ok k
    → has_dot k.primary_id ≡ true
    → (sealed : Text) × (encrypt c k (some nonce) purpose record_id plaintext
        ≡ ok (sealed, k.primary_id))
      × (decrypt c other purpose record_id sealed expected ≡ err invalid_envelope)
unfolding decrypt
dotted_envelope_unreadable c specification k other nonce purpose record_id plaintext expected v h
      dot =
    let usable = dotted-available c specification k h dot in
    let rest = c.encode (
      nonce
      ++ c.seal (key_of k k.primary_id) nonce plaintext
          (envelope_aad purpose record_id k.primary_id)) in
    let (front, behind, found, left) = cut-has_dot k.primary_id rest dot in
    (
      envelope c k nonce purpose record_id plaintext,
      encrypt-envelope c k nonce purpose record_id plaintext usable,
      rw (parse-dotted c front behind (k.primary_id ++ b'.' ∷ rest) v found left, decrypt) refl,
    )
