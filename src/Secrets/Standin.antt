-- ===== src/Secrets/Standin.antt =====
-- internal/secrets/keyring.go: a stand-in for AES-GCM and base64, on which envelopes can be run. A
-- sealed text is 16 zeros in front of the plaintext, and a byte is written as a code point above the
-- dot's.
use certus.Common.{
  string_key, hash_key, ℕ, zero, suc, ◌+◌, ◌-◌, ◌≤◌, String, ◌≡◌, refl, ap, inl, inr, true, false,
  Option, none, some, [], ◌∷◌, ◌++◌, arith, eqb, if◌then◌else◌, Hash, Bool-cases, length, codes,
}
use certus.Secrets.Keyring.{Text, is_blank, Crypto, KeyRing}
use certus.Secrets.Envelope.{drop}
use certus.Secrets.Sealed.{has_dot, IsCrypto}

abbrev shifted : Hash → Text
shifted [] = []
shifted (b ∷ bs) = (b + 47) ∷ shifted bs

abbrev unshifted : Text → Option Hash
unshifted [] = some []
unshifted (c ∷ cs) =
    let rest = unshifted cs in
    if eqb c b'.' then none else elim rest [ none ↦ none | some bs ↦ some ((c - 47) ∷ bs) ]

abbrev zeros : ℕ → Hash
zeros zero = []
zeros (suc n) = 0 ∷ zeros n

abbrev pub standin : Crypto
standin = record {
  seal = λ key nonce plaintext aad. zeros 16 ++ plaintext;
  unseal = λ key nonce sealed aad. some (drop 16 sealed);
  encode = shifted;
  decode = unshifted;
  decode_std = unshifted;
}

unshifted-shifted : (bs : Hash) → unshifted (shifted bs) ≡ some bs
unshifted-shifted [] = refl
unshifted-shifted (b ∷ bs) =
    let differ : eqb (b + 47) b'.' ≡ false = ground arith in
    let back : b + 47 - 47 ≡ b = omega arith in
    rw (differ, unshifted-shifted bs) (ap (λ z. some (z ∷ bs)) back)

unshifted-has_dot : (cs : Text) → has_dot cs ≡ true → unshifted cs ≡ none
unshifted-has_dot [] h = ground arith
unshifted-has_dot (c ∷ cs) h = elim (Bool-cases (eqb c b'.')) [
  | inl dot ↦ rw dot refl
  | inr other ↦ rw (other, unshifted-has_dot cs (rw other at h)) refl
]

shifted-is_blank : (bs : Hash) → 1 ≤ length bs → is_blank (shifted bs) ≡ false
shifted-is_blank [] h = ground arith
shifted-is_blank (b ∷ bs) h = refl

pub standin-IsCrypto : IsCrypto standin
standin-IsCrypto = record {
  opens = λ key nonce plaintext aad k n. refl;
  adds = λ key nonce plaintext aad. omega arith;
  reads = unshifted-shifted;
  writes = shifted-is_blank;
  no_dot = unshifted-has_dot;
}

abbrev pub nonce : Hash
nonce = 9 ∷ 8 ∷ 7 ∷ 6 ∷ 5 ∷ 4 ∷ 3 ∷ 2 ∷ 1 ∷ 0 ∷ 11 ∷ 10 ∷ []

abbrev pub key : Hash
key = nonce ++ (nonce ++ 1 ∷ 2 ∷ 3 ∷ 4 ∷ 5 ∷ 6 ∷ 7 ∷ 8 ∷ [])

abbrev pub ring : String → KeyRing
ring id = record { primary_id = codes id; keys = (codes id, key) ∷ [] }
