-- ===== src/Secrets/Parsed.antt =====
-- internal/secrets/keyring.go: the key rings that ParseKeyRing answers.
use certus.Common.{
  none, some, ◌↔◌, Option, ap, bytes_equal, bytes_equal_refl, ◌∙◌, lookup-put, value_of_ok, eqb,
  subst, lookup, string_key, hash_key, ℕ, ◌≡◌, refl, ◌≢◌, ◌⊎◌, inl, inr, Bool, true, false, not,
  ◌||◌, List, [], ◌∷◌, arith, if◌then◌else◌, ok, Hash, Bool-cases, Option-cases, length,
  reject-then_iff, put,
}
use certus.Secrets.Keyring.{
  key_of, onto_first, Text, no_keys, key_id_pattern, is_blank, trim_text, cut, split, parse_entries,
  parse_key_ring, available, Crypto, KeyRing, invalid_entry, duplicate_entry, bad_key,
}

-- A key ring that can be used, under an identifier of the right form.
abbrev pub IsUsable : KeyRing → Type 0
IsUsable k = (available k ≡ true) × (key_id_pattern k.primary_id ≡ true)

-- The key ring after an entry.
abbrev with_entry : Bool → Text → Hash → KeyRing → KeyRing
with_entry first key_id key ring = record {
  primary_id = if first then key_id else ring.primary_id;
  keys = put key_id key ring.keys;
}

-- What an entry that is accepted amounts to.
parse_entry_ok :
    (c : Crypto) (first : Bool) (entry : Text) (entries : List Text) (ring k : KeyRing)
    → parse_entries c first (entry ∷ entries) ring ≡ ok k
    → (key_id : Text) × (key : Hash) × (key_id_pattern key_id ≡ true)
      × (length key ≡ 32)
      × (parse_entries c false entries (with_entry first key_id key ring) ≡ ok k)
unfolding parse_entries
parse_entry_ok c first entry entries ring k h = elim (Option-cases (cut b'=' (trim_text entry))) [
  | inl missing ↦ let clash = rw (missing, parse_entries) at h in ground arith
  | inr ((id, text), found) ↦
      let (formed, rest) =
        (reject-then_iff (not (key_id_pattern (trim_text id)) || is_blank (trim_text text))
            invalid_entry _ (λ z. z, λ z. z)).0
          (rw (found, parse_entries) at h) in
      let (fresh, decoded) = (reject-then_iff _ duplicate_entry _ (λ z. z, λ z. z)).0 rest in
      elim (Option-cases (c.decode_std (trim_text text))) [
        | inl missing ↦ let clash = rw missing at decoded in ground arith
        | inr (key, e) ↦
            let (size, goes_on) =
              (reject-then_iff _ bad_key _ (λ z. z, λ z. z)).0 (rw e at decoded) in
            (trim_text id, key, ground (arith, formed), ground (arith, size), goes_on)
      ]
]

key_id_pattern-is_blank : (id : Text) → key_id_pattern id ≡ true → is_blank id ≡ false
unfolding key_id_pattern
key_id_pattern-is_blank [] h = ground arith
key_id_pattern-is_blank (c ∷ cs) h = refl

available_iff :
    (k : KeyRing)
    → (available k ≡ true)
      ↔ ((is_blank k.primary_id ≡ false) × (length (key_of k k.primary_id) ≡ 32))
unfolding available
available_iff k =
    (λ h. (ground (arith, h), ground (arith, h)), λ (named, size). rw (named, size) refl)

-- Go's zero value for a missing key.
abbrev found_key : Option Hash → Hash
found_key r = elim r [ none ↦ [] | some key ↦ key ]

-- The entry may be the primary one or another.
with_entry-IsUsable :
    (first : Bool) (key_id : Text) (key : Hash) (ring : KeyRing)
    → key_id_pattern key_id ≡ true
    → length key ≡ 32
    → (first ≡ false → IsUsable ring)
    → IsUsable (with_entry first key_id key ring)
with_entry-IsUsable true key_id key ring formed size earlier =
    let there : lookup key_id (put key_id key ring.keys) ≡ some key =
      lookup-put key_id key_id key ring.keys ∙ rw (bytes_equal_refl key_id) refl in
    (
      (available_iff (with_entry true key_id key ring)).1
          (key_id_pattern-is_blank key_id formed, ap (λ r. length (found_key r)) there ∙ size),
      formed,
    )
with_entry-IsUsable false key_id key ring formed size earlier =
    let (usable, primary) = earlier refl in
    let (named, old_size) = (available_iff ring).0 usable in
    let there = lookup-put key_id ring.primary_id key ring.keys in
    let new_size : length (found_key (lookup ring.primary_id (put key_id key ring.keys))) ≡ 32 =
      elim (Bool-cases (bytes_equal key_id ring.primary_id)) [
        | inl same ↦
            let at_id : lookup ring.primary_id (put key_id key ring.keys) ≡ some key =
              there ∙ rw same refl in
            ap (λ r. length (found_key r)) at_id ∙ size
        | inr other ↦
            let at_id : lookup ring.primary_id (put key_id key ring.keys)
                ≡ lookup ring.primary_id ring.keys =
              there ∙ rw other refl in
            ap (λ r. length (found_key r)) at_id ∙ old_size
      ] in
    ((available_iff (with_entry false key_id key ring)).1 (named, new_size), primary)

parse_entries-IsUsable :
    (c : Crypto) (first : Bool) (entries : List Text) (ring k : KeyRing)
    → parse_entries c first entries ring ≡ ok k
    → (first ≡ true → entries ≢ [])
    → (first ≡ false → IsUsable ring)
    → IsUsable k
unfolding parse_entries
parse_entries-IsUsable c true [] ring k h some_entry earlier =
    let clash = some_entry refl refl in ground arith
parse_entries-IsUsable c false [] ring k h some_entry earlier =
    subst IsUsable (value_of_ok h) (earlier refl)
parse_entries-IsUsable c first (entry ∷ entries) ring k h some_entry earlier =
    let (key_id, key, formed, size, goes_on) = parse_entry_ok c first entry entries ring k h in
    parse_entries-IsUsable c false entries (with_entry first key_id key ring) k goes_on
      (λ e. ground arith) (λ e. with_entry-IsUsable first key_id key ring formed size earlier)

onto_first-nonempty : (c : ℕ) (ts : List Text) → onto_first c ts ≢ []
onto_first-nonempty c [] = λ e. ground arith
onto_first-nonempty c (t ∷ ts) = λ e. ground arith

split-nonempty : (sep : ℕ) (cs : Text) → split sep cs ≢ []
unfolding split
split-nonempty sep [] = λ e. ground arith
split-nonempty sep (c ∷ cs) = elim (Bool-cases (eqb c sep)) [
  | inl hit ↦ rw hit (λ e. ground arith)
  | inr miss ↦ rw miss (onto_first-nonempty c (split sep cs))
]

-- ParseKeyRing answers the empty key ring for a blank specification, and otherwise, if it answers one, a
-- key ring that is available, under an identifier of the right form.
pub parse_key_ring_ok :
    (c : Crypto) (specification : Text) (k : KeyRing)
    → parse_key_ring c specification ≡ ok k
    → (k ≡ no_keys) ⊎ IsUsable k
unfolding parse_key_ring
parse_key_ring_ok c specification k h = elim (Bool-cases (is_blank (trim_text specification))) [
  | inl blank ↦ inl (ground (arith, rw blank at h))
  | inr other ↦ inr (
      parse_entries-IsUsable c true (split b',' (trim_text specification)) no_keys k (rw other at h)
        (λ e. split-nonempty b',' (trim_text specification)) (λ e. ground arith))
]
