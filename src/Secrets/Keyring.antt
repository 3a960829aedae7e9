-- ===== src/Secrets/Keyring.antt =====
-- internal/secrets/keyring.go: the key ring. A text is the list of its code points here, which for the
-- texts in an envelope are its bytes.
use certus.Common.{
  hash_key, string_key, ◌>>◌, is_space, ℕ, Bool, true, false, not, ◌&&◌, ◌||◌, Option, none, some,
  List, [], ◌∷◌, eqb, if◌then◌else◌, Result, ok, err, Hash, is_nil, length, reject, lookup, put,
  is_digit, is_lower, is_upper, is_one_of, first_then,
}

-- One error for each sentinel, and one for each text of ParseKeyRing.
pub data Error : Type 0 where
  unavailable invalid_envelope random_failed invalid_entry duplicate_entry bad_key : Error

abbrev pub Reply : Type 0 → Type 0
Reply A = Result Error A

abbrev pub Text : Type 0
Text = List ℕ

-- AES-GCM and base64. `seal key nonce plaintext aad` and `unseal key nonce sealed aad` are the methods
-- Seal and Open without the nonce in front; `encode` is RawURLEncoding.
pub record Crypto : Type 0 where
  pub seal : Hash → Hash → Hash → Hash → Hash
  pub unseal : Hash → Hash → Hash → Hash → Option Hash
  pub encode : Hash → Text
  pub decode : Text → Option Hash
  pub decode_std : Text → Option Hash

pub record KeyRing : Type 0 where
  pub primary_id : Text
  pub keys : List (Text × Hash)

abbrev pub no_keys : KeyRing
no_keys = record { primary_id = []; keys = [] }

-- keyIDPattern, `^[A-Za-z0-9][A-Za-z0-9._-]{0,31}$`
unfoldable pub key_id_pattern : Text → Bool
key_id_pattern cs =
    first_then (λ c. is_upper c || is_lower c || is_digit c)
      (λ c. is_upper c || is_lower c || is_digit c || is_one_of (b'.' ∷ b'_' ∷ b'-' ∷ []) c) 0 31 cs

abbrev pub is_blank : Text → Bool
is_blank [] = true
is_blank (c ∷ cs) = false

abbrev drop_spaces : Text → Text
drop_spaces [] = []
drop_spaces (c ∷ cs) = let rest = drop_spaces cs in if is_space c then rest else c ∷ cs

abbrev drop_spaces_behind : Text → Text
drop_spaces_behind [] = []
drop_spaces_behind (c ∷ cs) =
    let rest = drop_spaces_behind cs in if is_space c && is_blank rest then [] else c ∷ rest

-- strings.TrimSpace
unfoldable pub trim_text : Text → Text
unfolding is_space
trim_text cs = drop_spaces_behind (drop_spaces cs)

-- strings.Cut at a character.
unfoldable pub cut : ℕ → Text → Option (Text × Text)
cut sep [] = none
cut sep (c ∷ cs) =
    let rest = cut sep cs in
    if eqb c sep
    then some ([], cs)
    else elim rest [ none ↦ none | some (front, behind) ↦ some (c ∷ front, behind) ]

abbrev pub onto_first : ℕ → List Text → List Text
onto_first c [] = (c ∷ []) ∷ []
onto_first c (t ∷ ts) = (c ∷ t) ∷ ts

-- strings.Split at a character.
unfoldable pub split : ℕ → Text → List Text
split sep [] = [] ∷ []
split sep (c ∷ cs) = let rest = split sep cs in if eqb c sep then [] ∷ rest else onto_first c rest

-- The loop of ParseKeyRing; the first entry's key is the primary one.
unfoldable pub parse_entries : Crypto → Bool → List Text → KeyRing → Reply KeyRing
unfolding trim_text cut
parse_entries c first [] ring = ok ring
parse_entries c first (entry ∷ entries) ring = elim (cut b'=' (trim_text entry)) [
  | none ↦ err invalid_entry
  | some (id, text) ↦ do
    let key_id = trim_text id
    let encoded = trim_text text
    reject (not (key_id_pattern key_id) || is_blank encoded) invalid_entry
    reject (not (is_nil (lookup key_id ring.keys))) duplicate_entry
    elim (c.decode_std encoded) [
      | none ↦ err bad_key
      | some key ↦ do
        reject (not (eqb (length key) 32)) bad_key
        parse_entries c false entries (record {
          primary_id = if first then key_id else ring.primary_id;
          keys = put key_id key ring.keys;
        })
    ]
]

unfoldable pub parse_key_ring : Crypto → Text → Reply KeyRing
unfolding parse_entries split
parse_key_ring c specification =
    let text = trim_text specification in
    if is_blank text then ok no_keys else parse_entries c true (split b',' text) no_keys

abbrev pub key_of : KeyRing → Text → Hash
key_of k id = elim (lookup id k.keys) [ none ↦ [] | some key ↦ key ]

unfoldable pub available : KeyRing → Bool
available k = not (is_blank k.primary_id) && eqb (length (key_of k k.primary_id)) 32
