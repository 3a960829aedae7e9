-- ===== src/Mfa/Codes.antt =====
-- internal/mfa/mfa.go: how codes are read, and the code of a time step (RFC 6238).
use certus.Common.{
  ◌^◌, negsuc, pos, ◌/◌, ◌%◌, ℕ, zero, suc, ◌+◌, ◌-◌, ◌*◌, String, Bool, true, false, not, ◌&&◌,
  List, [], ◌∷◌, ◌++◌, ltb, leb, eqb, if◌then◌else◌, Time, second, Hash, length, filter, negative,
  ℤ, is_space, codes, is_digit, in_class,
}
use certus.Mfa.Types.{Reply}

-- What the service uses and this model does not define: the functions of Go's crypto and strings
-- packages, and the protection of secrets, which is internal/secrets or AES-GCM.
pub record Crypto : Type 0 where
  pub available : Bool
  -- `decrypt` of a user's ciphertext.
  pub decrypt : String → List ℕ → Reply (List ℕ)
  pub encrypt : String → List ℕ → Reply (List ℕ)
  -- HMAC-SHA-1 of a message with a key: 20 bytes.
  pub hmac_sha1 : List ℕ → List ℕ → List ℕ
  pub sha256 : List ℕ → Hash
  -- strings.ToUpper
  pub to_upper : List ℕ → List ℕ

abbrev pub totp_period : ℕ
totp_period = 30

-- `uint64(step)` in eight bytes, the most significant first.
unfoldable pub put_uint64 : ℕ → ℕ → List ℕ → List ℕ
put_uint64 zero n rest = rest
put_uint64 (suc k) n rest = put_uint64 k (n / 256) ((n % 256) ∷ rest)

abbrev pub to_uint64 : ℤ → ℕ
to_uint64 (pos n) = n % 2 ^ 64
to_uint64 (negsuc n) = (2 ^ 64 - suc n % 2 ^ 64) % 2 ^ 64

-- `sum[i]`; Go panics where this is 0, which a sum of 20 bytes rules out.
unfoldable pub byte_at : ℕ → List ℕ → ℕ
byte_at i [] = 0
byte_at zero (b ∷ bs) = b
byte_at (suc i) (b ∷ bs) = byte_at i bs

-- The dynamic truncation of a sum to 31 bits.
unfoldable pub truncated : List ℕ → ℕ
unfolding byte_at
truncated sum =
    let offset = byte_at (length sum - 1) sum % 16 in
    byte_at offset sum % 128 * 2 ^ 24
    + byte_at (offset + 1) sum * 2 ^ 16
    + byte_at (offset + 2) sum * 2 ^ 8
    + byte_at (offset + 3) sum

-- The last `width` decimal digits, as `%0*d` prints a number that has no more.
unfoldable pub decimal : ℕ → ℕ → List ℕ → List ℕ
decimal zero n rest = rest
decimal (suc width) n rest = decimal width (n / 10) ((b'0' + n % 10) ∷ rest)

unfoldable pub generate_totp : Crypto → List ℕ → ℤ → List ℕ
unfolding put_uint64 truncated decimal
generate_totp c secret step =
    decimal 6 (truncated (c.hmac_sha1 secret (put_uint64 8 (to_uint64 step) [])) % 1000000) []

unfoldable pub trim_left : List ℕ → List ℕ
trim_left [] = []
trim_left (x ∷ xs) = let rest = trim_left xs in if is_space x then rest else x ∷ xs

unfoldable pub is_blank : List ℕ → Bool
is_blank [] = true
is_blank (x ∷ xs) = false

unfoldable pub trim_right : List ℕ → List ℕ
unfolding is_blank
trim_right [] = []
trim_right (x ∷ xs) =
    let rest = trim_right xs in if is_space x && is_blank rest then [] else x ∷ rest

-- strings.TrimSpace, over code points.
unfoldable pub trim_codes : List ℕ → List ℕ
unfolding trim_left trim_right
trim_codes xs = trim_right (trim_left xs)

-- normalizeCode, over code points.
unfoldable pub normalize_code : Crypto → List ℕ → List ℕ
unfolding trim_codes
normalize_code c code =
    filter (λ (x : ℕ). not (eqb x b'-') && not (eqb x b' ')) (c.to_upper (trim_codes code))

abbrev pub recovery_prefix : List ℕ
recovery_prefix = codes "certus:mfa:recovery:"

unfoldable pub hash_recovery_code : Crypto → List ℕ → Hash
unfolding normalize_code
hash_recovery_code c code = c.sha256 (recovery_prefix ++ normalize_code c code)

-- totpCodePattern, `^[0-9]{6}$`
unfoldable pub totp_code_pattern : List ℕ → Bool
totp_code_pattern code = in_class is_digit 6 6 code

-- The number of bytes of a code point in UTF-8.
abbrev pub rune_length : ℕ → ℕ
rune_length x = if ltb x 0x80 then 1 else if ltb x 0x800 then 2 else if ltb x 0x10000 then 3 else 4

unfoldable pub byte_length : List ℕ → ℕ
byte_length [] = 0
byte_length (x ∷ xs) = rune_length x + byte_length xs

-- `now.Unix()`: seconds since 1970, for an instant in nanoseconds since year 1.
abbrev pub epoch : ℕ
epoch = 62_135_596_800

unfoldable pub unix : Time → ℤ
unix now =
    let seconds = now / second in
    if leb epoch seconds then pos (seconds - epoch) else negative (epoch - seconds)

-- `unix / totpPeriod`, which Go rounds towards zero.
unfoldable pub step_at : Time → ℤ
unfolding unix
step_at now = elim (unix now) [
  | pos n ↦ pos (n / totp_period)
  | negsuc n ↦ negative (suc n / totp_period)
]
