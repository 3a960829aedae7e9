-- ===== src/Mfa/Issued.antt =====
-- internal/mfa/mfa.go: recovery codes as they are issued and read.
use certus.Common.{
  length-map, is_space, ℕ, ◌*◌, ◌≤◌, ◌<◌, ◌≡◌, refl, ap, Bool, true, false, not, ◌&&◌, ◌||◌, List,
  [], ◌∷◌, map, arith, eqb, length, filter, All, is_space, is_digit, is_upper,
}
use certus.Mfa.Codes.{trim_left, trim_right, trim_codes}
use certus.Mfa.Enrolment.{bits, fives, base32_digit, base32, grouped}

-- A character of base32, and a character of a recovery code.
abbrev pub IsDigit32 : ℕ → Type 0
IsDigit32 x = is_upper x || is_digit x ≡ true

abbrev pub IsCodeChar : ℕ → Type 0
IsCodeChar x = is_upper x || is_digit x || eqb x b'-' ≡ true

bits-le : (bytes : List ℕ) → All (λ x. x ≤ 1) (bits bytes)
unfolding bits
bits-le [] = tt
bits-le (b ∷ bs) = (
  omega arith,
  (
    omega arith,
    (
      omega arith,
      (omega arith, (omega arith, (omega arith, (omega arith, (omega arith, bits-le bs))))),
    ),
  ),
)

length-bits : (bytes : List ℕ) → length (bits bytes) ≡ 8 * length bytes
unfolding bits
length-bits [] = refl
length-bits (b ∷ bs) = omega (arith, length-bits bs)

fives-le : (xs : List ℕ) → All (λ x. x ≤ 1) xs → All (λ v. v < 32) (fives xs)
unfolding fives
fives-le [] h = tt
fives-le (a ∷ []) h = (omega arith, tt)
fives-le (a ∷ b ∷ []) h = (omega arith, tt)
fives-le (a ∷ b ∷ c ∷ []) h = (omega arith, tt)
fives-le (a ∷ b ∷ c ∷ d ∷ []) h = (omega arith, tt)
fives-le (a ∷ b ∷ c ∷ d ∷ e ∷ rest) h = (omega arith, fives-le rest h.1.1.1.1.1)

length-fives : (xs : List ℕ) → length xs ≤ 5 * length (fives xs)
unfolding fives
length-fives [] = omega arith
length-fives (a ∷ []) = omega arith
length-fives (a ∷ b ∷ []) = omega arith
length-fives (a ∷ b ∷ c ∷ []) = omega arith
length-fives (a ∷ b ∷ c ∷ d ∷ []) = omega arith
length-fives (a ∷ b ∷ c ∷ d ∷ e ∷ rest) = omega (arith, length-fives rest)

base32_digits : (vs : List ℕ) → All (λ v. v < 32) vs → All IsDigit32 (map base32_digit vs)
base32_digits [] h = tt
base32_digits (v ∷ vs) h = (ground (arith, h.0), base32_digits vs h.1)

pub base32-IsDigit32 : (bytes : List ℕ) → All IsDigit32 (base32 bytes)
unfolding base32
base32-IsDigit32 bytes = base32_digits (fives (bits bytes)) (fives-le (bits bytes) (bits-le bytes))

-- 18 bytes make 29 characters.
pub length-base32 : (bytes : List ℕ) → 8 * length bytes ≤ 5 * length (base32 bytes)
unfolding base32
length-base32 bytes = omega (
  arith,
  length-map base32_digit (fives (bits bytes)),
  length-fives (bits bytes),
  length-bits bytes,
)

pub grouped-IsCodeChar : (xs : List ℕ) → All IsDigit32 xs → All IsCodeChar (grouped xs)
unfolding grouped
grouped-IsCodeChar [] h = tt
grouped-IsCodeChar (a ∷ []) h = (ground (arith, h.0), tt)
grouped-IsCodeChar (a ∷ b ∷ []) h = (ground arith, (ground arith, tt))
grouped-IsCodeChar (a ∷ b ∷ c ∷ []) h = (ground arith, (ground arith, (ground arith, tt)))
grouped-IsCodeChar (a ∷ b ∷ c ∷ d ∷ []) h =
    (ground arith, (ground arith, (ground arith, (ground arith, tt))))
grouped-IsCodeChar (a ∷ b ∷ c ∷ d ∷ e ∷ []) h =
    (ground arith, (ground arith, (ground arith, (ground arith, (ground arith, tt)))))
grouped-IsCodeChar (a ∷ b ∷ c ∷ d ∷ e ∷ f ∷ rest) h = (
  ground arith,
  (
    ground arith,
    (
      ground arith,
      (ground arith, (ground arith, (refl, grouped-IsCodeChar (f ∷ rest) h.1.1.1.1.1))),
    ),
  ),
)

abbrev no_separator : ℕ → Bool
no_separator x = not (eqb x b'-') && not (eqb x b' ')

pub filter-IsDigit32 : (xs : List ℕ) → All IsDigit32 xs → filter no_separator xs ≡ xs
filter-IsDigit32 [] h = refl
filter-IsDigit32 (x ∷ xs) h =
    let kept : no_separator x ≡ true = ground (arith, h.0) in
    rw kept (ap (λ z. x ∷ z) (filter-IsDigit32 xs h.1))

pub filter-grouped :
    (xs : List ℕ) → All IsDigit32 xs → filter no_separator (grouped xs) ≡ filter no_separator xs
unfolding grouped
filter-grouped [] h = refl
filter-grouped (a ∷ []) h = refl
filter-grouped (a ∷ b ∷ []) h = refl
filter-grouped (a ∷ b ∷ c ∷ []) h = refl
filter-grouped (a ∷ b ∷ c ∷ d ∷ []) h = refl
filter-grouped (a ∷ b ∷ c ∷ d ∷ e ∷ []) h = refl
filter-grouped (a ∷ b ∷ c ∷ d ∷ e ∷ f ∷ rest) h =
    let more = filter-grouped (f ∷ rest) h.1.1.1.1.1 in rw more

not_space : (x : ℕ) → IsCodeChar x → is_space x ≡ false
unfolding is_space
not_space x h = ground (arith, h)

trim_left-code : (xs : List ℕ) → All IsCodeChar xs → trim_left xs ≡ xs
unfolding trim_left
trim_left-code [] h = refl
trim_left-code (x ∷ xs) h = rw (not_space x h.0)

trim_right-code : (xs : List ℕ) → All IsCodeChar xs → trim_right xs ≡ xs
unfolding trim_right
trim_right-code [] h = refl
trim_right-code (x ∷ xs) h = rw (not_space x h.0) (ap (λ z. x ∷ z) (trim_right-code xs h.1))

pub trim_codes-code : (xs : List ℕ) → All IsCodeChar xs → trim_codes xs ≡ xs
unfolding trim_codes
trim_codes-code xs h = rw (trim_left-code xs h) (trim_right-code xs h)
