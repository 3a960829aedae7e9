-- ===== src/Common/Texts.antt =====
-- Go's functions on strings: trimming, and the classes of characters in the patterns. A string is a
-- sequence of code points, so bytes that are no UTF-8 have no model.
use Prim.Native.Nat.{ℕ}
use Prim.Native.Char.{Char, code}
use Prim.Native.String.{String}
use mathlib.Core.Logic.{inl, inr}
use mathlib.Core.Bool.{Bool, true, false, not, ◌&&◌, ◌||◌}
use mathlib.Core.Path.{◌≡◌, refl, ap, ◌∙◌}
use native.Mathlib.Omega.{arith}
use mathlib.Core.List.{List, [], ◌∷◌}
use certus.Common.Tests.{if◌then◌else◌, if-both, Bool-cases, leb, eqb}
use certus.Common.Lists.{all, length}

-- unicode.IsSpace
unfoldable pub is_space : ℕ → Bool
is_space c =
    leb 9 c && leb c 13
    || eqb c 32
    || eqb c 0x85
    || eqb c 0xa0
    || eqb c 0x1680
    || leb 0x2000 c && leb c 0x200a
    || eqb c 0x2028
    || eqb c 0x2029
    || eqb c 0x202f
    || eqb c 0x205f
    || eqb c 0x3000

abbrev pub is_empty : String → Bool
is_empty String.[] = true
is_empty (String.◌∷◌ c s) = false

trim_left : String → String
trim_left String.[] = String.[]
trim_left (String.◌∷◌ c s) =
    let rest = trim_left s in if is_space (code c) then rest else String.◌∷◌ c s

trim_right : String → String
trim_right String.[] = String.[]
trim_right (String.◌∷◌ c s) =
    let rest = trim_right s in
    if is_space (code c) && is_empty rest then String.[] else String.◌∷◌ c rest

-- strings.TrimSpace
unfoldable pub trim_space : String → String
unfolding trim_left trim_right is_space
trim_space s = trim_right (trim_left s)

-- The code points of a string.
abbrev pub codes : String → List ℕ
codes String.[] = []
codes (String.◌∷◌ c s) = code c ∷ codes s

abbrev pub is_digit : ℕ → Bool
is_digit c = leb b'0' c && leb c b'9'

abbrev pub is_lower : ℕ → Bool
is_lower c = leb b'a' c && leb c b'z'

abbrev pub is_upper : ℕ → Bool
is_upper c = leb b'A' c && leb c b'Z'

abbrev pub is_one_of : List ℕ → ℕ → Bool
is_one_of [] c = false
is_one_of (x ∷ xs) c = eqb c x || is_one_of xs c

-- `^[class]{low,high}$`
abbrev pub in_class : (ℕ → Bool) → ℕ → ℕ → List ℕ → Bool
in_class p low high cs = all p cs && leb low (length cs) && leb (length cs) high

-- `^[first][class]{low,high}$`
abbrev pub first_then : (ℕ → Bool) → (ℕ → Bool) → ℕ → ℕ → List ℕ → Bool
first_then f p low high [] = false
first_then f p low high (c ∷ cs) = f c && in_class p low high cs

-- A text without spaces is trimmed already.
trim_left_self : (s : String) → all (λ c. not (is_space c)) (codes s) ≡ true → trim_left s ≡ s
unfolding trim_left
trim_left_self String.[] h = refl
trim_left_self (String.◌∷◌ c s) h = ground (arith, h)

trim_right_self : (s : String) → all (λ c. not (is_space c)) (codes s) ≡ true → trim_right s ≡ s
unfolding trim_right
trim_right_self String.[] h = refl
trim_right_self (String.◌∷◌ c s) h =
    let rest = trim_right_self s (ground (arith, h)) in
    let here : is_space (code c) ≡ false = ground (arith, h) in rw (rest, here) refl

pub trim_space_self : (s : String) → all (λ c. not (is_space c)) (codes s) ≡ true → trim_space s ≡ s
unfolding trim_space
trim_space_self s h = ap trim_right (trim_left_self s h) ∙ trim_right_self s h

-- Trimming twice is trimming once.
starts_plain : String → Bool
starts_plain String.[] = true
starts_plain (String.◌∷◌ c s) = not (is_space (code c))

trim_left-starts_plain : (s : String) → starts_plain (trim_left s) ≡ true
unfolding trim_left starts_plain
trim_left-starts_plain String.[] = refl
trim_left-starts_plain (String.◌∷◌ c s) =
    if-both (λ z. starts_plain z ≡ true) (is_space (code c)) _ _ (λ e. trim_left-starts_plain s)
      (λ e. rw e refl)

trim_right-starts_plain : (s : String) → starts_plain s ≡ true → starts_plain (trim_right s) ≡ true
unfolding trim_right starts_plain
trim_right-starts_plain String.[] h = refl
trim_right-starts_plain (String.◌∷◌ c s) h =
    if-both (λ z. starts_plain z ≡ true) (is_space (code c) && is_empty (trim_right s)) _ _
      (λ e. refl) (λ e. h)

starts_plain-trim_left : (s : String) → starts_plain s ≡ true → trim_left s ≡ s
unfolding trim_left starts_plain
starts_plain-trim_left String.[] h = refl
starts_plain-trim_left (String.◌∷◌ c s) h =
    let here : is_space (code c) ≡ false = ground (arith, h) in rw here refl

trim_right-trim_right : (s : String) → trim_right (trim_right s) ≡ trim_right s
unfolding trim_right
trim_right-trim_right String.[] = refl
trim_right-trim_right (String.◌∷◌ c s) =
    elim (Bool-cases (is_space (code c) && is_empty (trim_right s))) [
      | inl e ↦ rw (e, trim_right) refl
      | inr e ↦ rw (e, trim_right, trim_right-trim_right s) (rw e refl)
    ]

pub trim_space-trim_space : (s : String) → trim_space (trim_space s) ≡ trim_space s
unfolding trim_space
trim_space-trim_space s =
    ap trim_right (
      starts_plain-trim_left (trim_right (trim_left s))
        (trim_right-starts_plain (trim_left s) (trim_left-starts_plain s)))
    ∙ trim_right-trim_right (trim_left s)

abbrev starts_word : String → Bool
starts_word String.[] = false
starts_word (String.◌∷◌ c s) = not (is_space (code c))

-- The next character of a word that `s` goes on, or a word of its own.
extend : Char → String → List String → List String
extend c s [] = String.◌∷◌ c String.[] ∷ []
extend c s (w ∷ ws) = if starts_word s then String.◌∷◌ c w ∷ ws else String.◌∷◌ c String.[] ∷ w ∷ ws

-- strings.Fields
unfoldable pub fields : String → List String
unfolding extend is_space
fields String.[] = []
fields (String.◌∷◌ c s) = let rest = fields s in if is_space (code c) then rest else extend c s rest
