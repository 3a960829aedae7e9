-- ===== src/Common/Errors.antt =====
-- Go's `if err := f(); err != nil { return err }` and `if bad { return err }`, as do blocks.
use mathlib.Core.Path.{◌≡◌, refl, subst, sym}
use mathlib.Core.Logic.{◌↔◌}
use mathlib.Core.Bool.{Bool, true, false}
use native.Mathlib.Omega.{arith}
use certus.Common.Tests.{Result, ok, err}
use certus.Common.Lists.{any, All}
use mathlib.Core.List.{List, [], ◌∷◌}

infixl 5 ◌>>◌ ◌>>=◌
abbrev pub ◌>>=◌ {ℓ κ ι} :
    {Failure : Type ℓ} {Value : Type κ} {Answer : Type ι}
    → Result Failure Value
    → (Value → Result Failure Answer)
    → Result Failure Answer
err failure >>= next = err failure
ok value >>= next = next value

abbrev pub ◌>>◌ {ℓ κ} :
    {Failure : Type ℓ} {Answer : Type κ}
    → Result Failure (Unit {0})
    → Result Failure Answer
    → Result Failure Answer
first >> next = first >>= (λ done. next)

-- `if bad { return e }`
unfoldable pub reject {ℓ} : {E : Type ℓ} → Bool → E → Result E (Unit {0})
reject true e = err e
reject false e = ok tt

-- A sequence of checks passes exactly when each of them does.
pub >>-ok_iff {ℓ} :
    {E : Type ℓ} (m k : Result E (Unit {0})) → ((m >> k) ≡ ok tt) ↔ ((m ≡ ok tt) × (k ≡ ok tt))
>>-ok_iff (ok tt) k = (λ h. (refl, h), λ h. h.1)
>>-ok_iff (err e) k = (λ h. ground arith, λ h. ground arith)

pub reject-ok_iff {ℓ} : {E : Type ℓ} (b : Bool) (e : E) → (reject b e ≡ ok tt) ↔ (b ≡ false)
unfolding reject
reject-ok_iff true e = (λ h. ground arith, λ h. ground arith)
reject-ok_iff false e = (λ h. refl, λ h. refl)

-- The first check of a sequence, and what the others amount to.
pub reject->>-iff {ℓ κ} :
    {E : Type ℓ} {Q : Type κ} (b : Bool) (e : E) (k : Result E (Unit {0}))
    → (k ≡ ok tt) ↔ Q
    → ((reject b e >> k) ≡ ok tt) ↔ ((b ≡ false) × Q)
unfolding reject
reject->>-iff true e k h = (λ x. ground arith, λ x. ground arith)
reject->>-iff false e k h = (λ x. (refl, h.0 x), λ x. h.1 x.1)

pub iff_trans {ℓ κ ι} : {A : Type ℓ} {B : Type κ} {C : Type ι} → A ↔ B → B ↔ C → A ↔ C
iff_trans f g = (λ a. g.0 (f.0 a), λ c. f.1 (g.1 c))

pub any-false_iff {ℓ} :
    {A : Type ℓ} (p : A → Bool) (P : A → Type 0) (xs : List A)
    → ((x : A) → (p x ≡ false) ↔ P x)
    → (any p xs ≡ false) ↔ All P xs
any-false_iff p P [] h = (λ e. tt, λ e. refl)
any-false_iff p P (x ∷ xs) h = (
  λ e. ((h x).0 (ground arith), (any-false_iff p P xs h).0 (ground arith)),
  λ e. ground (arith, (h x).1 e.0, (any-false_iff p P xs h).1 e.1),
)

-- A sequence of checks, by what each of them amounts to.
pub seq_iff {ℓ κ ι} :
    {E : Type ℓ} {P : Type κ} {Q : Type ι} {m k : Result E (Unit {0})}
    → (m ≡ ok tt) ↔ P
    → (k ≡ ok tt) ↔ Q
    → ((m >> k) ≡ ok tt) ↔ (P × Q)
seq_iff {m = ok tt} p q = (λ h. (p.0 refl, q.0 h), λ h. q.1 h.1)
seq_iff {m = err e} p q = (λ h. ground arith, λ h. ground (arith, p.1 h.0))

-- The value of an answer.
pub value_of_ok {ℓ κ} :
    {E : Type ℓ} {A : Type κ} {a b : A} → ◌≡◌ {A = Result E A} (ok a) (ok b) → a ≡ b
value_of_ok h = ground arith

-- A check and a call in front of what answers a value.
pub reject-then_iff {ℓ κ ι} :
    {E : Type ℓ} {A : Type κ} {Q : Type ι} {x : A} (b : Bool) (e : E) (k : Result E A)
    → (k ≡ ok x) ↔ Q
    → ((reject b e >> k) ≡ ok x) ↔ ((b ≡ false) × Q)
unfolding reject
reject-then_iff true e k h = (λ y. ground arith, λ y. ground arith)
reject-then_iff false e k h = (λ y. (refl, h.0 y), λ y. h.1 y.1)

pub call-then_iff {ℓ κ ι} :
    {E : Type ℓ} {A : Type κ} {B : Type ι} {x : B} (m : Result E A) (f : A → Result E B)
    → ((m >>= f) ≡ ok x) ↔ ((a : A) × (m ≡ ok a) × (f a ≡ ok x))
call-then_iff (ok a) f =
    (λ h. (a, refl, h), λ (b, e, h). subst (λ z. f z ≡ ok _) (sym (value_of_ok e)) h)
call-then_iff (err e) f = (λ h. ground arith, λ (b, k, h). ground arith)

-- What a call that went well, and the rest after it, have answered.
pub call-ok {ℓ κ ι} :
    {E : Type ℓ} {A : Type κ} {B : Type ι} {x : B} (m : Result E A) (f : A → Result E B)
    → (m >>= f) ≡ ok x
    → (a : A) × (m ≡ ok a) × (f a ≡ ok x)
call-ok m f = (call-then_iff m f).0
