-- ===== src/Common/Keys.antt =====
-- Lists in which no two elements have the same key, by a Boolean test between elements.
use mathlib.Core.Path.{◌≡◌, refl, subst, sym}
use mathlib.Core.Bool.{Bool, true, false}
use mathlib.Core.Logic.{inl, inr}
use mathlib.Core.Option.{some, none}
use mathlib.Core.List.{List, [], ◌∷◌, ◌++◌}
use native.Mathlib.Omega.{arith}
use certus.Common.Tests.{if◌then◌else◌, Bool-cases}
use certus.Common.Lists.{All, All-mono, All-filter, any, filter}
use certus.Common.Scan.{find_first, change_first}
use certus.Common.Sorting.{insert_by, sort_by, All-insert_by, All-sort_by}

module _ {ℓ} {A : Type ℓ} where
  -- `append(xs[:index], xs[index+1:]...)` at the first element that matches.
  abbrev pub remove_first : (A → Bool) → List A → List A
  remove_first p [] = []
  remove_first p (x ∷ xs) = let rest = remove_first p xs in if p x then xs else x ∷ rest

  -- No two elements pass the test `same`.
  abbrev pub Unique : (A → A → Bool) → List A → Type ℓ
  Unique same [] = Unit
  Unique same (x ∷ xs) = All (λ y. same x y ≡ false) xs × Unique same xs

module _ {ℓ κ} {A : Type ℓ} (P : A → Type κ) where
  pub All-remove_first : (p : A → Bool) (xs : List A) → All P xs → All P (remove_first p xs)
  All-remove_first p [] h = tt
  All-remove_first p (x ∷ xs) h = elim (Bool-cases (p x)) [
    | inl e ↦ rw e h.1
    | inr e ↦ rw e (h.0, All-remove_first p xs h.1)
  ]

module _ {ℓ} {A : Type ℓ} where
  pub any-false : (p : A → Bool) (xs : List A) → any p xs ≡ false → All (λ x. p x ≡ false) xs
  any-false p [] h = tt
  any-false p (x ∷ xs) h = ground (arith, any-false p xs)

  pub find_first-none :
      (p : A → Bool) (xs : List A) → All (λ x. p x ≡ false) xs → find_first p xs ≡ none
  find_first-none p [] h = refl
  find_first-none p (x ∷ xs) h = ground (arith, find_first-none p xs h.1)

  pub none-find_first :
      (p : A → Bool) (xs : List A) → find_first p xs ≡ none → All (λ x. p x ≡ false) xs
  none-find_first p [] h = tt
  none-find_first p (x ∷ xs) h = ground (arith, none-find_first p xs)

module _ {ℓ} {A : Type ℓ} (same : A → A → Bool) where
  pub Unique-filter : (p : A → Bool) (xs : List A) → Unique same xs → Unique same (filter p xs)
  Unique-filter p [] h = tt
  Unique-filter p (x ∷ xs) h = elim (Bool-cases (p x)) [
    | inl e ↦ rw e (All-filter (λ y. same x y ≡ false) p xs h.0, Unique-filter p xs h.1)
    | inr e ↦ rw e (Unique-filter p xs h.1)
  ]

  pub Unique-remove_first :
      (p : A → Bool) (xs : List A) → Unique same xs → Unique same (remove_first p xs)
  Unique-remove_first p [] h = tt
  Unique-remove_first p (x ∷ xs) h = elim (Bool-cases (p x)) [
    | inl e ↦ rw e h.1
    | inr e ↦ rw e (All-remove_first (λ y. same x y ≡ false) p xs h.0, Unique-remove_first p xs h.1)
  ]

  -- A new element whose key is not there may be appended.
  pub Unique-append :
      (xs : List A) (y : A)
      → Unique same xs
      → All (λ x. same x y ≡ false) xs
      → Unique same (xs ++ y ∷ [])
  Unique-append [] y h k = (tt, tt)
  Unique-append (x ∷ xs) y h k = (append_one xs h.0 k.0, Unique-append xs y h.1 k.1)
    where
      append_one :
          (zs : List A)
          → All (λ z. same x z ≡ false) zs
          → same x y ≡ false
          → All (λ z. same x z ≡ false) (zs ++ y ∷ [])
      append_one [] a b = (b, tt)
      append_one (z ∷ zs) a b = (a.0, append_one zs a.1 b)

-- A write that keeps the key keeps the keys apart.
module _ {ℓ} {A : Type ℓ} (same : A → A → Bool) (m : A → Bool) (f : A → A)
    (left : (x y : A) → m x ≡ true → same (f x) y ≡ same x y)
    (right : (x y : A) → m y ≡ true → same x (f y) ≡ same x y) where
  All-change_first_key :
      (x : A) (xs : List A)
      → All (λ y. same x y ≡ false) xs
      → All (λ y. same x y ≡ false) (change_first m f xs)
  All-change_first_key x [] h = tt
  All-change_first_key x (y ∷ ys) h = elim (Bool-cases (m y)) [
    | inl e ↦ rw e (rw (right x y e) h.0, h.1)
    | inr e ↦ rw e (h.0, All-change_first_key x ys h.1)
  ]

  All-rekey :
      (x : A) (xs : List A)
      → m x ≡ true
      → All (λ y. same x y ≡ false) xs
      → All (λ y. same (f x) y ≡ false) xs
  All-rekey x [] e h = tt
  All-rekey x (y ∷ ys) e h = (rw (left x y e) h.0, All-rekey x ys e h.1)

  pub Unique-change_first : (xs : List A) → Unique same xs → Unique same (change_first m f xs)
  Unique-change_first [] h = tt
  Unique-change_first (x ∷ xs) h = elim (Bool-cases (m x)) [
    | inl e ↦ rw e (All-rekey x xs e h.0, h.1)
    | inr e ↦ rw e (All-change_first_key x xs h.0, Unique-change_first xs h.1)
  ]

-- Among unique keys, removing the first match leaves no match.
module _ {ℓ} {A : Type ℓ} (same : A → A → Bool) (p : A → Bool)
    (meet : (x y : A) → p x ≡ true → same x y ≡ false → p y ≡ false) where
  All-apart :
      (x : A) (xs : List A)
      → p x ≡ true
      → All (λ y. same x y ≡ false) xs
      → All (λ y. p y ≡ false) xs
  All-apart x [] e h = tt
  All-apart x (y ∷ ys) e h = (meet x y e h.0, All-apart x ys e h.1)

  pub remove_first-none :
      (xs : List A) → Unique same xs → All (λ y. p y ≡ false) (remove_first p xs)
  remove_first-none [] h = tt
  remove_first-none (x ∷ xs) h = elim (Bool-cases (p x)) [
    | inl e ↦ rw e (All-apart x xs e h.0)
    | inr e ↦ rw e (e, remove_first-none xs h.1)
  ]

  -- Writing the only match: what holds of the written element and of all that do not match holds of
  -- the list.
  pub All-change_first_only {κ} :
      (P : A → Type κ) (f : A → A) (c : A) (xs : List A)
      → Unique same xs
      → find_first p xs ≡ some c
      → P (f c)
      → ((y : A) → p y ≡ false → P y)
      → All P (change_first p f xs)
  All-change_first_only P f c [] h e written others = tt
  All-change_first_only P f c (x ∷ xs) h e written others = elim (Bool-cases (p x)) [
    | inl hit ↦
        let same_one : x ≡ c = ground arith in
        rw hit (
          subst (λ z. P (f z)) (sym same_one) written,
          All-mono (λ y. p y ≡ false) P xs others (All-apart x xs hit h.0),
        )
    | inr miss ↦
        rw miss (others x miss, All-change_first_only P f c xs h.1 (rw miss at e) written others)
  ]

-- Sorting keeps the keys apart, if the test is symmetric.
module _ {ℓ} {A : Type ℓ} (le same : A → A → Bool)
    (turn : (x y : A) → same x y ≡ false → same y x ≡ false) where
  Unique-insert_by :
      (a : A) (xs : List A)
      → All (λ y. same a y ≡ false) xs
      → Unique same xs
      → Unique same (insert_by le a xs)
  Unique-insert_by a [] h k = (tt, tt)
  Unique-insert_by a (x ∷ xs) h k = elim (Bool-cases (le a x)) [
    | inl e ↦ rw e (h, k)
    | inr e ↦ rw e (
      All-insert_by le (λ y. same x y ≡ false) a xs (turn a x h.0) k.0,
      Unique-insert_by a xs h.1 k.1,
    )
  ]

  pub Unique-sort_by : (xs : List A) → Unique same xs → Unique same (sort_by le xs)
  Unique-sort_by [] h = tt
  Unique-sort_by (x ∷ xs) h =
      Unique-insert_by x (sort_by le xs) (All-sort_by le (λ y. same x y ≡ false) xs h.0)
        (Unique-sort_by xs h.1)
