-- ===== src/Common/Scan.antt =====
-- The loops `for index := range xs { record := &xs[index]; if !matches(record) { continue }; …;
-- return … }`: they act on the first element that matches.
use mathlib.Core.Path.{◌≡◌, refl, subst}
use mathlib.Core.Bool.{Bool, true, false, not}
use mathlib.Core.Logic.{inl, inr}
use mathlib.Core.Option.{Option, none, some}
use mathlib.Core.List.{List, [], ◌∷◌, ◌++◌, map}
use native.Mathlib.Omega.{arith}
use certus.Common.Tests.{if◌then◌else◌, Bool-cases}
use certus.Common.Lists.{All, filter}

module _ {ℓ} {A : Type ℓ} where
  -- The first element that matches.
  abbrev pub find_first : (A → Bool) → List A → Option A
  find_first m [] = none
  find_first m (x ∷ xs) = let rest = find_first m xs in if m x then some x else rest

  pub find_first-matches :
      (m : A → Bool) (xs : List A) (a : A) → find_first m xs ≡ some a → m a ≡ true
  find_first-matches m [] a h = ground arith
  find_first-matches m (x ∷ xs) a h = ground (arith, find_first-matches m xs a)

  -- What is appended behind a match does not change the match.
  pub find_first-append :
      (m : A → Bool) (xs ys : List A) (a : A)
      → find_first m xs ≡ some a
      → find_first m (xs ++ ys) ≡ some a
  find_first-append m [] ys a h = ground arith
  find_first-append m (x ∷ xs) ys a h = ground (arith, find_first-append m xs ys a)

module _ {ℓ κ} {A : Type ℓ} (P : A → Type κ) where
  pub find_first-All :
      (m : A → Bool) (xs : List A) (a : A) → All P xs → find_first m xs ≡ some a → P a
  find_first-All m [] a h e = ground arith
  find_first-All m (x ∷ xs) a h e = ground (arith, find_first-All m xs a h.1)

module _ {ℓ κ} {A : Type ℓ} {R : Type κ} where
  -- Visits the first element that matches: the element's new value and the loop's result.
  abbrev pub visit_first : (A → Bool) → (A → A × R) → R → List A → List A × R
  visit_first m visit missing [] = ([], missing)
  visit_first m visit missing (x ∷ xs) =
      let rest = visit_first m visit missing xs in
      if m x then ((visit x).0 ∷ xs, (visit x).1) else (x ∷ rest.0, rest.1)

module _ {ℓ} {A : Type ℓ} where
  -- Writes the first element that matches.
  abbrev pub change_first : (A → Bool) → (A → A) → List A → List A
  change_first m f [] = []
  change_first m f (x ∷ xs) = let rest = change_first m f xs in if m x then f x ∷ xs else x ∷ rest

  -- The first match afterwards is the one written, if the write keeps it a match.
  pub find_first-change_first :
      (m : A → Bool) (f : A → A) (xs : List A) (a : A)
      → ((x : A) → m x ≡ true → m (f x) ≡ true)
      → find_first m xs ≡ some a
      → find_first m (change_first m f xs) ≡ some (f a)
  find_first-change_first m f [] a keep h = ground arith
  find_first-change_first m f (x ∷ xs) a keep h =
      ground (arith, keep x, find_first-change_first m f xs a keep)

  -- No match, no write.
  pub change_first-none :
      (m : A → Bool) (f : A → A) (xs : List A) → find_first m xs ≡ none → change_first m f xs ≡ xs
  change_first-none m f [] h = refl
  change_first-none m f (x ∷ xs) h = ground (arith, change_first-none m f xs)

  -- A projection that the write keeps is kept throughout the list.
  pub map-change_first {κ} :
      {B : Type κ} (g : A → B) (m : A → Bool) (f : A → A) (xs : List A)
      → ((x : A) → g (f x) ≡ g x)
      → map g (change_first m f xs) ≡ map g xs
  map-change_first g m f [] keep = refl
  map-change_first g m f (x ∷ xs) keep = ground (arith, keep x, map-change_first g m f xs keep)

module _ {ℓ κ} {A : Type ℓ} (P : A → Type κ) where
  -- A predicate that the write keeps holds of the list afterwards.
  pub All-change_first :
      (m : A → Bool) (f : A → A) (xs : List A)
      → ((x : A) → m x ≡ true → P x → P (f x))
      → All P xs
      → All P (change_first m f xs)
  All-change_first m f [] keep h = tt
  All-change_first m f (x ∷ xs) keep h = elim (Bool-cases (m x)) [
    | inl e ↦ rw e (keep x e h.0, h.1)
    | inr e ↦ rw e (h.0, All-change_first m f xs keep h.1)
  ]

module _ {ℓ κ} {A : Type ℓ} {R : Type κ} (m : A → Bool) (visit : A → A × R) (missing : R) where
  -- The loop writes the first match, and its result is the visit's there.
  pub visit_first-state :
      (xs : List A) → (visit_first m visit missing xs).0 ≡ change_first m (λ x. (visit x).0) xs
  visit_first-state [] = refl
  visit_first-state (x ∷ xs) = ground (arith, visit_first-state xs)

  pub visit_first-result :
      (xs : List A)
      → (visit_first m visit missing xs).1
        ≡ elim (find_first m xs) [ none ↦ missing | some x ↦ (visit x).1 ]
  visit_first-result [] = refl
  visit_first-result (x ∷ xs) = ground (arith, visit_first-result xs)

-- `Grows K xs ys`: `ys` holds the elements of `xs` at their places, each changed as `K` allows, and
-- perhaps more behind them.
module _ {ℓ} {A : Type ℓ} (K : A → A → Type 0) where
  abbrev pub Grows : List A → List A → Type 0
  Grows [] ys = Unit
  Grows (x ∷ xs) [] = ⊥
  Grows (x ∷ xs) (y ∷ ys) = K x y × Grows xs ys

  pub Grows-refl : ((x : A) → K x x) → (xs : List A) → Grows xs xs
  Grows-refl r [] = tt
  Grows-refl r (x ∷ xs) = (r x, Grows-refl r xs)

  pub Grows-append : ((x : A) → K x x) → (xs ys : List A) → Grows xs (xs ++ ys)
  Grows-append r [] ys = tt
  Grows-append r (x ∷ xs) ys = (r x, Grows-append r xs ys)

  pub Grows-map : (f : A → A) → ((x : A) → K x (f x)) → (xs : List A) → Grows xs (map f xs)
  Grows-map f k [] = tt
  Grows-map f k (x ∷ xs) = (k x, Grows-map f k xs)

  pub Grows-trans :
      ((x y z : A) → K x y → K y z → K x z)
      → (xs ys zs : List A) → Grows xs ys
      → Grows ys zs
      → Grows xs zs
  Grows-trans t [] ys zs g h = tt
  Grows-trans t (x ∷ xs) [] zs g h = absurd g
  Grows-trans t (x ∷ xs) (y ∷ ys) [] g h = absurd h
  Grows-trans t (x ∷ xs) (y ∷ ys) (z ∷ zs) g h = (t x y z g.0 h.0, Grows-trans t xs ys zs g.1 h.1)

  -- The first match stays the first match, changed as `K` allows.
  pub find_first-Grows :
      (m : A → Bool)
      → ((x y : A) → K x y → m y ≡ m x)
      → (xs ys : List A) (a : A) → Grows xs ys
      → find_first m xs ≡ some a
      → (b : A) × (find_first m ys ≡ some b) × K a b
  find_first-Grows m stable [] ys a g h = ground arith
  find_first-Grows m stable (x ∷ xs) [] a g h = absurd g
  find_first-Grows m stable (x ∷ xs) (y ∷ ys) a g h = elim (Bool-cases (m x)) [
    | inl e ↦
        let same : x ≡ a = ground arith in (y, rw (stable x y g.0, e), subst (λ z. K z y) same g.0)
    | inr e ↦
        let (b, found, k) = find_first-Grows m stable xs ys a g.1 (rw e at h) in
        (b, rw (stable x y g.0, e) found, k)
  ]

  pub Grows-change_first :
      ((x : A) → K x x)
      → (m : A → Bool) (f : A → A) → ((x : A) → m x ≡ true → K x (f x))
      → (xs : List A) → Grows xs (change_first m f xs)
  Grows-change_first r m f k [] = tt
  Grows-change_first r m f k (x ∷ xs) = elim (Bool-cases (m x)) [
    | inl e ↦ rw e (k x e, Grows-refl r xs)
    | inr e ↦ rw e (r x, Grows-change_first r m f k xs)
  ]

module _ {ℓ} {A : Type ℓ} (p q : A → Bool) (g : A → A) where
  -- A search that skips what `g` has changed is a search over what `g` has left.
  pub find_first-map :
      ((x : A) → q x ≡ true → p (g x) ≡ false)
      → ((x : A) → q x ≡ false → g x ≡ x)
      → (xs : List A) → find_first p (map g xs) ≡ find_first p (filter (λ x. not (q x)) xs)
  find_first-map out kept [] = refl
  find_first-map out kept (x ∷ xs) = elim (Bool-cases (q x)) [
    | inl e ↦ rw (e, out x e) (find_first-map out kept xs)
    | inr e ↦ rw (e, kept x e, find_first-map out kept xs)
  ]
