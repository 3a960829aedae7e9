-- ===== src/Common/Dict.antt =====
-- Go's maps as lists of entries. The order of the list stands for the order of a `range` loop, which
-- Go leaves open: what is proved holds for every order.
use Prim.Native.String.{String}
use Prim.Native.Nat.{suc, ◌+◌, ◌≤◌}
use mathlib.Core.Path.{subst, ◌≡◌, refl, ◌∙◌, ap}
use mathlib.Core.Logic.{◌↔◌, inl, inr}
use mathlib.Core.Bool.{false, ◌&&◌, Bool, true}
use mathlib.Core.Option.{Option, none, some}
use mathlib.Core.List.{List, [], ◌∷◌}
use native.Mathlib.Omega.{arith}
use text.Mathlib.Text.{◌==◌}
use text.Mathlib.TextEquality.{eq_iff}
use certus.Common.Tests.{
  if◌then◌else◌, Bool-cases, Hash, bytes_equal, bytes_equal_refl, eq_of_bytes_equal,
}
use certus.Common.Lists.{any, All, length, filter}
use certus.Common.Scan.{find_first}

module _ {K V : Type 0} where
  -- A `range` loop that writes each entry's value: `m[k] = g(k, v)`.
  abbrev pub map_entries : (K → V → V) → List (K × V) → List (K × V)
  map_entries g [] = []
  map_entries g ((k, v) ∷ m) = (k, g k v) ∷ map_entries g m

-- Keys, and Go's `==` on them.
pub record Key (K : Type 0) : Type 0 where
  pub same : K → K → Bool
  pub same_iff : (a b : K) → (same a b ≡ true) ↔ (a ≡ b)

instance abbrev pub string_key : Key String
string_key = record { same = ◌==◌; same_iff = eq_iff }

pub hash_iff : (a b : Hash) → (bytes_equal a b ≡ true) ↔ (a ≡ b)
hash_iff a b = (eq_of_bytes_equal a b, λ e. rw e (bytes_equal_refl b))

-- `string(hash)` as a key.
instance abbrev pub hash_key : Key Hash
hash_key = record { same = bytes_equal; same_iff = hash_iff }

module _ {K V : Type 0} ⦃key : Key K⦄ where
  -- `m[k]`, with its second result.
  abbrev pub lookup : K → List (K × V) → Option V
  lookup k [] = none
  lookup k ((j, v) ∷ m) = let rest = lookup k m in if key.same j k then some v else rest

  -- `m[k] = v`
  abbrev pub put : K → V → List (K × V) → List (K × V)
  put k v [] = (k, v) ∷ []
  put k v ((j, w) ∷ m) = let rest = put k v m in if key.same j k then (j, v) ∷ m else (j, w) ∷ rest

  -- `delete(m, k)`
  abbrev pub delete : K → List (K × V) → List (K × V)
  delete k [] = []
  delete k ((j, v) ∷ m) = let rest = delete k m in if key.same j k then rest else (j, v) ∷ rest

  pub lookup-put :
      (k j : K) (v : V) (m : List (K × V))
      → lookup j (put k v m) ≡ (if key.same k j then some v else lookup j m)
  lookup-put k j v [] = refl
  lookup-put k j v ((i, w) ∷ m) =
      ground (arith, key.same_iff k j, key.same_iff i k, key.same_iff i j, lookup-put k j v m)

  pub lookup-delete :
      (k j : K) (m : List (K × V))
      → lookup j (delete k m) ≡ (if key.same k j then none else lookup j m)
  lookup-delete k j [] = ground arith
  lookup-delete k j ((i, w) ∷ m) =
      ground (arith, key.same_iff k j, key.same_iff i k, key.same_iff i j, lookup-delete k j m)

  pub length-put-le : (k : K) (v : V) (m : List (K × V)) → length (put k v m) ≤ length m + 1
  length-put-le k v [] = omega arith
  length-put-le k v ((i, w) ∷ m) = ground (arith, length-put-le k v m)

  pub length-delete-le : (k : K) (m : List (K × V)) → length (delete k m) ≤ length m
  length-delete-le k [] = omega arith
  length-delete-le k ((i, w) ∷ m) = ground (arith, length-delete-le k m)

  -- Deleting a key that is there shortens the map.
  pub length-delete-lt :
      (k : K) (v : V) (m : List (K × V))
      → lookup k m ≡ some v
      → suc (length (delete k m)) ≤ length m
  length-delete-lt k v [] h = ground arith
  length-delete-lt k v ((i, w) ∷ m) h = ground (arith, length-delete-le k m, length-delete-lt k v m)

  -- Writing a key that is there keeps the length.
  pub length-put_self :
      (k : K) (v w : V) (m : List (K × V)) → lookup k m ≡ some w → length (put k v m) ≡ length m
  length-put_self k v w [] h = ground arith
  length-put_self k v w ((i, x) ∷ m) h = ground (arith, length-put_self k v w m)

module _ {K V : Type 0} ⦃key : Key K⦄ where
  -- No two entries have the same key.
  abbrev pub IsDict : List (K × V) → Type 0
  IsDict [] = Unit
  IsDict ((k, v) ∷ m) = (lookup k m ≡ none) × IsDict m

  pub IsDict-put : (k : K) (v : V) (m : List (K × V)) → IsDict m → IsDict (put k v m)
  IsDict-put k v [] h = (refl, tt)
  IsDict-put k v ((i, w) ∷ m) h = elim (Bool-cases (key.same i k)) [
    | inl e ↦ rw e h
    | inr e ↦ rw e (
      lookup-put k i v m ∙ ground (arith, h.0, key.same_iff k i, key.same_iff i k),
      IsDict-put k v m h.1,
    )
  ]

  pub lookup-delete-none :
      (k j : K) (m : List (K × V)) → lookup j m ≡ none → lookup j (delete k m) ≡ none
  lookup-delete-none k j m h = lookup-delete k j m ∙ ground (arith, h)

  pub IsDict-delete : (k : K) (m : List (K × V)) → IsDict m → IsDict (delete k m)
  IsDict-delete k [] h = tt
  IsDict-delete k ((i, w) ∷ m) h = elim (Bool-cases (key.same i k)) [
    | inl e ↦ rw e (IsDict-delete k m h.1)
    | inr e ↦ rw e (lookup-delete-none k i m h.0, IsDict-delete k m h.1)
  ]

  -- A loop that deletes entries adds no key, and leaves the keys different.
  pub lookup-filter-none :
      (p : K × V → Bool) (k : K) (m : List (K × V))
      → lookup k m ≡ none
      → lookup k (filter p m) ≡ none
  lookup-filter-none p k [] h = refl
  lookup-filter-none p k ((i, w) ∷ m) h = ground (arith, lookup-filter-none p k m)

  pub IsDict-filter : (p : K × V → Bool) (m : List (K × V)) → IsDict m → IsDict (filter p m)
  IsDict-filter p [] h = tt
  IsDict-filter p ((i, w) ∷ m) h = elim (Bool-cases (p (i, w))) [
    | inl e ↦ rw e (lookup-filter-none p i m h.0, IsDict-filter p m h.1)
    | inr e ↦ rw e (IsDict-filter p m h.1)
  ]

  -- What a loop over the entries finds is what a look-up of its key finds.
  pub lookup-find_first :
      (p : K × V → Bool) (m : List (K × V)) (k : K) (v : V)
      → IsDict m
      → find_first p m ≡ some (k, v)
      → lookup k m ≡ some v
  lookup-find_first p [] k v h e = ground arith
  lookup-find_first p ((i, w) ∷ m) k v h e = elim (Bool-cases (p (i, w))) [
    | inl hit ↦
        let found : ◌≡◌ {A = Option (K × V)} (some (i, w)) (some (k, v)) = rw hit at e in
        let a : i ≡ k = ground arith in
        let b : w ≡ v = ground arith in rw ((key.same_iff i k).1 a) (ap some b)
    | inr miss ↦
        let found = lookup-find_first p m k v h.1 (rw miss at e) in
        ground (arith, found, h.0, key.same_iff i k)
  ]

  pub lookup-map_entries :
      (g : K → V → V) (k : K) (m : List (K × V))
      → lookup k (map_entries g m) ≡ elim (lookup k m) [ none ↦ none | some v ↦ some (g k v) ]
  lookup-map_entries g k [] = refl
  lookup-map_entries g k ((i, w) ∷ m) = elim (Bool-cases (key.same i k)) [
    | inl hit ↦ rw hit (rw ((key.same_iff i k).0 hit))
    | inr miss ↦ rw miss (lookup-map_entries g k m)
  ]

  pub IsDict-map_entries : (g : K → V → V) (m : List (K × V)) → IsDict m → IsDict (map_entries g m)
  IsDict-map_entries g [] h = tt
  IsDict-map_entries g ((i, w) ∷ m) h =
      (rw (lookup-map_entries g i m, h.0), IsDict-map_entries g m h.1)

  -- What no entry of a map satisfies, the entry of a key does not.
  pub any-false-lookup :
      (p : K × V → Bool) (k : K) (v : V) (m : List (K × V))
      → any p m ≡ false
      → lookup k m ≡ some v
      → p (k, v) ≡ false
  any-false-lookup p k v [] h e = ground arith
  any-false-lookup p k v ((j, w) ∷ m) h e = elim (Bool-cases (key.same j k)) [
    | inl hit ↦
        let a : j ≡ k = (key.same_iff j k).0 hit in
        let found : ◌≡◌ {A = Option V} (some w) (some v) = rw hit at e in
        let b : w ≡ v = ground arith in
        let first : p (j, w) ≡ false = ground arith in
        subst (λ z. p (k, z) ≡ false) b (subst (λ z. p (z, w) ≡ false) a first)
    | inr miss ↦ any-false-lookup p k v m (ground arith) (rw miss at e)
  ]

module _ {K V : Type 0} (P : K × V → Type 0) where
  pub All-map_entries :
      (g : K → V → V) (m : List (K × V))
      → ((k : K) (v : V) → P (k, v) → P (k, g k v))
      → All P m
      → All P (map_entries g m)
  All-map_entries g [] keep h = tt
  All-map_entries g ((k, v) ∷ m) keep h = (keep k v h.0, All-map_entries g m keep h.1)

-- Keys that are pairs of keys.
module _ {J K : Type 0} ⦃a : Key J⦄ ⦃b : Key K⦄ where
  unfoldable pub pair_same : J × K → J × K → Bool
  pair_same (x, y) (z, w) = a.same x z && b.same y w

  pub pair_iff : (p q : J × K) → (pair_same p q ≡ true) ↔ (p ≡ q)
  unfolding pair_same
  pair_iff (x, y) (z, w) = ground (arith, a.same_iff x z, b.same_iff y w)

  instance abbrev pub pair_key : Key (J × K)
  pair_key = record { same = pair_same; same_iff = pair_iff }
