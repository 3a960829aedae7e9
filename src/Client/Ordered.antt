-- ===== src/Client/Ordered.antt =====
-- A Go map beside the slice of its keys, in the order in which they were added: what the registry keeps
-- of systems and of clients.
use certus.Common.{
  lookup-map_entries, Option-cases, string_key, String, ◌≡◌, refl, sym, ◌∙◌, subst, inl, inr, false,
  not, ◌&&◌, ◌||◌, Option, none, some, List, [], ◌∷◌, ◌++◌, arith, ◌==◌, eq_iff, is_nil, Bool-cases,
  filter, All, Unique, Unique-filter, Unique-append, map_entries, lookup, put, delete, lookup-put,
  lookup-delete, IsDict, IsDict-put, IsDict-delete, IsDict-map_entries,
}
use certus.Client.Policy.{contains}

contains-append :
    (xs : List String) (x k : String) → contains (xs ++ x ∷ []) k ≡ (contains xs k || x == k)
contains-append [] x k = ground arith
contains-append (y ∷ ys) x k = ground (arith, contains-append ys x k)

pub contains-filter :
    (xs : List String) (x k : String)
    → contains (filter (λ candidate. not (candidate == x)) xs) k ≡ (contains xs k && not (x == k))
contains-filter [] x k = refl
contains-filter (y ∷ ys) x k =
    ground (arith, contains-filter ys x k, eq_iff y x, eq_iff x k, eq_iff y k)

All-absent : (x : String) (xs : List String) → contains xs x ≡ false → All (λ y. y == x ≡ false) xs
All-absent x [] h = tt
All-absent x (y ∷ ys) h = (ground arith, All-absent x ys (ground arith))

module _ {V : Type 0} (name : V → String) where
  -- The slice holds exactly the keys of the map, each of them once, and a value stands under its name.
  pub record IsOrdered (order : List String) (m : List (String × V)) : Type 0 where
    pub dict : IsDict m
    pub unique : Unique ◌==◌ order
    pub listed : (k : String) → contains order k ≡ not (is_nil (lookup k m))
    pub named : (k : String) (v : V) → lookup k m ≡ some v → name v ≡ k

  put-named :
      (m : List (String × V)) (v : V)
      → ((k : String) (w : V) → lookup k m ≡ some w → name w ≡ k)
      → (k : String) (w : V) → lookup k (put (name v) v m) ≡ some w
      → name w ≡ k
  put-named m v h k w e = elim (Bool-cases (name v == k)) [
    | inl hit ↦
        let found : ◌≡◌ {A = Option V} (some v) (some w) =
          sym (lookup-put (name v) k v m ∙ rw hit) ∙ e in
        let same_value : v ≡ w = ground arith in
        subst (λ z. name z ≡ k) same_value ((eq_iff (name v) k).0 hit)
    | inr miss ↦ h k w (sym (lookup-put (name v) k v m ∙ rw miss) ∙ e)
  ]

  pub IsOrdered-add :
      (order : List String) (m : List (String × V)) (v : V)
      → lookup (name v) m ≡ none
      → IsOrdered order m
      → IsOrdered (order ++ name v ∷ []) (put (name v) v m)
  IsOrdered-add order m v new h = record {
    dict = IsDict-put (name v) v m h.dict;
    unique =
        Unique-append ◌==◌ order (name v) h.unique
          (All-absent (name v) order (h.listed (name v) ∙ ground (arith, new)));
    listed = λ k.
        contains-append order (name v) k ∙ ground (arith, h.listed k, lookup-put (name v) k v m);
    named = put-named m v h.named;
  }

  pub IsOrdered-write :
      (order : List String) (m : List (String × V)) (v : V)
      → is_nil (lookup (name v) m) ≡ false
      → IsOrdered order m
      → IsOrdered order (put (name v) v m)
  IsOrdered-write order m v known h = record {
    dict = IsDict-put (name v) v m h.dict;
    unique = h.unique;
    listed = λ k. ground (arith, h.listed k, lookup-put (name v) k v m, eq_iff (name v) k);
    named = put-named m v h.named;
  }

  -- A value may be changed under its key, if the change keeps its name.
  pub IsOrdered-change :
      (order : List String) (m : List (String × V)) (id : String) (v w : V)
      → lookup id m ≡ some w
      → name v ≡ name w
      → IsOrdered order m
      → IsOrdered order (put id v m)
  IsOrdered-change order m id v w there keep h =
      let here : name v ≡ id = keep ∙ h.named id w there in
      subst (λ z. IsOrdered order (put z v m)) here
        (IsOrdered-write order m v
          (subst (λ z. is_nil (lookup z m) ≡ false) (sym here) (ground (arith, there))) h)

  pub IsOrdered-delete :
      (order : List String) (m : List (String × V)) (id : String)
      → IsOrdered order m
      → IsOrdered (filter (λ candidate. not (candidate == id)) order) (delete id m)
  IsOrdered-delete order m id h = record {
    dict = IsDict-delete id m h.dict;
    unique = Unique-filter ◌==◌ (λ candidate. not (candidate == id)) order h.unique;
    listed = λ k. contains-filter order id k ∙ ground (arith, h.listed k, lookup-delete id k m);
    named = λ k v e. h.named k v (ground (arith, e, lookup-delete id k m));
  }

  pub IsOrdered-map_entries :
      (f : String → V → V) (order : List String) (m : List (String × V))
      → ((k : String) (v : V) → name (f k v) ≡ name v)
      → IsOrdered order m
      → IsOrdered order (map_entries f m)
  IsOrdered-map_entries f order m keep h = record {
    dict = IsDict-map_entries f m h.dict;
    unique = h.unique;
    listed = λ k. h.listed k ∙ ground (arith, lookup-map_entries f k m);
    named = λ k v e. elim (Option-cases (lookup k m)) [
      | inl absent ↦
          let found : none ≡ some v = sym (lookup-map_entries f k m ∙ rw absent) ∙ e in ground arith
      | inr (w, there) ↦
          let found : some (f k w) ≡ some v = sym (lookup-map_entries f k m ∙ rw there) ∙ e in
          let same_value : f k w ≡ v = ground arith in
          subst (λ z. name z ≡ k) same_value (keep k w ∙ h.named k w there)
    ];
  }
