-- ===== src/Client/Forget.antt =====
-- internal/client/client.go: what DeleteArchived does to the clients that are left.
use certus.Common.{
  string_key, if-both, Option-cases, Bool-cases, String, ◌≡◌, refl, sym, ◌∙◌, inl, inr, false,
  Option, none, some, List, arith, ◌==◌, eq_refl, Bool-cases, Option-cases, map_entries, lookup,
  delete, lookup-delete, lookup-map_entries,
}
use certus.Client.Types.{Client}
use certus.Client.Policy.{contains}
use certus.Client.Repository.{forget_introspector}
use certus.Client.Ordered.{contains-filter}

pub forget-contains :
    (id : String) (c : Client) → contains (forget_introspector id c).introspectable_by id ≡ false
forget-contains id c = elim (Bool-cases (contains c.introspectable_by id)) [
  | inl e ↦ rw e (contains-filter c.introspectable_by id id ∙ ground (arith, eq_refl id))
  | inr e ↦ rw (e, forget_introspector) e
]

pub forget-id : (id : String) (c : Client) → (forget_introspector id c).id ≡ c.id
forget-id id c =
    if-both (λ (z : Client). z.id ≡ c.id) (contains c.introspectable_by id) _ _ (λ x. refl)
      (λ x. refl)

pub forget-system : (id : String) (c : Client) → (forget_introspector id c).system_id ≡ c.system_id
forget-system id c =
    if-both (λ (z : Client). z.system_id ≡ c.system_id) (contains c.introspectable_by id) _ _
      (λ x. refl) (λ x. refl)

pub forget-seal :
    (k : String) (c : Client)
    → ((forget_introspector k c).archived_at ≡ c.archived_at)
      × ((forget_introspector k c).enabled ≡ c.enabled)
      × ((forget_introspector k c).secret_hash ≡ c.secret_hash)
forget-seal k c =
    if-both
      (λ (z : Client).
        (z.archived_at ≡ c.archived_at) × (z.enabled ≡ c.enabled) × (z.secret_hash ≡ c.secret_hash))
      (contains c.introspectable_by k) _ _ (λ x. (refl, refl, refl)) (λ x. (refl, refl, refl))

-- What is found in the map afterwards.
pub left-client :
    (m : List (String × Client)) (id k : String) (c : Client)
    → lookup k (map_entries (λ j other. forget_introspector id other) (delete id m)) ≡ some c
    → (w : Client) × (id == k ≡ false) × (lookup k m ≡ some w) × (c ≡ forget_introspector id w)
left-client m id k c h = elim (Option-cases (lookup k (delete id m))) [
  | inl e ↦
      let clash : none ≡ some c =
        sym
          (lookup-map_entries (λ j other. forget_introspector id other) k (delete id m) ∙ rw e refl)
        ∙ h in
      ground arith
  | inr (w, e) ↦
      let here : ◌≡◌ {A = Option Client} (some (forget_introspector id w)) (some c) =
        sym
          (lookup-map_entries (λ j other. forget_introspector id other) k (delete id m) ∙ rw e refl)
        ∙ h in
      let before = lookup-delete id k m in
      (w, ground (arith, before, e), ground (arith, before, e), ground arith)
]
