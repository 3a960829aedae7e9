-- ===== src/Client/Owned.antt =====
-- internal/client/client.go: clients and their systems.
use certus.Common.{
  string_key, if-both, Bool-cases, String, ◌≡◌, refl, sym, ap, ◌∙◌, subst, inl, inr, false, not,
  Option, some, List, [], ◌∷◌, arith, ◌==◌, eq_iff, eq_refl, before, is_nil, Bool-cases, any,
  lookup, put, delete, lookup-put, lookup-delete, any-false-lookup,
}
use certus.Client.Types.{Platform, System, Client, MemoryRepository}
use certus.Client.Define.{with_default_token_lifetimes, system_from_client}
use certus.Client.Repository.{ensure_system, normalized}
use certus.Client.Operations.{step, run, Call, replace_call}
use certus.Client.Change.{
  step-Change, Change, unchanged, system_added, system_written, system_removed, client_added,
  client_written, secret_written, client_archived, client_deleted,
}
use certus.Client.Forget.{forget-system, left-client}
use certus.Client.Kept.{ensure_system-clients}

abbrev pub Owned : List (String × System) → List (String × Client) → Type 0
Owned systems m =
    (k : String) (c : Client) → lookup k m ≡ some c → is_nil (lookup c.system_id systems) ≡ false

-- The system of every stored client is in the registry.
abbrev pub AllOwned : MemoryRepository → Type 0
AllOwned r = Owned r.systems r.clients

-- A client is replaced only under a system that exists, as the handlers check before they call Replace.
abbrev pub KnowsSystem : Platform → MemoryRepository → Call → Type 0
KnowsSystem g r (replace_call item) =
    is_nil (lookup (normalized g item).system_id r.systems) ≡ false
KnowsSystem g r _ = Unit

abbrev pub AllKnow : Platform → MemoryRepository → List Call → Type 0
AllKnow g r [] = Unit
AllKnow g r (c ∷ cs) = KnowsSystem g r c × AllKnow g (step g r c) cs

put-Owned :
    (systems : List (String × System)) (m : List (String × Client)) (k : String) (c : Client)
    → is_nil (lookup c.system_id systems) ≡ false
    → Owned systems m
    → Owned systems (put k c m)
put-Owned systems m k c v h j d e = elim (Bool-cases (k == j)) [
  | inl hit ↦
      let found : ◌≡◌ {A = Option Client} (some c) (some d) =
        sym (lookup-put k j c m ∙ rw hit refl) ∙ e in
      let same : c ≡ d = ground arith in
      subst (λ (z : Client). is_nil (lookup z.system_id systems) ≡ false) same v
  | inr miss ↦ h j d (sym (lookup-put k j c m ∙ rw miss refl) ∙ e)
]

-- A system that is written is there, and so are those that were.
put-known :
    (systems : List (String × System)) (k j : String) (s : System)
    → is_nil (lookup j systems) ≡ false
    → is_nil (lookup j (put k s systems)) ≡ false
put-known systems k j s h = ground (arith, h, lookup-put k j s systems)

put-Owned_systems :
    (systems : List (String × System)) (m : List (String × Client)) (k : String) (s : System)
    → Owned systems m
    → Owned (put k s systems) m
put-Owned_systems systems m k s h j d e = put-known systems k d.system_id s (h j d e)

delete-Owned :
    (systems : List (String × System)) (m : List (String × Client)) (id : String)
    → any (λ (e : String × Client). e.1.system_id == id) m ≡ false
    → Owned systems m
    → Owned (delete id systems) m
delete-Owned systems m id free h k c e =
    let other : c.system_id == id ≡ false =
      any-false-lookup (λ (x : String × Client). x.1.system_id == id) k c m free e in
    ground (
      arith,
      h k c e,
      lookup-delete id c.system_id systems,
      eq_iff id c.system_id,
      eq_iff c.system_id id,
    )

-- ensureSystem leaves the item's system in the registry, and those that were there.
ensure_system-known :
    (g : Platform) (r : MemoryRepository) (item : Client)
    → (is_nil (lookup item.system_id (ensure_system g r item).systems) ≡ false)
      × ((j : String)
          → is_nil (lookup j r.systems) ≡ false
          → is_nil (lookup j (ensure_system g r item).systems) ≡ false)
unfolding ensure_system
ensure_system-known g r item =
    if-both
      (λ (z : MemoryRepository).
        (is_nil (lookup item.system_id z.systems) ≡ false)
        × ((j : String)
            → is_nil (lookup j r.systems) ≡ false
            → is_nil (lookup j z.systems) ≡ false))
      (not (is_nil (lookup item.system_id r.systems))) _ _ (λ known. (ground arith, λ j h. h))
      (λ new. (
        ground (
          arith,
          eq_refl item.system_id,
          lookup-put item.system_id item.system_id (system_from_client g item) r.systems,
        ),
        λ j h. put-known r.systems item.system_id j (system_from_client g item) h,
      ))

Change-AllOwned :
    (g : Platform) (r next : MemoryRepository) (c : Call)
    → KnowsSystem g r c
    → Change g r c next
    → AllOwned r
    → AllOwned next
unfolding normalized with_default_token_lifetimes
Change-AllOwned g r next c known (unchanged other) h = h
Change-AllOwned g r next c known (system_added item new) h =
    put-Owned_systems r.systems r.clients item.id item h
Change-AllOwned g r next c known (system_written item there) h =
    put-Owned_systems r.systems r.clients item.id item h
Change-AllOwned g r next c known (system_removed id free) h =
    delete-Owned r.systems r.clients id free h
Change-AllOwned g r next c known (client_added item new) h =
    let stored = normalized g item in
    let (mine, others) = ensure_system-known g r stored in
    put-Owned (ensure_system g r stored).systems (ensure_system g r stored).clients item.id stored
      mine
      (subst (Owned (ensure_system g r stored).systems) (sym (ensure_system-clients g r stored).0)
        (λ k c e. others c.system_id (h k c e)))
Change-AllOwned g r next c known (client_written item current there live) h =
    put-Owned r.systems r.clients item.id (normalized g item) known h
Change-AllOwned g r next c known (secret_written id hash current there live) h =
    put-Owned r.systems r.clients id (record current { secret_hash = hash }) (h id current there) h
Change-AllOwned g r next c known (client_archived id now current there live) h =
    put-Owned r.systems r.clients id (record current { archived_at = some now; enabled = false })
      (h id current there) h
Change-AllOwned g r next c known (client_deleted id current there) h = λ k d found.
    let (w, other, before, same_c) = left-client r.clients id k d found in
    let same_system = ap (λ (z : Client). z.system_id) same_c ∙ forget-system id w in
    subst (λ z. is_nil (lookup z r.systems) ≡ false) (sym same_system) (h k w before)

-- If Replace is only called for a client whose system is in the registry at that time, then after any
-- history of calls the system of every client is in the registry: Create adds it, and a system with
-- clients, archived ones included, cannot be deleted.
pub run-AllOwned :
    (g : Platform) (r : MemoryRepository) (cs : List Call)
    → AllKnow g r cs
    → AllOwned r
    → AllOwned (run g r cs)
unfolding run
run-AllOwned g r [] known h = h
run-AllOwned g r (c ∷ cs) known h =
    run-AllOwned g (step g r c) cs known.1
      (Change-AllOwned g r (step g r c) c known.0 (step-Change g r c) h)
