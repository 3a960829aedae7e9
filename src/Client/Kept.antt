-- ===== src/Client/Kept.antt =====
-- internal/client/client.go: each change and the registry's maps with their orders.
use certus.Common.{
  string_key, if-both, String, ◌≡◌, refl, sym, subst, false, not, none, some, [], ◌∷◌, ◌++◌, arith,
  ◌==◌, is_nil, filter, lookup, put, delete, is_empty, trim_space,
}
use certus.Client.Types.{Platform, System, Client, MemoryRepository}
use certus.Client.Define.{effective_system_id, with_default_token_lifetimes, system_from_client}
use certus.Client.Repository.{ensure_system, normalized, forget_introspector}
use certus.Client.Operations.{Call}
use certus.Client.Change.{
  Change, unchanged, system_added, system_written, system_removed, client_added, client_written,
  secret_written, client_archived, client_deleted,
}
use certus.Client.Ordered.{
  IsOrdered, IsOrdered-add, IsOrdered-write, IsOrdered-change, IsOrdered-delete,
  IsOrdered-map_entries,
}
use certus.Client.Forget.{forget-id}

-- The maps of systems and of clients with their slices.
pub record IsRegistry (r : MemoryRepository) : Type 0 where
  pub systems : IsOrdered (λ (s : System). s.id) r.system_order r.systems
  pub clients : IsOrdered (λ (c : Client). c.id) r.order r.clients

-- The system of a client that is stored has an identifier that reads back as itself.
pub ensure_system-IsRegistry :
    (g : Platform) (r : MemoryRepository) (item : Client)
    → effective_system_id g item.system_id item.id ≡ item.system_id
    → IsRegistry r
    → IsRegistry (ensure_system g r item)
unfolding ensure_system system_from_client
ensure_system-IsRegistry g r item stable h =
    if-both IsRegistry (not (is_nil (lookup item.system_id r.systems))) _ _ (λ known. h)
      (λ new.
        let absent : lookup (system_from_client g item).id r.systems ≡ none =
          subst (λ z. lookup z r.systems ≡ none) (sym stable) (ground arith) in
        record {
          systems =
              subst
                (λ z.
                  IsOrdered (λ (s : System). s.id) (r.system_order ++ z ∷ [])
                    (put z (system_from_client g item) r.systems))
                stable
                (IsOrdered-add (λ (s : System). s.id) r.system_order r.systems
                  (system_from_client g item) absent h.systems);
          clients = h.clients;
        })

-- strings.ToLower applied to its own trimmed result changes nothing.
abbrev pub IsStable : Platform → Type 0
IsStable g =
    (s : String) → g.to_lower (trim_space (g.to_lower (trim_space s))) ≡ g.to_lower (trim_space s)

effective-effective :
    (g : Platform) (s fallback : String)
    → IsStable g
    → effective_system_id g (effective_system_id g s fallback) fallback
      ≡ effective_system_id g s fallback
unfolding effective_system_id
effective-effective g s fallback stable =
    if-both (λ z. effective_system_id g z fallback ≡ z) (is_empty (g.to_lower (trim_space s))) _ _
      (λ e. rw (stable fallback) (ground arith)) (λ e. rw (stable s, e) refl)

pub ensure_system-clients :
    (g : Platform) (r : MemoryRepository) (item : Client)
    → ((ensure_system g r item).clients ≡ r.clients) × ((ensure_system g r item).order ≡ r.order)
unfolding ensure_system
ensure_system-clients g r item =
    if-both (λ (z : MemoryRepository). (z.clients ≡ r.clients) × (z.order ≡ r.order))
      (not (is_nil (lookup item.system_id r.systems))) _ _ (λ known. (refl, refl))
      (λ new. (refl, refl))

pub Change-IsRegistry :
    (g : Platform) (r next : MemoryRepository) (c : Call)
    → IsStable g
    → Change g r c next
    → IsRegistry r
    → IsRegistry next
unfolding normalized with_default_token_lifetimes
Change-IsRegistry g r next c stable (unchanged other) h = h
Change-IsRegistry g r next c stable (system_added item new) h = record {
  systems = IsOrdered-add (λ (s : System). s.id) r.system_order r.systems item new h.systems;
  clients = h.clients;
}
Change-IsRegistry g r next c stable (system_written item known) h = record {
  systems = IsOrdered-write (λ (s : System). s.id) r.system_order r.systems item known h.systems;
  clients = h.clients;
}
Change-IsRegistry g r next c stable (system_removed id free) h = record {
  systems = IsOrdered-delete (λ (s : System). s.id) r.system_order r.systems id h.systems;
  clients = h.clients;
}
Change-IsRegistry g r next c stable (client_added item new) h =
    let with_its = ensure_system g r (normalized g item) in
    let kept =
      ensure_system-IsRegistry g r (normalized g item)
        (effective-effective g item.system_id item.id stable) h in
    record {
      systems = kept.systems;
      clients =
          IsOrdered-add (λ (c : Client). c.id) with_its.order with_its.clients (normalized g item)
            (subst (λ z. lookup item.id z ≡ none)
              (sym (ensure_system-clients g r (normalized g item)).0) new)
            kept.clients;
    }
Change-IsRegistry g r next c stable (client_written item current there live) h = record {
  systems = h.systems;
  clients =
      IsOrdered-write (λ (c : Client). c.id) r.order r.clients (normalized g item)
        (ground (arith, there)) h.clients;
}
Change-IsRegistry g r next c stable (secret_written id hash current there live) h = record {
  systems = h.systems;
  clients =
      IsOrdered-change (λ (c : Client). c.id) r.order r.clients id
        (record current { secret_hash = hash }) current there refl h.clients;
}
Change-IsRegistry g r next c stable (client_archived id now current there live) h = record {
  systems = h.systems;
  clients =
      IsOrdered-change (λ (c : Client). c.id) r.order r.clients id
        (record current { archived_at = some now; enabled = false }) current there refl h.clients;
}
Change-IsRegistry g r next c stable (client_deleted id current there) h = record {
  systems = h.systems;
  clients =
      IsOrdered-map_entries (λ (c : Client). c.id) (λ k other. forget_introspector id other)
        (filter (λ candidate. not (candidate == id)) r.order) (delete id r.clients)
        (λ k v. forget-id id v)
        (IsOrdered-delete (λ (c : Client). c.id) r.order r.clients id h.clients);
}
