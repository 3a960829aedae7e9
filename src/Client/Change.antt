-- ===== src/Client/Change.antt =====
-- internal/client/client.go: the changes that a call may make to the registry, as a relation between the
-- state before and the state after.
use certus.Common.{
  string_key, if-both, Option-cases, String, ◌≡◌, inl, inr, false, not, none, some, [], ◌∷◌, ◌++◌,
  arith, ◌==◌, Time, Hash, is_nil, Option-cases, filter, any, map_entries, lookup, put, delete,
}
use certus.Client.Types.{Reply, Platform, System, Client, MemoryRepository}
use certus.Client.Define.{with_default_token_lifetimes}
use certus.Client.Repository.{
  create_system, replace_system, delete_system, ensure_system, normalized, create_client,
  store_client, store_secret, archive, forget_introspector, delete_archived,
}
use certus.Client.Operations.{
  call, step, Call, create_system_call, replace_system_call, delete_system_call, create_call,
  replace_call, rotate_secret_call, archive_call, delete_archived_call,
}

abbrev pub with_system : MemoryRepository → System → MemoryRepository
with_system r item = record r {
  systems = put item.id item r.systems;
  system_order = r.system_order ++ item.id ∷ [];
}

abbrev pub without_system : MemoryRepository → String → MemoryRepository
without_system r id = record r {
  systems = delete id r.systems;
  system_order = filter (λ candidate. not (candidate == id)) r.system_order;
}

-- A client that is new, with its system.
abbrev pub with_client : Platform → MemoryRepository → Client → MemoryRepository
with_client g r item =
    let next = ensure_system g r item in
    record next { clients = put item.id item next.clients; order = next.order ++ item.id ∷ [] }

-- A client that was there, changed.
abbrev pub with_changed : MemoryRepository → String → Client → MemoryRepository
with_changed r id item = record r { clients = put id item r.clients }

abbrev pub without_client : MemoryRepository → String → MemoryRepository
without_client r id = record r {
  clients = map_entries (λ k other. forget_introspector id other) (delete id r.clients);
  order = filter (λ candidate. not (candidate == id)) r.order;
}

pub data Change (g : Platform) (r : MemoryRepository) : Call → MemoryRepository → Type 0 where
  unchanged : (c : Call) → Change g r c r
  system_added :
      (item : System)
      → lookup item.id r.systems ≡ none
      → Change g r (create_system_call item) (with_system r item)
  system_written :
      (item : System)
      → is_nil (lookup item.id r.systems) ≡ false
      → Change g r (replace_system_call item) (record r { systems = put item.id item r.systems })
  system_removed :
      (id : String)
      → any (λ (e : String × Client). e.1.system_id == id) r.clients ≡ false
      → Change g r (delete_system_call id) (without_system r id)
  client_added :
      (item : Client)
      → lookup item.id r.clients ≡ none
      → Change g r (create_call item) (with_client g r (normalized g item))
  client_written :
      (item current : Client)
      → lookup item.id r.clients ≡ some current
      → current.archived_at ≡ none
      → Change g r (replace_call item) (with_changed r item.id (normalized g item))
  secret_written :
      (id : String) (hash : Hash) (current : Client)
      → lookup id r.clients ≡ some current
      → current.archived_at ≡ none
      → Change g r
          (rotate_secret_call id hash)
          (with_changed r id (record current { secret_hash = hash }))
  client_archived :
      (id : String) (now : Time) (current : Client)
      → lookup id r.clients ≡ some current
      → current.archived_at ≡ none
      → Change g r
          (archive_call id now)
          (with_changed r id (record current { archived_at = some now; enabled = false }))
  client_deleted :
      (id : String) (current : Client)
      → lookup id r.clients ≡ some current
      → Change g r (delete_archived_call id) (without_client r id)

-- Every call makes one of these changes.
pub step-Change : (g : Platform) (r : MemoryRepository) (c : Call) → Change g r c (step g r c)
unfolding step call create_system replace_system delete_system create_client store_client
    store_secret archive delete_archived normalized with_default_token_lifetimes
step-Change g r (create_system_call item) =
    if-both (λ (z : MemoryRepository × Reply System). Change g r (create_system_call item) z.0)
      (not (is_nil (lookup item.id r.systems))) _ _ (λ known. unchanged (create_system_call item))
      (λ new. system_added item (ground arith))
step-Change g r (replace_system_call item) =
    if-both (λ (z : MemoryRepository × Reply System). Change g r (replace_system_call item) z.0)
      (is_nil (lookup item.id r.systems)) _ _ (λ missing. unchanged (replace_system_call item))
      (λ known. system_written item known)
step-Change g r (delete_system_call id) =
    if-both (λ (z : MemoryRepository × Reply (Unit {0})). Change g r (delete_system_call id) z.0)
      (is_nil (lookup id r.systems)) _ _ (λ missing. unchanged (delete_system_call id))
      (λ known.
        if-both
          (λ (z : MemoryRepository × Reply (Unit {0})). Change g r (delete_system_call id) z.0)
          (any (λ (e : String × Client). e.1.system_id == id) r.clients) _ _
          (λ used. unchanged (delete_system_call id)) (λ free. system_removed id free))
step-Change g r (create_call item) =
    if-both (λ (z : MemoryRepository × Reply Client). Change g r (create_call item) z.0)
      (not (is_nil (lookup item.id r.clients))) _ _ (λ known. unchanged (create_call item))
      (λ new. client_added item (ground arith))
step-Change g r (replace_call item) = elim (Option-cases (lookup item.id r.clients)) [
  | inl e ↦ rw (e, step, call, store_client) (unchanged (replace_call item))
  | inr (current, e) ↦
      rw (e, step, call, store_client)
        (if-both (λ (z : MemoryRepository × Reply Client). Change g r (replace_call item) z.0)
          (not (is_nil current.archived_at)) _ _ (λ kept. unchanged (replace_call item))
          (λ live. client_written item current e (ground (arith, live))))
]
step-Change g r (rotate_secret_call id hash) = elim (Option-cases (lookup id r.clients)) [
  | inl e ↦ rw (e, step, call, store_secret) (unchanged (rotate_secret_call id hash))
  | inr (current, e) ↦
      rw (e, step, call, store_secret)
        (if-both
          (λ (z : MemoryRepository × Reply Client). Change g r (rotate_secret_call id hash) z.0)
          (not (is_nil current.archived_at)) _ _ (λ kept. unchanged (rotate_secret_call id hash))
          (λ live. secret_written id hash current e (ground (arith, live))))
]
step-Change g r (archive_call id now) = elim (Option-cases (lookup id r.clients)) [
  | inl e ↦ rw (e, step, call, archive) (unchanged (archive_call id now))
  | inr (current, e) ↦
      rw (e, step, call, archive)
        (if-both (λ (z : MemoryRepository × Reply (Unit {0})). Change g r (archive_call id now) z.0)
          (not (is_nil current.archived_at)) _ _ (λ kept. unchanged (archive_call id now))
          (λ live. client_archived id now current e (ground (arith, live))))
]
step-Change g r (delete_archived_call id) = elim (Option-cases (lookup id r.clients)) [
  | inl e ↦ rw (e, step, call, delete_archived) (unchanged (delete_archived_call id))
  | inr (current, e) ↦
      rw (e, step, call, delete_archived)
        (if-both
          (λ (z : MemoryRepository × Reply (Unit {0})). Change g r (delete_archived_call id) z.0)
          (is_nil current.archived_at) _ _ (λ live. unchanged (delete_archived_call id))
          (λ dead. client_deleted id current e))
]
