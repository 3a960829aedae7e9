-- ===== src/Client/Repository.antt =====
-- internal/client/client.go: NewMemoryRepository and the methods of MemoryRepository. A clone has no
-- model of its own, since no value is written in place.
use certus.Common.{
  string_key, String, false, not, none, some, List, [], ◌∷◌, ◌++◌, ◌==◌, if◌then◌else◌, ok, err,
  Time, Hash, is_nil, filter, any, map_entries, lookup, put, delete,
}
use certus.Client.Types.{
  Reply, zero_system, zero_client, Platform, System, Client, MemoryRepository, not_found, conflict,
  archived, not_archived, system_not_found, system_conflict, system_in_use,
}
use certus.Client.Policy.{contains}
use certus.Client.Define.{effective_system_id, with_default_token_lifetimes, system_from_client}

abbrev pub systems_of : MemoryRepository → List String → List System
systems_of r [] = []
systems_of r (id ∷ ids) =
    elim (lookup id r.systems) [ none ↦ zero_system | some s ↦ s ] ∷ systems_of r ids

unfoldable pub list_systems : MemoryRepository → List System
list_systems r = systems_of r r.system_order

unfoldable pub find_system : MemoryRepository → String → Reply System
find_system r id = elim (lookup id r.systems) [ none ↦ err system_not_found | some s ↦ ok s ]

unfoldable pub create_system : MemoryRepository → System → MemoryRepository × Reply System
create_system r item =
    if not (is_nil (lookup item.id r.systems)) then (r, err system_conflict) else (
      record r {
        systems = put item.id item r.systems;
        system_order = r.system_order ++ item.id ∷ [];
      },
      ok item,
    )

unfoldable pub replace_system : MemoryRepository → System → MemoryRepository × Reply System
replace_system r item =
    if is_nil (lookup item.id r.systems)
    then (r, err system_not_found)
    else (record r { systems = put item.id item r.systems }, ok item)

unfoldable pub delete_system : MemoryRepository → String → MemoryRepository × Reply (Unit {0})
delete_system r id =
    if is_nil (lookup id r.systems)
    then (r, err system_not_found)
    else if any (λ (e : String × Client). e.1.system_id == id) r.clients
    then (r, err system_in_use)
    else (
      record r {
        systems = delete id r.systems;
        system_order = filter (λ candidate. not (candidate == id)) r.system_order;
      },
      ok tt,
    )

unfoldable pub ensure_system : Platform → MemoryRepository → Client → MemoryRepository
unfolding system_from_client
ensure_system g r item = if not (is_nil (lookup item.system_id r.systems)) then r else record r {
  systems = put item.system_id (system_from_client g item) r.systems;
  system_order = r.system_order ++ item.system_id ∷ [];
}

unfoldable pub clone_with_system : MemoryRepository → Client → Client
clone_with_system r item = elim (lookup item.system_id r.systems) [
  | none ↦ item
  | some s ↦ record item { system = some s }
]

abbrev pub clients_of : MemoryRepository → List String → List Client
clients_of r [] = []
clients_of r (id ∷ ids) =
    clone_with_system r (elim (lookup id r.clients) [ none ↦ zero_client | some c ↦ c ])
    ∷ clients_of r ids

-- List
unfoldable pub list_clients : MemoryRepository → List Client
unfolding clone_with_system
list_clients r = clients_of r r.order

-- Find
unfoldable pub find_client : MemoryRepository → String → Reply Client
unfolding clone_with_system
find_client r id = elim (lookup id r.clients) [
  | none ↦ err not_found
  | some item ↦ ok (clone_with_system r item)
]

-- What Create and Replace store.
unfoldable pub normalized : Platform → Client → Client
unfolding with_default_token_lifetimes effective_system_id
normalized g item =
    let item = with_default_token_lifetimes item in
    record item { system_id = effective_system_id g item.system_id item.id }

-- Create
unfoldable pub create_client :
    Platform → MemoryRepository → Client → MemoryRepository × Reply Client
unfolding normalized ensure_system clone_with_system
create_client g r item =
    let item = normalized g item in
    if not (is_nil (lookup item.id r.clients))
    then (r, err conflict)
    else let r = ensure_system g r item in
      let r = record r { clients = put item.id item r.clients; order = r.order ++ item.id ∷ [] } in
      (r, ok (clone_with_system r item))

-- Replace
unfoldable pub store_client : Platform → MemoryRepository → Client → MemoryRepository × Reply Client
unfolding normalized clone_with_system
store_client g r item =
    let item = normalized g item in
    elim (lookup item.id r.clients) [
      | none ↦ (r, err not_found)
      | some current ↦
          if not (is_nil current.archived_at)
          then (r, err archived)
          else let r = record r { clients = put item.id item r.clients } in
            (r, ok (clone_with_system r item))
    ]

-- RotateSecret
unfoldable pub store_secret : MemoryRepository → String → Hash → MemoryRepository × Reply Client
unfolding clone_with_system
store_secret r id hash = elim (lookup id r.clients) [
  | none ↦ (r, err not_found)
  | some item ↦
      if not (is_nil item.archived_at)
      then (r, err archived)
      else let item = record item { secret_hash = hash } in
        let r = record r { clients = put id item r.clients } in (r, ok (clone_with_system r item))
]

-- Archive
unfoldable pub archive : MemoryRepository → String → Time → MemoryRepository × Reply (Unit {0})
archive r id now = elim (lookup id r.clients) [
  | none ↦ (r, err not_found)
  | some item ↦ if not (is_nil item.archived_at) then (r, ok tt) else (
    record r {
      clients = put id (record item { archived_at = some now; enabled = false }) r.clients;
    },
    ok tt,
  )
]

-- `other` without `id` among those that may introspect its tokens.
abbrev pub forget_introspector : String → Client → Client
forget_introspector id other =
    if contains other.introspectable_by id
    then record other {
      settings = record other.settings {
        introspectable_by = filter (λ candidate. not (candidate == id)) other.introspectable_by;
      };
    }
    else other

-- DeleteArchived
unfoldable pub delete_archived : MemoryRepository → String → MemoryRepository × Reply (Unit {0})
delete_archived r id = elim (lookup id r.clients) [
  | none ↦ (r, err not_found)
  | some item ↦ if is_nil item.archived_at then (r, err not_archived) else (
    record r {
      clients = map_entries (λ k other. forget_introspector id other) (delete id r.clients);
      order = filter (λ candidate. not (candidate == id)) r.order;
    },
    ok tt,
  )
]

-- The loop of NewMemoryRepository.
unfoldable pub add_clients : Platform → MemoryRepository → List Client → MemoryRepository
unfolding normalized ensure_system
add_clients g r [] = r
add_clients g r (c ∷ cs) =
    let item = normalized g c in
    let r = ensure_system g r item in
    let r = record r { clients = put item.id item r.clients; order = r.order ++ item.id ∷ [] } in
    add_clients g r cs

unfoldable pub new_memory_repository : Platform → List Client → MemoryRepository
unfolding add_clients
new_memory_repository g cs =
    add_clients g (record { systems = []; system_order = []; clients = []; order = [] }) cs
