-- ===== src/Client/Deleted.antt =====
-- internal/client/client.go: what DeleteArchived leaves behind.
use certus.Common.{
  ◌==◌, if-both, is_nil, not, ◌≢◌, lookup-put, string_key, Option-cases, String, ◌≡◌, refl, sym, ap,
  ◌∙◌, inl, inr, false, none, some, arith, eq_iff, eq_refl, ok, err, Option-cases, map_entries,
  lookup, delete, lookup-delete, lookup-map_entries,
}
use certus.Client.Types.{Platform, Reply, Client, MemoryRepository, not_found}
use certus.Client.Policy.{contains, allows_introspection_by}
use certus.Client.Define.{with_default_token_lifetimes}
use certus.Client.Repository.{
  create_client, normalized, ensure_system, clone_with_system, find_client, forget_introspector,
  delete_archived,
}
use certus.Client.Forget.{forget-contains, forget-id, left-client}
use certus.Client.Kept.{IsRegistry}

clone-policy :
    (r : MemoryRepository) (c : Client)
    → ((clone_with_system r c).id ≡ c.id)
      × ((clone_with_system r c).introspectable_by ≡ c.introspectable_by)
unfolding clone_with_system
clone-policy r c = ground arith

found-client :
    (r : MemoryRepository) (k : String) (d : Client)
    → find_client r k ≡ ok d
    → (c : Client) × (lookup k r.clients ≡ some c) × (d ≡ clone_with_system r c)
unfolding find_client
found-client r k d h = elim (Option-cases (lookup k r.clients)) [
  | inl e ↦ let x = rw (e, find_client) at h in ground arith
  | inr (c, e) ↦
      let x : ◌≡◌ {A = Reply Client} (ok (clone_with_system r c)) (ok d) =
        rw (e, find_client) at h in
      (c, e, ground arith)
]

deleted-clients :
    (r : MemoryRepository) (id : String)
    → (delete_archived r id).1 ≡ ok tt
    → (delete_archived r id).0.clients
      ≡ map_entries (λ k other. forget_introspector id other) (delete id r.clients)
unfolding delete_archived
deleted-clients r id h = ground arith

ensured-clients :
    (g : Platform) (r : MemoryRepository) (c : Client) → (ensure_system g r c).clients ≡ r.clients
unfolding ensure_system
ensured-clients g r c =
    if-both (λ (z : MemoryRepository). z.clients ≡ r.clients)
      (not (is_nil (lookup c.system_id r.systems))) _ _ (λ known. refl) (λ new. refl)

-- Create writes no other client.
created-others :
    (g : Platform) (r : MemoryRepository) (item : Client) (k : String)
    → item.id ≢ k
    → lookup k (create_client g r item).0.clients ≡ lookup k r.clients
unfolding create_client normalized with_default_token_lifetimes
created-others g r item k apart =
    if-both (λ (z : MemoryRepository × Reply Client). lookup k z.0.clients ≡ lookup k r.clients)
      (not (is_nil (lookup item.id r.clients))) _ _ (λ known. refl)
      (λ new.
        let differ : item.id == k ≡ false = ground (arith, eq_iff item.id k, apart) in
        let stored = normalized g item in
        lookup-put item.id k stored (ensure_system g r stored).clients
        ∙ rw differ refl
        ∙ ap (lookup k) (ensured-clients g r stored))

-- A client that a deletion leaves, whatever system is shown with it.
left-hidden :
    (r s : MemoryRepository) (id k : String) (c d : Client)
    → IsRegistry r
    → (delete_archived r id).1 ≡ ok tt
    → lookup k (delete_archived r id).0.clients ≡ some c
    → d ≡ clone_with_system s c
    → allows_introspection_by d id ≡ false
unfolding allows_introspection_by
left-hidden r s id k c d consistent h there same_d =
    let after_delete = deleted-clients r id h in
    let (w, other, earlier, same_c) =
      left-client r.clients id k c (sym (ap (lookup k) after_delete) ∙ there) in
    let (same_id, same_list) = clone-policy s c in
    let name : d.id ≡ k =
      ap (λ (z : Client). z.id) same_d
      ∙ same_id
      ∙ ap (λ (z : Client). z.id) same_c
      ∙ forget-id id w
      ∙ consistent.clients.named k w earlier in
    let hidden : contains d.introspectable_by id ≡ false =
      ap (λ (z : Client). contains z.introspectable_by id) same_d
      ∙ ap (λ z. contains z id) same_list
      ∙ ap (λ (z : Client). contains z.introspectable_by id) same_c
      ∙ forget-contains id w in
    ground (arith, name, hidden, other, eq_iff id k, eq_iff d.id id)

-- After a deletion that succeeds, the client is not found, and no client that is found lets it
-- introspect its tokens: neither as the issuer nor by its list. If a client is created next, under the
-- same identifier or another, the other clients still do not.
pub deleted_client_forgotten :
    (r : MemoryRepository) (id : String)
    → IsRegistry r
    → (delete_archived r id).1 ≡ ok tt
    → (find_client (delete_archived r id).0 id ≡ err not_found)
      × ((k : String) (c : Client)
          → find_client (delete_archived r id).0 k ≡ ok c
          → allows_introspection_by c id ≡ false)
      × ((g : Platform) (item : Client) (k : String) (c : Client)
          → item.id ≢ k
          → find_client (create_client g (delete_archived r id).0 item).0 k ≡ ok c
          → allows_introspection_by c id ≡ false)
unfolding find_client
deleted_client_forgotten r id consistent h =
    let after_delete = deleted-clients r id h in
    let gone : lookup id (delete_archived r id).0.clients ≡ none =
      ap (lookup id) after_delete
      ∙ lookup-map_entries (λ k other. forget_introspector id other) id (delete id r.clients)
      ∙ rw (lookup-delete id id r.clients, eq_refl id) refl in
    (
      rw (gone, find_client) refl,
      λ k d found.
          let (c, there, same_d) = found-client (delete_archived r id).0 k d found in
          left-hidden r (delete_archived r id).0 id k c d consistent h there same_d,
      λ g item k d apart found.
          let next = (create_client g (delete_archived r id).0 item).0 in
          let (c, there, same_d) = found-client next k d found in
          left-hidden r next id k c d consistent h
            (sym (created-others g (delete_archived r id).0 item k apart) ∙ there) same_d,
    )
