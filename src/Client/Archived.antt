-- ===== src/Client/Archived.antt =====
-- internal/client/client.go: an archived client over a history of calls.
use certus.Common.{
  string_key, Bool-cases, String, ◌≡◌, refl, sym, ap, ◌∙◌, subst, inl, inr, true, false, none, some,
  List, [], ◌∷◌, arith, ◌==◌, eq_iff, eq_refl, ok, Time, Hash, is_nil, Bool-cases, All, lookup, put,
  delete, lookup-put, lookup-delete, lookup-map_entries,
}
use certus.Client.Types.{Platform, Client, MemoryRepository}
use certus.Client.Define.{with_default_token_lifetimes}
use certus.Client.Repository.{
  clone_with_system, find_client, normalized, archive, forget_introspector,
}
use certus.Client.Operations.{step, run, Call, delete_archived_call}
use certus.Client.Change.{
  step-Change, Change, unchanged, system_added, system_written, system_removed, client_added,
  client_written, secret_written, client_archived, client_deleted,
}
use certus.Client.Forget.{forget-seal}
use certus.Client.Kept.{ensure_system-clients}

-- A client stands under `id`, archived at `t`, disabled and with the secret's hash `hash`.
abbrev pub IsSealed : String → Time → Hash → List (String × Client) → Type 0
IsSealed id t hash m =
    (c : Client) × (lookup id m ≡ some c)
    × (c.archived_at ≡ some t)
    × (c.enabled ≡ false)
    × (c.secret_hash ≡ hash)

put-IsSealed :
    (id k : String) (t : Time) (hash : Hash) (v : Client) (m : List (String × Client))
    → k == id ≡ false
    → IsSealed id t hash m
    → IsSealed id t hash (put k v m)
put-IsSealed id k t hash v m other (c, there, at, off, secret) =
    (c, lookup-put k id v m ∙ rw other there, at, off, secret)

-- A key under which there is nothing, or a client that is not archived, is not `id`.
other_key :
    (id k : String) (t : Time) (hash : Hash) (m : List (String × Client))
    → IsSealed id t hash m
    → ((c : Client) → lookup k m ≡ some c → is_nil c.archived_at ≡ true)
    → k == id ≡ false
other_key id k t hash m (c, there, at, off, secret) live = elim (Bool-cases (k == id)) [
  | inl hit ↦
      let here : lookup k m ≡ some c =
        subst (λ z. lookup z m ≡ some c) (sym ((eq_iff k id).0 hit)) there in
      let fresh = live c here in
      let old = ap is_nil at in let clash : false ≡ true = sym old ∙ fresh in ground arith
  | inr miss ↦ miss
]

-- A call that does not delete the client `id`.
abbrev pub Spares : String → Call → Type 0
Spares id (delete_archived_call other) = other == id ≡ false
Spares id _ = Unit

Change-IsSealed :
    (g : Platform) (r next : MemoryRepository) (c : Call) (id : String) (t : Time) (hash : Hash)
    → Spares id c
    → Change g r c next
    → IsSealed id t hash r.clients
    → IsSealed id t hash next.clients
unfolding normalized with_default_token_lifetimes
Change-IsSealed g r next c id t hash spares (unchanged other) h = h
Change-IsSealed g r next c id t hash spares (system_added item new) h = h
Change-IsSealed g r next c id t hash spares (system_written item there) h = h
Change-IsSealed g r next c id t hash spares (system_removed k free) h = h
Change-IsSealed g r next c id t hash spares (client_added item new) h =
    let same = (ensure_system-clients g r (normalized g item)).0 in
    subst (λ z. IsSealed id t hash (put item.id (normalized g item) z)) (sym same)
      (put-IsSealed id item.id t hash (normalized g item) r.clients
        (other_key id item.id t hash r.clients h (λ c e. ground (arith, new, e))) h)
Change-IsSealed g r next c id t hash spares (client_written item current there live) h =
    put-IsSealed id item.id t hash (normalized g item) r.clients
      (other_key id item.id t hash r.clients h (λ c f. ground (arith, live, there, f))) h
Change-IsSealed g r next c id t hash spares (secret_written k fresh current there live) h =
    put-IsSealed id k t hash (record current { secret_hash = fresh }) r.clients
      (other_key id k t hash r.clients h (λ c f. ground (arith, live, there, f))) h
Change-IsSealed g r next c id t hash spares (client_archived k now current there live) h =
    put-IsSealed id k t hash (record current { archived_at = some now; enabled = false }) r.clients
      (other_key id k t hash r.clients h (λ c f. ground (arith, live, there, f))) h
Change-IsSealed g r next c id t hash spares (client_deleted k current gone) h =
    let (c, there, at, off, secret) = h in
    let (same_at, same_off, same_secret) = forget-seal k c in
    let left : lookup id (delete k r.clients) ≡ some c =
      lookup-delete k id r.clients ∙ rw spares there in
    (
      forget_introspector k c,
      lookup-map_entries (λ j v. forget_introspector k v) id (delete k r.clients) ∙ rw left refl,
      same_at ∙ at,
      same_off ∙ off,
      same_secret ∙ secret,
    )

clone-IsSealed :
    (r : MemoryRepository) (c : Client)
    → ((clone_with_system r c).archived_at ≡ c.archived_at)
      × ((clone_with_system r c).enabled ≡ c.enabled)
      × ((clone_with_system r c).secret_hash ≡ c.secret_hash)
unfolding clone_with_system
clone-IsSealed r c = ground arith

run-IsSealed :
    (g : Platform) (r : MemoryRepository) (cs : List Call) (id : String) (t : Time) (hash : Hash)
    → All (Spares id) cs
    → IsSealed id t hash r.clients
    → IsSealed id t hash (run g r cs).clients
unfolding run
run-IsSealed g r [] id t hash spares h = h
run-IsSealed g r (c ∷ cs) id t hash spares h =
    run-IsSealed g (step g r c) cs id t hash spares.1
      (Change-IsSealed g r (step g r c) c id t hash spares.0 (step-Change g r c) h)

-- Once a client has been archived, it stays archived at that instant, disabled and with the secret it
-- had, whatever calls follow, other than a deletion of that client: no replacement, no new secret, no
-- second archiving and no creation under its identifier changes that. Find still answers it.
pub archived_stays_disabled :
    (g : Platform) (r : MemoryRepository) (id : String) (now : Time) (c : Client) (cs : List Call)
    → lookup id r.clients ≡ some c
    → c.archived_at ≡ none
    → All (Spares id) cs
    → (d : Client) × (find_client (run g (archive r id now).0 cs) id ≡ ok d)
      × (d.archived_at ≡ some now)
      × (d.enabled ≡ false)
      × (d.secret_hash ≡ c.secret_hash)
unfolding archive find_client clone_with_system
archived_stays_disabled g r id now c cs there live spares =
    let gone : Client = record c { archived_at = some now; enabled = false } in
    let start : IsSealed id now c.secret_hash (archive r id now).0.clients =
      rw (there, live, archive)
        (gone, lookup-put id id gone r.clients ∙ rw (eq_refl id) refl, refl, refl, refl) in
    let (d, found, at, off, secret) =
      run-IsSealed g (archive r id now).0 cs id now c.secret_hash spares start in
    let (same_at, same_off, same_secret) = clone-IsSealed (run g (archive r id now).0 cs) d in
    (
      clone_with_system (run g (archive r id now).0 cs) d,
      rw (found, find_client) refl,
      same_at ∙ at,
      same_off ∙ off,
      same_secret ∙ secret,
    )
