-- ===== src/Client/Consistent.antt =====
-- internal/client/client.go: the registry's maps and their orders over a history of calls.
use certus.Common.{
  string_key, Option-cases, Bool-cases, String, ◌≡◌, refl, ap, ◌∙◌, subst, inl, inr, true, false,
  none, some, List, [], ◌∷◌, arith, ◌==◌, eq_iff, eq_refl, if◌then◌else◌, ok, err, is_nil,
  Bool-cases, Option-cases, find_first, lookup,
}
use certus.Client.Types.{Platform, Client, MemoryRepository, not_found}
use certus.Client.Policy.{contains}
use certus.Client.Repository.{clone_with_system, clients_of, list_clients, find_client}
use certus.Client.Operations.{step, run, Call}
use certus.Client.Change.{step-Change}
use certus.Client.Kept.{IsStable, Change-IsRegistry, IsRegistry}

-- Whatever calls are made, the order of the systems and the order of the clients hold exactly the keys
-- of their maps, each of them once, and every system and client stands under its own identifier. It
-- takes that strings.ToLower and strings.TrimSpace change nothing when they are applied again.
pub run-IsRegistry :
    (g : Platform) (r : MemoryRepository) (cs : List Call)
    → IsStable g
    → IsRegistry r
    → IsRegistry (run g r cs)
unfolding run
run-IsRegistry g r [] stable h = h
run-IsRegistry g r (c ∷ cs) stable h =
    run-IsRegistry g (step g r c) cs stable
      (Change-IsRegistry g r (step g r c) c stable (step-Change g r c) h)

clone-id : (r : MemoryRepository) (c : Client) → (clone_with_system r c).id ≡ c.id
unfolding clone_with_system
clone-id r c = ground arith

find_first-clients_of :
    (r : MemoryRepository) (ids : List String) (k : String)
    → ((j : String) (c : Client) → lookup j r.clients ≡ some c → c.id ≡ j)
    → ((j : String) → contains ids j ≡ true → is_nil (lookup j r.clients) ≡ false)
    → find_first (λ (c : Client). c.id == k) (clients_of r ids) ≡ (
        if contains ids k
        then elim (lookup k r.clients) [ none ↦ none | some c ↦ some (clone_with_system r c) ]
        else none)
find_first-clients_of r [] k named known = refl
find_first-clients_of r (j ∷ ids) k named known = elim (Option-cases (lookup j r.clients)) [
  | inl e ↦ let there = known j (ground (arith, eq_refl j)) in ground (arith, e)
  | inr (c, e) ↦
      let rest = find_first-clients_of r ids k named (λ i x. known i (ground (arith, x))) in
      let name : (clone_with_system r c).id ≡ j = clone-id r c ∙ named j c e in
      elim (Bool-cases (j == k)) [
        | inl hit ↦
            let here : lookup k r.clients ≡ some c =
              subst (λ z. lookup z r.clients ≡ some c) ((eq_iff j k).0 hit) e in
            rw (e, ap (λ z. z == k) name ∙ hit, hit, here) refl
        | inr miss ↦ rw (e, ap (λ z. z == k) name ∙ miss, miss) rest
      ]
]

-- In a registry whose maps and orders agree, Find answers for every identifier what a search of the
-- clients of List answers: the client with that identifier, or that there is none.
find-list :
    (r : MemoryRepository) (k : String)
    → IsRegistry r
    → find_client r k ≡ elim (find_first (λ (c : Client). c.id == k) (list_clients r)) [
      | none ↦ err not_found
      | some c ↦ ok c
    ]
unfolding find_client list_clients
find-list r k h =
    let found =
      find_first-clients_of r r.order k h.clients.named
        (λ j x. ground (arith, h.clients.listed j, x)) in
    ground (arith, found, h.clients.listed k)
