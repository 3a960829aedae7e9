-- ===== src/Client/AllValid.antt =====
-- internal/client/client.go: the clients of the registry and Validate, over a history of calls.
use certus.Common.{
  string_key, Bool-cases, String, ◌≡◌, refl, sym, ◌∙◌, subst, inl, inr, false, Option, some, List,
  [], ◌∷◌, arith, ◌==◌, ok, before, Bool-cases, All, lookup, put, lookup-put,
}
use certus.Client.Types.{Platform, Client, MemoryRepository}
use certus.Client.Validate.{validate}
use certus.Client.Valid.{IsValid}
use certus.Client.Accepts.{validate_iff}
use certus.Client.Define.{with_default_token_lifetimes}
use certus.Client.Repository.{normalized}
use certus.Client.Operations.{step, run, Call, create_call, replace_call}
use certus.Client.Change.{
  step-Change, Change, unchanged, system_added, system_written, system_removed, client_added,
  client_written, secret_written, client_archived, client_deleted,
}
use certus.Client.Forget.{left-client}
use certus.Client.Kept.{ensure_system-clients}
use certus.Client.Stored.{KeepsIds, normalized-IsValid, sealed-IsValid, forget-IsValid}

-- Every client that is stored passes Validate.
abbrev pub AllValid : Platform → MemoryRepository → Type 0
AllValid g r = (k : String) (c : Client) → lookup k r.clients ≡ some c → validate g c ≡ ok tt

-- What is given to Create and to Replace has passed Validate, as New and Replace of the package see to.
abbrev pub Validated : Platform → Call → Type 0
Validated g (create_call item) = validate g item ≡ ok tt
Validated g (replace_call item) = validate g item ≡ ok tt
Validated g _ = Unit

abbrev ValidIn : Platform → List (String × Client) → Type 0
ValidIn g m = (k : String) (c : Client) → lookup k m ≡ some c → IsValid g c

put-ValidIn :
    (g : Platform) (m : List (String × Client)) (k : String) (c : Client)
    → IsValid g c
    → ValidIn g m
    → ValidIn g (put k c m)
put-ValidIn g m k c v h j d e = elim (Bool-cases (k == j)) [
  | inl hit ↦
      let found : ◌≡◌ {A = Option Client} (some c) (some d) =
        sym (lookup-put k j c m ∙ rw hit refl) ∙ e in
      subst (IsValid g) (ground arith) v
  | inr miss ↦ h j d (sym (lookup-put k j c m ∙ rw miss refl) ∙ e)
]

Change-ValidIn :
    (g : Platform) (r next : MemoryRepository) (c : Call)
    → KeepsIds g
    → Validated g c
    → Change g r c next
    → ValidIn g r.clients
    → ValidIn g next.clients
unfolding normalized with_default_token_lifetimes
Change-ValidIn g r next c keeps v (unchanged other) h = h
Change-ValidIn g r next c keeps v (system_added item new) h = h
Change-ValidIn g r next c keeps v (system_written item there) h = h
Change-ValidIn g r next c keeps v (system_removed id free) h = h
Change-ValidIn g r next c keeps v (client_added item new) h =
    let valid = normalized-IsValid g item keeps ((validate_iff g item).0 v) in
    let same = (ensure_system-clients g r (normalized g item)).0 in
    subst (λ z. ValidIn g (put item.id (normalized g item) z)) (sym same)
      (put-ValidIn g r.clients item.id (normalized g item) valid h)
Change-ValidIn g r next c keeps v (client_written item current there live) h =
    let valid = normalized-IsValid g item keeps ((validate_iff g item).0 v) in
    put-ValidIn g r.clients item.id (normalized g item) valid h
Change-ValidIn g r next c keeps v (secret_written id hash current there live) h =
    put-ValidIn g r.clients id (record current { secret_hash = hash })
      (sealed-IsValid g current current.enabled current.archived_at hash (h id current there)) h
Change-ValidIn g r next c keeps v (client_archived id now current there live) h =
    put-ValidIn g r.clients id (record current { archived_at = some now; enabled = false })
      (sealed-IsValid g current false (some now) current.secret_hash (h id current there)) h
Change-ValidIn g r next c keeps v (client_deleted id current there) h = λ k d found.
    let (w, other, before, same_c) = left-client r.clients id k d found in
    subst (IsValid g) (sym same_c) (forget-IsValid g w id (h k w before))

run-ValidIn :
    (g : Platform) (r : MemoryRepository) (cs : List Call)
    → KeepsIds g
    → All (Validated g) cs
    → ValidIn g r.clients
    → ValidIn g (run g r cs).clients
unfolding run
run-ValidIn g r [] keeps v h = h
run-ValidIn g r (c ∷ cs) keeps v h =
    run-ValidIn g (step g r c) cs keeps v.1
      (Change-ValidIn g r (step g r c) c keeps v.0 (step-Change g r c) h)

-- If every client given to Create and Replace passes Validate, then after any history of calls every
-- stored client passes it: the defaults and the system's identifier that the registry fills in, the
-- removal of a deleted client from the lists of introspectors, archiving and new secrets all keep a
-- client valid. It takes that strings.ToLower leaves a well-formed identifier alone.
pub run-AllValid :
    (g : Platform) (r : MemoryRepository) (cs : List Call)
    → KeepsIds g
    → All (Validated g) cs
    → AllValid g r
    → AllValid g (run g r cs)
run-AllValid g r cs keeps v h k c found =
    (validate_iff g c).1
      (run-ValidIn g r cs keeps v (λ j d e. (validate_iff g d).0 (h j d e)) k c found)
