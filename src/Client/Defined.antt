-- ===== src/Client/Defined.antt =====
-- internal/client/client.go: what New, Replace and RotateSecret answer.

use certus.Client.Stored.{sealed-IsValid}
use certus.Client.Accepts.{validate_iff}
use certus.Common.{
  call-ok, ◌>>◌, reject-ok_iff, not, is_nil, ◌==◌, Result-cases, Bool-cases, inl, inr, value_of_ok,
  ap, false, true, sym, eq_iff, arith, subst, reject, if-both, Option-cases, String, ◌≡◌, refl, ◌∙◌,
  ◌⊎◌, not, ◌&&◌, Option, none, some, [], ok, Time, Hash, is_empty,
}
use certus.Client.Types.{
  archived, application_public, application_confidential, protocol_cas, Platform, Client,
  CreateClient, ReplaceClient, archived,
}
use certus.Client.Policy.{supports_protocol, supports_oauth}
use certus.Client.Validate.{is_nil_list, validate}
use certus.Client.Define.{
  new_fields, replaced_fields, default_application, default_auth_method, default_protocols,
  default_grants, default_cas_version, default_scopes, new_secret, new_item, new_client,
  replaced_item, replace_client,
}

-- What the defaults leave alone.
abbrev core : Client → String × String × Hash × Option Time
core c = (c.id, c.application_type, c.secret_hash, c.archived_at)

auth_method-core : (c : Client) → core (default_auth_method c) ≡ core c
auth_method-core c =
    if-both (λ (z : Client). core z ≡ core c) (is_empty c.token_endpoint_auth_method) _ _
      (λ x. refl) (λ x. refl)

protocols-core : (c : Client) → core (default_protocols c) ≡ core c
protocols-core c =
    if-both (λ (z : Client). core z ≡ core c) (is_nil_list c.protocols) _ _ (λ x. refl) (λ x. refl)

grants-core : (c : Client) → core (default_grants c) ≡ core c
grants-core c =
    if-both (λ (z : Client). core z ≡ core c) (supports_oauth c && is_nil_list c.grant_types) _ _
      (λ x. refl) (λ x. refl)

cas_version-core : (c : Client) → core (default_cas_version c) ≡ core c
cas_version-core c =
    if-both (λ (z : Client). core z ≡ core c)
      (supports_protocol c protocol_cas && is_empty c.cas_version) _ _ (λ x. refl) (λ x. refl)

scopes-core : (c : Client) → core (default_scopes c) ≡ core c
scopes-core c =
    if-both (λ (z : Client). core z ≡ core c) (is_nil_list c.allowed_scopes) _ _ (λ x. refl)
      (λ x. refl)

-- The defaults that New and Replace share.
common-core : (c : Client) → core (default_scopes (default_cas_version (default_grants c))) ≡ core c
common-core c =
    scopes-core (default_cas_version (default_grants c))
    ∙ cas_version-core (default_grants c)
    ∙ grants-core c

application-plain :
    (c : Client)
    → c.secret_hash ≡ []
    → c.archived_at ≡ none
    → ((default_application c).secret_hash ≡ []) × ((default_application c).archived_at ≡ none)
application-plain c h k =
    if-both (λ (z : Client). (z.secret_hash ≡ []) × (z.archived_at ≡ none))
      (is_empty c.application_type) _ _ (λ x. (h, k)) (λ x. (h, k))

new_item-plain :
    (g : Platform) (input : CreateClient)
    → ((new_item g input).secret_hash ≡ []) × ((new_item g input).archived_at ≡ none)
unfolding new_item
new_item-plain g input =
    let first = default_application (new_fields g input) in
    let second_one = default_auth_method first in
    let same =
      common-core (default_protocols second_one)
      ∙ protocols-core second_one
      ∙ auth_method-core first in
    let (hash, at) = application-plain (new_fields g input) refl refl in
    (ap (λ z. z.2) same ∙ hash, ap (λ z. z.3) same ∙ at)

replaced_item-core :
    (g : Platform) (current : Client) (input : ReplaceClient)
    → core (replaced_item g current input)
      ≡ (current.id, current.application_type, current.secret_hash, none)
unfolding replaced_item
replaced_item-core g current input =
    common-core (default_auth_method (replaced_fields g current input))
    ∙ auth_method-core (replaced_fields g current input)

-- A valid client that is not public is confidential.
confidential :
    (g : Platform) (c : Client)
    → validate g c ≡ ok tt
    → c.application_type == application_public ≡ false
    → c.application_type ≡ application_confidential
confidential g c v p = elim (((validate_iff g c).0 v).application) [
  | inl (is_public, _) ↦
      let clash : false ≡ true =
        sym p ∙ (eq_iff c.application_type application_public).1 is_public in
      ground arith
  | inr (is_confidential, _) ↦ is_confidential
]

with_secret-valid :
    (g : Platform) (c : Client) (hash : Hash)
    → validate g c ≡ ok tt
    → validate g (record c { secret_hash = hash }) ≡ ok tt
with_secret-valid g c hash v =
    (validate_iff g (record c { secret_hash = hash })).1
      (sealed-IsValid g c c.enabled c.archived_at hash ((validate_iff g c).0 v))

-- A client that New answers passes Validate, is not archived, and has a secret exactly if it is
-- confidential: then the secret is what the generator drew, and the client holds its hash alone. A
-- public client has neither a secret nor a hash.
pub new_client_ok :
    (g : Platform) (sha256 : String → Hash) (drawn : Option String) (input : CreateClient)
    (c : Client) (secret : String)
    → new_client g sha256 drawn input ≡ ok (c, secret)
    → (validate g c ≡ ok tt)
      × (c.archived_at ≡ none)
      × (((c.application_type ≡ application_public) × (secret ≡ "") × (c.secret_hash ≡ []))
          ⊎ ((c.application_type ≡ application_confidential)
              × (drawn ≡ some secret)
              × (c.secret_hash ≡ sha256 secret)))
unfolding new_client new_secret
new_client_ok g sha256 drawn input c secret h =
    let item = new_item g input in
    let (no_hash, live) = new_item-plain g input in
    elim (Result-cases (validate g item)) [
      | inl (e, f) ↦ let x = rw (f, new_client) at h in ground arith
      | inr (tt, f) ↦ elim (Bool-cases (item.application_type == application_public)) [
        | inl p ↦
            let same : (item, "") ≡ (c, secret) = value_of_ok (rw (f, p, new_client) at h) in
            subst
              (λ (z : Client × String).
                (validate g z.0 ≡ ok tt)
                × (z.0.archived_at ≡ none)
                × (((z.0.application_type ≡ application_public)
                      × (z.1 ≡ "")
                      × (z.0.secret_hash ≡ []))
                    ⊎ ((z.0.application_type ≡ application_confidential)
                        × (drawn ≡ some z.1)
                        × (z.0.secret_hash ≡ sha256 z.1))))
              same
              (f, live, inl ((eq_iff item.application_type application_public).0 p, refl, no_hash))
        | inr p ↦ elim (Option-cases drawn) [
          | inl q ↦ let x = rw (f, p, q, new_client, new_secret) at h in ground arith
          | inr (value, q) ↦
              let same : (record item { secret_hash = sha256 value }, value) ≡ (c, secret) =
                value_of_ok (rw (f, p, q, new_client, new_secret) at h) in
              subst
                (λ (z : Client × String).
                  (validate g z.0 ≡ ok tt)
                  × (z.0.archived_at ≡ none)
                  × (((z.0.application_type ≡ application_public)
                        × (z.1 ≡ "")
                        × (z.0.secret_hash ≡ []))
                      ⊎ ((z.0.application_type ≡ application_confidential)
                          × (drawn ≡ some z.1)
                          × (z.0.secret_hash ≡ sha256 z.1))))
                same
                (
                  with_secret-valid g item (sha256 value) f,
                  live,
                  inr (confidential g item f p, q, refl),
                )
        ]
      ]
    ]

-- Replace answers a client only for one that is not archived. The client passes Validate; its
-- identifier, application type and secret are those of the current one, whatever the input says.
replace_client_ok :
    (g : Platform) (current : Client) (input : ReplaceClient) (c : Client)
    → replace_client g current input ≡ ok c
    → (validate g c ≡ ok tt)
      × (current.archived_at ≡ none)
      × (c.archived_at ≡ none)
      × (c.id ≡ current.id)
      × (c.application_type ≡ current.application_type)
      × (c.secret_hash ≡ current.secret_hash)
unfolding replace_client
replace_client_ok g current input c h =
    let item = replaced_item g current input in
    let same_core = replaced_item-core g current input in
    let (u, open_one, rest) =
      call-ok (reject (not (is_nil current.archived_at)) archived) (λ _. validate g item >> ok item)
        h in
    let (w, valid, answer) = call-ok (validate g item) (λ _. ok item) rest in
    let live = (reject-ok_iff (not (is_nil current.archived_at)) archived).0 open_one in
    subst
      (λ (z : Client).
        (validate g z ≡ ok tt)
        × (current.archived_at ≡ none)
        × (z.archived_at ≡ none)
        × (z.id ≡ current.id)
        × (z.application_type ≡ current.application_type)
        × (z.secret_hash ≡ current.secret_hash))
      (value_of_ok answer)
      (
        valid,
        ground (arith, live),
        ap (λ z. z.3) same_core,
        ap (λ z. z.0) same_core,
        ap (λ z. z.1) same_core,
        ap (λ z. z.2) same_core,
      )
