-- ===== src/Mfa/History.antt =====
-- internal/mfa/memory_repository.go: the methods that write the repository, as steps.
use certus.Common.{
  string_key, hash_key, ℕ, String, ◌≡◌, sym, ◌∙◌, subst, inl, inr, true, Option, none, some, List,
  [], ◌∷◌, arith, ◌==◌, eq_refl, Time, Hash, Bool-cases, ℤ, lookup, put, delete, lookup-put,
  lookup-delete,
}
use certus.Mfa.Types.{Credential, TrustedDevice, MemoryCredential, MemoryRepository}
use certus.Mfa.Repository.{
  replace_pending, replace_recovery_codes, replace_secret_ciphertext, enable, use_totp,
  use_recovery_code, record_failure, delete_credential,
}
use certus.Mfa.Devices.{
  store_trusted_device, rotate_trusted_device, count_trusted_devices, delete_trusted_devices,
}

pub data Call : Type 0 where
  replace_pending_call : Credential → List Hash → Call
  replace_codes_call : String → List Hash → Call
  replace_secret_call : String → List ℕ → List ℕ → Call
  enable_call : String → ℤ → Time → Call
  totp_call : String → ℤ → Call
  recovery_call : String → Hash → Call
  failure_call : String → ℕ → Option Time → Call
  store_device_call : TrustedDevice → ℕ → Call
  rotate_device_call : String → Hash → Hash → Hash → Time → Call
  count_devices_call : String → Time → Call
  delete_devices_call : String → Call
  delete_call : String → Call

unfoldable pub step : MemoryRepository → Call → MemoryRepository
step r (replace_pending_call credential hashes) = replace_pending r credential hashes
step r (replace_codes_call user_id hashes) = (replace_recovery_codes r user_id hashes).0
step r (replace_secret_call user_id current replacement) =
    (replace_secret_ciphertext r user_id current replacement).0
step r (enable_call user_id used now) = (enable r user_id used now).0
step r (totp_call user_id used) = (use_totp r user_id used).0
step r (recovery_call user_id hash) = (use_recovery_code r user_id hash).0
step r (failure_call user_id attempts locked_until) =
    (record_failure r user_id attempts locked_until).0
step r (store_device_call device max_devices) = (store_trusted_device r device max_devices).0
step r (rotate_device_call user_id current replacement user_agent now) =
    (rotate_trusted_device r user_id current replacement user_agent now).0
step r (count_devices_call user_id now) = (count_trusted_devices r user_id now).0
step r (delete_devices_call user_id) = (delete_trusted_devices r user_id).0
step r (delete_call user_id) = (delete_credential r user_id).0

unfoldable pub run : MemoryRepository → List Call → MemoryRepository
unfolding step
run r [] = r
run r (c ∷ cs) = run (step r c) cs

module _ (user_id : String) (P : MemoryCredential → Type 0) where
  -- The user's credential, if there is one, has the property.
  abbrev pub Every : MemoryRepository → Type 0
  Every r = (m : MemoryCredential) → lookup user_id r.credentials ≡ some m → P m

  pub Every-put :
      (k : String) (v : MemoryCredential) (r : MemoryRepository)
      (devices : List (Hash × TrustedDevice))
      → (k == user_id ≡ true → P v)
      → Every r
      → Every (record { credentials = put k v r.credentials; trusted_devices = devices })
  Every-put k v r devices fresh h m e = elim (Bool-cases (k == user_id)) [
    | inl hit ↦
        let a : some v ≡ some m = sym (lookup-put k user_id v r.credentials ∙ rw hit) ∙ e in
        let b : v ≡ m = ground arith in subst P b (fresh hit)
    | inr miss ↦
        let a : lookup user_id r.credentials ≡ some m =
          sym (lookup-put k user_id v r.credentials ∙ rw miss) ∙ e in
        h m a
  ]

  pub Every-delete :
      (k : String) (r : MemoryRepository) (devices : List (Hash × TrustedDevice))
      → Every r
      → Every (record { credentials = delete k r.credentials; trusted_devices = devices })
  Every-delete k r devices h m e = elim (Bool-cases (k == user_id)) [
    | inl hit ↦
        let a : none ≡ some m = sym (lookup-delete k user_id r.credentials ∙ rw hit) ∙ e in
        ground (arith, a)
    | inr miss ↦
        let a : lookup user_id r.credentials ≡ some m =
          sym (lookup-delete k user_id r.credentials ∙ rw miss) ∙ e in
        h m a
  ]

  -- After a write to the user's own credential, what is written decides.
  pub Every-written :
      (v : MemoryCredential) (r : MemoryRepository) (devices : List (Hash × TrustedDevice))
      → P v
      → Every (record { credentials = put user_id v r.credentials; trusted_devices = devices })
  Every-written v r devices p m e =
      let a : some v ≡ some m =
        sym (lookup-put user_id user_id v r.credentials ∙ rw (eq_refl user_id)) ∙ e in
      let b : v ≡ m = ground arith in subst P b p
