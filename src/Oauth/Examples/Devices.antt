-- ===== src/Oauth/Examples/Devices.antt =====
-- internal/oauth: the theorems on devices, consents and client sessions at concrete inputs.
use certus.Common.{◌≡◌, refl, ◌≢◌, false, some, [], ◌∷◌, ok, bytes_equal}
use certus.Oauth.Types.{new_memory_repository, MemoryRepository, denied, consumed}
use certus.Oauth.Devices.{poll_device, poll_device_authorization, Decision}
use certus.Oauth.Operations.{run, save_device, decide, poll}
use certus.Oauth.Grants.Keys.{run-IsKeyed, IsKeyed}
use certus.Oauth.Grants.DeviceFlow.{device_single_use}
use certus.Oauth.Grants.Approval.{no_grant_without_approval}
use certus.Oauth.Examples.{a_device, stored, a_history}

poll_stored :
    (poll_device_authorization stored (6 ∷ []) "tv" 20).1
    ≡ ok (record a_device { status = consumed; user_id = "alice"; last_poll_at = some 20 })
unfolding poll_device_authorization poll_device bytes_equal
poll_stored = refl

device_single_use_example :
    (poll_device_authorization
      (run (poll_device_authorization stored (6 ∷ []) "tv" 20).0 a_history)
      (6 ∷ [])
      "tv"
      40).1
    ≢ ok a_device
device_single_use_example =
    device_single_use stored (6 ∷ []) "tv" 20
      (record a_device { status = consumed; user_id = "alice"; last_poll_at = some 20 }) a_history
      40 a_device poll_stored

abbrev a_refusal : Decision
a_refusal = record {
  user_id = "alice";
  authenticated_at = 12;
  auth_methods = [];
  assurance_level = "";
  approve = false;
}

abbrev closed : MemoryRepository
closed = record stored { devices = record a_device { status = denied } ∷ [] }

no_grant_without_approval_example :
    (poll_device_authorization
      (run new_memory_repository
        (save_device a_device ∷ decide (7 ∷ []) a_refusal 20 ∷ poll (6 ∷ []) "tv" 21 ∷ []))
      (6 ∷ [])
      "tv"
      40).1
    ≢ ok a_device
no_grant_without_approval_example =
    no_grant_without_approval new_memory_repository
      (save_device a_device ∷ decide (7 ∷ []) a_refusal 20 ∷ poll (6 ∷ []) "tv" 21 ∷ []) (6 ∷ [])
      "tv" 40 a_device tt (refl, (refl, (tt, tt)))

run-IsKeyed_example : IsKeyed (run new_memory_repository a_history)
run-IsKeyed_example = run-IsKeyed a_history
