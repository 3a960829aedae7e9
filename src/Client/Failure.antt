-- ===== src/Client/Failure.antt =====
-- internal/client/client.go: the methods that answer an error, and which errors a method answers.
use certus.Common.{string_key, ◌≡◌, arith, err}
use certus.Client.Types.{Error, Platform, MemoryRepository}
use certus.Client.Repository.{
  create_system, replace_system, delete_system, create_client, store_client, store_secret, archive,
  delete_archived,
}
use certus.Client.Operations.{
  call, Call, create_system_call, replace_system_call, delete_system_call, create_call,
  replace_call, rotate_secret_call, archive_call, delete_archived_call,
}

-- A call that answers an error has changed nothing: systems, clients and both orders are as before.
pub failed_call_unchanged :
    (g : Platform) (r : MemoryRepository) (c : Call) (e : Error)
    → (call g r c).1 ≡ err e
    → (call g r c).0 ≡ r
unfolding call create_system replace_system delete_system create_client store_client store_secret
    archive delete_archived
failed_call_unchanged g r (create_system_call item) e h = ground arith
failed_call_unchanged g r (replace_system_call item) e h = ground arith
failed_call_unchanged g r (delete_system_call id) e h = ground arith
failed_call_unchanged g r (create_call item) e h = ground arith
failed_call_unchanged g r (replace_call item) e h = ground arith
failed_call_unchanged g r (rotate_secret_call id hash) e h = ground arith
failed_call_unchanged g r (archive_call id now) e h = ground arith
failed_call_unchanged g r (delete_archived_call id) e h = ground arith
