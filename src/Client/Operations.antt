-- ===== src/Client/Operations.antt =====
-- internal/client/client.go: the methods that write the repository, as steps, with their answers.
use certus.Common.{String, List, [], ◌∷◌, Result, ok, err, Time, Hash}
use certus.Client.Types.{Reply, Error, Platform, System, Client, MemoryRepository}
use certus.Client.Repository.{
  create_system, replace_system, delete_system, create_client, store_client, store_secret, archive,
  delete_archived,
}

pub data Call : Type 0 where
  create_system_call : System → Call
  replace_system_call : System → Call
  delete_system_call : String → Call
  create_call : Client → Call
  replace_call : Client → Call
  rotate_secret_call : String → Hash → Call
  archive_call : String → Time → Call
  delete_archived_call : String → Call

-- The answer without its value.
abbrev pub forget {ℓ} : {A : Type ℓ} → Result Error A → Reply (Unit {0})
forget (ok a) = ok tt
forget (err e) = err e

abbrev pub outcome {ℓ} :
    {A : Type ℓ} → MemoryRepository × Result Error A → MemoryRepository × Reply (Unit {0})
outcome answer = (answer.0, forget answer.1)

unfoldable pub call : Platform → MemoryRepository → Call → MemoryRepository × Reply (Unit {0})
call g r (create_system_call item) = outcome (create_system r item)
call g r (replace_system_call item) = outcome (replace_system r item)
call g r (delete_system_call id) = delete_system r id
call g r (create_call item) = outcome (create_client g r item)
call g r (replace_call item) = outcome (store_client g r item)
call g r (rotate_secret_call id hash) = outcome (store_secret r id hash)
call g r (archive_call id now) = archive r id now
call g r (delete_archived_call id) = delete_archived r id

unfoldable pub step : Platform → MemoryRepository → Call → MemoryRepository
unfolding call
step g r c = (call g r c).0

unfoldable pub run : Platform → MemoryRepository → List Call → MemoryRepository
unfolding step
run g r [] = r
run g r (c ∷ cs) = run g (step g r c) cs
