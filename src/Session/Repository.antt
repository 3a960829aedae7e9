-- ===== src/Session/Repository.antt =====
-- internal/session/memory_repository.go: the methods of the memory repository.
use certus.Common.{
  string_key, put, map_entries, lookup, ℕ, String, Bool, false, not, ◌&&◌, ◌||◌, Option, none, some,
  List, map, ◌==◌, leb, if◌then◌else◌, ok, err, Time, after, Hash, bytes_equal, is_nil, filter,
  count_if, find_first, sort_by,
}
use certus.Session.Types.{Reply, Session, MemoryRecord, MemoryRepository, not_found, random_failed}

-- `id` is what security.RandomToken drew, if it drew one.
unfoldable pub create :
    MemoryRepository
    → Session
    → Hash
    → String
    → String
    → Option String
    → MemoryRepository × Reply Session
create r value hash ip_address user_agent none = (r, err random_failed)
create r value hash ip_address user_agent (some id) =
    let created : Session = record value {
      id = id;
      ip_address = ip_address;
      user_agent = user_agent;
    } in
    (
      record r {
        records = put id (record { session = created; hash = hash; revoked_at = none }) r.records;
      },
      ok created,
    )

abbrev pub is_live : Time → MemoryRecord → Bool
is_live now m = is_nil m.revoked_at && after m.expires_at now

abbrev pub answers : Hash → Time → String × MemoryRecord → Bool
answers hash now (key, m) = bytes_equal m.hash hash && is_nil m.revoked_at && after m.expires_at now

abbrev pub seen : Time → MemoryRecord → MemoryRecord
seen now m = record m { session = record m.session { last_seen_at = now } }

unfoldable pub find : MemoryRepository → Hash → Time → MemoryRepository × Reply Session
find r hash now = elim (find_first (answers hash now) r.records) [
  | none ↦ (r, err not_found)
  | some (key, m) ↦
      (record r { records = put m.id (seen now m) r.records }, ok (seen now m).session)
]

unfoldable pub is_active : MemoryRepository → String → String → Time → Bool
is_active r user_id id now = elim (lookup id r.records) [
  | none ↦ false
  | some m ↦ m.user_id == user_id && is_live now m
]

abbrev pub is_listed : String → Time → MemoryRecord → Bool
is_listed user_id now m = m.user_id == user_id && is_live now m

abbrev pub latest_first : Session → Session → Bool
latest_first a b = leb b.last_seen_at a.last_seen_at

abbrev pub values : List (String × MemoryRecord) → List MemoryRecord
values = map (λ (e : String × MemoryRecord). e.1)

unfoldable pub list_by_user : MemoryRepository → String → Time → List Session
list_by_user r user_id now =
    sort_by latest_first
      (map (λ (m : MemoryRecord). m.session) (filter (is_listed user_id now) (values r.records)))

abbrev pub revoked : Time → MemoryRecord → MemoryRecord
revoked now m = record m {
  revoked_at = some now;
  session = record m.session { session_revoked_at = some now };
}

unfoldable pub revoke : MemoryRepository → String → Time → MemoryRepository × Reply (Unit {0})
revoke r id now = elim (lookup id r.records) [
  | none ↦ (r, err not_found)
  | some m ↦ (record r { records = put id (revoked now m) r.records }, ok tt)
]

unfoldable pub revoke_for_user :
    MemoryRepository → String → String → Time → MemoryRepository × Reply (Unit {0})
revoke_for_user r user_id id now = elim (lookup id r.records) [
  | none ↦ (r, err not_found)
  | some m ↦
      if not (m.user_id == user_id)
      then (r, err not_found)
      else (record r { records = put id (revoked now m) r.records }, ok tt)
]

-- The negated condition of RevokeAll's `continue`.
unfoldable pub ends : String → String → Time → String → MemoryRecord → Bool
ends user_id except now id m = not (
    not (m.user_id == user_id)
    || id == except
    || not (is_nil m.revoked_at)
    || not (after m.expires_at now))

abbrev pub end_if : String → String → Time → String → MemoryRecord → MemoryRecord
end_if user_id except now id m = if ends user_id except now id m then revoked now m else m

unfoldable pub revoke_all : MemoryRepository → String → String → Time → MemoryRepository × ℕ
revoke_all r user_id except now = (
  record r { records = map_entries (end_if user_id except now) r.records },
  count_if (λ (e : String × MemoryRecord). ends user_id except now e.0 e.1) r.records,
)
