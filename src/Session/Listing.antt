-- ===== src/Session/Listing.antt =====
-- internal/session: ListByUser and the count of RevokeAll, and a new session's token.
use certus.Common.{
  length-filter, map_entries, length-map, Perm, ◌+◌, String, ◌≡◌, refl, ◌∙◌, not, ◌&&◌, List, [],
  ◌∷◌, map, arith, ◌==◌, Time, length, filter, count_if, IsSorted, sort_by-perm, sort_by-IsSorted,
  length-sort_by,
}
use certus.Session.Types.{MemoryRecord, MemoryRepository}
use certus.Session.Repository.{
  is_listed, latest_first, values, list_by_user, ends, end_if, revoke_all,
}

-- The list of a user's sessions is in order of the last use, latest first, and has exactly the
-- stored sessions of the user that are neither revoked nor expired.
list_by_user-IsSorted :
    (r : MemoryRepository) (user_id : String) (now : Time)
    → IsSorted latest_first (list_by_user r user_id now)
      × Perm (list_by_user r user_id now) (
          map (λ (m : MemoryRecord). m.session) (filter (is_listed user_id now) (values r.records)))
unfolding list_by_user
list_by_user-IsSorted r user_id now = (
  sort_by-IsSorted latest_first (λ x y z p q. ground arith) (λ x y p. ground arith)
      (map (λ (m : MemoryRecord). m.session) (filter (is_listed user_id now) (values r.records))),
  sort_by-perm latest_first _,
)

length-list_by_user :
    (r : MemoryRepository) (user_id : String) (now : Time)
    → length (list_by_user r user_id now) ≡ count_if (is_listed user_id now) (values r.records)
unfolding list_by_user
length-list_by_user r user_id now =
    length-sort_by latest_first
      (map (λ (m : MemoryRecord). m.session) (filter (is_listed user_id now) (values r.records)))
    ∙ length-map (λ (m : MemoryRecord). m.session)
        (filter (is_listed user_id now) (values r.records))
    ∙ length-filter (is_listed user_id now) (values r.records)

ends_listed :
    (user_id except : String) (now : Time) (id : String) (m : MemoryRecord)
    → ends user_id except now id m ≡ (is_listed user_id now m && not (id == except))
unfolding ends
ends_listed user_id except now id m = ground arith

listed-end_if :
    (user_id except : String) (now : Time) (id : String) (m : MemoryRecord)
    → is_listed user_id now (end_if user_id except now id m)
      ≡ (is_listed user_id now m && not (ends user_id except now id m))
listed-end_if user_id except now id m = ground (arith, ends_listed user_id except now id m)

count-revoke_all :
    (user_id except : String) (now : Time) (m : List (String × MemoryRecord))
    → count_if (is_listed user_id now) (values (map_entries (end_if user_id except now) m))
        + count_if (λ (e : String × MemoryRecord). ends user_id except now e.0 e.1) m
      ≡ count_if (is_listed user_id now) (values m)
count-revoke_all user_id except now [] = refl
count-revoke_all user_id except now ((id, x) ∷ m) =
    rw listed-end_if
      (ground (arith, count-revoke_all user_id except now m, ends_listed user_id except now id x))

-- RevokeAll reports how many sessions it ended: the user's list is that much shorter after it.
length-list_by_user-revoke_all :
    (r : MemoryRepository) (user_id except : String) (now : Time)
    → length (list_by_user (revoke_all r user_id except now).0 user_id now)
        + (revoke_all r user_id except now).1
      ≡ length (list_by_user r user_id now)
unfolding revoke_all
length-list_by_user-revoke_all r user_id except now =
    rw
      (
        length-list_by_user (revoke_all r user_id except now).0 user_id now,
        length-list_by_user r user_id now,
      )
      (count-revoke_all user_id except now r.records)
