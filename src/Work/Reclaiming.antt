-- ===== src/Work/Reclaiming.antt =====
-- The removal of finished items (internal/core/work.go, reclaimFinished and makeRoom).
use koinon.Base.{
  ℕ, Bool, true, false, not, ◌&&◌, ◌||◌, Option, none, some, List, [], ◌∷◌, GoString, length,
  str_eq, ltb, ◌==◌, if◌then◌else◌, max, any_row, select, update_rows, delete_rows,
}
use koinon.Failure.{incompatible_store, Result, ok, err, ◌>>◌, guard}
use koinon.Claims.Rows.{StoreRow}
use koinon.Claims.Queries.{bundle_for, is_store}
use koinon.Claims.Cycles.{store_of}
use koinon.Inbox.Callers.{str_lt}
use koinon.Work.Rows.{Item, Event, Entry, WorkDb, Limits}
use koinon.Work.Views.{is_item, of_scope}
use koinon.Work.Apply.{Context}
use koinon.Work.Maintenance.{
  reclaim_inactive, in_item_store, or_never, is_expired, of_event, highest_seq, lacks_entry,
  lacks_event,
}

-- ORDER BY expires_at, work_id
unfoldable pub comes_before : Item → Item → Bool
comes_before v w =
    ltb (or_never v.expires_at) (or_never w.expires_at)
    || (or_never v.expires_at == or_never w.expires_at && str_lt v.work_id w.work_id)

abbrev pub earlier : Item → Option Item → Item
earlier w none = w
earlier w (some v) = if comes_before v w then v else w

-- LIMIT 1
unfoldable pub oldest : List Item → Option Item
oldest [] = none
oldest (w ∷ rest) = some (earlier w (oldest rest))

-- the history of the item keeps its bounds and agrees with its record
unfoldable pub keeps_bounds : Limits → WorkDb → Item → Bool
keeps_bounds l db w =
    let scopes = length (select (of_scope w.store w.work_id) db.scopes) in
    let events = select (of_event w.store w.work_id) db.events in
    not (ltb scopes 1 || ltb l.work_scopes_per_item scopes)
    && (not (ltb (length events) 1 || ltb l.work_events (length events))
        && highest_seq events == w.latest_seq)

-- its events and its stream entries pair up
unfoldable pub is_consistent : WorkDb → GoString → Item → Bool
is_consistent db repository w =
    not
      (any_row (lacks_entry repository db.entries) (select (of_event w.store w.work_id) db.events))
    && not (any_row (lacks_event repository w.store w.work_id db.events) db.entries)

-- the entry is of one of the events
unfoldable pub of_events : GoString → List Event → Entry → Bool
of_events repository events n =
    str_eq n.repository repository && any_row (λ (e : Event). e.seq == n.seq) events

abbrev pub raise_floor : ℕ → StoreRow → StoreRow
raise_floor seq s = record s { floor = max s.floor seq }

-- the four deletions and the raise of the floor
unfoldable pub remove_item : WorkDb → GoString → Item → WorkDb
remove_item db repository w =
    let events = select (of_event w.store w.work_id) db.events in
    record db {
      entries = delete_rows (of_events repository events) db.entries;
      events = delete_rows (of_event w.store w.work_id) db.events;
      scopes = delete_rows (of_scope w.store w.work_id) db.scopes;
      items = delete_rows (is_item w.store w.work_id) db.items;
      claims = record db.claims {
        memory_stores =
            update_rows (is_store w.store) (raise_floor (highest_seq events))
              db.claims.memory_stores;
      };
    }

-- the transaction of reclaimFinished, for the item that it found
unfoldable pub reclaim_item : Context → WorkDb → Item → Result (Bool × WorkDb)
reclaim_item x db w = elim (bundle_for db.claims w.store w.work_id) [
  | some b ↦ if b.active then err incompatible_store else ok (false, db)
  | none ↦ do
    guard (keeps_bounds x.limits db w) incompatible_store
    guard (is_consistent db x.caller.repository w) incompatible_store
    ok (true, remove_item db x.caller.repository w)
]

-- reclaimFinished; no time stands for math.MaxFloat64
unfoldable pub reclaim_finished : Context → WorkDb → GoString → Option ℕ → Result (Bool × WorkDb)
reclaim_finished x db store now = elim (oldest (select (is_expired store now) db.items)) [
  | none ↦ ok (false, db)
  | some w ↦ reclaim_item x db w
]

-- the end of makeRoom, which keeps what its first transaction wrote
abbrev pub made : WorkDb → Result (Bool × WorkDb) → Result (Unit {0}) × WorkDb
made db (err failure) = (err failure, db)
made db (ok (removed, db')) = (ok tt, db')

-- makeRoom: the oldest finished item of a full store goes, its ended claim first
unfoldable pub make_room : Context → WorkDb → Result (Unit {0}) × WorkDb
make_room x db =
    let store = store_of db.claims x.caller.repository in
    if str_eq store [] || ltb (length (select (in_item_store store) db.items)) x.limits.work_items
    then (ok tt, db)
    else elim (oldest (select (is_expired store none) db.items)) [
      | none ↦ (ok tt, db)
      | some w ↦
          let db1 = reclaim_inactive db x.caller.repository w.work_id in
          made db1 (reclaim_finished x db1 store none)
    ]
