-- ===== src/Work/Maintenance.antt =====
-- What a mutation's request does before apply (internal/core/work.go): reconcile records a due
-- transition, makeRoom and reclaimFinished remove finished items, reclaimInactive an ended claim. Each is a
-- transaction of its own; the admission of its write is left out, and so is the notice that a
-- stream advanced.
use koinon.Base.{
  ℕ, ◌+◌, Bool, true, false, not, ◌&&◌, Option, none, some, List, [], ◌∷◌, GoString, str_eq, leb,
  ◌==◌, if◌then◌else◌, max, any_row,
}
use koinon.Failure.{incompatible_store, Result, ok, err, ◌>>=◌}
use koinon.Claims.Rows.{Bundle}
use koinon.Claims.Queries.{bundle_for}
use koinon.Claims.Cycles.{store_of}
use koinon.Claims.Engine.{expire, overdue, delete_bundle}
use koinon.Work.Rows.{
  Item, Event, Entry, due_progress_overdue, due_lease_expired, WorkDb, Caller, EventKind,
}
use koinon.Work.Views.{current, has_passed}
use koinon.Work.Events.{event, is_finished}
use koinon.Work.Apply.{Context, plain}

-- MemoryCaller{Repository: repo}
abbrev pub daemon_caller : GoString → Caller
daemon_caller repository = record {
  repository = repository;
  family = [];
  name = [];
  consumer = [];
  native = record { family = []; id = [] };
  consumer_explicit = false;
}

-- the event of a due transition of the item `w`
unfoldable pub record_due :
    Context → WorkDb → GoString → EventKind → Item → GoString → Result WorkDb
record_due x db store kind w consumer = do
  (w', db') ←
      event x.codec db store (daemon_caller x.caller.repository) (plain kind w) consumer none x.now
  ok db'

-- the lease of `b` has ended
unfoldable pub settle_expired : Context → WorkDb → GoString → Item → Bundle → Result WorkDb
settle_expired x db store w b =
    record_due x (record db { claims = (expire db.claims store b.generation x.now).1 }) store
      due_lease_expired (record w { revision = w.revision + 1; lease_expired = true }) b.consumer

-- the progress of `w` is overdue
unfoldable pub settle_overdue : Context → WorkDb → GoString → Item → Bundle → Result WorkDb
settle_overdue x db store w b = do
  (spent, claims) ← overdue db.claims store b.generation w.progress_epoch
  record_due x (record db { claims = claims }) store due_progress_overdue
      (record w { revision = w.revision + 1 }) b.consumer

unfoldable pub is_overdue : Item → Bundle → ℕ → Bool
is_overdue w b now = has_passed w.progress_deadline now && not b.overdue_recorded

-- the due transition of an item and its claim, if there is one; the lease's end wins
unfoldable pub settle : Context → WorkDb → GoString → Item → Option Bundle → Result WorkDb
settle x db store w none = ok db
settle x db store w (some b) =
    if not b.active
    then ok db
    else if not (b.progress_epoch == w.progress_epoch)
    then err incompatible_store
    else if leb b.expires_at x.now
    then settle_expired x db store w b
    else if is_overdue w b x.now
    then settle_overdue x db store w b
    else ok db

-- reconcile
unfoldable pub reconcile : Context → WorkDb → GoString → Result WorkDb
reconcile x db work_id =
    let store = store_of db.claims x.caller.repository in
    if str_eq store [] then ok db else do
      w ← current db store work_id x.now
      settle x db store w (bundle_for db.claims store work_id)

-- reclaimInactive
unfoldable pub reclaim_inactive : WorkDb → GoString → GoString → WorkDb
reclaim_inactive db repository work_id =
    let store = store_of db.claims repository in
    elim (bundle_for db.claims store work_id) [
      | none ↦ db
      | some b ↦
          if b.active then db else record db { claims = delete_bundle db.claims store b.generation }
    ]

unfoldable pub in_item_store : GoString → Item → Bool
in_item_store store w = str_eq w.store store

abbrev pub or_never : Option ℕ → ℕ
or_never none = 0
or_never (some t) = t

-- a finished item of the store that expires by the time, or at any time
unfoldable pub is_expired : GoString → Option ℕ → Item → Bool
is_expired store none w = str_eq w.store store && is_finished w.lifecycle
is_expired store (some now) w =
    str_eq w.store store && (is_finished w.lifecycle && has_passed w.expires_at now)

unfoldable pub of_event : GoString → GoString → Event → Bool
of_event store work_id e = str_eq e.store store && str_eq e.work_id work_id

unfoldable pub highest_seq : List Event → ℕ
highest_seq [] = 0
highest_seq (e ∷ rest) = max e.seq (highest_seq rest)

-- the stream entry of an event
unfoldable pub is_entry_of : GoString → Event → Entry → Bool
is_entry_of repository e n =
    str_eq n.repository repository
    && (n.seq == e.seq && (str_eq n.target e.work_id && n.revision == e.revision))

unfoldable pub lacks_entry : GoString → List Entry → Event → Bool
lacks_entry repository entries e = not (any_row (is_entry_of repository e) entries)

unfoldable pub lacks_event : GoString → GoString → GoString → List Event → Entry → Bool
lacks_event repository store work_id events n =
    str_eq n.repository repository
    && (str_eq n.target work_id
        && not (any_row (λ (e : Event). of_event store work_id e && e.seq == n.seq) events))
