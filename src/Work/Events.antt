-- ===== src/Work/Events.antt =====
-- The writes of a work mutation (internal/core/work.go, event, scope and storeReplay): the event's
-- two rows and the item, the scope history and the replay result.
use koinon.Base.{
  ℕ, ◌+◌, ◌-◌, Bool, true, false, not, ◌&&◌, ◌||◌, Option, none, some, [], ◌∷◌, ◌++◌, GoString,
  bytes, length, str_eq, ltb, leb, ◌==◌, if◌then◌else◌, first_row, any_row, update_rows,
}
use koinon.Failure.{record_too_large, constraint, no_rows, Result, ok, err, ◌>>=◌, ◌>>◌, guard}
use koinon.Claims.Queries.{is_store}
use koinon.Work.Rows.{
  Lifecycle, open_, active, blocked, reported, finished, WorkOutcome, Verdict, Item, Scope, Report,
  View, EventKind, was_reported, was_accepted, was_rejected, due_progress_overdue,
  due_lease_expired, Event, Entry, WorkResult, Replay, WorkDb, Caller, fingerprint_scheme,
}
use koinon.Work.Requests.{Request, has, text, int}
use koinon.Work.Views.{Codec, is_item, view}

abbrev pub max_work_record : ℕ
max_work_record = 16_384

abbrev pub view_headroom : ℕ
view_headroom = 1_024

abbrev pub max_work_scope : ℕ
max_work_scope = 8_192

abbrev pub max_work_result : ℕ
max_work_result = 2_048

abbrev pub max_work_row_cost : ℕ
max_work_row_cost = 16_857

abbrev pub work_row_overhead : ℕ
work_row_overhead = 512

abbrev pub text_bytes : Option GoString → ℕ
text_bytes none = 0
text_bytes (some s) = length s

unfoldable pub lifecycle_text : Lifecycle → GoString
lifecycle_text open_ = bytes "open"
lifecycle_text active = bytes "active"
lifecycle_text blocked = bytes "blocked"
lifecycle_text reported = bytes "reported"
lifecycle_text finished = bytes "finished"

abbrev pub outcome_bytes : Option WorkOutcome → ℕ
outcome_bytes none = 0
outcome_bytes (some _) = 9

abbrev pub verdict_bytes : Option Verdict → ℕ
verdict_bytes none = 0
verdict_bytes (some _) = 8

-- rowCost
unfoldable pub row_cost : Codec → GoString → Item → ℕ
row_cost c store w =
    work_row_overhead
    + (length store
        + (length w.work_id
            + (length (lifecycle_text w.lifecycle)
                + (length w.title
                    + (length w.criteria
                        + (length w.non_goals
                            + (length w.created_consumer
                                + (length w.progress
                                    + (length w.checkpoint
                                        + (length w.next_artifact
                                            + (length w.blocker
                                                + (length w.reason
                                                    + (c.references_bytes w.references
                                                        + (elim w.proposed_role [
                                                          | none ↦ 0
                                                          | some role ↦ c.role_bytes role
                                                        ]
                                                            + (length w.report_actor
                                                            + (text_bytes w.proposed_assignee
                                                            + (text_bytes w.last_writer
                                                            + (outcome_bytes w.outcome
                                                            + (text_bytes w.report_consumer
                                                            + verdict_bytes
                                                            w.verdict)))))))))))))))))))

unfoldable pub is_finished : Lifecycle → Bool
is_finished finished = true
is_finished _ = false

-- the CHECK of work_items: an outcome and its times just for a finished item
unfoldable pub checks_outcome : Item → Bool
checks_outcome w =
    if is_finished w.lifecycle
    then has w.outcome && (has w.finished_at && has w.expires_at)
    else not (has w.outcome || (has w.finished_at || has w.expires_at))

-- UPDATE work_items
unfoldable pub store_item : WorkDb → Item → Result WorkDb
store_item db w =
    if checks_outcome w
    then ok (record db { items = update_rows (is_item w.store w.work_id) (λ o. w) db.items })
    else err constraint

-- UPDATE memory_stores SET head=head+1 … RETURNING head
unfoldable pub next_head : WorkDb → GoString → Result (ℕ × WorkDb)
next_head db store = elim (first_row (is_store store) db.claims.memory_stores) [
  | none ↦ err no_rows
  | some s ↦ ok (
    s.head + 1,
    record db {
      claims = record db.claims {
        memory_stores =
            update_rows (is_store store) (λ o. record o { head = o.head + 1 })
              db.claims.memory_stores;
      };
    },
  )
]

-- the item with the sequence of its event
unfoldable pub with_seq : EventKind → ℕ → Item → Item
with_seq was_reported seq w = record w { latest_seq = seq; report_seq = some seq }
with_seq was_accepted seq w = record w { latest_seq = seq; verdict_seq = some seq }
with_seq was_rejected seq w = record w { latest_seq = seq; verdict_seq = some seq }
with_seq _ seq w = record w { latest_seq = seq }

-- a due transition is never refused for its size
unfoldable pub record_limit : EventKind → ℕ
record_limit due_progress_overdue = max_work_record
record_limit due_lease_expired = max_work_record
record_limit _ = max_work_record - view_headroom

-- nativeActor
unfoldable pub native_actor : Caller → GoString
native_actor m = if str_eq m.native.id [] then [] else m.native.family ++ (bytes ":" ++ m.native.id)

abbrev pub entry_family : Caller → GoString
entry_family m = if str_eq m.family [] then bytes "daemon" else m.family

unfoldable pub is_event : GoString → ℕ → Event → Bool
is_event store seq e = str_eq e.store store && e.seq == seq

unfoldable pub is_entry : GoString → ℕ → Entry → Bool
is_entry repository seq e = str_eq e.repository repository && e.seq == seq

-- a change of an item, with what only its event's payload carries
pub record Change : Type 0 where
  pub kind : EventKind
  pub item : Item
  pub report : Option Report
  pub verdict_report_seq : Option ℕ

abbrev pub payload_of : Change → View → View
payload_of ch v = record v { report = ch.report; verdict_report_seq = ch.verdict_report_seq }

abbrev pub entry_of : Caller → ℕ → Item → GoString → Option GoString → ℕ → Entry
entry_of m seq w consumer author now = record {
  repository = m.repository;
  seq = seq;
  ts = now;
  target = w.work_id;
  author = author;
  family = entry_family m;
  name = m.name;
  consumer = consumer;
  revision = w.revision;
}

abbrev pub event_of : Caller → GoString → ℕ → Item → EventKind → View → Event
event_of m store seq w kind payload = record {
  store = store;
  seq = seq;
  work_id = w.work_id;
  revision = w.revision;
  kind = kind;
  payload = payload;
  actor = native_actor m;
}

-- the INSERTs of an event, with their primary keys
unfoldable pub insert_event : WorkDb → Entry → Event → Result WorkDb
insert_event db n e =
    if any_row (is_entry n.repository n.seq) db.entries
      || any_row (is_event e.store e.seq) db.events
    then err constraint
    else ok (record db { entries = db.entries ++ n ∷ []; events = db.events ++ e ∷ [] })

-- event
unfoldable pub event :
    Codec
    → WorkDb
    → GoString
    → Caller
    → Change
    → GoString
    → Option GoString
    → ℕ
    → Result (Item × WorkDb)
event c db store m ch consumer author now = do
  guard (leb (row_cost c store ch.item) max_work_row_cost) record_too_large
  (seq, db1) ← next_head db store
  let w = with_seq ch.kind seq ch.item
  db2 ← store_item db1 w
  v ← view db2 store w now
  let payload = payload_of ch v
  guard (leb (c.view_bytes payload) (record_limit ch.kind)) record_too_large
  db3 ←
      insert_event db2 (entry_of m seq w consumer author now)
        (event_of m store seq w ch.kind payload)
  ok (w, db3)

unfoldable pub is_scope : GoString → GoString → ℕ → Scope → Bool
is_scope store work_id revision s =
    str_eq s.store store && (str_eq s.work_id work_id && s.revision == revision)

abbrev pub scope_of_item : Item → GoString → Option GoString → ℕ → Scope
scope_of_item w consumer author now = record {
  store = w.store;
  work_id = w.work_id;
  revision = w.revision;
  ts = now;
  consumer = consumer;
  author = author;
  title = w.title;
  criteria = w.criteria;
  non_goals = w.non_goals;
}

-- scope
unfoldable pub insert_scope : Codec → WorkDb → Item → GoString → Option GoString → ℕ → Result WorkDb
insert_scope c db w consumer author now =
    let s = scope_of_item w consumer author now in
    if ltb max_work_scope (c.scope_bytes s)
    then err record_too_large
    else if any_row (is_scope w.store w.work_id w.revision) db.scopes
    then err constraint
    else ok (record db { scopes = db.scopes ++ s ∷ [] })

unfoldable pub is_replay : GoString → GoString → GoString → Replay → Bool
is_replay store consumer key p =
    str_eq p.store store && (str_eq p.consumer consumer && str_eq p.key key)

abbrev pub replay_of : GoString → Caller → Request → GoString → WorkResult → Replay
replay_of store m r print result = record {
  store = store;
  consumer = m.consumer;
  key = text r.key;
  operation = r.op;
  scheme = fingerprint_scheme;
  fingerprint = print;
  deadline = int r.deadline;
  result = result;
  native_actor = r.actor;
}

-- storeReplay
unfoldable pub store_replay :
    Codec → WorkDb → GoString → Caller → Request → GoString → WorkResult → Result WorkDb
store_replay c db store m r print result =
    if ltb max_work_result (c.result_bytes result)
    then err record_too_large
    else if not (has r.key)
    then ok db
    else if any_row (is_replay store m.consumer (text r.key)) db.replays
    then err constraint
    else ok (record db { replays = db.replays ++ replay_of store m r print result ∷ [] })
