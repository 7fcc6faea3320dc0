-- ===== src/Work/Apply.antt =====
-- apply (internal/core/work.go): the mutation of one item inside its transaction.
use koinon.Base.{
  ℕ, zero, suc, ◌+◌, ◌-◌, ◌/◌, ◌%◌, Bool, true, false, not, ◌&&◌, ◌||◌, Option, none, some, List,
  [], ◌∷◌, ◌++◌, map, GoString, str_eq, ltb, ◌==◌, if◌then◌else◌, first_row, any_row,
}
use koinon.Failure.{
  invalid_request, stale_report, stale_claim, incompatible_store, revision_conflict, capacity,
  constraint, no_rows, Result, ok, err, ◌>>=◌, ◌>>◌, guard,
}
use koinon.Claims.Rows.{Bundle, SessionRow, Db, Lease, max_int64, default_lease}
use koinon.Claims.Queries.{counter, work_counter, is_store}
use koinon.Claims.Engine.{acquire, owner, renew, progress, update_bundle}
use koinon.Inbox.Rows.{Session}
use koinon.Inbox.Callers.{Process}
use koinon.Work.Rows.{
  Lifecycle, open_, active, reported, finished, Item, EventKind, created, edited, started, updated,
  WorkResult, Op, work_propose, work_edit, work_update, work_release, work_finish, claim_renew,
  work_report, WorkDb, Caller, Limits,
}
use koinon.Work.Requests.{Request, has, text, int, list_of, optional, work_verdict, is_blocked}
use koinon.Work.Views.{Codec, native_actor_of, is_maintainer, require_role, require_verdict_caller}
use koinon.Work.Events.{Change, insert_scope, store_replay}

-- what an operation needs besides its request: the encodings, the limits, the process table, the
-- caller, the store and the time
pub record Context : Type 0 where
  pub codec : Codec
  pub limits : Limits
  pub process : ℕ → Process
  pub caller : Caller
  pub store : GoString
  pub now : ℕ

-- the sessions as the claim tables see them
unfoldable pub session_row : Session → SessionRow
session_row s = record { family = s.key.family; id = s.key.id; repository = s.repository }

unfoldable pub with_sessions : WorkDb → Db
with_sessions db = record db.claims { sessions = map session_row db.mail.sessions }

unfoldable pub hex_digit : ℕ → ℕ
hex_digit d = if ltb d 10 then 48 + d else 87 + d

-- fmt.Sprintf("%0*x"), for as many digits
unfoldable pub hex : ℕ → ℕ → GoString
hex zero n = []
hex (suc digits) n = hex digits (n / 16) ++ hex_digit (n % 16) ∷ []

abbrev pub author_of : Request → Option GoString
author_of r = optional r.author

-- the row that a creation inserts
unfoldable pub new_item : Context → Request → ℕ → ℕ → Item
new_item x r n head = record {
  store = x.store;
  work_id = hex 32 n;
  revision = 1;
  lifecycle = open_;
  title = text r.title;
  criteria = text r.criteria;
  non_goals = text r.non_goals;
  proposed_assignee = optional r.proposed_assignee;
  proposed_role = optional r.proposed_role;
  created_at = x.now;
  created_consumer = x.caller.consumer;
  first_start_revision = none;
  scope_revision = 1;
  progress_epoch = 0;
  last_progress_at = none;
  progress_deadline = none;
  progress = [];
  checkpoint = [];
  next_artifact = [];
  blocker = [];
  last_writer = none;
  last_generation = none;
  last_lease_expires = none;
  lease_expired = false;
  outcome = none;
  reason = [];
  references = list_of r.references;
  finished_at = none;
  expires_at = none;
  latest_seq = head + 1;
  report_seq = none;
  report_consumer = none;
  verdict = none;
  verdict_seq = none;
  report_actor = [];
  verdict_credit = false;
}

unfoldable pub head_of : WorkDb → GoString → Result ℕ
head_of db store = elim (first_row (is_store store) db.claims.memory_stores) [
  | none ↦ err no_rows
  | some s ↦ ok s.head
]

unfoldable pub same_item : Item → Item → Bool
same_item w o = str_eq o.store w.store && str_eq o.work_id w.work_id

-- INSERT INTO work_items, with its primary key
unfoldable pub insert_item : WorkDb → Item → Result WorkDb
insert_item db w =
    if any_row (same_item w) db.items
    then err constraint
    else ok (record db { items = db.items ++ w ∷ [] })

abbrev pub plain : EventKind → Item → Change
plain kind w = record { kind = kind; item = w; report = none; verdict_report_seq = none }

-- work-create
unfoldable pub create : Context → WorkDb → Request → Result (Change × WorkDb)
create x db r = do
  (n, claims) ← counter db.claims x.store work_counter
  let db1 = record db { claims = claims }
  head ← head_of db1 x.store
  let w = new_item x r n head
  db2 ← insert_item db1 w
  db3 ← insert_scope x.codec db2 w x.caller.consumer (author_of r) x.now
  ok (plain created w, db3)

unfoldable pub is_reported : Lifecycle → Bool
is_reported reported = true
is_reported _ = false

unfoldable pub is_propose_op : Op → Bool
is_propose_op work_propose = true
is_propose_op _ = false

-- the lifecycle lets the operation pass
unfoldable pub admits_op : Op → Lifecycle → Bool
admits_op op finished = false
admits_op op reported = is_propose_op op || work_verdict op
admits_op op _ = not (work_verdict op)

unfoldable pub same_seq : ℕ → Option ℕ → Bool
same_seq n none = false
same_seq n (some seq) = n == seq

-- the checks of a verdict
unfoldable pub check_verdict : Context → Request → Item → Result (Unit {0})
check_verdict x r w =
    if work_verdict r.op
    then (do
      require_verdict_caller x.codec x.caller w
      guard (same_seq (int r.report_seq) w.report_seq) stale_report)
    else ok tt

abbrev pub is_live_bundle : Option Bundle → ℕ → Bool
is_live_bundle none now = false
is_live_bundle (some b) now = b.active && ltb now b.expires_at

-- the operations that act for a claim
unfoldable pub is_owned : Op → Option Bundle → ℕ → Bool
is_owned work_update held now = true
is_owned work_release held now = true
is_owned work_finish held now = true
is_owned claim_renew held now = true
is_owned work_report held now = true
is_owned work_edit held now = is_live_bundle held now
is_owned _ held now = false

-- another native session's claim
unfoldable pub is_foreign : Context → Option Bundle → Bool
is_foreign x none = false
is_foreign x (some b) =
    not (str_eq b.native_actor [])
    && (not (is_maintainer x.caller)
        && not (str_eq b.native_actor (native_actor_of x.codec x.caller)))

-- the ownership checks, and the request with the actor of its claim
unfoldable pub check_owner : Context → WorkDb → Request → Item → Option Bundle → Result Request
check_owner x db r w held =
    if is_owned r.op held x.now
    then (do
      guard (not (is_foreign x held)) stale_claim
      guard (has r.claim_generation) invalid_request
      b ← owner db.claims x.store w.work_id x.caller.consumer (int r.claim_generation) x.now
      guard (b.progress_epoch == w.progress_epoch) incompatible_store
      ok (if str_eq b.native_actor [] then r else record r { actor = b.native_actor }))
    else ok r

abbrev pub or_default : Option ℕ → ℕ
or_default none = default_lease
or_default (some duration) = duration

abbrev pub claim_result : Lease → ℕ × (ℕ × ℕ)
claim_result l = (l.generation, (l.revision, l.expires_at))

-- claim-renew
unfoldable pub renew_claim :
    Context → WorkDb → Request → Item → GoString → Result (WorkResult × WorkDb)
renew_claim x db r w print = do
  (l, claims) ←
      renew x.codec.digest (with_sessions db) x.store w.work_id x.caller.consumer
        (int r.claim_generation) (int r.if_claim_revision) x.now (or_default r.lease_seconds)
  let result : WorkResult = record {
    work_id = w.work_id;
    revision = w.revision;
    seq = none;
    duplicate = false;
    claim = some (claim_result l);
    message = none;
  }
  db' ← store_replay x.codec (record db { claims = claims }) x.store x.caller r print result
  ok (result, db')

-- the item's revision is the request's, and has a successor
unfoldable pub check_revision : Request → Item → Result (Unit {0})
check_revision r w = do
  guard (int r.if_revision == w.revision) (revision_conflict w.revision)
  guard (not (w.revision == max_int64)) capacity

abbrev pub text_or : Option GoString → GoString → GoString
text_or none old = old
text_or (some s) old = s

-- work-edit
unfoldable pub edit : Context → WorkDb → Request → Item → Result (Change × WorkDb)
edit x db r w = do
  let w' = record w {
    title = text_or r.title w.title;
    criteria = text_or r.criteria w.criteria;
    non_goals = text_or r.non_goals w.non_goals;
    scope_revision = w.revision;
  }
  db' ← insert_scope x.codec db w' x.caller.consumer (author_of r) x.now
  ok (plain edited w', db')

abbrev pub references_or : Option (List GoString) → List GoString → List GoString
references_or none old = old
references_or (some refs) old = refs

abbrev pub lifecycle_or : Option Lifecycle → Lifecycle
lifecycle_or none = active
lifecycle_or (some lifecycle) = lifecycle

-- the fields that a start and an update set
unfoldable pub advance : Context → Request → Item → Item
advance x r w = record w {
  lifecycle = lifecycle_or r.lifecycle;
  last_progress_at = some x.now;
  progress_deadline = some (int r.progress_deadline);
  checkpoint = text r.checkpoint;
  next_artifact = text r.next_artifact;
  progress = text r.progress;
  blocker = if is_blocked r.lifecycle then text r.blocker else [];
  references = references_or r.references w.references;
}

-- a start of an item that is proposed to a role
unfoldable pub check_role : Context → WorkDb → Request → Item → Result (Unit {0})
check_role x db r w = elim w.proposed_role [
  | none ↦ ok tt
  | some role ↦
      if is_maintainer x.caller
      then ok tt
      else if str_eq r.actor []
      then err (revision_conflict (w.revision - 1))
      else require_role x.codec db.mail x.caller role x.now
]

abbrev pub bind_actor : Db → GoString → ℕ → GoString → Db
bind_actor claims store g actor =
    if str_eq actor []
    then claims
    else update_bundle claims store g (λ b. record b { native_actor = actor })

abbrev pub or_some : Option ℕ → ℕ → Option ℕ
or_some none n = some n
or_some (some m) n = some m

-- work-start; `w` has its new revision and progress epoch
unfoldable pub start : Context → WorkDb → Request → Item → Result (Change × WorkDb)
start x db r w = do
  check_role x db r w
  (l, claims) ←
      acquire db.claims x.store w.work_id x.caller.consumer w.progress_epoch (list_of r.resources)
        x.now (or_default r.lease_seconds)
  let w' = record w {
    last_writer = some x.caller.consumer;
    last_generation = some l.generation;
    last_lease_expires = some l.expires_at;
    lease_expired = false;
    first_start_revision = or_some w.first_start_revision w.revision;
  }
  ok (
    plain started (advance x r w'),
    record db { claims = bind_actor claims x.store l.generation r.actor },
  )

-- the renewal of an update that asks for one
unfoldable pub renew_for : Context → WorkDb → Request → Item → Result WorkDb
renew_for x db r w = elim r.renew_for [
  | none ↦ ok db
  | some duration ↦ do
    b ← owner db.claims x.store w.work_id x.caller.consumer (int r.claim_generation) x.now
    (l, claims) ←
        renew x.codec.digest (with_sessions db) x.store w.work_id x.caller.consumer
          (int r.claim_generation) b.revision x.now duration
    ok (record db { claims = claims })
]

-- work-update; `w` has its new revision and progress epoch
unfoldable pub update : Context → WorkDb → Request → Item → Result (Change × WorkDb)
update x db r w = do
  claims ←
      progress db.claims x.store w.work_id x.caller.consumer (int r.claim_generation)
        w.progress_epoch x.now
  db' ← renew_for x (record db { claims = claims }) r w
  ok (plain updated (advance x r w), db')
