-- ===== src/Work/Closing.antt =====
-- The changes that end a claim or a reported round, and apply itself (internal/core/work.go,
-- apply; work_verdict.go, reserveVerdict; checkout_role.go, notifyCheckoutHandoff).
use koinon.Base.{
  ℕ, ◌+◌, Bool, true, false, not, ◌&&◌, Option, none, some, [], GoString, bytes, length, str_eq,
  ltb, if◌then◌else◌, first_row, select,
}
use koinon.Failure.{
  invalid_request, invalid_transition, capacity, checkout_not_held, invalid_recipient,
  caller_inactive, session_missing, Result, ok, err, ◌>>=◌, ◌>>◌, guard,
}
use koinon.Resource.{has_resource}
use koinon.Claims.Rows.{Bundle}
use koinon.Claims.Queries.{bundle_for, bundle_resources}
use koinon.Claims.Cycles.{valid_key}
use koinon.Claims.Engine.{release}
use koinon.Inbox.Rows.{Address, same_address, Session, Name, Mail, Outcome}
use koinon.Inbox.Callers.{at_address, is_alias}
use koinon.Inbox.Sending.{send_tx}
use koinon.Work.Rows.{
  WorkRole, open_, reported, finished, completed, accepted, rejected, Item, Report, EventKind,
  proposed, released, was_finished, was_reported, was_accepted, was_rejected, WorkResult, Op,
  work_create, work_propose, work_edit, work_start, work_update, work_release, work_finish,
  claim_renew, work_report, work_accept, work_reject, WorkDb, Caller, work_retention,
}
use koinon.Work.Requests.{Request, has, text, int, list_of, optional}
use koinon.Work.Views.{native_actor_of, millis, require_native_caller, current, of_scope}
use koinon.Work.Events.{Change, event, insert_scope, store_replay}
use koinon.Work.Apply.{
  Context, author_of, plain, create, admits_op, check_verdict, check_owner, renew_claim,
  check_revision, edit, start, update, text_or,
}

-- the claim holds the checkout resource that a handoff names
unfoldable pub check_checkout : Context → WorkDb → Request → Result (Unit {0})
check_checkout x db r =
    if has r.handoff_to
    then guard
        (has_resource (bundle_resources db.claims x.store (int r.claim_generation))
          (record { kind = bytes "exact"; key = text r.checkout_resource }))
        checkout_not_held
    else ok tt

abbrev pub end_release : Request → Item → Item
end_release r w = record w {
  lifecycle = open_;
  checkpoint = text r.checkpoint;
  blocker = [];
  progress_deadline = none;
}

abbrev pub end_finish : Context → Request → Item → Item
end_finish x r w = record w {
  lifecycle = finished;
  outcome = r.outcome;
  reason = text r.reason;
  references = list_of r.references;
  finished_at = some x.now;
  expires_at = some (x.now + work_retention);
  progress_deadline = none;
}

-- work-release and work-finish
unfoldable pub close : Context → WorkDb → Request → EventKind → Item → Result (Change × WorkDb)
close x db r kind w = do
  check_checkout x db r
  claims ← release db.claims x.store w.work_id x.caller.consumer (int r.claim_generation) x.now
  ok (plain kind w, record db { claims = claims })

abbrev pub max_store_verdicts : ℕ
max_store_verdicts = 16

abbrev pub max_daemon_verdicts : ℕ
max_daemon_verdicts = 32

abbrev pub has_credit : Item → Bool
has_credit w = w.verdict_credit

abbrev pub credit_in : GoString → Item → Bool
credit_in store w = str_eq w.store store && w.verdict_credit

-- reserveVerdict
unfoldable pub reserve_verdict : Context → WorkDb → GoString → Result (Unit {0})
reserve_verdict x db work_id = do
  guard (ltb (length (select (credit_in x.store) db.items)) max_store_verdicts) capacity
  guard (ltb (length (select has_credit db.items)) max_daemon_verdicts) capacity
  guard (ltb (length (select (of_scope x.store work_id) db.scopes)) x.limits.work_scopes_per_item)
      capacity

-- the participant that a session's repository and role name, as sessionQuery joins it
unfoldable pub participant_alias : Session → Name → Bool
participant_alias s n =
    is_alias n
    && (str_eq n.family s.key.family
        && (str_eq n.repository s.repository
            && (str_eq n.role s.role
                && (not (str_eq s.repository []) && (not s.subagent && s.launched)))))

unfoldable pub role_of_session : Mail → Session → Option WorkRole
role_of_session mail s = elim (first_row (participant_alias s) mail.names) [
  | none ↦ none
  | some n ↦
      if str_eq n.name [] then none else some (record { family = s.key.family; role = s.role })
]

-- the role of the reporting participant
unfoldable pub participant_role : Context → WorkDb → Result (Option WorkRole)
participant_role x db =
    if valid_key x.caller.native.family x.caller.native.id
    then elim (first_row (at_address x.caller.native) db.mail.sessions) [
      | none ↦ err session_missing
      | some s ↦ ok (role_of_session db.mail s)
    ]
    else ok none

abbrev pub end_report : Context → Request → Item → Item
end_report x r w = record w {
  lifecycle = reported;
  verdict_credit = true;
  progress_deadline = none;
  blocker = [];
  references = list_of r.references;
  report_consumer = some x.caller.consumer;
  report_actor = native_actor_of x.codec x.caller;
  verdict = none;
  verdict_seq = none;
}

-- work-report
unfoldable pub report : Context → WorkDb → Request → Item → Result (Change × WorkDb)
report x db r w = do
  reserve_verdict x db w.work_id
  claims ← release db.claims x.store w.work_id x.caller.consumer (int r.claim_generation) x.now
  role ← participant_role x db
  let frozen : Report = record {
    summary = text r.summary;
    scope_revision = w.scope_revision;
    claim_generation = int r.claim_generation;
    participant_role = role;
  }
  ok (
    record {
      kind = was_reported;
      item = end_report x r w;
      report = some frozen;
      verdict_report_seq = none;
    },
    record db { claims = claims },
  )

-- the fields that a verdict clears
abbrev pub end_round : Request → Item → Item
end_round r w = record w {
  progress = [];
  checkpoint = [];
  next_artifact = [];
  blocker = [];
  references = list_of r.references;
  verdict_credit = false;
}

-- work-accept
unfoldable pub accept : Context → WorkDb → Request → Item → Result (Change × WorkDb)
accept x db r w =
    let w' = record (end_round r w) {
      lifecycle = finished;
      verdict = some accepted;
      outcome = some completed;
      finished_at = some x.now;
      expires_at = some (x.now + work_retention);
    } in
    ok (
      record { kind = was_accepted; item = w'; report = none; verdict_report_seq = w.report_seq },
      db,
    )

abbrev pub rejected_item : Request → Item → Item
rejected_item r w = record (end_round r w) {
  lifecycle = open_;
  verdict = some rejected;
  title = text_or r.title w.title;
  criteria = text r.criteria;
  non_goals = text r.non_goals;
  scope_revision = w.revision;
}

-- work-reject
unfoldable pub reject : Context → WorkDb → Request → Item → Result (Change × WorkDb)
reject x db r w = do
  db' ← insert_scope x.codec db (rejected_item r w) x.caller.consumer (author_of r) x.now
  ok (
    record {
      kind = was_rejected;
      item = rejected_item r w;
      report = none;
      verdict_report_seq = w.report_seq;
    },
    db',
  )

-- the switch of apply over the operations; `w` has its new revision
unfoldable pub change : Context → WorkDb → Request → Item → Result (Change × WorkDb)
change x db r w = elim r.op [
  | work_propose ↦ ok (
    plain proposed (record w {
      proposed_assignee = optional r.proposed_assignee;
      proposed_role = optional r.proposed_role;
    }),
    db,
  )
  | work_edit ↦ edit x db r w
  | work_start ↦ start x db r (record w { progress_epoch = w.progress_epoch + 1 })
  | work_update ↦ update x db r (record w { progress_epoch = w.progress_epoch + 1 })
  | work_release ↦ close x db r released (end_release r w)
  | work_finish ↦ close x db r was_finished (end_finish x r w)
  | work_report ↦ report x db r w
  | work_accept ↦ accept x db r w
  | work_reject ↦ reject x db r w
  | work_create ↦ err invalid_request
  | claim_renew ↦ err invalid_request
]

unfoldable pub peer_in : GoString → GoString → Name → Bool
peer_in name repository n =
    not (is_alias n) && (str_eq n.name name && str_eq n.repository repository)

unfoldable pub is_caller_name : Caller → Name → Bool
is_caller_name m n = peer_in m.name m.repository n && str_eq n.family m.family

abbrev pub key_of_name : Name → Address
key_of_name n = record { family = n.family; id = n.session_id }

-- the two names of a handoff
unfoldable pub handoff_caller : Mail → Caller → Result Address
handoff_caller mail m = elim (first_row (is_caller_name m) mail.names) [
  | none ↦ err caller_inactive
  | some n ↦ ok (key_of_name n)
]

unfoldable pub handoff_recipient : Mail → Caller → Request → Result Address
handoff_recipient mail m r =
    elim (first_row (peer_in (text r.handoff_to) m.repository) mail.names) [
      | none ↦ err invalid_recipient
      | some n ↦ ok (key_of_name n)
    ]

-- notifyCheckoutHandoff
unfoldable pub notify_handoff : Context → WorkDb → Request → Result (Outcome × WorkDb)
notify_handoff x db r = do
  k ← handoff_caller db.mail x.caller
  to ← handoff_recipient db.mail x.caller r
  guard (not (same_address to k)) invalid_request
  (o, mail) ←
      send_tx x.process db.mail (millis x.now) k (text r.handoff_to) (x.codec.handoff_body r) false
  ok (o, record db { mail = mail })

-- the notice of a release that hands off
unfoldable pub notify : Context → WorkDb → Request → Result (Option ℕ × WorkDb)
notify x db r =
    if has r.handoff_to
    then (do (o, db') ← notify_handoff x db r; ok (some o.id, db'))
    else ok (none, db)

unfoldable pub bundle_result : Option Bundle → Option (ℕ × (ℕ × ℕ))
bundle_result none = none
bundle_result (some b) = some (b.generation, (b.revision, b.expires_at))

-- the claim that a start and an update report
unfoldable pub result_claim : WorkDb → GoString → Op → GoString → Option (ℕ × (ℕ × ℕ))
result_claim db store work_start work_id = bundle_result (bundle_for db.claims store work_id)
result_claim db store work_update work_id = bundle_result (bundle_for db.claims store work_id)
result_claim db store _ work_id = none

-- the part of apply after the change: the event, the notice and the replay result
unfoldable pub conclude :
    Context → Request → GoString → Change × WorkDb → Result (WorkResult × WorkDb)
conclude x r print (ch, db) = do
  (w, db1) ← event x.codec db x.store x.caller ch x.caller.consumer (author_of r) x.now
  (message, db2) ← notify x db1 r
  let result : WorkResult = record {
    work_id = w.work_id;
    revision = w.revision;
    seq = some w.latest_seq;
    duplicate = false;
    claim = result_claim db2 x.store r.op w.work_id;
    message = message;
  }
  db3 ← store_replay x.codec db2 x.store x.caller r print result
  ok (result, db3)

-- the checked change of an item, and its conclusion
unfoldable pub change_item :
    Context → WorkDb → Request → Item → GoString → Result (WorkResult × WorkDb)
change_item x db r w print = do
  check_revision r w
  c ← change x db r (record w { revision = w.revision + 1 })
  conclude x r print c

unfoldable pub is_renew : Op → Bool
is_renew claim_renew = true
is_renew _ = false

unfoldable pub is_create : Op → Bool
is_create work_create = true
is_create _ = false

-- the operations on an item that is there
unfoldable pub apply_to : Context → WorkDb → Request → GoString → Result (WorkResult × WorkDb)
apply_to x db r print = do
  w ← current db x.store (text r.work_id) x.now
  guard (admits_op r.op w.lifecycle) invalid_transition
  check_verdict x r w
  r' ← check_owner x db r w (bundle_for db.claims x.store w.work_id)
  if is_renew r.op then renew_claim x db r' w print else change_item x db r' w print

-- work-create, and its conclusion
unfoldable pub apply_create : Context → WorkDb → Request → GoString → Result (WorkResult × WorkDb)
apply_create x db r print = do c ← create x db r; conclude x r print c

-- apply
unfoldable pub apply : Context → WorkDb → Request → GoString → Result (WorkResult × WorkDb)
apply x db r print = do
  require_native_caller x.codec db.mail x.caller r.actor x.now
  if is_create r.op then apply_create x db r print else apply_to x db r print
