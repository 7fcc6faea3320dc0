-- ===== src/Work/Replaying.antt =====
-- replay (internal/core/work.go): the answer to a keyed retry, with the participant check before it
-- (internal/core/participants.go, requireParticipantCaller). The details of a waiting succession,
-- which are the same error, are left out, and the clock is read once.
use koinon.Base.{
  ◌+◌, Bool, true, not, ◌&&◌, ◌||◌, Option, none, some, [], GoString, bytes, str_eq, ltb, leb,
  if◌then◌else◌, first_row, drop, length,
}
use koinon.Failure.{
  stale_holder, no_rows, invalid_request, retry_deadline_expired, idempotency_conflict, Result, ok,
  err, ◌>>◌, guard,
}
use koinon.Claims.Cycles.{valid_key, participant_prefix, store_of}
use koinon.Inbox.Rows.{Name, Mail}
use koinon.Inbox.Callers.{is_participant_id, is_alias, held_address, named}
use koinon.Work.Rows.{
  Op, work_create, work_propose, work_edit, work_start, work_update, work_release, work_finish,
  claim_renew, work_report, work_accept, work_reject, Replay, WorkResult, WorkDb,
  fingerprint_scheme,
}
use koinon.Work.Requests.{Request, has, text, int}
use koinon.Work.Views.{millis, is_maintainer, require_native_caller}
use koinon.Work.Events.{is_replay}
use koinon.Work.Apply.{Context}

-- the address of a participant's consumer
abbrev pub address_of : GoString → GoString
address_of consumer = drop (length participant_prefix) consumer

unfoldable pub alias_named : GoString → Name → Bool
alias_named address n = is_alias n && named address n

-- requireParticipantCaller
unfoldable pub require_participant : Context → Mail → Result (Unit {0})
require_participant x mail =
    let m = x.caller in
    if not (is_participant_id m.consumer) || is_maintainer m
    then ok tt
    else if not (valid_key m.native.family m.native.id) || not (str_eq m.native.family m.family)
    then err stale_holder
    else do
      let held = held_address mail (millis x.now) m.native
      guard (not (str_eq held []) && str_eq held (address_of m.consumer)) stale_holder
      elim (first_row (alias_named (address_of m.consumer)) mail.names) [
        | none ↦ err no_rows
        | some n ↦ if str_eq n.repository m.repository then ok tt else err stale_holder
      ]

-- an operation as it is sent and stored
unfoldable pub op_text : Op → GoString
op_text work_create = bytes "work-create"
op_text work_propose = bytes "work-propose"
op_text work_edit = bytes "work-edit"
op_text work_start = bytes "work-start"
op_text work_update = bytes "work-update"
op_text work_release = bytes "work-release"
op_text work_finish = bytes "work-finish"
op_text claim_renew = bytes "claim-renew"
op_text work_report = bytes "work-report"
op_text work_accept = bytes "work-accept"
op_text work_reject = bytes "work-reject"

-- the stored row answers this request
unfoldable pub answers : Replay → Request → GoString → Bool
answers p r print =
    str_eq p.scheme fingerprint_scheme
    && (str_eq p.fingerprint print && str_eq (op_text p.operation) (op_text r.op))

-- the stored row of the key, if there is one
unfoldable pub answer :
    Context → WorkDb → Request → GoString → Option Replay → Result (GoString × Option WorkResult)
answer x db r print none = ok (print, none)
answer x db r print (some p) = do
  require_native_caller x.codec db.mail x.caller p.native_actor x.now
  guard (answers p r print) idempotency_conflict
  ok (print, some (record p.result { duplicate = true }))

-- replay
unfoldable pub replay : Context → WorkDb → Request → Result (GoString × Option WorkResult)
replay x db r = if not (has r.key) then ok ([], none) else do
  require_participant x db.mail
  guard (ltb x.now (int r.deadline)) retry_deadline_expired
  guard (leb (int r.deadline) (x.now + x.limits.idem_ttl)) invalid_request
  let print = x.codec.fingerprint r x.caller.consumer
  let store = store_of db.claims x.caller.repository
  if str_eq store []
      then ok (print, none)
      else answer x db r print
          (first_row (is_replay store x.caller.consumer (text r.key)) db.replays)
