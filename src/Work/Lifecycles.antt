-- ===== src/Work/Lifecycles.antt =====
-- What a successful mutation of an item is, seen from outside (internal/core/work.go, apply).
use koinon.Base.{
  ℕ, ◌+◌, ◌≡◌, refl, true, false, Option, none, some, [], ◌∷◌, ◌++◌, GoString, arith, first_row,
  str_eq_refl,
}
use koinon.Failure.{ok, err, own_report}
use koinon.Work.Rows.{Item, Op, work_report, reported, Event, Entry, WorkDb, WorkResult}
use koinon.Work.Requests.{Request, text, int, validate, work_verdict, has}
use koinon.Work.Views.{
  current, is_item, require_native_caller, require_verdict_caller, has_passed, same_option,
}
use koinon.Work.Events.{checks_outcome, is_finished}
use koinon.Work.Apply.{Context, head_of, check_verdict, admits_op, is_propose_op}
use koinon.Work.Closing.{apply, apply_to, is_create, is_renew}
use koinon.Work.Stages.{
  Stage, stage_of, Step, step_propose, step_edit, step_start, step_update, step_release,
  step_finish, step_report, step_accept, step_reject,
}
use koinon.Work.Refinement.{apply-Mutated}

-- A mutation of an item, other than a renewal, that succeeds for a valid request found a retained
-- item at the revision that the request names, and the row that it leaves is related to the row that
-- it found by a step of its operation: the phase moves along that operation's edge, the revision by
-- one, the epoch by one for a start and an update only, the scope revision for an edit and a
-- rejection only, and a verdict becomes pending by a report and ends by a verdict only.
pub apply-Step :
    (x : Context) (db db' : WorkDb) (r : Request) (print : GoString) (result : WorkResult)
    → validate r ≡ ok tt
    → is_create r.op ≡ false
    → is_renew r.op ≡ false
    → apply x db r print ≡ ok (result, db')
    → (before : Item) × (after : Item) × (current db x.store (text r.work_id) x.now ≡ ok before)
      × (int r.if_revision ≡ before.revision)
      × (first_row (is_item x.store (text r.work_id)) db'.items ≡ some after)
      × Step r.op (stage_of before) (stage_of after)
apply-Step x db db' r print result v a b h =
    let m = apply-Mutated x db db' r print result v a b h in
    (m.before, m.after, m.found, m.fresh, m.stored, m.step)

-- A mutation of an item, other than a renewal, that succeeds for a valid request advances the head of
-- the store by one and appends just one event and one stream entry. Both have the new head as their
-- sequence and the revision of the item that the mutation leaves; the event's payload shows that
-- item, whose latest sequence it is; and the reply has the same sequence and revision.
pub apply-logged :
    (x : Context) (db db' : WorkDb) (r : Request) (print : GoString) (result : WorkResult)
    → validate r ≡ ok tt
    → is_create r.op ≡ false
    → is_renew r.op ≡ false
    → apply x db r print ≡ ok (result, db')
    → (head : ℕ) × (after : Item) × (event : Event) × (entry : Entry) × (head_of db x.store
        ≡ ok head)
      × (head_of db' x.store ≡ ok (head + 1))
      × (first_row (is_item x.store (text r.work_id)) db'.items ≡ some after)
      × (after.latest_seq ≡ head + 1)
      × (db'.events ≡ db.events ++ event ∷ [])
      × (event.seq ≡ head + 1)
      × (event.revision ≡ after.revision)
      × (event.payload.item ≡ after)
      × (db'.entries ≡ db.entries ++ entry ∷ [])
      × (entry.seq ≡ head + 1)
      × (entry.revision ≡ after.revision)
      × (result.seq ≡ some (head + 1))
      × (result.revision ≡ after.revision)
apply-logged x db db' r print result v a b h =
    let m = apply-Mutated x db db' r print result v a b h in
    let (es, er, _, ep) = m.event_eq in
    let (ns, _, nr) = m.entry_eq in
    let (_, rr, rs) = m.reply in
    (
      m.head, m.after, m.event, m.entry, m.head_eq, m.head_next, m.stored, m.seq_eq, m.events, es,
      er, ep, m.entries, ns, nr, rs, rr,
    )

reported-retained :
    (w : Item) (now : ℕ)
    → w.lifecycle ≡ reported
    → checks_outcome w ≡ true
    → has_passed w.expires_at now ≡ false
unfolding checks_outcome has_passed is_finished has
reported-retained w now e h = by_expiry w.expires_at refl
  where
    by_expiry : (o : Option ℕ) → w.expires_at ≡ o → has_passed o now ≡ false
    by_expiry none q = refl
    by_expiry (some n) q = let k = rw (e, q, checks_outcome) at h in absurd (ground (arith, k))

-- A report reaches the phase `reported`.
report-phase : (op : Op) (s t : Stage) → op ≡ work_report → Step op s t → t.phase ≡ reported
report-phase _ _ _ q (step_propose s a) = cc
report-phase _ _ _ q (step_edit s a) = cc
report-phase _ _ _ q (step_start s p a b) = cc
report-phase _ _ _ q (step_update s p a b) = cc
report-phase _ _ _ q (step_release s a) = cc
report-phase _ _ _ q (step_finish s a) = cc
report-phase _ _ _ q (step_report s a) = refl
report-phase _ _ _ q (step_accept s a) = cc
report-phase _ _ _ q (step_reject s a) = cc

verdict-admitted :
    (op : Op) → work_verdict op ≡ true → (is_create op ≡ false) × (admits_op op reported ≡ true)
unfolding work_verdict is_create admits_op is_propose_op
verdict-admitted op h = ground arith

-- A worker cannot judge its own report. After a valid report that succeeded, a verdict on that item
-- in the same store by the same consumer, at any later time and with any report sequence, is refused
-- as its own report, once the caller's native session has passed its check.
pub apply-own_report :
    (x y : Context) (db db' : WorkDb) (r s : Request) (print other : GoString) (result : WorkResult)
    → validate r ≡ ok tt
    → r.op ≡ work_report
    → apply x db r print ≡ ok (result, db')
    → y.store ≡ x.store
    → y.caller.consumer ≡ x.caller.consumer
    → text s.work_id ≡ text r.work_id
    → work_verdict s.op ≡ true
    → require_native_caller y.codec db'.mail y.caller s.actor y.now ≡ ok tt
    → apply y db' s other ≡ err own_report
unfolding apply apply_to is_create is_renew current check_verdict require_verdict_caller same_option
apply-own_report x y db db' r s print other result v q h st co wi jv nc =
    let m =
      apply-Mutated x db db' r print result v (rw (q, is_create) refl) (rw (q, is_renew) refl) h in
    let w = m.after in
    let phase = report-phase r.op _ _ q m.step in
    let key : first_row (is_item y.store (text s.work_id)) db'.items ≡ some w =
      rw (st, wi) m.stored in
    let retained = reported-retained w y.now phase m.checked in
    let found : current db' y.store (text s.work_id) y.now ≡ ok w =
      rw (key, current, retained) refl in
    let mine : check_verdict y s w ≡ err own_report =
      rw
        (check_verdict, jv, require_verdict_caller, m.reporter q, co, str_eq_refl x.caller.consumer)
        refl in
    let (nocreate, admitted) = verdict-admitted s.op jv in
    rw (apply, nc, nocreate, apply_to, found, phase, admitted, mine) refl
