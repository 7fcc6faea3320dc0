-- ===== src/Work/Refinement.antt =====
-- Every mutation of an item that is there is a step of the abstract item, and appends one event.
use koinon.Base.{
  ℕ, ◌+◌, ◌≡◌, refl, sym, ap, subst, ◌∙◌, Bool, true, false, some, List, [], ◌∷◌, ◌++◌, GoString,
  arith, first_row, update_rows, str_eq, str_eq_iff, str_eq_refl, &&-true, first_row-In,
}
use koinon.Failure.{ok, >>=-eq-ok, ok_inj}
use koinon.Claims.Engine.{release}
use koinon.Work.Rows.{
  Item, work_report, Event, Entry, WorkDb, WorkResult, EventKind, created, proposed, edited,
  started, updated, released, was_finished, was_reported, was_accepted, was_rejected,
  due_progress_overdue, due_lease_expired,
}
use koinon.Work.Requests.{Request, text, int, validate}
use koinon.Work.Views.{current, is_item, has_passed}
use koinon.Work.Events.{Change, with_seq, checks_outcome, event_of, entry_of}
use koinon.Work.Apply.{Context, head_of, author_of}
use koinon.Work.Closing.{
  apply, change, report, reserve_verdict, participant_role, is_create, is_renew,
}
use koinon.Work.Stages.{stage_of, Step}
use koinon.Work.Recording.{after_event, bumped-head}
use koinon.Work.Changes.{change-Changed, next_item}
use koinon.Work.Applied.{apply-Applied, validate-lifecycle, with_actor}

-- A sequence changes neither the stage nor the key of an item.
pub with_seq-keeps :
    (k : EventKind) (n : ℕ) (w : Item)
    → (stage_of (with_seq k n w) ≡ stage_of w)
      × ((with_seq k n w).store ≡ w.store)
      × ((with_seq k n w).work_id ≡ w.work_id)
      × ((with_seq k n w).latest_seq ≡ n)
      × ((with_seq k n w).report_consumer ≡ w.report_consumer)
      × ((with_seq k n w).expires_at ≡ w.expires_at)
unfolding with_seq
with_seq-keeps created n w = (refl, refl, refl, refl, refl, refl)
with_seq-keeps proposed n w = (refl, refl, refl, refl, refl, refl)
with_seq-keeps edited n w = (refl, refl, refl, refl, refl, refl)
with_seq-keeps started n w = (refl, refl, refl, refl, refl, refl)
with_seq-keeps updated n w = (refl, refl, refl, refl, refl, refl)
with_seq-keeps released n w = (refl, refl, refl, refl, refl, refl)
with_seq-keeps was_finished n w = (refl, refl, refl, refl, refl, refl)
with_seq-keeps was_reported n w = (refl, refl, refl, refl, refl, refl)
with_seq-keeps was_accepted n w = (refl, refl, refl, refl, refl, refl)
with_seq-keeps was_rejected n w = (refl, refl, refl, refl, refl, refl)
with_seq-keeps due_progress_overdue n w = (refl, refl, refl, refl, refl, refl)
with_seq-keeps due_lease_expired n w = (refl, refl, refl, refl, refl, refl)

pub current-found :
    (db : WorkDb) (store work_id : GoString) (now : ℕ) (w : Item)
    → current db store work_id now ≡ ok w
    → (first_row (is_item store work_id) db.items ≡ some w) × (has_passed w.expires_at now ≡ false)
unfolding current
current-found db store work_id now w h = ground arith

pub is_item-eq :
    (store work_id : GoString) (w : Item)
    → is_item store work_id w ≡ true
    → (w.store ≡ store) × (w.work_id ≡ work_id)
unfolding is_item
is_item-eq store work_id w h =
    let (a, b) = &&-true (str_eq w.store store) (str_eq w.work_id work_id) h in
    ((str_eq_iff w.store store).0 a, (str_eq_iff w.work_id work_id).0 b)

pub eq-is_item :
    (store work_id : GoString) (w : Item)
    → w.store ≡ store
    → w.work_id ≡ work_id
    → is_item store work_id w ≡ true
unfolding is_item
eq-is_item store work_id w a b = rw (a, b, str_eq_refl store, str_eq_refl work_id) refl

pub replaced-found :
    {A : Type 0} (p : A → Bool) (w v : A) (rows : List A)
    → first_row p rows ≡ some w
    → p v ≡ true
    → first_row p (update_rows p (λ o. v) rows) ≡ some v
unfolding first_row update_rows
replaced-found p w v [] h t = cc
replaced-found p w v (x ∷ rows) h t = ground (arith, replaced-found p w v rows)

pair_eq : {a b c d : GoString} → a ≡ c → b ≡ d → ◌≡◌ {A = GoString × GoString} (a, b) (c, d)
pair_eq p q = rw (p, q) refl

-- A report found room for its verdict.
report-reserved :
    (x : Context) (db d : WorkDb) (r : Request) (w : Item) (ch : Change)
    → r.op ≡ work_report
    → change x db r (next_item w) ≡ ok (ch, d)
    → (u : Unit {0}) × (reserve_verdict x db w.work_id ≡ ok u)
unfolding change report
report-reserved x db d r w ch q h =
    let (u, e, _) = >>=-eq-ok (reserve_verdict x db w.work_id) _ (rw (q, change) at h) in (u, e)

-- A report writes its reporter.
report-consumer :
    (x : Context) (db d : WorkDb) (r : Request) (w : Item) (ch : Change)
    → r.op ≡ work_report
    → change x db r (next_item w) ≡ ok (ch, d)
    → ch.item.report_consumer ≡ some x.caller.consumer
unfolding change report
report-consumer x db d r w ch q h =
    let (u, _, h1) = >>=-eq-ok (reserve_verdict x db _) _ (rw (q, change) at h) in
    let (claims, e, h2) = >>=-eq-ok (release _ _ _ _ _ _) _ h1 in
    let (role, _, h3) = >>=-eq-ok (participant_role x db) _ h2 in
    sym (ap (λ (z : Change × WorkDb). z.0.item.report_consumer) (ok_inj _ _ h3))

-- What a successful mutation leaves in the tables: the item `before`, the item `after` in its row,
-- and the rows of its one event, the next of its store.
pub record Mutated (x : Context) (db db' : WorkDb) (r : Request) (result : WorkResult)
    : Type 0 where
  pub before : Item
  pub after : Item
  pub found : current db x.store (text r.work_id) x.now ≡ ok before
  pub fresh : int r.if_revision ≡ before.revision
  pub key_eq : (after.store ≡ x.store) × (after.work_id ≡ text r.work_id)
  pub step : Step r.op (stage_of before) (stage_of after)
  pub stored : first_row (is_item x.store (text r.work_id)) db'.items ≡ some after
  pub replaced : db'.items ≡ update_rows (is_item x.store (text r.work_id)) (λ o. after) db.items
  pub checked : checks_outcome after ≡ true
  pub reporter : r.op ≡ work_report → after.report_consumer ≡ some x.caller.consumer
  pub reserved : r.op ≡ work_report → (u : Unit {0}) × (reserve_verdict x db before.work_id ≡ ok u)
  pub head : ℕ
  pub head_eq : head_of db x.store ≡ ok head
  pub head_next : head_of db' x.store ≡ ok (head + 1)
  pub seq_eq : after.latest_seq ≡ head + 1
  pub event : Event
  pub event_eq :
      (event.seq ≡ head + 1)
      × (event.revision ≡ after.revision)
      × (event.work_id ≡ after.work_id)
      × (event.payload.item ≡ after)
  pub events : db'.events ≡ db.events ++ event ∷ []
  pub entry : Entry
  pub entry_eq :
      (entry.seq ≡ head + 1) × (entry.target ≡ after.work_id) × (entry.revision ≡ after.revision)
  pub entries : db'.entries ≡ db.entries ++ entry ∷ []
  pub reply :
      (result.work_id ≡ after.work_id)
      × (result.revision ≡ after.revision)
      × (result.seq ≡ some (head + 1))

pub apply-Mutated :
    (x : Context) (db db' : WorkDb) (r : Request) (print : GoString) (result : WorkResult)
    → validate r ≡ ok tt
    → is_create r.op ≡ false
    → is_renew r.op ≡ false
    → apply x db r print ≡ ok (result, db')
    → Mutated x db db' r result
apply-Mutated x db db' r print result v a b h =
    let p = apply-Applied x db db' r print result a b h in
    let w = p.before in
    let done = p.concluded in
    let rows = done.recorded in
    let w' = done.w in
    let c =
      change-Changed x db p.d (with_actor r p.actor) w p.ch a b p.admitted (validate-lifecycle r v)
        p.changes in
    let (f, _) = current-found db x.store (text r.work_id) x.now w p.found in
    let (ws, wi) = is_item-eq x.store (text r.work_id) w (first_row-In _ w db.items f).1 in
    let (ks, kst, kid, kseq, kcons, _) = with_seq-keeps p.ch.kind (rows.head + 1) p.ch.item in
    let st : w'.store ≡ x.store = ap (λ (z : Item). z.store) rows.item_eq ∙ kst ∙ c.store_eq ∙ ws in
    let id : w'.work_id ≡ text r.work_id =
      ap (λ (z : Item). z.work_id) rows.item_eq ∙ kid ∙ c.id_eq ∙ wi in
    let e = event_of x.caller x.store (rows.head + 1) w' p.ch.kind rows.payload in
    let n = entry_of x.caller (rows.head + 1) w' x.caller.consumer (author_of r) x.now in
    let final : db' ≡ record (after_event p.d x.store w' e n) {
      mail = done.mail;
      replays = done.replayed.replays;
    } =
      done.replayed.after
      ∙ ap (λ (z : WorkDb). record z { mail = done.mail; replays = done.replayed.replays })
          rows.db_eq in
    let items : db'.items ≡ update_rows (is_item x.store (text r.work_id)) (λ o. w') db.items =
      ap (λ (z : WorkDb). z.items) final
      ∙ ap (λ (k : GoString × GoString). update_rows (is_item k.0 k.1) (λ o. w') p.d.items)
          (pair_eq st id)
      ∙ ap (update_rows (is_item x.store (text r.work_id)) (λ o. w')) c.leaves.items in
    record {
      before = w;
      after = w';
      found = p.found;
      fresh = p.fresh;
      key_eq = (st, id);
      step = subst (Step r.op (stage_of w)) (sym ks ∙ ap stage_of (sym rows.item_eq)) c.step;
      stored =
          ap (first_row (is_item x.store (text r.work_id))) items
          ∙ replaced-found _ w w' db.items f (eq-is_item x.store (text r.work_id) w' st id);
      replaced = items;
      checked = rows.checked;
      reporter = λ q.
          ap (λ (z : Item). z.report_consumer) rows.item_eq
          ∙ kcons
          ∙ report-consumer x db p.d (with_actor r p.actor) w p.ch q p.changes;
      reserved = λ q. report-reserved x db p.d (with_actor r p.actor) w p.ch q p.changes;
      head = rows.head;
      head_eq = sym (c.leaves.heads x.store) ∙ rows.head_eq;
      head_next =
          bumped-head p.d db' x.store rows.head (ap (λ (z : WorkDb). z.claims.memory_stores) final)
            rows.head_eq;
      seq_eq = ap (λ (z : Item). z.latest_seq) rows.item_eq ∙ kseq;
      event = e;
      event_eq = (refl, refl, refl, rows.payload_item);
      events = ap (λ (z : WorkDb). z.events) final ∙ ap (λ l. l ++ e ∷ []) c.leaves.events;
      entry = n;
      entry_eq = (refl, refl, refl);
      entries = ap (λ (z : WorkDb). z.entries) final ∙ ap (λ l. l ++ n ∷ []) c.leaves.entries;
      reply = (
        done.work_id_eq,
        done.revision_eq,
        done.seq_eq ∙ ap some (ap (λ (z : Item). z.latest_seq) rows.item_eq ∙ kseq),
      );
    }
