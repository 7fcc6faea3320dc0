-- ===== src/Work/Changes.antt =====
-- What the change of each operation does to the item, and what it leaves to the event.
use koinon.Base.{
  ℕ, ◌+◌, ◌≡◌, ◌≢◌, refl, sym, ap, subst, ◌∙◌, true, false, Option, none, some, GoString, arith,
  first_row, update_rows,
}
use koinon.Failure.{Result, ok, >>=-eq-ok, ok_inj}
use koinon.Claims.Rows.{Db}
use koinon.Claims.Queries.{is_store, write_counter, claim_counter}
use koinon.Claims.Engine.{acquire, owner, renew, progress, release, end_claim, update_bundle}
use koinon.Claims.Acquired.{acquire-Acquired}
use koinon.Claims.Updates.{Updated, renew-update, progress-update, release-update}
use koinon.Work.Rows.{
  Lifecycle, open_, active, blocked, reported, finished, Item, Op, work_create, work_propose,
  work_edit, work_start, work_update, work_release, work_finish, claim_renew, work_report,
  work_accept, work_reject, WorkDb,
}
use koinon.Work.Requests.{Request, valid_lifecycle, work_verdict, list_of, int}
use koinon.Work.Events.{Change, insert_scope}
use koinon.Work.Apply.{
  Context, advance, admits_op, is_propose_op, edit, start, update, lifecycle_or, check_role,
  or_default, bind_actor, renew_for, with_sessions,
}
use koinon.Work.Closing.{
  change, close, report, reject, accept, is_create, is_renew, check_checkout, reserve_verdict,
  participant_role,
}
use koinon.Work.Stages.{
  stage_of, Step, step_propose, step_edit, step_start, step_update, step_release, step_finish,
  step_report, step_accept, step_reject, Workable, workable_open, workable_active, workable_blocked,
  Ongoing, ongoing_active, ongoing_blocked,
}
use koinon.Work.Leaves.{
  Leaves, Leaves_refl, Leaves_trans, insert_scope-Leaves, stores-Leaves, head_row, counted-heads,
  head_of-row,
}

admits-Workable :
    (op : Op) (p : Lifecycle)
    → is_propose_op op ≡ false
    → work_verdict op ≡ false
    → admits_op op p ≡ true
    → Workable p
unfolding admits_op
admits-Workable op open_ a b h = workable_open
admits-Workable op active a b h = workable_active
admits-Workable op blocked a b h = workable_blocked
admits-Workable op reported a b h = let k = rw (a, b) at h in cc
admits-Workable op finished a b h = cc

lifecycle_or-Ongoing : (l : Option Lifecycle) → valid_lifecycle l ≡ true → Ongoing (lifecycle_or l)
unfolding valid_lifecycle
lifecycle_or-Ongoing none h = ongoing_active
lifecycle_or-Ongoing (some open_) h = cc
lifecycle_or-Ongoing (some active) h = ongoing_active
lifecycle_or-Ongoing (some blocked) h = ongoing_blocked
lifecycle_or-Ongoing (some reported) h = cc
lifecycle_or-Ongoing (some finished) h = cc

verdict-reported :
    (op : Op) (p : Lifecycle) → work_verdict op ≡ true → admits_op op p ≡ true → p ≡ reported
unfolding admits_op
verdict-reported op open_ a h = let k = rw a at h in cc
verdict-reported op active a h = let k = rw a at h in cc
verdict-reported op blocked a h = let k = rw a at h in cc
verdict-reported op reported a h = refl
verdict-reported op finished a h = cc

admits-unfinished : (op : Op) (p : Lifecycle) → admits_op op p ≡ true → p ≢ finished
unfolding admits_op
admits-unfinished op p h e = let k = rw e at h in cc

update-stores :
    (db db' : Db) (store : GoString) (g : ℕ)
    → Updated db db' store g
    → db'.memory_stores ≡ db.memory_stores
unfolding update_bundle
update-stores db db' store g (f, s, e) = sym (ap (λ (d : Db). d.memory_stores) e)

pub record Changed (op : Op) (w : Item) (db : WorkDb) (ch : Change) (db' : WorkDb) : Type 0 where
  pub step : Step op (stage_of w) (stage_of ch.item)
  pub store_eq : ch.item.store ≡ w.store
  pub id_eq : ch.item.work_id ≡ w.work_id
  pub leaves : Leaves db db'

-- The one result of a change.
returned :
    (op : Op) (w : Item) (db db' d : WorkDb) (ch c : Change)
    → Changed op w db c d
    → ◌≡◌ {A = Result (Change × WorkDb)} (ok (c, d)) (ok (ch, db'))
    → Changed op w db ch db'
returned op w db db' d ch c p e =
    let k = ok_inj _ _ e in subst (λ (z : Change × WorkDb). Changed op w db z.0 z.1) k p

same_item_stores :
    (claims : Db) (store : GoString) (g : ℕ) (actor : GoString)
    → (bind_actor claims store g actor).memory_stores ≡ claims.memory_stores
unfolding update_bundle
same_item_stores claims store g actor = ground arith

abbrev pub next_item : Item → Item
next_item w = record w { revision = w.revision + 1 }

abbrev next_epoch : Item → Item
next_epoch w = record w { revision = w.revision + 1; progress_epoch = w.progress_epoch + 1 }

acquired-heads :
    (db : WorkDb) (claims : Db) (store : GoString) (n : ℕ)
    → claims.memory_stores
      ≡ update_rows (is_store store) (write_counter claim_counter n) db.claims.memory_stores
    → Leaves db (record db { claims = claims })
acquired-heads db claims store n e = record {
  items = refl;
  events = refl;
  entries = refl;
  replays = refl;
  mail = refl;
  heads = λ s.
      head_of-row (record db { claims = claims }) s
      ∙ ap (λ rows. head_row (first_row (is_store s) rows)) e
      ∙ counted-heads store n db.claims.memory_stores s
      ∙ sym (head_of-row db s);
}

module _ (x : Context) (db db' : WorkDb) (r : Request) (w : Item) (ch : Change) where
  edit-Changed :
      Workable w.lifecycle
      → edit x db r (next_item w) ≡ ok (ch, db')
      → Changed work_edit w db ch db'
  unfolding edit
  edit-Changed p h =
      let (d, e, h1) = >>=-eq-ok (insert_scope _ _ _ _ _ _) _ h in
      returned work_edit w db db' d ch _
        (record {
          step = step_edit (stage_of w) p;
          store_eq = refl;
          id_eq = refl;
          leaves = insert_scope-Leaves _ db d _ _ _ _ e;
        })
        h1

  start-Changed :
      Workable w.lifecycle
      → valid_lifecycle r.lifecycle ≡ true
      → start x db r (next_epoch w) ≡ ok (ch, db')
      → Changed work_start w db ch db'
  unfolding start advance
  start-Changed p v h =
      let (u, _, h1) = >>=-eq-ok (check_role x db r _) _ h in
      let ((l, claims), e, h2) =
        >>=-eq-ok
          (acquire db.claims x.store w.work_id x.caller.consumer (w.progress_epoch + 1)
            (list_of r.resources) x.now (or_default r.lease_seconds))
          _ h1 in
      let a = acquire-Acquired _ _ _ _ _ _ _ _ l claims e in
      returned work_start w db db' _ ch _
        (record {
          step =
              step_start (stage_of w) (lifecycle_or r.lifecycle) p
                (lifecycle_or-Ongoing r.lifecycle v);
          store_eq = refl;
          id_eq = refl;
          leaves = acquired-heads db _ x.store a.writes.g (
              same_item_stores claims x.store l.generation r.actor
              ∙ ap (λ (d : Db). d.memory_stores) a.writes.after);
        })
        h2

  renew_for-Leaves : (e : WorkDb) → renew_for x db r w ≡ ok e → Leaves db e
  unfolding renew_for with_sessions
  renew_for-Leaves e h = by_renewal r.renew_for refl
    where
      by_renewal : (o : Option ℕ) → r.renew_for ≡ o → Leaves db e
      by_renewal none q = subst (Leaves db) (ok_inj _ _ (rw (q, renew_for) at h)) (Leaves_refl db)
      by_renewal (some n) q =
          let (b, _, h1) = >>=-eq-ok (owner _ _ _ _ _ _) _ (rw (q, renew_for) at h) in
          let ((l, claims), f, h2) = >>=-eq-ok (renew _ _ _ _ _ _ _ _ _) _ h1 in
          let u = renew-update _ _ claims _ _ _ _ _ _ _ l f in
          subst (Leaves db) (ok_inj _ _ h2)
            (stores-Leaves db claims (update-stores _ claims x.store (int r.claim_generation) u))

  close-Changed :
      (kind : _) (v : Item) (op : Op)
      → Step op (stage_of w) (stage_of v)
      → v.store ≡ w.store
      → v.work_id ≡ w.work_id
      → close x db r kind v ≡ ok (ch, db')
      → Changed op w db ch db'
  unfolding close
  close-Changed kind v op p a b h =
      let (u, _, h1) = >>=-eq-ok (check_checkout x db r) _ h in
      let (claims, e, h2) = >>=-eq-ok (release _ _ _ _ _ _) _ h1 in
      let k = release-update _ _ _ _ _ _ _ e in
      returned op w db db' _ ch _
        (record {
          step = p;
          store_eq = a;
          id_eq = b;
          leaves =
              stores-Leaves db claims (
                sym (ap (λ (d : Db). d.memory_stores) k)
                ∙ (unfold end_claim update_bundle in refl));
        })
        h2

  report-Changed :
      Workable w.lifecycle
      → report x db r (next_item w) ≡ ok (ch, db')
      → Changed work_report w db ch db'
  unfolding report
  report-Changed p h =
      let (u, _, h1) = >>=-eq-ok (reserve_verdict x db _) _ h in
      let (claims, e, h2) = >>=-eq-ok (release _ _ _ _ _ _) _ h1 in
      let (role, _, h3) = >>=-eq-ok (participant_role x db) _ h2 in
      let k = release-update _ _ _ _ _ _ _ e in
      returned work_report w db db' _ ch _
        (record {
          step = step_report (stage_of w) p;
          store_eq = refl;
          id_eq = refl;
          leaves =
              stores-Leaves db claims (
                sym (ap (λ (d : Db). d.memory_stores) k)
                ∙ (unfold end_claim update_bundle in refl));
        })
        h3

  reject-Changed :
      w.lifecycle ≡ reported
      → reject x db r (next_item w) ≡ ok (ch, db')
      → Changed work_reject w db ch db'
  unfolding reject
  reject-Changed p h =
      let (d, e, h1) = >>=-eq-ok (insert_scope _ _ _ _ _ _) _ h in
      returned work_reject w db db' d ch _
        (record {
          step = step_reject (stage_of w) p;
          store_eq = refl;
          id_eq = refl;
          leaves = insert_scope-Leaves _ db d _ _ _ _ e;
        })
        h1

  accept-Changed :
      w.lifecycle ≡ reported
      → accept x db r (next_item w) ≡ ok (ch, db')
      → Changed work_accept w db ch db'
  unfolding accept
  accept-Changed p h =
      returned work_accept w db db' db ch _
        (record {
          step = step_accept (stage_of w) p;
          store_eq = refl;
          id_eq = refl;
          leaves = Leaves_refl db;
        })
        h

module _ (x : Context) (db db' : WorkDb) (r : Request) (w : Item) (ch : Change) where
  update-Changed :
      Workable w.lifecycle
      → valid_lifecycle r.lifecycle ≡ true
      → update x db r (next_epoch w) ≡ ok (ch, db')
      → Changed work_update w db ch db'
  unfolding update advance
  update-Changed p v h =
      let (claims, e, h1) = >>=-eq-ok (progress _ _ _ _ _ _ _) _ h in
      let (d, f, h2) =
        >>=-eq-ok (renew_for x (record db { claims = claims }) r (next_epoch w)) _ h1 in
      let u = progress-update _ claims _ _ _ _ _ _ e in
      returned work_update w db db' d ch _
        (record {
          step =
              step_update (stage_of w) (lifecycle_or r.lifecycle) p
                (lifecycle_or-Ongoing r.lifecycle v);
          store_eq = refl;
          id_eq = refl;
          leaves =
              Leaves_trans db (record db { claims = claims }) d
                (stores-Leaves db claims
                  (update-stores _ claims x.store (int r.claim_generation) u))
                (renew_for-Leaves x (record db { claims = claims }) db' r (next_epoch w) ch d f);
        })
        h2

  pub change-Changed :
      is_create r.op ≡ false
      → is_renew r.op ≡ false
      → admits_op r.op w.lifecycle ≡ true
      → valid_lifecycle r.lifecycle ≡ true
      → change x db r (next_item w) ≡ ok (ch, db')
      → Changed r.op w db ch db'
  unfolding change is_create is_renew work_verdict is_propose_op
  change-Changed a b p v h = by_op r.op refl
    where
      by_op : (o : Op) → r.op ≡ o → Changed o w db ch db'
      by_op work_create q = let k = rw q at a in cc
      by_op claim_renew q = let k = rw q at b in cc
      by_op work_propose q =
          returned work_propose w db db' db ch _
            (record {
              step = step_propose (stage_of w) (admits-unfinished r.op w.lifecycle p);
              store_eq = refl;
              id_eq = refl;
              leaves = Leaves_refl db;
            })
            (rw (q, change) at h)
      by_op work_edit q =
          edit-Changed x db db' r w ch (admits-Workable work_edit w.lifecycle refl refl (rw q at p))
            (rw (q, change) at h)
      by_op work_start q =
          start-Changed x db db' r w ch
            (admits-Workable work_start w.lifecycle refl refl (rw q at p)) v (rw (q, change) at h)
      by_op work_update q =
          update-Changed (admits-Workable work_update w.lifecycle refl refl (rw q at p)) v
            (rw (q, change) at h)
      by_op work_release q =
          close-Changed x db db' r w ch _ _ work_release
            (step_release (stage_of w)
              (admits-Workable work_release w.lifecycle refl refl (rw q at p)))
            refl refl (rw (q, change) at h)
      by_op work_finish q =
          close-Changed x db db' r w ch _ _ work_finish
            (step_finish (stage_of w)
              (admits-Workable work_finish w.lifecycle refl refl (rw q at p)))
            refl refl (rw (q, change) at h)
      by_op work_report q =
          report-Changed x db db' r w ch
            (admits-Workable work_report w.lifecycle refl refl (rw q at p)) (rw (q, change) at h)
      by_op work_accept q =
          accept-Changed x db db' r w ch (verdict-reported work_accept w.lifecycle refl (rw q at p))
            (rw (q, change) at h)
      by_op work_reject q =
          reject-Changed x db db' r w ch (verdict-reported work_reject w.lifecycle refl (rw q at p))
            (rw (q, change) at h)
