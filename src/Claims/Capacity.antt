-- ===== src/Claims/Capacity.antt =====
-- The limits on retained bundles: sixteen in a store, thirty-two in all stores together.
use koinon.Base.{
  ℕ, ◌+◌, ◌*◌, ◌<◌, ◌≤◌, ◌≡◌, refl, ap, sym, ◌∙◌, str_eq_iff, subst, inl, inr, Bool, false, ◌||◌,
  List, [], ◌∷◌, ◌++◌, arith, GoString, length, str_eq, select, update_rows, order_by, Bool-cases,
  length-append, length-update_rows, length-delete_rows, length-order_by, select-append,
  length-select-update_rows, length-select-delete_rows,
}
use koinon.Resource.{Resource}
use koinon.Claims.Rows.{
  Bundle, StoreRow, CycleRow, Db, Lease, second, max_bundles, max_daemon_bundles,
}
use koinon.Claims.Queries.{at_generation, in_store, generation}
use koinon.Claims.Cycles.{protect_cycle_claims, store_of, cycle_claim_grace, extends}
use koinon.Claims.Engine.{end_claim, update_bundle, delete_bundle, new_bundle}
use koinon.Claims.Acquired.{Acquired, acquire-Acquired}
use koinon.Claims.Updates.{
  renew-update, progress-update, overdue-update, expire-update, release-update, reclaim_one-update,
}
use koinon.Claims.Steps.{
  Step, tick, acquired, renewed, progressed, went_overdue, expired, released, reclaimed, protected,
  elsewhere, Reach, here, next, no_claims,
}

pub record IsWithin (db : Db) : Type 0 where
  pub daemon : length db.bundles ≤ max_daemon_bundles
  pub store : (s : GoString) → length (select (in_store s) db.bundles) ≤ max_bundles

-- An update that leaves each bundle in its store.
update-IsWithin :
    (db db' : Db) (p : Bundle → Bool) (f : Bundle → Bundle)
    → ((b : Bundle) → (f b).store ≡ b.store)
    → db'.bundles ≡ update_rows p f db.bundles
    → IsWithin db
    → IsWithin db'
unfolding in_store
update-IsWithin db db' p f keeps e h = record {
  daemon = rw e (let n = length-update_rows p f db.bundles in omega (arith, n, h.daemon));
  store = λ s. rw e (
      let n = length-select-update_rows (in_store s) p f db.bundles (λ b _. rw (keeps b) refl) in
      let le = h.store s in omega (arith, n, le));
}

same-IsWithin : (db db' : Db) → db'.bundles ≡ db.bundles → IsWithin db → IsWithin db'
same-IsWithin db db' e h = record { daemon = rw e h.daemon; store = λ s. rw e (h.store s) }

acquire-IsWithin :
    (db : Db) (store work_id consumer : GoString) (epoch : ℕ) (optional : List Resource)
    (now duration : ℕ) (l : Lease) (db' : Db)
    → Acquired db store work_id consumer epoch optional now duration l db'
    → IsWithin db
    → IsWithin db'
unfolding new_bundle select in_store
acquire-IsWithin db store work_id consumer epoch optional now duration l db' a h =
    let b = new_bundle store a.writes.g work_id consumer epoch now (now + duration * second) in
    let e : db'.bundles ≡ db.bundles ++ b ∷ [] = ap (λ (d : Db). d.bundles) a.writes.after in
    record {
      daemon = rw e (
          let n = length-append db.bundles (b ∷ []) in
          let r = a.daemon_room in omega (arith, n, r));
      store = λ s. rw e (
          rw (select-append (in_store s) db.bundles (b ∷ [])) (elim (Bool-cases (in_store s b)) [
            | inl mine ↦ rw mine (
                let n = length-append (select (in_store s) db.bundles) (b ∷ []) in
                let o = length-order_by generation (select (in_store s) db.bundles) in
                let r = room_of s ((str_eq_iff store s).0 (unfold in_store in mine)) in
                omega (arith, n, o, r))
            | inr other ↦ rw other (
                let n = length-append (select (in_store s) db.bundles) [] in
                let le = h.store s in omega (arith, n, le))
          ]));
    }
  where
    room_of :
        (s : GoString)
        → store ≡ s
        → length (order_by generation (select (in_store s) db.bundles)) < max_bundles
    room_of s e =
        subst (λ t. length (order_by generation (select (in_store t) db.bundles)) < max_bundles) e
          a.room

at_bundle :
    (db : Db) (store : GoString) (g : ℕ) (f : Bundle → Bundle)
    → ((b : Bundle) → (f b).store ≡ b.store)
    → IsWithin db
    → IsWithin (update_bundle db store g f)
unfolding update_bundle
at_bundle db store g f keeps h =
    update-IsWithin db (update_bundle db store g f) (at_generation store g) f keeps refl h

ended : (db : Db) (store : GoString) (g : ℕ) → IsWithin db → IsWithin (end_claim db store g)
unfolding end_claim
ended db store g h =
    at_bundle db store g
      (λ o. record o { active = false; overdue_credit = false; end_credit = false }) (λ b. refl) h

deleted : (db : Db) (store : GoString) (g : ℕ) → IsWithin db → IsWithin (delete_bundle db store g)
unfolding delete_bundle
deleted db store g h = record {
  daemon =
      let n = length-delete_rows (at_generation store g) db.bundles in omega (arith, n, h.daemon);
  store = λ s.
      let n = length-select-delete_rows (in_store s) (at_generation store g) db.bundles in
      let le = h.store s in omega (arith, n, le);
}

protected-IsWithin :
    (digest : GoString → GoString → GoString) (db : Db) (c : CycleRow) (repository : GoString)
    (ms : ℕ)
    → IsWithin db
    → IsWithin (protect_cycle_claims digest db c repository ms)
unfolding protect_cycle_claims
protected-IsWithin digest db c repository ms h =
    let store = store_of db repository in
    let floor = c.cycle_deadline * 1_000_000 + cycle_claim_grace * second in
    elim (Bool-cases (str_eq repository [] || str_eq store [])) [
      | inl e ↦ rw e h
      | inr e ↦ rw e (
          update-IsWithin db _
            (extends digest db.context_cycles store (ms * 1_000_000) floor c.cycle_id)
            (λ b. record b { expires_at = floor }) (λ b. refl) refl h)
    ]

pub Step-IsWithin :
    (digest : GoString → GoString → GoString) {db db' : Db} {now later : ℕ}
    → Step digest db now db' later
    → IsWithin db
    → IsWithin db'
Step-IsWithin digest (tick le) h = h
Step-IsWithin digest {db = db} {db' = db'} {now = now}
      (acquired store work_id consumer epoch optional duration l e) h =
    acquire-IsWithin db store work_id consumer epoch optional now duration l db'
      (acquire-Acquired db store work_id consumer epoch optional now duration l db' e) h
Step-IsWithin digest {db = db} {db' = db'} {now = now}
      (renewed store work_id consumer g revision duration l e) h =
    let (f, k, u) = renew-update digest db db' store work_id consumer g revision now duration l e in
    subst IsWithin u (at_bundle db store g f k h)
Step-IsWithin digest {db = db} {db' = db'} {now = now} (progressed store work_id consumer g epoch e)
      h =
    let (f, k, u) = progress-update db db' store work_id consumer g epoch now e in
    subst IsWithin u (at_bundle db store g f k h)
Step-IsWithin digest {db = db} {db' = db'} {now = now} (went_overdue store g epoch spent e) h =
    elim (overdue-update db db' store g epoch spent e) [
      | inl u ↦ subst IsWithin u h
      | inr (f, k, u) ↦ subst IsWithin u (at_bundle db store g f k h)
    ]
Step-IsWithin digest {db = db} {now = now} (expired store g e) h =
    elim (expire-update db store g now) [
      | inl u ↦ subst IsWithin (sym (e ∙ u)) h
      | inr u ↦ subst IsWithin (sym (e ∙ u)) (ended db store g h)
    ]
Step-IsWithin digest {db = db} {db' = db'} {now = now} (released store work_id consumer g e) h =
    subst IsWithin (release-update db db' store work_id consumer g now e) (ended db store g h)
Step-IsWithin digest {db = db} {db' = db'} {now = now} (reclaimed store any e) h =
    elim (reclaim_one-update db db' store any e) [
      | inl u ↦ subst IsWithin u h
      | inr (g, u) ↦ subst IsWithin u (deleted db store g h)
    ]
Step-IsWithin digest {db = db} {db' = db'} {now = now} (protected c repository ms t e) h =
    subst IsWithin (sym e) (protected-IsWithin digest db c repository ms h)
Step-IsWithin digest {db = db} {now = now} (elsewhere cycles sessions) h = record {
  daemon = h.daemon;
  store = h.store;
}

-- After any sequence of operations that starts with no claim, a store retains at most sixteen
-- bundles and all stores together at most thirty-two, ended bundles included.
pub retained_bounded :
    (digest : GoString → GoString → GoString) (stores : List StoreRow) {db : Db} {now : ℕ}
    → Reach digest (no_claims stores) db now
    → (length db.bundles ≤ max_daemon_bundles)
      × ((s : GoString) → length (select (in_store s) db.bundles) ≤ max_bundles)
unfolding select
retained_bounded digest stores here = (omega arith, λ s. omega arith)
retained_bounded digest stores (next r s) =
    let (d, t) = retained_bounded digest stores r in
    let w = Step-IsWithin digest s (record { daemon = d; store = t }) in (w.daemon, w.store)
