-- ===== src/Work/Reconciled.antt =====
-- reconcile leaves nothing due: a second one changes nothing.
use koinon.Base.{
  ℕ, ◌+◌, ◌≡◌, refl, sym, ap, subst, ◌∙◌, inl, inr, Bool, true, false, not, Option, none, some,
  List, [], ◌∷◌, GoString, arith, str_eq, str_eq_iff, ◌==◌, ==_iff, ==_refl, leb, ltb,
  if◌then◌else◌, first_row, update_rows, first_row-In, first_row-none, Option-cases, Bool-cases,
  &&-true,
}
use koinon.Failure.{ok, >>=-eq-ok, ok_inj}
use koinon.Claims.Rows.{Bundle, StoreRow, Db}
use koinon.Claims.Queries.{bundle_for, is_store, of_item, at_generation}
use koinon.Claims.Cycles.{store_of, of_repository}
use koinon.Claims.Engine.{expire, overdue, end_claim, update_bundle}
use koinon.Claims.Invariant.{IsSound}
use koinon.Work.Rows.{Item, WorkDb, EventKind, due_progress_overdue, due_lease_expired}
use koinon.Work.Views.{current, is_item, has_passed}
use koinon.Work.Events.{event}
use koinon.Work.Apply.{Context, plain}
use koinon.Work.Stages.{Stage}
use koinon.Work.Recording.{event-Recorded, bump}
use koinon.Work.Refinement.{with_seq-keeps, current-found, is_item-eq, eq-is_item, replaced-found}
use koinon.Work.Maintenance.{
  daemon_caller, record_due, settle_expired, settle_overdue, is_overdue, settle, reconcile,
}

-- A row that is found is found again, changed, after a change that does not matter to the query.
changed-found :
    {A : Type 0} (q p : A → Bool) (f : A → A) (rows : List A) (b : A)
    → ((v : A) → q (f v) ≡ q v)
    → first_row q rows ≡ some b
    → first_row q (update_rows p f rows) ≡ some (if p b then f b else b)
unfolding first_row update_rows
changed-found q p f [] b k h = cc
changed-found q p f (v ∷ rows) b k h = ground (arith, k v, changed-found q p f rows b k)

-- The claim of an item is the bundle of its generation.
held_generation :
    (claims : Db) (store work_id : GoString) (now : ℕ) (b : Bundle)
    → IsSound claims now
    → bundle_for claims store work_id ≡ some b
    → (at_generation store b.generation b ≡ true)
      × (first_row (at_generation store b.generation) claims.bundles ≡ some b)
unfolding bundle_for at_generation of_item
held_generation claims store work_id now b s h =
    let (i, e) = first_row-In (of_item store work_id) b claims.bundles h in
    let (c, _) = &&-true (str_eq b.store store) (str_eq b.work_id work_id) e in
    let own : at_generation store b.generation b ≡ true = rw (c, ==_refl b.generation) refl in
    (
      own,
      elim (Option-cases (first_row (at_generation store b.generation) claims.bundles)) [
        | inl n ↦ let k = first_row-none _ b claims.bundles n i in cc (own, k)
        | inr (d, f) ↦
            let (j, g) = first_row-In (at_generation store b.generation) d claims.bundles f in
            let (ds, dg) = &&-true (str_eq d.store store) (d.generation == b.generation) g in
            let same : d.store ≡ b.store =
              (str_eq_iff d.store store).0 ds ∙ sym ((str_eq_iff b.store store).0 c) in
            f ∙ ap some (s.unique d b j i same ((==_iff d.generation b.generation).0 dg))
      ],
    )

abbrev id_of : Option StoreRow → GoString
id_of none = []
id_of (some s) = s.store_id

bumped-ids :
    (store repository : GoString) (rows : List StoreRow)
    → id_of (first_row (of_repository repository) (update_rows (is_store store) bump rows))
      ≡ id_of (first_row (of_repository repository) rows)
unfolding first_row update_rows of_repository
bumped-ids store repository [] = refl
bumped-ids store repository (r ∷ rows) = ground (arith, bumped-ids store repository rows)

store_of-row :
    (claims : Db) (repository : GoString)
    → store_of claims repository ≡ id_of (first_row (of_repository repository) claims.memory_stores)
unfolding store_of
store_of-row claims repository = ground arith

bumped-store_of :
    (claims after : Db) (store repository : GoString)
    → after.memory_stores ≡ update_rows (is_store store) bump claims.memory_stores
    → store_of after repository ≡ store_of claims repository
bumped-store_of claims after store repository e =
    store_of-row after repository
    ∙ ap (λ rows. id_of (first_row (of_repository repository) rows)) e
    ∙ bumped-ids store repository claims.memory_stores
    ∙ sym (store_of-row claims repository)

-- What the event of a due transition leaves.
record Due (x : Context) (db db' : WorkDb) (store work_id : GoString) (w : Item) : Type 0 where
  item : Item
  found : current db' store work_id x.now ≡ ok item
  epoch_eq : item.progress_epoch ≡ w.progress_epoch
  bundles : bundle_for db'.claims store work_id ≡ bundle_for db.claims store work_id
  store_eq : store_of db'.claims x.caller.repository ≡ store_of db.claims x.caller.repository

record_due-Due :
    (x : Context) (db db' : WorkDb) (store work_id : GoString) (kind : EventKind) (w v : Item)
    (consumer : GoString)
    → current db store work_id x.now ≡ ok v
    → w.store ≡ v.store
    → w.work_id ≡ v.work_id
    → w.expires_at ≡ v.expires_at
    → record_due x db store kind w consumer ≡ ok db'
    → Due x db db' store work_id w
unfolding record_due bundle_for current
record_due-Due x db db' store work_id kind w v consumer c ws wi we h =
    let ((u, d), e, h1) =
      >>=-eq-ok
        (event x.codec db store (daemon_caller x.caller.repository) (plain kind w) consumer none
          x.now)
        _ h in
    let r =
      event-Recorded x.codec db d store (daemon_caller x.caller.repository) (plain kind w) consumer
        none x.now u e in
    let (ks, kst, kid, _, _, kexp) = with_seq-keeps kind (r.head + 1) w in
    let (f, late) = current-found db store work_id x.now v c in
    let (vs, vi) = is_item-eq store work_id v (first_row-In _ v db.items f).1 in
    let st : u.store ≡ store = ap (λ (z : Item). z.store) r.item_eq ∙ kst ∙ ws ∙ vs in
    let id : u.work_id ≡ work_id = ap (λ (z : Item). z.work_id) r.item_eq ∙ kid ∙ wi ∙ vi in
    let exp : u.expires_at ≡ v.expires_at = ap (λ (z : Item). z.expires_at) r.item_eq ∙ kexp ∙ we in
    let final = sym (ok_inj _ _ h1) ∙ r.db_eq in
    let items : first_row (is_item store work_id) db'.items ≡ some u =
      ap (λ (z : WorkDb). first_row (is_item store work_id) z.items) final
      ∙ (rw (st, id)
          (replaced-found (is_item store work_id) v u db.items f
            (eq-is_item store work_id u st id))) in
    let ontime : has_passed u.expires_at x.now ≡ false = rw exp late in
    record {
      item = u;
      found = rw (current, items, ontime) refl;
      epoch_eq = ap (λ (z : Item). z.progress_epoch) r.item_eq ∙ ap (λ (z : Stage). z.epoch) ks;
      bundles = ap (λ (z : WorkDb). first_row (of_item store work_id) z.claims.bundles) final;
      store_eq =
          bumped-store_of db.claims db'.claims store x.caller.repository
            (ap (λ (z : WorkDb). z.claims.memory_stores) final);
    }

-- the claim after the end of its lease, and after its overdue progress
abbrev ended : Bundle → Bundle
ended b = record b { active = false; overdue_credit = false; end_credit = false }

abbrev marked : Bundle → Bundle
marked b = record b { overdue_credit = false; overdue_recorded = true }

module _ (x : Context) (db db' : WorkDb) (store work_id : GoString) (w : Item) (b : Bundle)
    (s : IsSound db.claims x.now) (c : current db store work_id x.now ≡ ok w)
    (held : bundle_for db.claims store work_id ≡ some b) (active : b.active ≡ true) where
  -- the claim of the item after a change of its generation
  changed_claim :
      (f : Bundle → Bundle)
      → ((v : Bundle) → (f v).store ≡ v.store)
      → ((v : Bundle) → (f v).work_id ≡ v.work_id)
      → bundle_for (update_bundle db.claims store b.generation f) store work_id ≡ some (f b)
  unfolding bundle_for update_bundle of_item
  changed_claim f k l =
      let (own, _) = held_generation db.claims store work_id x.now b s held in
      changed-found (of_item store work_id) (at_generation store b.generation) f db.claims.bundles b
        (λ v. rw (k v, l v) refl) held
      ∙ (rw own refl)

  expired_claim :
      leb b.expires_at x.now ≡ true
      → (expire db.claims store b.generation x.now).1 ≡ end_claim db.claims store b.generation
  unfolding expire
  expired_claim late =
      let (_, f) = held_generation db.claims store work_id x.now b s held in
      let early : ltb x.now b.expires_at ≡ false = ground (arith, late) in
      rw (expire, f, active, early) refl

  overdue_claim :
      (b.progress_epoch == w.progress_epoch) ≡ true
      → is_overdue w b x.now ≡ true
      → (spent : Bool) (claims : Db)
      → overdue db.claims store b.generation w.progress_epoch ≡ ok (spent, claims)
      → claims ≡ update_bundle db.claims store b.generation marked
  unfolding overdue is_overdue
  overdue_claim epoch due spent claims h =
      let (_, f) = held_generation db.claims store work_id x.now b s held in
      let (_, t) = &&-true (has_passed w.progress_deadline x.now) (not b.overdue_recorded) due in
      let fresh : b.overdue_recorded ≡ false = ground (arith, t) in
      let k = rw (f, active, fresh, epoch, overdue) at h in
      sym (ap (λ (z : Bool × Db). z.1) (ok_inj _ _ k))

  settle_expired-settle :
      leb b.expires_at x.now ≡ true
      → settle_expired x db store w b ≡ ok db'
      → (v : Item) × (current db' store work_id x.now ≡ ok v)
        × (store_of db'.claims x.caller.repository ≡ store_of db.claims x.caller.repository)
        × (settle x db' store v (bundle_for db'.claims store work_id) ≡ ok db')
  unfolding settle_expired settle end_claim update_bundle current store_of
  settle_expired-settle late h =
      let e = expired_claim late in
      let d =
        record_due-Due x (record db { claims = (expire db.claims store b.generation x.now).1 }) db'
          store work_id due_lease_expired
          (record w { revision = w.revision + 1; lease_expired = true }) w b.consumer c refl refl
          refl h in
      let claim : bundle_for db'.claims store work_id ≡ some (ended b) =
        d.bundles
        ∙ ap (λ z. bundle_for z store work_id) e
        ∙ changed_claim ended (λ v. refl) (λ v. refl) in
      (
        d.item,
        d.found,
        d.store_eq ∙ ap (λ z. store_of z x.caller.repository) e,
        rw (claim, settle) refl,
      )

  no_more : (v : Item) → is_overdue v (marked b) x.now ≡ false
  unfolding is_overdue
  no_more v = ground arith

  settle_overdue-settle :
      (b.progress_epoch == w.progress_epoch) ≡ true
      → leb b.expires_at x.now ≡ false
      → is_overdue w b x.now ≡ true
      → settle_overdue x db store w b ≡ ok db'
      → (v : Item) × (current db' store work_id x.now ≡ ok v)
        × (store_of db'.claims x.caller.repository ≡ store_of db.claims x.caller.repository)
        × (settle x db' store v (bundle_for db'.claims store work_id) ≡ ok db')
  unfolding settle_overdue settle update_bundle is_overdue current store_of
  settle_overdue-settle epoch live due h =
      let ((spent, claims), f, h1) =
        >>=-eq-ok (overdue db.claims store b.generation w.progress_epoch) _ h in
      let e = overdue_claim epoch due spent claims f in
      let d =
        record_due-Due x (record db { claims = claims }) db' store work_id due_progress_overdue
          (record w { revision = w.revision + 1 }) w b.consumer c refl refl refl h1 in
      let claim : bundle_for db'.claims store work_id ≡ some (marked b) =
        d.bundles
        ∙ ap (λ z. bundle_for z store work_id) e
        ∙ changed_claim marked (λ v. refl) (λ v. refl) in
      let same : (b.progress_epoch == d.item.progress_epoch) ≡ true = rw d.epoch_eq epoch in
      (
        d.item,
        d.found,
        d.store_eq ∙ ap (λ z. store_of z x.caller.repository) e,
        rw (claim, settle, active, same, live) (rw (no_more d.item) refl),
      )

-- a settled item, found again and settled again
abbrev Settled : Context → WorkDb → WorkDb → GoString → GoString → Type 0
Settled x db db' store work_id =
    (v : Item) × (current db' store work_id x.now ≡ ok v)
    × (store_of db'.claims x.caller.repository ≡ store_of db.claims x.caller.repository)
    × (settle x db' store v (bundle_for db'.claims store work_id) ≡ ok db')

settle-Settled :
    (x : Context) (db db' : WorkDb) (store work_id : GoString) (w : Item)
    → IsSound db.claims x.now
    → current db store work_id x.now ≡ ok w
    → settle x db store w (bundle_for db.claims store work_id) ≡ ok db'
    → Settled x db db' store work_id
unfolding settle settle_expired is_overdue settle_overdue
settle-Settled x db db' store work_id w s c h = by_claim (bundle_for db.claims store work_id) refl
  where
    unchanged : db ≡ db' → Settled x db db' store work_id
    unchanged e = subst (λ z. Settled x db z store work_id) e (w, c, refl, h ∙ ap ok (sym e))

    by_claim :
        (o : Option Bundle)
        → bundle_for db.claims store work_id ≡ o
        → Settled x db db' store work_id
    by_claim none e = unchanged (ok_inj _ _ (rw (e, settle) at h))
    by_claim (some b) e =
        let k = rw (e, settle) at h in
        elim (Bool-cases b.active) [
          | inr a ↦ unchanged (ok_inj _ _ (rw a at k))
          | inl a ↦ elim (Bool-cases (b.progress_epoch == w.progress_epoch)) [
            | inr p ↦ let l = rw (a, p) at k in cc
            | inl p ↦ elim (Bool-cases (leb b.expires_at x.now)) [
              | inl t ↦
                  settle_expired-settle x db db' store work_id w b s c e a t (rw (a, p, t) at k)
              | inr t ↦ elim (Bool-cases (is_overdue w b x.now)) [
                | inl d ↦
                    settle_overdue-settle x db db' store work_id w b s c e a p t d
                      (rw (a, p, t, d) at k)
                | inr d ↦ unchanged (ok_inj _ _ (rw (a, p, t, d) at k))
              ]
            ]
          ]
        ]

-- With sound claim tables, a reconcile that succeeds leaves nothing due: another one at the same time
-- succeeds and changes nothing, so that a due transition is recorded once.
pub reconcile_idempotent :
    (x : Context) (db db' : WorkDb) (work_id : GoString)
    → IsSound db.claims x.now
    → reconcile x db work_id ≡ ok db'
    → reconcile x db' work_id ≡ ok db'
unfolding reconcile
reconcile_idempotent x db db' work_id s h =
    elim (Bool-cases (str_eq (store_of db.claims x.caller.repository) [])) [
      | inl e ↦
          let q : db ≡ db' = ok_inj _ _ (rw (e, reconcile) at h) in
          subst (λ z. reconcile x z work_id ≡ ok z) q (rw (reconcile, e) refl)
      | inr e ↦
          let (w, c, k) =
            >>=-eq-ok (current db (store_of db.claims x.caller.repository) work_id x.now) _
              (rw (e, reconcile) at h) in
          let (v, f, q, t) =
            settle-Settled x db db' (store_of db.claims x.caller.repository) work_id w s c k in
          rw (reconcile, q, e, f) t
    ]
