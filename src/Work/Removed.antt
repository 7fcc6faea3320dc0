-- ===== src/Work/Removed.antt =====
-- What reclaimFinished removes and what it keeps.
use koinon.Base.{
  ℕ, ◌≡◌, refl, sym, ap, subst, ◌∙◌, inl, inr, Bool, true, false, Option, none, some, List, [], ◌∷◌,
  GoString, arith, str_eq, if◌then◌else◌, select, In, In-select, Bool-cases, kept_iff, &&-true,
  str_eq_iff, ◌↔◌, first_row, update_rows,
}
use koinon.Failure.{ok, incompatible_store, guard, >>=-eq-ok, ok_inj}
use koinon.Claims.Rows.{Bundle, StoreRow}
use koinon.Claims.Queries.{bundle_for, is_store}
use koinon.Work.Rows.{Item, Event, Scope, WorkDb, Lifecycle, finished}
use koinon.Work.Views.{is_item, of_scope, has_passed}
use koinon.Work.Events.{is_finished}
use koinon.Work.Apply.{Context, head_of}
use koinon.Work.Leaves.{head_row, head_of-row}
use koinon.Work.Maintenance.{is_expired, of_event}
use koinon.Work.Reclaiming.{
  oldest, comes_before, keeps_bounds, is_consistent, remove_item, raise_floor, reclaim_item,
  reclaim_finished,
}

-- The chosen item is one of the rows.
oldest-In : (rows : List Item) (w : Item) → oldest rows ≡ some w → In w rows
unfolding oldest
oldest-In [] w h = cc
oldest-In (v ∷ rows) w h = by_rest (λ u. oldest-In rows u) (oldest rows) refl
  where
    by_rest :
        ((u : Item) → oldest rows ≡ some u → In u rows)
        → (o : Option Item) → oldest rows ≡ o
        → In w (v ∷ rows)
    by_rest ih none e = let k : some v ≡ some w = rw (e, oldest) at h in inl (cc)
    by_rest ih (some u) e =
        let k : some (if comes_before u v then u else v) ≡ some w = rw (e, oldest) at h in
        elim (Bool-cases (comes_before u v)) [
          | inl b ↦ let l = rw b at k in inr (ih w (e ∙ l))
          | inr b ↦ let l = rw b at k in inl (cc)
        ]

-- The floor is not the head.
raised-heads :
    (store : GoString) (n : ℕ) (rows : List StoreRow) (s : GoString)
    → head_row (first_row (is_store s) (update_rows (is_store store) (raise_floor n) rows))
      ≡ head_row (first_row (is_store s) rows)
unfolding first_row update_rows is_store
raised-heads store n [] s = refl
raised-heads store n (r ∷ rows) s = ground (arith, raised-heads store n rows s)

is_finished-eq : (p : Lifecycle) → is_finished p ≡ true → p ≡ finished
unfolding is_finished
is_finished-eq p h = ground arith

is_expired-facts :
    (store : GoString) (now : Option ℕ) (w : Item)
    → is_expired store now w ≡ true
    → (w.store ≡ store)
      × (w.lifecycle ≡ finished)
      × ((t : ℕ) → now ≡ some t → has_passed w.expires_at t ≡ true)
unfolding is_expired
is_expired-facts store none w h =
    let (a, b) = &&-true (str_eq w.store store) (is_finished w.lifecycle) h in
    ((str_eq_iff w.store store).0 a, is_finished-eq w.lifecycle b, λ t e. cc)
is_expired-facts store (some n) w h =
    let (a, b) = &&-true (str_eq w.store store) _ h in
    let (c, d) = &&-true (is_finished w.lifecycle) (has_passed w.expires_at n) b in
    (
      (str_eq_iff w.store store).0 a,
      is_finished-eq w.lifecycle c,
      λ t e. let q : n ≡ t = cc in subst (λ z. has_passed w.expires_at z ≡ true) q d,
    )

-- What a removal leaves of the tables.
pub record Removed (db db' : WorkDb) (w : Item) : Type 0 where
  pub items : (v : Item) → In v db'.items ↔ (In v db.items × (is_item w.store w.work_id v ≡ false))
  pub scopes :
      (v : Scope) → In v db'.scopes ↔ (In v db.scopes × (of_scope w.store w.work_id v ≡ false))
  pub events :
      (v : Event) → In v db'.events ↔ (In v db.events × (of_event w.store w.work_id v ≡ false))
  pub heads : (s : GoString) → head_of db' s ≡ head_of db s
  pub bundles : db'.claims.bundles ≡ db.claims.bundles
  pub replays : db'.replays ≡ db.replays

remove_item-Removed :
    (db : WorkDb) (repository : GoString) (w : Item) → Removed db (remove_item db repository w) w
unfolding remove_item
remove_item-Removed db repository w = record {
  items = λ v. kept_iff (is_item w.store w.work_id) v db.items;
  scopes = λ v. kept_iff (of_scope w.store w.work_id) v db.scopes;
  events = λ v. kept_iff (of_event w.store w.work_id) v db.events;
  heads = λ s.
      head_of-row (remove_item db repository w) s
      ∙ raised-heads w.store _ db.claims.memory_stores s
      ∙ sym (head_of-row db s);
  bundles = refl;
  replays = refl;
}

reclaim_item-Removed :
    (x : Context) (db db' : WorkDb) (w : Item)
    → reclaim_item x db w ≡ ok (true, db')
    → (bundle_for db.claims w.store w.work_id ≡ none) × Removed db db' w
unfolding reclaim_item
reclaim_item-Removed x db db' w h = by_claim (bundle_for db.claims w.store w.work_id) refl
  where
    by_claim :
        (o : Option Bundle)
        → bundle_for db.claims w.store w.work_id ≡ o
        → (bundle_for db.claims w.store w.work_id ≡ none) × Removed db db' w
    by_claim none e =
        let (a, _, h1) =
          >>=-eq-ok (guard (keeps_bounds x.limits db w) incompatible_store) _
            (rw (e, reclaim_item) at h) in
        let (b, _, h2) =
          >>=-eq-ok (guard (is_consistent db x.caller.repository w) incompatible_store) _ h1 in
        (
          e,
          subst (λ (z : WorkDb). Removed db z w) (ap (λ (z : Bool × WorkDb). z.1) (ok_inj _ _ h2))
              (remove_item-Removed db x.caller.repository w),
        )
    by_claim (some b) e = elim (Bool-cases b.active) [
      | inl c ↦ let k = rw (e, c, reclaim_item) at h in cc
      | inr c ↦ let k = rw (e, c, reclaim_item) at h in cc
    ]

-- When reclaimFinished removes an item, it was a finished item of the store, expired where a time is
-- given, without a claim. Its row, its scope history and its events are gone; every other
-- item, scope revision and event stays, and so do the heads of the stores, the claims and the replay results.
pub reclaim_finished-Removed :
    (x : Context) (db db' : WorkDb) (store : GoString) (now : Option ℕ)
    → reclaim_finished x db store now ≡ ok (true, db')
    → (w : Item) × In w db.items
      × (w.store ≡ store)
      × (w.lifecycle ≡ finished)
      × ((t : ℕ) → now ≡ some t → has_passed w.expires_at t ≡ true)
      × (bundle_for db.claims w.store w.work_id ≡ none)
      × Removed db db' w
unfolding reclaim_finished
reclaim_finished-Removed x db db' store now h =
    by_oldest (oldest (select (is_expired store now) db.items)) refl
  where
    by_oldest :
        (o : Option Item)
        → oldest (select (is_expired store now) db.items) ≡ o
        → (w : Item) × In w db.items
          × (w.store ≡ store)
          × (w.lifecycle ≡ finished)
          × ((t : ℕ) → now ≡ some t → has_passed w.expires_at t ≡ true)
          × (bundle_for db.claims w.store w.work_id ≡ none)
          × Removed db db' w
    by_oldest none e = let k = rw (e, reclaim_finished) at h in cc
    by_oldest (some w) e =
        let (i, p) = In-select (is_expired store now) w db.items (oldest-In _ w e) in
        let (a, b, c) = is_expired-facts store now w p in
        let (d, r) = reclaim_item-Removed x db db' w (rw (e, reclaim_finished) at h) in
        (w, i, a, b, c, d, r)
