-- ===== src/Work/Credits.antt =====
-- The pending verdicts of a table of items, and a change of one row (internal/core/work_verdict.go).
use koinon.Base.{
  suc, ◌≡◌, ◌≤◌, ◌<◌, refl, sym, ap, subst, ◌∙◌, Bool, true, false, ◌⊎◌, inl, inr, some, List, map,
  GoString, arith, length, select, update_rows, first_row, str_eq, str_eq_iff, Bool-cases, In,
  In-update_rows, NoRepeat, first_row-In, ltb, ltb→lt, &&-true,
}
use koinon.Failure.{ok, capacity, guard, guard-eq-ok, >>=-eq-ok}
use koinon.Work.Rows.{Lifecycle, Item, Op, work_report, WorkDb}
use koinon.Work.Views.{is_item}
use koinon.Work.Apply.{Context, is_reported}
use koinon.Work.Closing.{
  reserve_verdict, has_credit, credit_in, max_store_verdicts, max_daemon_verdicts,
}
use koinon.Work.Stages.{
  Stage, Step, step_propose, step_edit, step_start, step_update, step_release, step_finish,
  step_report, step_accept, step_reject, Workable, workable_open, workable_active, workable_blocked,
  Ongoing, ongoing_active, ongoing_blocked,
}
use koinon.Work.Keyed.{same_row, keys-replaced, count-grows, count-kept}
use koinon.Work.Refinement.{is_item-eq}

abbrev pub key_of : Item → GoString × GoString
key_of w = (w.store, w.work_id)

pub record IsWithin (items : List Item) : Type 0 where
  pub keys : NoRepeat (map key_of items)
  -- a pending verdict is that of a reported item
  pub credited : (w : Item) → In w items → w.verdict_credit ≡ is_reported w.lifecycle
  pub store : (s : GoString) → length (select (credit_in s) items) ≤ max_store_verdicts
  pub daemon : length (select has_credit items) ≤ max_daemon_verdicts

Workable-unreported : (p : Lifecycle) → Workable p → is_reported p ≡ false
unfolding is_reported
Workable-unreported _ workable_open = refl
Workable-unreported _ workable_active = refl
Workable-unreported _ workable_blocked = refl

Ongoing-unreported : (p : Lifecycle) → Ongoing p → is_reported p ≡ false
unfolding is_reported
Ongoing-unreported _ ongoing_active = refl
Ongoing-unreported _ ongoing_blocked = refl

-- A step keeps the pending verdict to the phase `reported`.
pub Step-credited :
    (op : Op) (s t : Stage)
    → Step op s t
    → s.credit ≡ is_reported s.phase
    → t.credit ≡ is_reported t.phase
unfolding is_reported
Step-credited _ _ _ (step_propose s a) h = h
Step-credited _ _ _ (step_edit s a) h = h
Step-credited _ _ _ (step_start s p a b) h =
    h ∙ Workable-unreported s.phase a ∙ sym (Ongoing-unreported p b)
Step-credited _ _ _ (step_update s p a b) h =
    h ∙ Workable-unreported s.phase a ∙ sym (Ongoing-unreported p b)
Step-credited _ _ _ (step_release s a) h = h ∙ Workable-unreported s.phase a
Step-credited _ _ _ (step_finish s a) h = h ∙ Workable-unreported s.phase a
Step-credited _ _ _ (step_report s a) h = refl
Step-credited _ _ _ (step_accept s a) h = refl
Step-credited _ _ _ (step_reject s a) h = refl

-- Only a report makes a verdict pending.
pub Step-credit :
    (op : Op) (s t : Stage) → Step op s t → (t.credit ≡ true → s.credit ≡ true) ⊎ (op ≡ work_report)
Step-credit _ _ _ (step_propose s a) = inl (λ h. h)
Step-credit _ _ _ (step_edit s a) = inl (λ h. h)
Step-credit _ _ _ (step_start s p a b) = inl (λ h. h)
Step-credit _ _ _ (step_update s p a b) = inl (λ h. h)
Step-credit _ _ _ (step_release s a) = inl (λ h. h)
Step-credit _ _ _ (step_finish s a) = inl (λ h. h)
Step-credit _ _ _ (step_report s a) = inr refl
Step-credit _ _ _ (step_accept s a) = inl (λ h. cc)
Step-credit _ _ _ (step_reject s a) = inl (λ h. cc)

-- the room that a report found
unfoldable pub Room : List Item → GoString → Type 0
Room items store =
    (length (select (credit_in store) items) < max_store_verdicts)
    × (length (select has_credit items) < max_daemon_verdicts)

pub reserve_verdict-Room :
    (x : Context) (db : WorkDb) (work_id : GoString) (u : Unit {0})
    → reserve_verdict x db work_id ≡ ok u
    → Room db.items x.store
unfolding reserve_verdict Room
reserve_verdict-Room x db work_id u h =
    let (a, e, h1) =
      >>=-eq-ok
        (guard (ltb (length (select (credit_in x.store) db.items)) max_store_verdicts) capacity) _
        h in
    let (b, f, _) =
      >>=-eq-ok (guard (ltb (length (select has_credit db.items)) max_daemon_verdicts) capacity) _
        h1 in
    (ltb→lt _ _ (guard-eq-ok _ _ a e), ltb→lt _ _ (guard-eq-ok _ _ b f))

module _ (items : List Item) (store work_id : GoString) (w w' : Item)
    (f : first_row (is_item store work_id) items ≡ some w) (ks : w'.store ≡ store)
    (ki : w'.work_id ≡ work_id) (c : w'.verdict_credit ≡ is_reported w'.lifecycle)
    (room : (w'.verdict_credit ≡ true → w.verdict_credit ≡ true) ⊎ Room items store)
    (h : IsWithin items) where
  matched : (v : Item) → is_item store work_id v ≡ true → key_of v ≡ key_of w'
  matched v e = let (a, b) = is_item-eq store work_id v e in rw (a, b, ks, ki) refl

  was : (v : Item) → In v items → is_item store work_id v ≡ true → v ≡ w
  was v i e =
      let (j, e') = first_row-In (is_item store work_id) w items f in
      same_row key_of items v w h.keys i j (matched v e ∙ sym (matched w e'))

  kept :
      (q : Item → Bool)
      → ((v : Item) → In v items → is_item store work_id v ≡ true → q w' ≡ true → q v ≡ true)
      → length (select q (update_rows (is_item store work_id) (λ o. w') items))
        ≤ length (select q items)
  kept q k = count-kept key_of (is_item store work_id) w' q items k

  grown :
      (q : Item → Bool)
      → length (select q (update_rows (is_item store work_id) (λ o. w') items))
        ≤ suc (length (select q items))
  grown q = count-grows key_of (is_item store work_id) w' q items h.keys (λ v i e. matched v e)

  kept_in :
      (s : GoString)
      → (w'.verdict_credit ≡ true → w.verdict_credit ≡ true)
      → length (select (credit_in s) (update_rows (is_item store work_id) (λ o. w') items))
        ≤ length (select (credit_in s) items)
  kept_in s k = kept (credit_in s) (λ v i p q.
      let (a, b) = &&-true (str_eq w'.store s) w'.verdict_credit q in
      let same : v.store ≡ w'.store = (is_item-eq store work_id v p).0 ∙ sym ks in
      rw (same, a, ap (λ (z : Item). z.verdict_credit) (was v i p), k b) refl)

  -- the new row is of another store
  elsewhere : (s : GoString) → str_eq store s ≡ false → credit_in s w' ≡ true → ⊥
  elsewhere s e q =
      let (a, _) = &&-true (str_eq w'.store s) w'.verdict_credit q in
      let b : str_eq store s ≡ true = subst (λ z. str_eq z s ≡ true) ks a in cc (b, e)

  -- A change of one row that finds room for its verdict keeps the bounds.
  pub replaced-IsWithin : IsWithin (update_rows (is_item store work_id) (λ o. w') items)
  unfolding Room
  replaced-IsWithin = record {
    keys =
        subst NoRepeat
          (sym (keys-replaced key_of (is_item store work_id) w' items (λ v i e. matched v e)))
          h.keys;
    credited = λ v i.
        let (u, j, e) = In-update_rows (is_item store work_id) (λ o. w') v items i in
        elim (Bool-cases (is_item store work_id u)) [
          | inl p ↦ let q : v ≡ w' = e ∙ (rw p refl) in rw q c
          | inr p ↦ let q : v ≡ u = e ∙ (rw p refl) in rw q (h.credited u j)
        ];
    store = λ s. elim room [
      | inl k ↦ let g = kept_in s k in let l = h.store s in omega (arith, g, l)
      | inr (k, _) ↦ elim (Bool-cases (str_eq store s)) [
        | inl e ↦
            let g = grown (credit_in store) in
            subst
              (λ z.
                length (select (credit_in z) (update_rows (is_item store work_id) (λ o. w') items))
                ≤ max_store_verdicts)
              ((str_eq_iff store s).0 e) (omega (arith, g, k))
        | inr e ↦
            let g = kept (credit_in s) (λ v i p q. absurd (elsewhere s e q)) in
            let l = h.store s in omega (arith, g, l)
      ]
    ];
    daemon = elim room [
      | inl k ↦
          let g =
            kept has_credit (λ v i p q. ap (λ (z : Item). z.verdict_credit) (was v i p) ∙ k q) in
          let l = h.daemon in omega (arith, g, l)
      | inr (_, k) ↦ let g = grown has_credit in omega (arith, g, k)
    ];
  }
