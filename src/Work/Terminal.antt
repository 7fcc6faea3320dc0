-- ===== src/Work/Terminal.antt =====
-- Finished items stay as they are (internal/core/work.go, apply).
use koinon.Base.{
  ◌+◌, ◌≡◌, ◌≢◌, refl, sym, ap, subst, ◌∙◌, inl, inr, Bool, false, List, [], ◌∷◌, GoString,
  update_rows, In, update_rows-In, In-left, first_row-In, Bool-cases, any_row-false,
}
use koinon.Failure.{ok, >>=-eq-ok}
use koinon.Work.Rows.{Item, Op, Lifecycle, finished, reported, WorkDb, WorkResult}
use koinon.Work.Requests.{Request, text, validate}
use koinon.Work.Views.{is_item, require_native_caller}
use koinon.Work.Apply.{Context, create, same_item}
use koinon.Work.Closing.{apply, apply_create, is_create, is_renew}
use koinon.Work.Stages.{
  Stage, Step, step_propose, step_edit, step_start, step_update, step_release, step_finish,
  step_report, step_accept, step_reject, Workable, workable_open, workable_active, workable_blocked,
}
use koinon.Work.Keyed.{same_row}
use koinon.Work.Credits.{IsWithin, key_of}
use koinon.Work.Applied.{conclude-Concluded, then_of}
use koinon.Work.Retries.{renewed-items}
use koinon.Work.Verdicts.{create-inserts}
use koinon.Work.Refinement.{Mutated, apply-Mutated, current-found, is_item-eq, with_seq-keeps}

Workable-unfinished : (p : Lifecycle) → Workable p → p ≢ finished
Workable-unfinished _ workable_open e = cc
Workable-unfinished _ workable_active e = cc
Workable-unfinished _ workable_blocked e = cc

-- No step leaves the phase `finished`.
Step-unfinished : (op : Op) (s t : Stage) → Step op s t → s.phase ≢ finished
Step-unfinished _ _ _ (step_propose s a) = a
Step-unfinished _ _ _ (step_edit s a) = Workable-unfinished s.phase a
Step-unfinished _ _ _ (step_start s p a b) = Workable-unfinished s.phase a
Step-unfinished _ _ _ (step_update s p a b) = Workable-unfinished s.phase a
Step-unfinished _ _ _ (step_release s a) = Workable-unfinished s.phase a
Step-unfinished _ _ _ (step_finish s a) = Workable-unfinished s.phase a
Step-unfinished _ _ _ (step_report s a) = Workable-unfinished s.phase a
Step-unfinished _ _ _ (step_accept s a) = λ e. reported-unfinished (sym a ∙ e)
  where
    reported-unfinished : reported ≢ finished
    reported-unfinished e = cc
Step-unfinished _ _ _ (step_reject s a) = λ e. reported-unfinished (sym a ∙ e)
  where
    reported-unfinished : reported ≢ finished
    reported-unfinished e = cc

-- A row that the update does not match stays.
unmatched-In :
    {A : Type 0} (p : A → Bool) (f : A → A) (x : A) (rows : List A)
    → p x ≡ false
    → In x rows
    → In x (update_rows p f rows)
unmatched-In p f x rows e i =
    subst (λ z. In z (update_rows p f rows)) (rw e refl) (update_rows-In p f x rows i)

mutated-keeps :
    (x : Context) (db db' : WorkDb) (r : Request) (result : WorkResult) (w : Item)
    → Mutated x db db' r result
    → IsWithin db.items
    → w.lifecycle ≡ finished
    → In w db.items
    → In w db'.items
mutated-keeps x db db' r result w m h e i = elim (Bool-cases (is_item x.store (text r.work_id) w)) [
  | inr p ↦
      subst (In w) (sym m.replaced)
        (unmatched-In (is_item x.store (text r.work_id)) (λ o. m.after) w db.items p i)
  | inl p ↦
      let (f, _) = current-found db x.store (text r.work_id) x.now m.before m.found in
      let (j, q) = first_row-In (is_item x.store (text r.work_id)) m.before db.items f in
      let (a, b) = is_item-eq x.store (text r.work_id) w p in
      let (c, d) = is_item-eq x.store (text r.work_id) m.before q in
      let same = same_row key_of db.items w m.before h.keys i j (rw (a, b, c, d) refl) in
      absurd (Step-unfinished r.op _ _ m.step (sym (ap (λ (z : Item). z.lifecycle) same) ∙ e))
]

created-keeps :
    (x : Context) (db db' : WorkDb) (r : Request) (print : GoString) (result : WorkResult)
    (w : Item)
    → apply_create x db r print ≡ ok (result, db')
    → In w db.items
    → In w db'.items
unfolding apply_create same_item is_item
created-keeps x db db' r print result w h i =
    let ((ch, d), f, g) = >>=-eq-ok (create x db r) _ h in
    let (a, b, _, _) = create-inserts x db d r ch f in
    let k = conclude-Concluded x d db' r print ch result g in
    let (_, kst, kid, _, _, _) = with_seq-keeps ch.kind (k.recorded.head + 1) ch.item in
    let st : k.w.store ≡ ch.item.store = ap (λ (z : Item). z.store) k.recorded.item_eq ∙ kst in
    let id : k.w.work_id ≡ ch.item.work_id =
      ap (λ (z : Item). z.work_id) k.recorded.item_eq ∙ kid in
    let items =
      ap (λ (z : WorkDb). z.items) k.replayed.after
      ∙ ap (λ (z : WorkDb). z.items) k.recorded.db_eq in
    let other : is_item k.w.store k.w.work_id w ≡ false =
      rw (st, id) (any_row-false (same_item ch.item) w db.items a i) in
    subst (In w) (sym items) (
      unmatched-In (is_item k.w.store k.w.work_id) (λ o. k.w) w d.items other
        (subst (In w) (sym b) (In-left w db.items (ch.item ∷ []) i)))

-- A finished item never changes: where the items have distinct keys and the pending verdicts keep their
-- bounds, an operation on a valid request that succeeds leaves every finished item as it is.
pub apply_keeps_finished :
    (x : Context) (db db' : WorkDb) (r : Request) (print : GoString) (result : WorkResult)
    (w : Item)
    → validate r ≡ ok tt
    → IsWithin db.items
    → w.lifecycle ≡ finished
    → In w db.items
    → apply x db r print ≡ ok (result, db')
    → In w db'.items
unfolding apply
apply_keeps_finished x db db' r print result w v h e i k = elim (Bool-cases (is_create r.op)) [
  | inl a ↦
      let (u, _, l) =
        >>=-eq-ok (require_native_caller x.codec db.mail x.caller r.actor x.now) _ k in
      created-keeps x db db' r print result w (sym (then_of (is_create r.op) _ _ a) ∙ l) i
  | inr a ↦ elim (Bool-cases (is_renew r.op)) [
    | inl b ↦ subst (In w) (sym (renewed-items x db db' r print result a b k)) i
    | inr b ↦
        mutated-keeps x db db' r result w (apply-Mutated x db db' r print result v a b k) h e i
  ]
]
