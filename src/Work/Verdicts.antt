-- ===== src/Work/Verdicts.antt =====
-- The pending verdicts (internal/core/work.go, apply; work_verdict.go, reserveVerdict): at most
-- sixteen in a store and thirty-two in all, and one for just each reported item.
use koinon.Base.{
  ◌+◌, ◌≡◌, refl, sym, ap, subst, ◌∙◌, Bool, true, false, ◌&&◌, ◌⊎◌, inl, inr, some, List, [], ◌∷◌,
  ◌++◌, map, GoString, arith, first_row, str_eq, str_eq_refl, Bool-cases, In-append, In-map,
  NoRepeat, NoRepeat-last, first_row-In, any_row, any_row-false,
}
use koinon.Failure.{ok, >>=-eq-ok, ok_inj}
use koinon.Claims.Queries.{counter, work_counter}
use koinon.Work.Rows.{Item, WorkDb, WorkResult}
use koinon.Work.Requests.{Request, text, validate}
use koinon.Work.Views.{is_item, require_native_caller}
use koinon.Work.Events.{Change, insert_scope}
use koinon.Work.Apply.{
  Context, is_reported, same_item, create, insert_item, new_item, head_of, author_of,
}
use koinon.Work.Closing.{apply, apply_create, is_create, is_renew, has_credit, credit_in}
use koinon.Work.Stages.{Stage, stage_of}
use koinon.Work.Keyed.{uncounted}
use koinon.Work.Leaves.{insert_scope-Leaves}
use koinon.Work.Applied.{Concluded, conclude-Concluded, then_of}
use koinon.Work.Retries.{appended-found, renewed-items}
use koinon.Work.Refinement.{with_seq-keeps, Mutated, apply-Mutated, current-found, eq-is_item}
use koinon.Work.Credits.{
  key_of, IsWithin, Room, Step-credited, Step-credit, reserve_verdict-Room, replaced-IsWithin,
}

false_right : (b : Bool) → (b && false) ≡ false
false_right b = ground arith

-- A new item has no pending verdict.
inserted-IsWithin :
    (items : List Item) (w : Item)
    → any_row (same_item w) items ≡ false
    → w.verdict_credit ≡ false
    → is_reported w.lifecycle ≡ false
    → IsWithin items
    → IsWithin (items ++ w ∷ [])
unfolding same_item
inserted-IsWithin items w a c l h = record {
  keys = subst NoRepeat (sym (map-last items)) (
      NoRepeat-last (map key_of items) (key_of w) h.keys (λ i.
        let (v, j, e) = In-map key_of (key_of w) items i in
        let k = any_row-false (same_item w) v items a j in
        let s : w.store ≡ v.store = ap (λ (z : GoString × GoString). z.0) e in
        let t : w.work_id ≡ v.work_id = ap (λ (z : GoString × GoString). z.1) e in
        let m : same_item w v ≡ true = rw (s, t, str_eq_refl v.store, str_eq_refl v.work_id) refl in
        cc (k, m)));
  credited = λ v i. elim (In-append v items (w ∷ []) i) [
    | inl j ↦ h.credited v j
    | inr (inl e) ↦ rw e (c ∙ sym l)
    | inr (inr e) ↦ absurd e
  ];
  store = λ s.
      let k = h.store s in
      let e = uncounted (credit_in s) w items (rw c (false_right (str_eq w.store s))) in
      omega (arith, k, e);
  daemon = let k = h.daemon in let e = uncounted has_credit w items c in omega (arith, k, e);
}
  where
    map-last : (l : List Item) → map key_of (l ++ w ∷ []) ≡ map key_of l ++ key_of w ∷ []
    map-last [] = refl
    map-last (v ∷ l) = ap (λ z. key_of v ∷ z) (map-last l)

insert_item-eq :
    (db d : WorkDb) (w : Item)
    → insert_item db w ≡ ok d
    → (any_row (same_item w) db.items ≡ false) × (d.items ≡ db.items ++ w ∷ [])
unfolding insert_item
insert_item-eq db d w h = elim (Bool-cases (any_row (same_item w) db.items)) [
  | inl e ↦ let k = rw (e, insert_item) at h in cc
  | inr e ↦ (e, sym (ap (λ (z : WorkDb). z.items) (ok_inj _ _ (rw (e, insert_item) at h))))
]

abbrev pub Inserted : WorkDb → Change → WorkDb → Type 0
Inserted db ch d =
    (any_row (same_item ch.item) db.items ≡ false)
    × (d.items ≡ db.items ++ ch.item ∷ [])
    × (ch.item.verdict_credit ≡ false)
    × (is_reported ch.item.lifecycle ≡ false)

-- Creation inserts one open item and nothing else of the items.
pub create-inserts :
    (x : Context) (db d : WorkDb) (r : Request) (ch : Change)
    → create x db r ≡ ok (ch, d)
    → Inserted db ch d
unfolding create new_item is_reported
create-inserts x db d r ch h =
    let ((n, claims), _, h1) = >>=-eq-ok (counter db.claims x.store work_counter) _ h in
    let (head, _, h2) = >>=-eq-ok (head_of (record db { claims = claims }) x.store) _ h1 in
    let (db2, e, h3) =
      >>=-eq-ok (insert_item (record db { claims = claims }) (new_item x r n head)) _ h2 in
    let (db3, f, h4) =
      >>=-eq-ok
        (insert_scope x.codec db2 (new_item x r n head) x.caller.consumer (author_of r) x.now) _
        h3 in
    let (a, b) = insert_item-eq (record db { claims = claims }) db2 (new_item x r n head) e in
    let l = insert_scope-Leaves x.codec db2 db3 (new_item x r n head) _ _ _ f in
    subst (λ (z : Change × WorkDb). Inserted db z.0 z.1) (ok_inj _ _ h4)
      (a, l.items ∙ b, refl, refl)

-- an item and what stands in its row after its event
concluded-IsWithin :
    (x : Context) (d db' : WorkDb) (r : Request) (print : GoString) (ch : Change)
    (result : WorkResult)
    → first_row (is_item ch.item.store ch.item.work_id) d.items ≡ some ch.item
    → ch.item.verdict_credit ≡ is_reported ch.item.lifecycle
    → Concluded x d db' r print ch result
    → IsWithin d.items
    → IsWithin db'.items
concluded-IsWithin x d db' r print ch result f c k h =
    let w' = k.w in
    let (ks, kst, kid, _, _, _) = with_seq-keeps ch.kind (k.recorded.head + 1) ch.item in
    let stage : stage_of w' ≡ stage_of ch.item = ap stage_of k.recorded.item_eq ∙ ks in
    let st : w'.store ≡ ch.item.store = ap (λ (z : Item). z.store) k.recorded.item_eq ∙ kst in
    let id : w'.work_id ≡ ch.item.work_id = ap (λ (z : Item). z.work_id) k.recorded.item_eq ∙ kid in
    let credit = ap (λ (z : Stage). z.credit) stage in
    let items =
      ap (λ (z : WorkDb). z.items) k.replayed.after
      ∙ ap (λ (z : WorkDb). z.items) k.recorded.db_eq in
    let found : first_row (is_item w'.store w'.work_id) d.items ≡ some ch.item = rw (st, id) f in
    let credited = credit ∙ c ∙ sym (ap (λ (z : Stage). is_reported z.phase) stage) in
    subst IsWithin (sym items) (
      replaced-IsWithin d.items w'.store w'.work_id ch.item w' found refl refl credited
        (inl (λ q. sym credit ∙ q)) h)

created-IsWithin :
    (x : Context) (db db' : WorkDb) (r : Request) (print : GoString) (result : WorkResult)
    → apply_create x db r print ≡ ok (result, db')
    → IsWithin db.items
    → IsWithin db'.items
unfolding apply_create
created-IsWithin x db db' r print result e h =
    let ((ch, d), f, g) = >>=-eq-ok (create x db r) _ e in
    let (a, b, c, l) = create-inserts x db d r ch f in
    let within = subst IsWithin (sym b) (inserted-IsWithin db.items ch.item a c l h) in
    let found =
      ap (first_row (is_item ch.item.store ch.item.work_id)) b
      ∙ appended-found (is_item ch.item.store ch.item.work_id) db.items ch.item
          (unfold same_item is_item in a)
          (eq-is_item ch.item.store ch.item.work_id ch.item refl refl) in
    concluded-IsWithin x d db' r print ch result found (c ∙ sym l)
      (conclude-Concluded x d db' r print ch result g) within

mutated-IsWithin :
    (x : Context) (db db' : WorkDb) (r : Request) (result : WorkResult)
    → Mutated x db db' r result
    → IsWithin db.items
    → IsWithin db'.items
unfolding Room
mutated-IsWithin x db db' r result m h =
    let (f, _) = current-found db x.store (text r.work_id) x.now m.before m.found in
    let (i, _) = first_row-In _ m.before db.items f in
    let (ks, ki) = m.key_eq in
    let room : (m.after.verdict_credit ≡ true → m.before.verdict_credit ≡ true)
        ⊎ Room db.items x.store =
      elim (Step-credit r.op _ _ m.step) [
        | inl k ↦ inl k
        | inr q ↦ let (u, e) = m.reserved q in inr (reserve_verdict-Room x db m.before.work_id u e)
      ] in
    subst IsWithin (sym m.replaced) (
      replaced-IsWithin db.items x.store (text r.work_id) m.before m.after f ks ki
        (Step-credited r.op _ _ m.step (h.credited m.before i)) room h)

-- Every mutation keeps the bounds of the pending verdicts: where at most sixteen verdicts of each
-- store and thirty-two in all are pending, each for a reported item and one for each, and the items
-- have distinct keys, so it is after an operation on a valid request that succeeds.
pub apply-IsWithin :
    (x : Context) (db db' : WorkDb) (r : Request) (print : GoString) (result : WorkResult)
    → validate r ≡ ok tt
    → IsWithin db.items
    → apply x db r print ≡ ok (result, db')
    → IsWithin db'.items
unfolding apply
apply-IsWithin x db db' r print result v h e = elim (Bool-cases (is_create r.op)) [
  | inl a ↦
      let (u, _, k) =
        >>=-eq-ok (require_native_caller x.codec db.mail x.caller r.actor x.now) _ e in
      created-IsWithin x db db' r print result (sym (then_of (is_create r.op) _ _ a) ∙ k) h
  | inr a ↦ elim (Bool-cases (is_renew r.op)) [
    | inl b ↦ subst IsWithin (sym (renewed-items x db db' r print result a b e)) h
    | inr b ↦ mutated-IsWithin x db db' r result (apply-Mutated x db db' r print result v a b e) h
  ]
]
