-- ===== src/Work/Recording.antt =====
-- What a successful event writes: the next sequence of its store, the item, the event and the
-- stream entry.
use koinon.Base.{
  ℕ, ◌+◌, ◌≡◌, refl, sym, ap, subst, ◌∙◌, true, Option, none, some, List, [], ◌∷◌, ◌++◌, GoString,
  arith, leb, first_row, update_rows, Bool-cases, inl, inr, any_row, ◌||◌,
}
use koinon.Failure.{record_too_large, ok, guard, >>=-eq-ok, ok_inj}
use koinon.Claims.Rows.{StoreRow}
use koinon.Claims.Queries.{is_store}
use koinon.Work.Rows.{Item, Event, Entry, View, WorkDb, Caller}
use koinon.Work.Views.{Codec, view, is_item, resolved_role}
use koinon.Work.Events.{
  Change, event, next_head, store_item, checks_outcome, insert_event, is_event, is_entry, with_seq,
  entry_of, event_of, payload_of, row_cost, record_limit, max_work_row_cost,
}
use koinon.Work.Apply.{head_of}

abbrev pub bump : StoreRow → StoreRow
bump s = record s { head = s.head + 1 }

-- the database with an event of the item `w`
abbrev pub after_event : WorkDb → GoString → Item → Event → Entry → WorkDb
after_event db store w e n = record db {
  claims = record db.claims {
    memory_stores = update_rows (is_store store) bump db.claims.memory_stores;
  };
  items = update_rows (is_item w.store w.work_id) (λ o. w) db.items;
  events = db.events ++ e ∷ [];
  entries = db.entries ++ n ∷ [];
}

pub record Recorded (db db' : WorkDb) (store : GoString) (m : Caller) (ch : Change)
    (consumer : GoString) (author : Option GoString) (now : ℕ) (w : Item) : Type 0 where
  pub head : ℕ
  pub head_eq : head_of db store ≡ ok head
  pub item_eq : w ≡ with_seq ch.kind (head + 1) ch.item
  pub checked : checks_outcome w ≡ true
  pub payload : View
  pub payload_item : payload.item ≡ w
  pub db_eq :
      db'
      ≡ after_event db store w
          (event_of m store (head + 1) w ch.kind payload)
          (entry_of m (head + 1) w consumer author now)

bumped :
    (store : GoString) (rows : List StoreRow) (s : StoreRow)
    → first_row (is_store store) rows ≡ some s
    → first_row (is_store store) (update_rows (is_store store) bump rows) ≡ some (bump s)
unfolding first_row update_rows is_store
bumped store [] s h = cc
bumped store (r ∷ rows) s h = ground (arith, bumped store rows s)

-- What the next sequence of a store is, and what it writes.
abbrev NextHead : WorkDb → WorkDb → GoString → ℕ → Type 0
NextHead db db' store seq =
    (s : StoreRow) × (first_row (is_store store) db.claims.memory_stores ≡ some s)
    × (seq ≡ s.head + 1)
    × (db' ≡ record db {
      claims = record db.claims {
        memory_stores = update_rows (is_store store) bump db.claims.memory_stores;
      };
    })

next_head-eq :
    (db db' : WorkDb) (store : GoString) (seq : ℕ)
    → next_head db store ≡ ok (seq, db')
    → NextHead db db' store seq
unfolding next_head
next_head-eq db db' store seq h = by_row (first_row (is_store store) db.claims.memory_stores) refl
  where
    by_row :
        (o : Option StoreRow)
        → first_row (is_store store) db.claims.memory_stores ≡ o
        → NextHead db db' store seq
    by_row none e = let k = rw (e, next_head) at h in cc
    by_row (some s) e =
        let k = ok_inj _ _ (rw (e, next_head) at h) in
        (s, e, sym (ap (λ (p : ℕ × WorkDb). p.0) k), sym (ap (λ (p : ℕ × WorkDb). p.1) k))

view-item :
    (db : WorkDb) (store : GoString) (w : Item) (now : ℕ) (v : View)
    → view db store w now ≡ ok v
    → v.item ≡ w
unfolding view
view-item db store w now v h =
    let (r, _, rest) = >>=-eq-ok (resolved_role db store w.proposed_role now) _ h in
    sym (ap (λ (z : View). z.item) (ok_inj _ _ rest))

store_item-eq :
    (db db' : WorkDb) (w : Item)
    → store_item db w ≡ ok db'
    → (checks_outcome w ≡ true)
      × (db' ≡ record db { items = update_rows (is_item w.store w.work_id) (λ o. w) db.items })
unfolding store_item
store_item-eq db db' w h = elim (Bool-cases (checks_outcome w)) [
  | inl e ↦ (e, sym (ok_inj _ _ (rw (e, store_item) at h)))
  | inr e ↦ let k = rw (e, store_item) at h in cc
]

insert_event-eq :
    (db db' : WorkDb) (n : Entry) (e : Event)
    → insert_event db n e ≡ ok db'
    → db' ≡ record db { entries = db.entries ++ n ∷ []; events = db.events ++ e ∷ [] }
unfolding insert_event
insert_event-eq db db' n e h =
    elim (Bool-cases (
      any_row (is_entry n.repository n.seq) db.entries
      || any_row (is_event e.store e.seq) db.events)) [
        | inl p ↦ let k = rw (p, insert_event) at h in cc
        | inr p ↦ sym (ok_inj _ _ (rw (p, insert_event) at h))
      ]

head_of-eq :
    (db : WorkDb) (store : GoString) (s : StoreRow)
    → first_row (is_store store) db.claims.memory_stores ≡ some s
    → head_of db store ≡ ok s.head
unfolding head_of
head_of-eq db store s h = rw (h, head_of) refl

-- An event that succeeds writes its rows.
pub event-Recorded :
    (c : Codec) (db db' : WorkDb) (store : GoString) (m : Caller) (ch : Change)
    (consumer : GoString) (author : Option GoString) (now : ℕ) (w : Item)
    → event c db store m ch consumer author now ≡ ok (w, db')
    → Recorded db db' store m ch consumer author now w
unfolding event
event-Recorded c db db' store m ch consumer author now w h =
    let (u, _, h1) =
      >>=-eq-ok (guard (leb (row_cost c store ch.item) max_work_row_cost) record_too_large) _ h in
    let ((seq, db1), e1, h2) = >>=-eq-ok (next_head db store) _ h1 in
    let w' = with_seq ch.kind seq ch.item in
    let (db2, e2, h3) = >>=-eq-ok (store_item db1 w') _ h2 in
    let (v, e3, h4) = >>=-eq-ok (view db2 store w' now) _ h3 in
    let (t, _, h5) =
      >>=-eq-ok
        (guard (leb (c.view_bytes (payload_of ch v)) (record_limit ch.kind)) record_too_large) _
        h4 in
    let (db3, e4, h6) =
      >>=-eq-ok
        (insert_event db2 (entry_of m seq w' consumer author now)
          (event_of m store seq w' ch.kind (payload_of ch v)))
        _ h5 in
    let (s, f, q, d1) = next_head-eq db db1 store seq e1 in
    let (k, d2) = store_item-eq db1 db2 w' e2 in
    let d3 = insert_event-eq db2 db3 _ _ e4 in
    let p = ok_inj _ _ h6 in
    let w_eq : w' ≡ w = ap (λ (z : Item × WorkDb). z.0) p in
    let after = λ (z : Item) (n : ℕ).
      after_event db store z (event_of m store n z ch.kind (payload_of ch v))
        (entry_of m n z consumer author now) in
    let written : db' ≡ after w' seq =
      sym (ap (λ (z : Item × WorkDb). z.1) p)
      ∙ d3
      ∙ ap
          (λ (z : WorkDb). record z {
            entries = z.entries ++ entry_of m seq w' consumer author now ∷ [];
            events = z.events ++ event_of m store seq w' ch.kind (payload_of ch v) ∷ [];
          })
          (d2
            ∙ ap
                (λ (z : WorkDb). record z {
                  items = update_rows (is_item w'.store w'.work_id) (λ o. w') z.items;
                })
                d1) in
    record {
      head = s.head;
      head_eq = head_of-eq db store s f;
      item_eq = sym w_eq ∙ ap (λ n. with_seq ch.kind n ch.item) q;
      checked = subst (λ z. checks_outcome z ≡ true) w_eq k;
      payload = payload_of ch v;
      payload_item = view-item db2 store w' now v e3 ∙ w_eq;
      db_eq = written ∙ ap (λ z. after z seq) w_eq ∙ ap (after w) q;
    }

-- The next sequence is one past the head.
pub bumped-head :
    (db after : WorkDb) (store : GoString) (n : ℕ)
    → after.claims.memory_stores ≡ update_rows (is_store store) bump db.claims.memory_stores
    → head_of db store ≡ ok n
    → head_of after store ≡ ok (n + 1)
unfolding head_of
bumped-head db after store n e h = by_row (first_row (is_store store) db.claims.memory_stores) refl
  where
    by_row :
        (o : Option StoreRow)
        → first_row (is_store store) db.claims.memory_stores ≡ o
        → head_of after store ≡ ok (n + 1)
    by_row none q = let k = rw (q, head_of) at h in cc
    by_row (some s) q =
        let k : s.head ≡ n = ok_inj _ _ (rw (q, head_of) at h) in
        head_of-eq after store (bump s)
          (ap (first_row (is_store store)) e ∙ bumped store db.claims.memory_stores s q)
        ∙ ap (λ m. ok (m + 1)) k
