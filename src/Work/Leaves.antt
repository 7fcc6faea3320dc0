-- ===== src/Work/Leaves.antt =====
-- What a change of an item leaves to the event and the replay result.
use koinon.Base.{
  ℕ, ◌≡◌, refl, ap, subst, ◌∙◌, Option, none, some, List, [], ◌∷◌, GoString, arith, first_row,
  update_rows, inl, inr, Bool-cases, ltb, any_row,
}
use koinon.Failure.{Result, ok, err, no_rows, ok_inj}
use koinon.Claims.Rows.{StoreRow, Db}
use koinon.Claims.Queries.{is_store, write_counter, claim_counter}
use koinon.Work.Rows.{Item, WorkDb}
use koinon.Work.Views.{Codec}
use koinon.Work.Events.{insert_scope, scope_of_item, is_scope, max_work_scope}
use koinon.Work.Apply.{head_of}

-- What only the event and the replay write.
pub record Leaves (db db' : WorkDb) : Type 0 where
  pub items : db'.items ≡ db.items
  pub events : db'.events ≡ db.events
  pub entries : db'.entries ≡ db.entries
  pub replays : db'.replays ≡ db.replays
  pub mail : db'.mail ≡ db.mail
  pub heads : (store : GoString) → head_of db' store ≡ head_of db store

pub Leaves_refl : (db : WorkDb) → Leaves db db
Leaves_refl db = record {
  items = refl;
  events = refl;
  entries = refl;
  replays = refl;
  mail = refl;
  heads = λ s. refl;
}

pub Leaves_trans : (a b c : WorkDb) → Leaves a b → Leaves b c → Leaves a c
Leaves_trans a b c p q = record {
  items = q.items ∙ p.items;
  events = q.events ∙ p.events;
  entries = q.entries ∙ p.entries;
  replays = q.replays ∙ p.replays;
  mail = q.mail ∙ p.mail;
  heads = λ s. q.heads s ∙ p.heads s;
}

pub insert_scope-Leaves :
    (c : Codec) (db db' : WorkDb) (w : Item) (consumer : GoString) (author : Option GoString)
    (now : ℕ)
    → insert_scope c db w consumer author now ≡ ok db'
    → Leaves db db'
unfolding insert_scope head_of
insert_scope-Leaves c db db' w consumer author now h =
    let s = scope_of_item w consumer author now in
    elim (Bool-cases (ltb max_work_scope (c.scope_bytes s))) [
      | inl e ↦ let k = rw (e, insert_scope) at h in cc
      | inr e ↦ elim (Bool-cases (any_row (is_scope w.store w.work_id w.revision) db.scopes)) [
        | inl f ↦ let k = rw (e, f, insert_scope) at h in cc
        | inr f ↦ subst (Leaves db) (ok_inj _ _ (rw (e, f, insert_scope) at h)) (record {
          items = refl;
          events = refl;
          entries = refl;
          replays = refl;
          mail = refl;
          heads = λ s. refl;
        })
      ]
    ]

-- A change of the claim tables that keeps the stores.
pub stores-Leaves :
    (db : WorkDb) (claims : Db)
    → claims.memory_stores ≡ db.claims.memory_stores
    → Leaves db (record db { claims = claims })
unfolding head_of
stores-Leaves db claims e = record {
  items = refl;
  events = refl;
  entries = refl;
  replays = refl;
  mail = refl;
  heads = λ s. ap (head_in s) e;
}
  where
    head_in : GoString → List StoreRow → Result ℕ
    head_in s rows = elim (first_row (is_store s) rows) [ none ↦ err no_rows | some r ↦ ok r.head ]

abbrev pub head_row : Option StoreRow → Result ℕ
head_row none = err no_rows
head_row (some r) = ok r.head

-- The claim counter is not the head.
pub counted-heads :
    (store : GoString) (n : ℕ) (rows : List StoreRow) (s : GoString)
    → head_row
        (first_row (is_store s) (update_rows (is_store store) (write_counter claim_counter n) rows))
      ≡ head_row (first_row (is_store s) rows)
unfolding first_row update_rows is_store write_counter
counted-heads store n [] s = refl
counted-heads store n (r ∷ rows) s = ground (arith, counted-heads store n rows s)

pub head_of-row :
    (db : WorkDb) (s : GoString)
    → head_of db s ≡ head_row (first_row (is_store s) db.claims.memory_stores)
unfolding head_of
head_of-row db s = ground arith
