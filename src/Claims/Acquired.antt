-- ===== src/Claims/Acquired.antt =====
-- A successful acquire, taken apart into its tests and its writes.
use koinon.Base.{
  ℕ, ◌+◌, ◌*◌, ◌<◌, ◌≡◌, ◌≤◌, ap, sym, subst, ◌∙◌, false, ◌||◌, some, List, [], ◌∷◌, ◌++◌, arith,
  GoString, length, select, update_rows, first_row, any_row, order_by, inl, inr, Option-cases,
}
use koinon.Failure.{Result, ok, Result-cases, >>=-eq-ok, ◌>>=◌}
use koinon.Resource.{Resource, claim_bundle}
use koinon.Claims.Rows.{
  Bundle, StoreRow, Db, Lease, second, max_int64, max_bundles, max_daemon_bundles,
}
use koinon.Claims.Queries.{
  at_generation, in_store, of_item, generation, is_store, read_counter, write_counter, Counter,
  claim_counter, counter,
}
use koinon.Claims.Engine.{
  acquire, write_claim, check_held, insert_bundle, insert_resources, new_bundle, resource_rows,
}

-- What a successful counter wrote.
pub record Counted (db : Db) (store : GoString) (column : Counter) (value : ℕ) (db' : Db)
    : Type 0 where
  pub row : StoreRow
  pub found : first_row (is_store store) db.memory_stores ≡ some row
  pub value_eq : value ≡ read_counter column row + 1
  pub in_range : value ≤ max_int64
  pub after : db' ≡ record db {
    memory_stores = update_rows (is_store store) (write_counter column value) db.memory_stores;
  }

pub counter-Counted :
    (db : Db) (store : GoString) (column : Counter) (value : ℕ) (db' : Db)
    → counter db store column ≡ ok (value, db')
    → Counted db store column value db'
unfolding counter
counter-Counted db store column value db' h =
    elim (Option-cases (first_row (is_store store) db.memory_stores)) [
      | inl e ↦ absurd (ground (arith, e))
      | inr (row, e) ↦ record {
        row = row;
        found = e;
        value_eq = ground (arith, e);
        in_range = ground (arith, e);
        after = ground (arith, e);
      }
    ]

-- What write_claim wrote: `row` is the store's row with the last generation, `g` the new one.
pub record Written (db : Db) (store work_id consumer : GoString) (epoch : ℕ) (keys : List Resource)
    (now duration : ℕ) (l : Lease) (db' : Db) : Type 0 where
  pub row : StoreRow
  pub counted : first_row (is_store store) db.memory_stores ≡ some row
  pub g : ℕ
  pub next : g ≡ row.claim_counter + 1
  pub in_range : g ≤ max_int64
  pub lease : l ≡ record { generation = g; revision = 1; expires_at = now + duration * second }
  pub fresh : any_row (λ o. at_generation store g o || of_item store work_id o) db.bundles ≡ false
  pub after : db' ≡ record db {
    bundles =
        db.bundles ++ new_bundle store g work_id consumer epoch now (now + duration * second) ∷ [];
    claim_resources = db.claim_resources ++ resource_rows store g 0 keys;
    memory_stores = update_rows (is_store store) (write_counter claim_counter g) db.memory_stores;
  }

pub record Acquired (db : Db) (store work_id consumer : GoString) (epoch : ℕ)
    (optional : List Resource) (now duration : ℕ) (l : Lease) (db' : Db) : Type 0 where
  pub keys : List Resource
  pub keys_ok : claim_bundle work_id optional ≡ ok keys
  pub clear :
      check_held db store keys work_id now
        (order_by generation (select (in_store store) db.bundles))
      ≡ ok tt
  pub room : length (order_by generation (select (in_store store) db.bundles)) < max_bundles
  pub daemon_room : length db.bundles < max_daemon_bundles
  pub writes : Written db store work_id consumer epoch keys now duration l db'

insert_bundle-ok :
    (db : Db) (b : Bundle) (db' : Db)
    → insert_bundle db b ≡ ok db'
    → (any_row (λ o. at_generation b.store b.generation o || of_item b.store b.work_id o) db.bundles
        ≡ false)
      × (db' ≡ record db { bundles = db.bundles ++ b ∷ [] })
unfolding insert_bundle
insert_bundle-ok db b db' h = ground arith

insert_resources-ok :
    (db : Db) (store : GoString) (g : ℕ) (keys : List Resource) (db' : Db)
    → insert_resources db store g keys ≡ ok db'
    → db' ≡ record db { claim_resources = db.claim_resources ++ resource_rows store g 0 keys }
unfolding insert_resources
insert_resources-ok db store g keys db' h = ground arith

pub write_claim-Written :
    (db : Db) (store work_id consumer : GoString) (epoch : ℕ) (keys : List Resource)
    (now duration : ℕ) (l : Lease) (db' : Db)
    → write_claim db store work_id consumer epoch keys now duration ≡ ok (l, db')
    → Written db store work_id consumer epoch keys now duration l db'
unfolding write_claim read_counter
write_claim-Written db store work_id consumer epoch keys now duration l db' h =
    let ((g, db1), e, h1) = >>=-eq-ok (counter db store claim_counter) _ h in counted g db1 e h1
  where
    expires : ℕ
    expires = now + duration * second

    b : ℕ → Bundle
    b g = new_bundle store g work_id consumer epoch now expires

    last : ℕ → Db → Result (Lease × Db)
    last g db3 = ok (record { generation = g; revision = 1; expires_at = expires }, db3)

    kept :
        (g : ℕ) (db1 db2 db3 : Db)
        → Counted db store claim_counter g db1
        → insert_bundle db1 (b g) ≡ ok db2
        → insert_resources db2 store g keys ≡ ok db3
        → last g db3 ≡ ok (l, db')
        → Written db store work_id consumer epoch keys now duration l db'
    kept g db1 db2 db3 c e2 e3 h3 =
        let (fresh, put) = insert_bundle-ok db1 (b g) db2 e2 in
        let keyed = insert_resources-ok db2 store g keys db3 e3 in
        let done : db3 ≡ db' = cc h3 in
        record {
          row = c.row;
          counted = c.found;
          g = g;
          next = c.value_eq;
          in_range = c.in_range;
          lease = cc h3;
          fresh =
              unfold new_bundle in
              subst
                (λ d.
                  any_row (λ o. at_generation store g o || of_item store work_id o) d.bundles
                  ≡ false)
                c.after fresh;
          after =
              sym done
              ∙ keyed
              ∙ ap
                  (λ (d : Db). record d {
                    claim_resources = d.claim_resources ++ resource_rows store g 0 keys;
                  })
                  (put ∙ ap (λ (d : Db). record d { bundles = d.bundles ++ b g ∷ [] }) c.after);
        }

    counted :
        (g : ℕ) (db1 : Db)
        → counter db store claim_counter ≡ ok (g, db1)
        → (insert_bundle db1 (b g) >>= λ db2. insert_resources db2 store g keys >>= last g)
          ≡ ok (l, db')
        → Written db store work_id consumer epoch keys now duration l db'
    counted g db1 e h1 =
        let (db2, e2, h2) = >>=-eq-ok (insert_bundle db1 (b g)) _ h1 in
        let (db3, e3, h3) = >>=-eq-ok (insert_resources db2 store g keys) _ h2 in
        kept g db1 db2 db3 (counter-Counted db store claim_counter g db1 e) e2 e3 h3

pub acquire-Acquired :
    (db : Db) (store work_id consumer : GoString) (epoch : ℕ) (optional : List Resource)
    (now duration : ℕ) (l : Lease) (db' : Db)
    → acquire db store work_id consumer epoch optional now duration ≡ ok (l, db')
    → Acquired db store work_id consumer epoch optional now duration l db'
unfolding acquire
acquire-Acquired db store work_id consumer epoch optional now duration l db' h =
    elim (Result-cases (claim_bundle work_id optional)) [
      | inl (x, e) ↦ absurd (ground (arith, e))
      | inr (keys, e) ↦ record {
        keys = keys;
        keys_ok = e;
        clear = ground (arith, e);
        room = ground (arith, e);
        daemon_room = ground (arith, e);
        writes =
            write_claim-Written db store work_id consumer epoch keys now duration l db'
              (ground (arith, e));
      }
    ]
