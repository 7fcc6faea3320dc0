-- ===== src/Claims/Ownership.antt =====
-- What owner proves of the bundle that it returns.
use koinon.Base.{ℕ, ◌<◌, ◌≡◌, true, some, arith, GoString, str_eq_iff, first_row, In, first_row-In}
use koinon.Failure.{ok}
use koinon.Claims.Rows.{Bundle, Db}
use koinon.Claims.Queries.{of_item, at_generation}
use koinon.Claims.Engine.{owned_by, owner, is_live}

-- The bundle is the consumer's claim on the item, of that generation, and it is live.
pub record Owns (db : Db) (store work_id consumer : GoString) (g now : ℕ) (b : Bundle)
    : Type 0 where
  pub row : In b db.bundles
  pub store_eq : b.store ≡ store
  pub item_eq : b.work_id ≡ work_id
  pub consumer_eq : b.consumer ≡ consumer
  pub generation_eq : b.generation ≡ g
  pub active : b.active ≡ true
  pub unexpired : now < b.expires_at

pub owner-Owns :
    (db : Db) (store work_id consumer : GoString) (g now : ℕ) (b : Bundle)
    → owner db store work_id consumer g now ≡ ok b
    → Owns db store work_id consumer g now b
unfolding owner
owner-Owns db store work_id consumer g now b h =
    let found : first_row (owned_by store work_id consumer g) db.bundles ≡ some b = ground arith in
    let (i, e) = first_row-In (owned_by store work_id consumer g) b db.bundles found in
    unfold owned_by of_item in
    record {
      row = i;
      store_eq = ground (arith, str_eq_iff b.store store);
      item_eq = ground (arith, str_eq_iff b.work_id work_id);
      consumer_eq = ground (arith, str_eq_iff b.consumer consumer);
      generation_eq = ground arith;
      active = ground arith;
      unexpired = ground arith;
    }

pub Owns-is_live :
    (db : Db) (store work_id consumer : GoString) (g now : ℕ) (b : Bundle)
    → Owns db store work_id consumer g now b
    → is_live b now ≡ true
unfolding is_live
Owns-is_live db store work_id consumer g now b h = ground arith

-- A bundle that `at_generation` picks has that store and generation.
pub at_generation-eq :
    (store : GoString) (g : ℕ) (b : Bundle)
    → at_generation store g b ≡ true
    → (b.store ≡ store) × (b.generation ≡ g)
unfolding at_generation
at_generation-eq store g b h = ground (arith, str_eq_iff b.store store)
