-- ===== src/Claims/Engine.antt =====
-- leaseEngine (internal/core/claims.go). An operation takes the database that its caller's
-- transaction sees; a refusal carries no database, since the caller rolls its transaction back.
use koinon.Base.{
  ℕ, suc, ◌+◌, ◌*◌, Bool, true, false, not, ◌&&◌, ◌||◌, Option, none, some, List, [], ◌∷◌, ◌++◌,
  GoString, bytes, length, str_eq, ltb, leb, ◌==◌, if◌then◌else◌, select, update_rows, delete_rows,
  first_row, any_row, order_by, max,
}
use koinon.Failure.{
  Failure, claim_capacity, claim_conflict, stale_claim, revision_conflict, capacity,
  incompatible_store, constraint, Result, ok, err, ◌>>=◌, ◌>>◌, guard,
}
use koinon.Resource.{Resource, overlaps, claim_bundle}
use koinon.Claims.Rows.{
  Bundle, ResourceRow, Db, Lease, max_int64, second, max_bundles, max_daemon_bundles,
}
use koinon.Claims.Queries.{
  at_generation, in_store, of_item, bundle_resources, resource_of, generation, claim_counter,
  counter,
}
use koinon.Claims.Cycles.{cycle_protects}

-- the two inner loops of acquire: the first held key that a wanted key overlaps
unfoldable pub key_overlaps : List Resource → Resource → Bool
key_overlaps keys old = any_row (λ key. overlaps key old) keys

unfoldable pub first_conflict : List Resource → List Resource → Option Resource
first_conflict keys held = first_row (key_overlaps keys) held

unfoldable pub is_live : Bundle → ℕ → Bool
is_live b now = b.active && ltb now b.expires_at

unfoldable pub conflict_of : Bundle → Resource → Failure
conflict_of b old = claim_conflict b.work_id b.consumer b.generation b.expires_at old.kind old.key

-- the conflict of a live bundle with the wanted keys, if any
unfoldable pub check_live : Db → GoString → List Resource → ℕ → Bundle → Result (Unit {0})
check_live db store keys now b =
    if is_live b now
    then elim (first_conflict keys (bundle_resources db store b.generation)) [
      | none ↦ ok tt
      | some old ↦ err (conflict_of b old)
    ]
    else ok tt

-- the loop of acquire over the retained bundles
unfoldable pub check_held :
    Db → GoString → List Resource → GoString → ℕ → List Bundle → Result (Unit {0})
check_held db store keys work_id now [] = ok tt
check_held db store keys work_id now (b ∷ rest) =
    let next = check_held db store keys work_id now rest in
    do check_live db store keys now b; if str_eq b.work_id work_id then err claim_capacity else next

-- the CHECK constraints of claim_bundles on its counters
unfoldable pub checks_bundle : Bundle → Bool
checks_bundle b = ltb 0 b.generation && (ltb 0 b.revision && ltb 0 b.progress_epoch)

-- INSERT INTO claim_bundles, with its checks, its primary key and UNIQUE(store, work_id)
unfoldable pub insert_bundle : Db → Bundle → Result Db
insert_bundle db b =
    if not (checks_bundle b)
      || any_row (λ o. at_generation b.store b.generation o || of_item b.store b.work_id o)
          db.bundles
    then err constraint
    else ok (record db { bundles = db.bundles ++ b ∷ [] })

unfoldable pub resource_rows : GoString → ℕ → ℕ → List Resource → List ResourceRow
resource_rows store g i [] = []
resource_rows store g i (key ∷ keys) =
    record { store = store; generation = g; ordinal = i; resource = key }
    ∷ resource_rows store g (suc i) keys

-- the CHECK constraint of claim_resources on the kind
unfoldable pub fails_kind : Resource → Bool
fails_kind key = not (
    str_eq key.kind (bytes "writer")
    || (str_eq key.kind (bytes "path") || str_eq key.kind (bytes "exact")))

-- the INSERT INTO claim_resources of each key, with its checks (an ordinal from 0 to 8 and a known
-- kind) and its primary key: no row of this generation may be there already
unfoldable pub insert_resources : Db → GoString → ℕ → List Resource → Result Db
insert_resources db store g keys =
    if (ltb 9 (length keys) || any_row fails_kind keys)
      || any_row (λ r. resource_of store g r && ltb r.ordinal (length keys)) db.claim_resources
    then err constraint
    else ok (record db { claim_resources = db.claim_resources ++ resource_rows store g 0 keys })

-- the row that acquire inserts, with the columns' defaults
unfoldable pub new_bundle : GoString → ℕ → GoString → GoString → ℕ → ℕ → ℕ → Bundle
new_bundle store g work_id consumer epoch now expires = record {
  store = store;
  generation = g;
  work_id = work_id;
  consumer = consumer;
  native_actor = [];
  revision = 1;
  issued_at = now;
  renewed_at = now;
  expires_at = expires;
  progress_epoch = epoch;
  overdue_recorded = false;
  active = true;
  overdue_credit = true;
  end_credit = true;
}

-- the writes of acquire: the generation, the bundle and its keys
unfoldable pub write_claim :
    Db → GoString → GoString → GoString → ℕ → List Resource → ℕ → ℕ → Result (Lease × Db)
write_claim db store work_id consumer epoch keys now duration = do
  (g, db1) ← counter db store claim_counter
  let expires = now + duration * second
  db2 ← insert_bundle db1 (new_bundle store g work_id consumer epoch now expires)
  db3 ← insert_resources db2 store g keys
  ok (record { generation = g; revision = 1; expires_at = expires }, db3)

-- acquire
unfoldable pub acquire :
    Db → GoString → GoString → GoString → ℕ → List Resource → ℕ → ℕ → Result (Lease × Db)
acquire db store work_id consumer epoch optional now duration = do
  keys ← claim_bundle work_id optional
  let held = order_by generation (select (in_store store) db.bundles)
  check_held db store keys work_id now held
  guard (ltb (length held) max_bundles) claim_capacity
  guard (ltb (length db.bundles) max_daemon_bundles) claim_capacity
  write_claim db store work_id consumer epoch keys now duration

unfoldable pub owned_by : GoString → GoString → GoString → ℕ → Bundle → Bool
owned_by store work_id consumer g b =
    of_item store work_id b && (str_eq b.consumer consumer && (b.generation == g && b.active))

-- owner
unfoldable pub owner : Db → GoString → GoString → GoString → ℕ → ℕ → Result Bundle
owner db store work_id consumer g now =
    elim (first_row (owned_by store work_id consumer g) db.bundles) [
      | none ↦ err stale_claim
      | some b ↦ if leb b.expires_at now then err stale_claim else ok b
    ]

-- UPDATE claim_bundles SET … WHERE store=? AND generation=?
unfoldable pub update_bundle : Db → GoString → ℕ → (Bundle → Bundle) → Db
update_bundle db store g f = record db {
  bundles = update_rows (at_generation store g) f db.bundles;
}

-- renew
unfoldable pub renew :
    (GoString → GoString → GoString)
    → Db
    → GoString
    → GoString
    → GoString
    → ℕ
    → ℕ
    → ℕ
    → ℕ
    → Result (Lease × Db)
renew digest db store work_id consumer g revision now duration = do
  b ← owner db store work_id consumer g now
  guard (b.revision == revision) (revision_conflict b.revision)
  guard (not (revision == max_int64)) capacity
  let wanted = now + duration * second
  let expires = if cycle_protects digest db store g then max wanted b.expires_at else wanted
  ok (
    record { generation = g; revision = revision + 1; expires_at = expires },
    update_bundle db store g
        (λ o. record o { revision = revision + 1; renewed_at = now; expires_at = expires }),
  )

-- progress
unfoldable pub progress : Db → GoString → GoString → GoString → ℕ → ℕ → ℕ → Result Db
progress db store work_id consumer g epoch now = do
  b ← owner db store work_id consumer g now
  guard (epoch == b.progress_epoch + 1) incompatible_store
  ok (
      update_bundle db store g
        (λ o. record o { progress_epoch = epoch; overdue_recorded = false; overdue_credit = true }))

-- overdue
unfoldable pub overdue : Db → GoString → ℕ → ℕ → Result (Bool × Db)
overdue db store g epoch = elim (first_row (at_generation store g) db.bundles) [
  | none ↦ ok (false, db)
  | some b ↦
      if not b.active || b.overdue_recorded
      then ok (false, db)
      else if b.progress_epoch == epoch
      then ok (
        true,
        update_bundle db store g
            (λ o. record o { overdue_credit = false; overdue_recorded = true }),
      )
      else err incompatible_store
]

-- end
unfoldable pub end_claim : Db → GoString → ℕ → Db
end_claim db store g =
    update_bundle db store g
      (λ o. record o { active = false; overdue_credit = false; end_credit = false })

-- expire
unfoldable pub expire : Db → GoString → ℕ → ℕ → Bool × Db
expire db store g now = elim (first_row (at_generation store g) db.bundles) [
  | none ↦ (false, db)
  | some b ↦
      if not b.active || ltb now b.expires_at then (false, db) else (true, end_claim db store g)
]

-- release
unfoldable pub release : Db → GoString → GoString → GoString → ℕ → ℕ → Result Db
release db store work_id consumer g now = do
  owner db store work_id consumer g now
  ok (end_claim db store g)

unfoldable pub is_inactive : GoString → Bundle → Bool
is_inactive store b = in_store store b && not b.active

unfoldable pub delete_bundle : Db → GoString → ℕ → Db
delete_bundle db store g = record db {
  bundles = delete_rows (at_generation store g) db.bundles;
  claim_resources = delete_rows (resource_of store g) db.claim_resources;
}

-- reclaimOne
unfoldable pub reclaim_one : Db → GoString → Result (Bool × Db)
reclaim_one db store = elim (order_by generation (select (is_inactive store) db.bundles)) [
  | [] ↦ ok (false, db)
  | b ∷ rest ↦
      if b.overdue_credit || b.end_credit
      then err incompatible_store
      else ok (true, delete_bundle db store b.generation)
]
