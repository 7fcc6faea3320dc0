-- ===== src/Claims/Queries.antt =====
-- The queries and the durable counters of the lease engine (internal/core/claims.go).
use koinon.Base.{
  ℕ, ◌+◌, Bool, ◌&&◌, Option, none, some, List, map, GoString, str_eq, ltb, ◌==◌, if◌then◌else◌,
  select, update_rows, first_row, order_by,
}
use koinon.Failure.{capacity, no_rows, Result, ok, err}
use koinon.Resource.{Resource}
use koinon.Claims.Rows.{Bundle, ResourceRow, StoreRow, Db, max_int64}

-- WHERE store=? AND generation=?
unfoldable pub at_generation : GoString → ℕ → Bundle → Bool
at_generation store generation b = str_eq b.store store && b.generation == generation

unfoldable pub in_store : GoString → Bundle → Bool
in_store store b = str_eq b.store store

unfoldable pub of_item : GoString → GoString → Bundle → Bool
of_item store work_id b = str_eq b.store store && str_eq b.work_id work_id

-- bundleFor
unfoldable pub bundle_for : Db → GoString → GoString → Option Bundle
bundle_for db store work_id = first_row (of_item store work_id) db.bundles

unfoldable pub resource_of : GoString → ℕ → ResourceRow → Bool
resource_of store generation r = str_eq r.store store && r.generation == generation

abbrev pub ordinal : ResourceRow → ℕ
ordinal r = r.ordinal

abbrev pub resource : ResourceRow → Resource
resource r = r.resource

abbrev pub generation : Bundle → ℕ
generation b = b.generation

-- bundleResources
unfoldable pub bundle_resources : Db → GoString → ℕ → List Resource
bundle_resources db store g =
    map resource (order_by ordinal (select (resource_of store g) db.claim_resources))

pub data Counter : Type 0 where
  work_counter claim_counter : Counter

unfoldable pub read_counter : Counter → StoreRow → ℕ
read_counter work_counter s = s.work_counter
read_counter claim_counter s = s.claim_counter

unfoldable pub write_counter : Counter → ℕ → StoreRow → StoreRow
write_counter work_counter n s = record s { work_counter = n }
write_counter claim_counter n s = record s { claim_counter = n }

unfoldable pub is_store : GoString → StoreRow → Bool
is_store store s = str_eq s.store_id store

-- counter: allocates the next value of a store's durable counter
unfoldable pub counter : Db → GoString → Counter → Result (ℕ × Db)
counter db store column = elim (first_row (is_store store) db.memory_stores) [
  | none ↦ err no_rows
  | some s ↦
      let value = read_counter column s in
      if ltb value max_int64
      then ok (
        value + 1,
        record db {
          memory_stores =
              update_rows (is_store store) (write_counter column (value + 1)) db.memory_stores;
        },
      )
      else err capacity
]
