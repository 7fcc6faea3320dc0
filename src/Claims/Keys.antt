-- ===== src/Claims/Keys.antt =====
-- The keys that a generation holds, read off the rows of claim_resources.
use koinon.Base.{
  ℕ, ◌≡◌, sym, subst, true, map, arith, GoString, str_eq_iff, select, order_by, In, In-map, map-In,
  In-select, select-In, order_by_iff,
}
use koinon.Resource.{Resource}
use koinon.Claims.Rows.{ResourceRow, Db}
use koinon.Claims.Queries.{bundle_resources, resource_of, resource, ordinal}

-- A row of claim_resources that gives `r` to generation `g`.
pub record Held (db : Db) (store : GoString) (g : ℕ) (r : Resource) : Type 0 where
  pub row : ResourceRow
  pub stored : In row db.claim_resources
  pub store_eq : row.store ≡ store
  pub generation_eq : row.generation ≡ g
  pub resource_eq : r ≡ row.resource

pub resource_of-eq :
    (store : GoString) (g : ℕ) (r : ResourceRow)
    → resource_of store g r ≡ true
    → (r.store ≡ store) × (r.generation ≡ g)
unfolding resource_of
resource_of-eq store g r h = ground (arith, str_eq_iff r.store store)

pub eq-resource_of :
    (store : GoString) (g : ℕ) (r : ResourceRow)
    → r.store ≡ store
    → r.generation ≡ g
    → resource_of store g r ≡ true
unfolding resource_of
eq-resource_of store g r e e' = ground (arith, str_eq_iff r.store store)

pub bundle_resources-Held :
    (db : Db) (store : GoString) (g : ℕ) (r : Resource)
    → In r (bundle_resources db store g)
    → Held db store g r
unfolding bundle_resources
bundle_resources-Held db store g r m =
    let rows = select (resource_of store g) db.claim_resources in
    let (x, i, e) = In-map resource r (order_by ordinal rows) m in
    let (j, p) =
      In-select (resource_of store g) x db.claim_resources ((order_by_iff ordinal x rows).0 i) in
    let (a, b) = resource_of-eq store g x p in
    record { row = x; stored = j; store_eq = a; generation_eq = b; resource_eq = e }

pub Held-bundle_resources :
    (db : Db) (store : GoString) (g : ℕ) (r : Resource)
    → Held db store g r
    → In r (bundle_resources db store g)
unfolding bundle_resources
Held-bundle_resources db store g r h =
    let rows = select (resource_of store g) db.claim_resources in
    let i =
      select-In (resource_of store g) h.row db.claim_resources h.stored
        (eq-resource_of store g h.row h.store_eq h.generation_eq) in
    subst (λ z. In z (map resource (order_by ordinal rows))) (sym h.resource_eq)
      (map-In resource h.row (order_by ordinal rows) ((order_by_iff ordinal h.row rows).1 i))
