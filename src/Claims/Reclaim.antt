-- ===== src/Claims/Reclaim.antt =====
-- reclaimOne: it keeps the claim tables sound, never meets a funded inactive bundle, and frees
-- one bundle whenever there is an inactive one.
use koinon.Base.{
  ℕ, ◌≤◌, ◌≡◌, refl, sym, subst, ◌⊎◌, inl, inr, Bool, true, false, List, [], ◌∷◌, arith, GoString,
  select, select-In, order_by, order_by-least, empty_of_no_row, str_eq_iff, In, In-select,
  In-delete_rows, order_by_iff, kept_iff, ◌↔◌, Bool-cases,
}
use koinon.Failure.{ok}
use koinon.Resource.{Resource}
use koinon.Claims.Rows.{Bundle, ResourceRow, Db}
use koinon.Claims.Queries.{in_store, at_generation, resource_of, generation, bundle_resources}
use koinon.Claims.Engine.{reclaim_one, is_inactive, delete_bundle}
use koinon.Claims.Invariant.{IsSound}
use koinon.Claims.Keys.{bundle_resources-Held, Held-bundle_resources}

-- After a deletion a generation has no key that it did not have.
held_before :
    (db : Db) (store : GoString) (g : ℕ) (s' : GoString) (g' : ℕ) (r : Resource)
    → In r (bundle_resources (delete_bundle db store g) s' g')
    → In r (bundle_resources db s' g')
unfolding delete_bundle
held_before db store g s' g' r m =
    let h = bundle_resources-Held (delete_bundle db store g) s' g' r m in
    Held-bundle_resources db s' g' r (record {
      row = h.row;
      stored = (In-delete_rows (resource_of store g) h.row db.claim_resources h.stored).0;
      store_eq = h.store_eq;
      generation_eq = h.generation_eq;
      resource_eq = h.resource_eq;
    })

pub delete_bundle-IsSound :
    (db : Db) (store : GoString) (g now : ℕ)
    → IsSound db now
    → IsSound (delete_bundle db store g) now
delete_bundle-IsSound db store g now h =
    let kept : (b : Bundle) → In b (delete_bundle db store g).bundles → In b db.bundles =
      λ b i. unfold delete_bundle in (In-delete_rows (at_generation store g) b db.bundles i).0 in
    record {
      unique = λ b c i j. h.unique b c (kept b i) (kept c j);
      bounded = λ b s i j. h.bounded b s (kept b i) (unfold delete_bundle in j);
      keys_bounded = λ r s i j.
          h.keys_bounded r s
            (unfold delete_bundle in
              (In-delete_rows (resource_of store g) r db.claim_resources i).0)
            (unfold delete_bundle in j);
      exclusive = λ b c r s i j e lb lc ir is.
          h.exclusive b c r s (kept b i) (kept c j) e lb lc
            (held_before db store g b.store b.generation r ir)
            (held_before db store g c.store c.generation s is);
      funded = λ b i. h.funded b (kept b i);
    }

-- An inactive bundle of the store, with no inactive one before it.
pub record IsOldest (db : Db) (store : GoString) (b : Bundle) : Type 0 where
  pub row : In b db.bundles
  pub inactive : b.active ≡ false
  pub store_eq : b.store ≡ store
  pub oldest :
      (c : Bundle)
      → In c db.bundles
      → c.active ≡ false
      → c.store ≡ store
      → b.generation ≤ c.generation

-- The two results of reclaimOne, by the branch that it takes.
abbrev Branches : Db → GoString → Type 0
Branches db store =
    ((reclaim_one db store ≡ ok (false, db)) × (select (is_inactive store) db.bundles ≡ []))
    ⊎ ((b : Bundle) × IsOldest db store b
        × (reclaim_one db store ≡ ok (true, delete_bundle db store b.generation)))

reclaim_one-Branches : (db : Db) (store : GoString) (now : ℕ) → IsSound db now → Branches db store
reclaim_one-Branches db store now h =
    by_rows (order_by generation (select (is_inactive store) db.bundles)) refl
  where
    none_left :
        order_by generation (select (is_inactive store) db.bundles) ≡ []
        → select (is_inactive store) db.bundles ≡ []
    none_left e =
        empty_of_no_row (select (is_inactive store) db.bundles)
          (λ x i. subst (In x) e ((order_by_iff generation x _).1 i))

    by_rows :
        (rows : List Bundle)
        → order_by generation (select (is_inactive store) db.bundles) ≡ rows
        → Branches db store
    by_rows [] e = inl (unfold reclaim_one in rw (e, reclaim_one) refl, none_left e)
    by_rows (b ∷ rest) e =
        let (i, p) =
          In-select (is_inactive store) b db.bundles
            ((order_by_iff generation b _).0 (subst (In b) (sym e) (inl refl))) in
        let f = h.funded b i in
        let off : (b.active ≡ false) × (b.store ≡ store) =
          unfold is_inactive in_store in ground (arith, str_eq_iff b.store store) in
        inr (
          b,
          record {
            row = i;
            inactive = off.0;
            store_eq = off.1;
            oldest = λ c j q s.
                order_by-least generation (select (is_inactive store) db.bundles) b rest c e (
                  select-In (is_inactive store) c db.bundles j
                    (unfold is_inactive in_store in ground (arith, str_eq_iff c.store store)));
          },
          unfold reclaim_one in rw (e, reclaim_one) (ground (arith, f.end, f.overdue, off.0)),
        )

-- `db'` is `db` less the bundle of the generation and its keys: every other bundle of the store and
-- of other stores is there, with its keys, and no other table changes.
pub record IsWithout (db db' : Db) (store : GoString) (g : ℕ) : Type 0 where
  pub bundles :
      (c : Bundle)
      → In c db'.bundles ↔ (In c db.bundles × ¬ ((c.store ≡ store) × (c.generation ≡ g)))
  pub keys :
      (r : ResourceRow)
      → In r db'.claim_resources
        ↔ (In r db.claim_resources × ¬ ((r.store ≡ store) × (r.generation ≡ g)))
  pub others : db' ≡ record db { bundles = db'.bundles; claim_resources = db'.claim_resources }

delete_bundle-IsWithout :
    (db : Db) (store : GoString) (g : ℕ) → IsWithout db (delete_bundle db store g) store g
unfolding delete_bundle
delete_bundle-IsWithout db store g = record {
  bundles = λ c.
      unfold at_generation in
      (let (a, b) = kept_iff (at_generation store g) c db.bundles in
        (
          λ i. let (j, e) = a i in (j, λ (x, y). ground (arith, e, str_eq_iff c.store store)),
          λ (j, n). b (j, ground (arith, n, str_eq_iff c.store store)),
        ));
  keys = λ r.
      unfold resource_of in
      (let (a, b) = kept_iff (resource_of store g) r db.claim_resources in
        (
          λ i. let (j, e) = a i in (j, λ (x, y). ground (arith, e, str_eq_iff r.store store)),
          λ (j, n). b (j, ground (arith, n, str_eq_iff r.store store)),
        ));
  others = refl;
}

-- Every bundle of the store is active and nothing changes, or the oldest inactive bundle of the
-- store is gone with its keys.
abbrev pub Reclaimed : Db → GoString → Type 0
Reclaimed db store =
    ((reclaim_one db store ≡ ok (false, db))
      × ((b : Bundle) → In b db.bundles → b.store ≡ store → b.active ≡ true))
    ⊎ ((b : Bundle) × IsOldest db store b
        × (db' : Db) × (reclaim_one db store ≡ ok (true, db'))
        × IsWithout db db' store b.generation)

-- In sound tables reclaimOne does not refuse. Either the store has no inactive bundle and nothing
-- changes, or the oldest inactive bundle of the store is deleted with its keys, and every other
-- bundle, every other key and all other tables stay as they are.
pub reclaim_one-total : (db : Db) (store : GoString) (now : ℕ) → IsSound db now → Reclaimed db store
reclaim_one-total db store now h = elim (reclaim_one-Branches db store now h) [
  | inl (e, n) ↦ inl (
    e,
    λ b i s. elim (Bool-cases b.active) [
      | inl a ↦ a
      | inr a ↦
          let j =
            select-In (is_inactive store) b db.bundles i
              (unfold is_inactive in_store in ground (arith, a, str_eq_iff b.store store)) in
          absurd (subst (In b) n j)
    ],
  )
  | inr (b, o, e) ↦
      inr (
        b,
        o,
        delete_bundle db store b.generation,
        e,
        delete_bundle-IsWithout db store b.generation,
      )
]

pub reclaim_one-IsSound :
    (db db' : Db) (store : GoString) (now : ℕ) (any : Bool)
    → reclaim_one db store ≡ ok (any, db')
    → IsSound db now
    → IsSound db' now
reclaim_one-IsSound db db' store now any e h = elim (reclaim_one-Branches db store now h) [
  | inl (kept, _) ↦ let same : db ≡ db' = cc (e, kept) in subst (λ d. IsSound d now) same h
  | inr (b, _, gone) ↦
      let same : delete_bundle db store b.generation ≡ db' = cc (e, gone) in
      subst (λ d. IsSound d now) same (delete_bundle-IsSound db store b.generation now h)
]
