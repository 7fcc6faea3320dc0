-- ===== src/Claims/Exclusion.antt =====
-- acquire keeps the claim tables sound: above all, a new claim overlaps no live claim.
use koinon.Base.{
  ℕ, suc, ◌+◌, ◌*◌, ◌<◌, ◌≤◌, ◌≡◌, ◌≢◌, refl, ap, sym, ◌∙◌, subst, ◌⊎◌, inl, inr, true, false, none,
  List, [], ◌∷◌, arith, GoString, str_eq_iff, str_eq, select, any_row-false, first_row-In,
  first_row-none, order_by, In, In-append, In-update_rows, order_by_iff, select-In,
}
use koinon.Failure.{ok}
use koinon.Resource.{Resource, overlaps}
use koinon.Resource.Paths.{overlaps_comm}
use koinon.Claims.Rows.{Bundle, ResourceRow, StoreRow, Db, Lease, second}
use koinon.Claims.Queries.{
  in_store, bundle_resources, generation, is_store, write_counter, claim_counter,
}
use koinon.Claims.Engine.{
  acquire, check_live, check_held, first_conflict, key_overlaps, is_live, new_bundle, resource_rows,
}
use koinon.Claims.Invariant.{IsSound, IsFunded}
use koinon.Claims.Keys.{bundle_resources-Held, Held-bundle_resources}
use koinon.Claims.Acquired.{Acquired, acquire-Acquired}

resource_rows-row :
    (store : GoString) (g i : ℕ) (keys : List Resource) (r : ResourceRow)
    → In r (resource_rows store g i keys)
    → (r.store ≡ store) × (r.generation ≡ g) × In r.resource keys
unfolding resource_rows
resource_rows-row store g i [] r m = absurd m
resource_rows-row store g i (k ∷ keys) r (inl e) = (cc, cc, inl (cc))
resource_rows-row store g i (k ∷ keys) r (inr m) =
    let (a, b, c) = resource_rows-row store g (suc i) keys r m in (a, b, inr c)

first_conflict-none :
    (keys held : List Resource) (key old : Resource)
    → first_conflict keys held ≡ none
    → In key keys
    → In old held
    → overlaps key old ≡ false
unfolding first_conflict
first_conflict-none keys held key old h k o =
    let e = first_row-none (key_overlaps keys) old held h o in
    any_row-false (λ z. overlaps z old) key keys (unfold key_overlaps in e) k

-- check_held passes only if no retained bundle is the item's, and no live one overlaps.
check_held-clear :
    (db : Db) (store : GoString) (keys : List Resource) (work_id : GoString) (now : ℕ)
    (held : List Bundle) (b : Bundle)
    → check_held db store keys work_id now held ≡ ok tt
    → In b held
    → (b.work_id ≢ work_id) × (check_live db store keys now b ≡ ok tt)
unfolding check_held
check_held-clear db store keys work_id now [] b h m = absurd m
check_held-clear db store keys work_id now (c ∷ held) b h (inl e) =
    let f : (str_eq c.work_id work_id ≡ false) × (check_live db store keys now c ≡ ok tt) =
      (ground arith, ground arith) in
    rw e ((λ p. cc (f.0, (str_eq_iff c.work_id work_id).1 p)), f.1)
check_held-clear db store keys work_id now (c ∷ held) b h (inr m) =
    check_held-clear db store keys work_id now held b (ground arith) m

-- A live bundle that passed overlaps no wanted key.
check_live-clear :
    (db : Db) (store : GoString) (keys : List Resource) (now : ℕ) (b : Bundle) (key old : Resource)
    → check_live db store keys now b ≡ ok tt
    → is_live b now ≡ true
    → In key keys
    → In old (bundle_resources db store b.generation)
    → overlaps key old ≡ false
unfolding check_live
check_live-clear db store keys now b key old h l k o =
    first_conflict-none keys (bundle_resources db store b.generation) key old (ground arith) k o

module _ (db db' : Db) (store work_id consumer : GoString) (epoch : ℕ) (optional : List Resource)
    (now duration : ℕ) (l : Lease)
    (a : Acquired db store work_id consumer epoch optional now duration l db')
    (h : IsSound db now) where
  open a use {keys, writes}

  new : Bundle
  new = new_bundle store writes.g work_id consumer epoch now (now + duration * second)

  -- Every generation in use in the store is below the new one.
  below :
      (n : ℕ) (s : GoString)
      → s ≡ store
      → ((r : StoreRow) → In r db.memory_stores → r.store_id ≡ s → n ≤ r.claim_counter)
      → n < writes.g
  below n s e bound =
      let (i, p) = first_row-In (is_store store) writes.row db.memory_stores writes.counted in
      let le =
        bound writes.row i
          (unfold is_store in ground (arith, str_eq_iff writes.row.store_id store)) in
      omega (arith, le, writes.next)

  bundle_cases : (b : Bundle) → In b db'.bundles → In b db.bundles ⊎ (b ≡ new)
  unfolding new
  bundle_cases b i =
      elim (In-append b db.bundles (new ∷ []) (subst (λ (d : Db). In b d.bundles) writes.after i)) [
        | inl old ↦ inl old
        | inr m ↦ elim m [ inl e ↦ inr e | inr z ↦ absurd z ]
      ]

  row_cases :
      (r : ResourceRow)
      → In r db'.claim_resources
      → In r db.claim_resources ⊎ In r (resource_rows store writes.g 0 keys)
  row_cases r i =
      In-append r db.claim_resources _ (subst (λ (d : Db). In r d.claim_resources) writes.after i)

  -- After the write a store has its counter still, or it is this store and has the new one.
  store_cases :
      (s : StoreRow)
      → In s db'.memory_stores
      → (o : StoreRow) × In o db.memory_stores
        × (o.store_id ≡ s.store_id)
        × (((s.store_id ≡ store) × (s.claim_counter ≡ writes.g)) ⊎ ((s.store_id ≢ store) × (s ≡ o)))
  unfolding is_store write_counter
  store_cases s i =
      let (o, j, e) =
        In-update_rows (is_store store) (write_counter claim_counter writes.g) s db.memory_stores
          (subst (λ (d : Db). In s d.memory_stores) writes.after i) in
      (o, j, ground (arith, e), ground (arith, e, str_eq_iff o.store_id store))

  -- A generation within its store's counter stays within it.
  stays_below :
      (n : ℕ) (t : GoString)
      → ((r : StoreRow) → In r db.memory_stores → r.store_id ≡ t → n ≤ r.claim_counter)
      → (s : StoreRow) → In s db'.memory_stores
      → s.store_id ≡ t
      → n ≤ s.claim_counter
  stays_below n t bound s i e =
      let (o, j, k, c) = store_cases s i in
      elim c [
        | inl (same, g) ↦ let lt = below n t (sym e ∙ same) bound in omega (arith, lt, g)
        | inr (other, same) ↦ let le = bound o j (k ∙ e) in ground (arith, le, same)
      ]

  -- A bundle that was there keeps the keys that it had.
  old_keys :
      (b : Bundle) (r : Resource)
      → In b db.bundles
      → In r (bundle_resources db' b.store b.generation)
      → In r (bundle_resources db b.store b.generation)
  old_keys b r i m =
      let k = bundle_resources-Held db' b.store b.generation r m in
      elim (row_cases k.row k.stored) [
        | inl old ↦ Held-bundle_resources db b.store b.generation r (record {
          row = k.row;
          stored = old;
          store_eq = k.store_eq;
          generation_eq = k.generation_eq;
          resource_eq = k.resource_eq;
        })
        | inr added ↦
            let (e, e', _) = resource_rows-row store writes.g 0 keys k.row added in
            let lt =
              below b.generation b.store (sym k.store_eq ∙ e) (λ s j q. h.bounded b s i j q) in
            absurd (omega (arith, lt, k.generation_eq, e'))
      ]

  -- The new bundle has the wanted keys.
  new_keys : (r : Resource) → In r (bundle_resources db' store writes.g) → In r keys
  new_keys r m =
      let k = bundle_resources-Held db' store writes.g r m in
      elim (row_cases k.row k.stored) [
        | inl old ↦
            let lt =
              below k.row.generation k.row.store k.store_eq
                (λ s j q. h.keys_bounded k.row s old j q) in
            absurd (omega (arith, lt, k.generation_eq))
        | inr added ↦
            let (_, _, i) = resource_rows-row store writes.g 0 keys k.row added in
            subst (λ z. In z keys) (sym k.resource_eq) i
      ]

  -- A live bundle of the store overlaps no key of the new one.
  apart :
      (b : Bundle) (r s : Resource)
      → In b db.bundles
      → b.store ≡ store
      → is_live b now ≡ true
      → In r keys
      → In s (bundle_resources db b.store b.generation)
      → overlaps r s ≡ false
  apart b r s i e lb ir is =
      let q =
        select-In (in_store store) b db.bundles i
          (unfold in_store in (str_eq_iff b.store store).1 e) in
      let held = order_by generation (select (in_store store) db.bundles) in
      let c =
        check_held-clear db store keys work_id now held b a.clear
          ((order_by_iff generation b _).1 q) in
      check_live-clear db store keys now b r s c.1 lb ir
        (subst (λ t. In s (bundle_resources db t b.generation)) e is)

  -- An old bundle of the new one's store has a lower generation.
  older :
      (b c : Bundle) → In b db.bundles → c ≡ new → b.store ≡ c.store → b.generation < c.generation
  unfolding new new_bundle
  older b c i e s =
      let lt =
        below b.generation b.store (s ∙ ap (λ (z : Bundle). z.store) e)
          (λ r j q. h.bounded b r i j q) in
      ground (arith, lt, e)

  -- The keys of the new bundle and of a live old one do not overlap, whichever comes first.
  no_overlap :
      (b c : Bundle) (r s : Resource)
      → In b db.bundles
      → c ≡ new
      → b.store ≡ c.store
      → is_live b now ≡ true
      → In r (bundle_resources db' b.store b.generation)
      → In s (bundle_resources db' c.store c.generation)
      → overlaps s r ≡ false
  unfolding new new_bundle
  no_overlap b c r s i e st lb ir is =
      let fresh_keys =
        subst (λ (z : Bundle). In s (bundle_resources db' z.store z.generation)) e is in
      apart b s r i (st ∙ ap (λ (z : Bundle). z.store) e) lb (new_keys s fresh_keys)
        (old_keys b r i ir)

  tables : IsSound db' now
  tables = record {
    unique = λ b c i j s g. elim (bundle_cases b i) [
      | inl ob ↦ elim (bundle_cases c j) [
        | inl oc ↦ h.unique b c ob oc s g
        | inr nc ↦ let lt = older b c ob nc s in absurd (omega (arith, lt, g))
      ]
      | inr nb ↦ elim (bundle_cases c j) [
        | inl oc ↦ let lt = older c b oc nb (sym s) in absurd (omega (arith, lt, g))
        | inr nc ↦ nb ∙ sym nc
      ]
    ];
    bounded = λ b s i j e. elim (bundle_cases b i) [
      | inl ob ↦ stays_below b.generation b.store (λ r k q. h.bounded b r ob k q) s j e
      | inr nb ↦ new_bounded b s nb j e
    ];
    keys_bounded = λ r s i j e. elim (row_cases r i) [
      | inl old ↦ stays_below r.generation r.store (λ t k q. h.keys_bounded r t old k q) s j e
      | inr added ↦ row_bounded r s added j e
    ];
    exclusive = λ b c r s i j e lb lc ir is o. elim (bundle_cases b i) [
      | inl ob ↦ elim (bundle_cases c j) [
        | inl oc ↦ h.exclusive b c r s ob oc e lb lc (old_keys b r ob ir) (old_keys c s oc is) o
        | inr nc ↦ let n = no_overlap b c r s ob nc e lb ir is in cc (n, o, overlaps_comm r s)
      ]
      | inr nb ↦ elim (bundle_cases c j) [
        | inl oc ↦ let n = no_overlap c b s r oc nb (sym e) lc is ir in cc (n, o)
        | inr nc ↦ cc (nb, nc)
      ]
    ];
    funded = λ b i. elim (bundle_cases b i) [
      | inl ob ↦ h.funded b ob
      | inr nb ↦
          subst IsFunded (sym nb) (unfold new new_bundle in record { end = refl; overdue = refl })
    ];
  }
    where
      counter_at :
          (s : StoreRow) → In s db'.memory_stores → s.store_id ≡ store → s.claim_counter ≡ writes.g
      counter_at s j e =
          let (_, _, _, c) = store_cases s j in
          elim c [ inl (_, g) ↦ g | inr (n, _) ↦ absurd (n e) ]

      new_bounded :
          (b : Bundle) (s : StoreRow)
          → b ≡ new
          → In s db'.memory_stores
          → s.store_id ≡ b.store
          → b.generation ≤ s.claim_counter
      new_bounded b s nb j e =
          let n = counter_at s j (e ∙ unfold new new_bundle in ap (λ (z : Bundle). z.store) nb) in
          unfold new new_bundle in ground (arith, n, nb)

      row_bounded :
          (r : ResourceRow) (s : StoreRow)
          → In r (resource_rows store writes.g 0 keys)
          → In s db'.memory_stores
          → s.store_id ≡ r.store
          → r.generation ≤ s.claim_counter
      row_bounded r s m j e =
          let (t, g, _) = resource_rows-row store writes.g 0 keys r m in
          let n = counter_at s j (e ∙ t) in omega (arith, n, g)

-- A successful acquire keeps the claim tables sound: the new claim overlaps no live claim of its
-- store, and its generation is new.
pub acquire-IsSound :
    (db : Db) (store work_id consumer : GoString) (epoch : ℕ) (optional : List Resource)
    (now duration : ℕ) (l : Lease) (db' : Db)
    → acquire db store work_id consumer epoch optional now duration ≡ ok (l, db')
    → IsSound db now
    → IsSound db' now
acquire-IsSound db store work_id consumer epoch optional now duration l db' e h =
    tables db db' store work_id consumer epoch optional now duration l
      (acquire-Acquired db store work_id consumer epoch optional now duration l db' e) h
