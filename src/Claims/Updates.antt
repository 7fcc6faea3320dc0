-- ===== src/Claims/Updates.antt =====
-- What each operation on a claim that is there writes: nothing, an update of one generation that
-- leaves it in its store, or its deletion.
use koinon.Base.{
  ℕ, ◌+◌, ◌*◌, ◌≡◌, refl, ◌⊎◌, inl, inr, Bool, true, false, List, [], ◌∷◌, arith, GoString, max,
  if◌then◌else◌, order_by, select,
}
use koinon.Failure.{ok, >>=-eq-ok}
use koinon.Claims.Rows.{Bundle, Db, Lease, second}
use koinon.Claims.Queries.{generation}
use koinon.Claims.Cycles.{cycle_protects}
use koinon.Claims.Engine.{
  owner, renew, progress, overdue, expire, release, end_claim, update_bundle, is_inactive,
  reclaim_one, delete_bundle,
}

abbrev pub Updated : Db → Db → GoString → ℕ → Type 0
Updated db db' store g =
    (f : Bundle → Bundle) × ((b : Bundle) → (f b).store ≡ b.store)
    × (update_bundle db store g f ≡ db')

pub renew-update :
    (digest : GoString → GoString → GoString) (db db' : Db) (store work_id consumer : GoString)
    (g revision now duration : ℕ) (l : Lease)
    → renew digest db store work_id consumer g revision now duration ≡ ok (l, db')
    → Updated db db' store g
unfolding renew
renew-update digest db db' store work_id consumer g revision now duration l e =
    let (o, _, rest) = >>=-eq-ok (owner db store work_id consumer g now) _ e in
    let wanted = now + duration * second in
    let expires = if cycle_protects digest db store g then max wanted o.expires_at else wanted in
    (
      λ b. record b { revision = revision + 1; renewed_at = now; expires_at = expires },
      λ b. refl,
      ground (arith, rest),
    )

pub progress-update :
    (db db' : Db) (store work_id consumer : GoString) (g epoch now : ℕ)
    → progress db store work_id consumer g epoch now ≡ ok db'
    → Updated db db' store g
unfolding progress
progress-update db db' store work_id consumer g epoch now e =
    let (o, _, rest) = >>=-eq-ok (owner db store work_id consumer g now) _ e in
    (
      λ b. record b { progress_epoch = epoch; overdue_recorded = false; overdue_credit = true },
      λ b. refl,
      ground (arith, rest),
    )

pub overdue-update :
    (db db' : Db) (store : GoString) (g epoch : ℕ) (spent : Bool)
    → overdue db store g epoch ≡ ok (spent, db')
    → (db ≡ db') ⊎ Updated db db' store g
unfolding overdue
overdue-update db db' store g epoch spent e =
    let f = λ (o : Bundle). record o { overdue_credit = false; overdue_recorded = true } in
    let outcome : (db ≡ db') ⊎ (update_bundle db store g f ≡ db') = ground arith in
    elim outcome [ inl u ↦ inl u | inr u ↦ inr (f, (λ b. refl), u) ]

pub expire-update :
    (db : Db) (store : GoString) (g now : ℕ)
    → ((expire db store g now).1 ≡ db) ⊎ ((expire db store g now).1 ≡ end_claim db store g)
unfolding expire
expire-update db store g now = ground arith

pub release-update :
    (db db' : Db) (store work_id consumer : GoString) (g now : ℕ)
    → release db store work_id consumer g now ≡ ok db'
    → end_claim db store g ≡ db'
unfolding release
release-update db db' store work_id consumer g now e = ground arith

pub reclaim_one-update :
    (db db' : Db) (store : GoString) (any : Bool)
    → reclaim_one db store ≡ ok (any, db')
    → (db ≡ db') ⊎ ((g : ℕ) × (delete_bundle db store g ≡ db'))
unfolding reclaim_one
reclaim_one-update db db' store any e =
    by_rows (order_by generation (select (is_inactive store) db.bundles)) refl
  where
    by_rows :
        (rows : List Bundle)
        → order_by generation (select (is_inactive store) db.bundles) ≡ rows
        → (db ≡ db') ⊎ ((g : ℕ) × (delete_bundle db store g ≡ db'))
    by_rows [] q = inl (let h = rw (q, reclaim_one) at e in ground (arith, h))
    by_rows (b ∷ rest) q = inr (b.generation, let h = rw (q, reclaim_one) at e in ground (arith, h))
