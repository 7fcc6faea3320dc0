-- ===== src/Claims/Protection.antt =====
-- What a renewal gives its holder, and what a managed cycle adds to its session's claims.
use koinon.Base.{
  ℕ, ◌+◌, ◌*◌, ◌≤◌, Rowwise, Rowwise-refl, Rowwise-update_rows, ◌≡◌, refl, sym, ap, ◌∙◌, ◌≢◌, true,
  false, ◌||◌, [], arith, GoString, max, str_eq, if◌then◌else◌, Bool-cases, inl, inr,
}
use koinon.Failure.{ok, >>=-eq-ok}
use koinon.Claims.Rows.{Bundle, Db, Lease, CycleRow, second, max_int64}
use koinon.Claims.Cycles.{cycle_protects, protect_cycle_claims, store_of, cycle_claim_grace}
use koinon.Claims.Engine.{owner, renew, update_bundle}
use koinon.Claims.Extension.{IsExtended, unnamed, left_out, extended}
use koinon.Claims.Ownership.{Owns, owner-Owns}

-- The terms of a renewed claim: `b` is the bundle before.
pub record Renewed (digest : GoString → GoString → GoString) (db : Db) (store : GoString)
    (g revision now duration : ℕ) (l : Lease) (db' : Db) (b : Bundle) : Type 0 where
  pub compared : b.revision ≡ revision
  pub in_range : revision ≢ max_int64
  pub generation : l.generation ≡ g
  pub advanced : l.revision ≡ revision + 1
  pub asked : now + duration * second ≤ l.expires_at
  pub kept_longer : cycle_protects digest db store g ≡ true → b.expires_at ≤ l.expires_at
  pub exact : cycle_protects digest db store g ≡ false → l.expires_at ≡ now + duration * second
  pub after :
      db'
      ≡ update_bundle db store g
          (λ o. record o { revision = l.revision; renewed_at = now; expires_at = l.expires_at })

-- A renewal succeeds only for the live owner at the current revision. It advances the revision by
-- one and grants at least the time asked for, and exactly that unless an unfinished managed cycle
-- protects the claim, which then never expires earlier than before. Only the revision, the time
-- of renewal and the expiry of that generation change.
pub renew-Renewed :
    (digest : GoString → GoString → GoString) (db : Db) (store work_id consumer : GoString)
    (g revision now duration : ℕ) (l : Lease) (db' : Db)
    → renew digest db store work_id consumer g revision now duration ≡ ok (l, db')
    → (b : Bundle) × Owns db store work_id consumer g now b
      × Renewed digest db store g revision now duration l db' b
unfolding renew
renew-Renewed digest db store work_id consumer g revision now duration l db' e =
    let (b, eo, rest) = >>=-eq-ok (owner db store work_id consumer g now) _ e in
    let expires =
      if cycle_protects digest db store g
      then max (now + duration * second) b.expires_at
      else now + duration * second in
    let given : Lease = record { generation = g; revision = revision + 1; expires_at = expires } in
    let el : given ≡ l = ground (arith, rest) in
    let write = λ (x : Lease).
      update_bundle db store g
        (λ o. record o { revision = x.revision; renewed_at = now; expires_at = x.expires_at }) in
    let ed : write given ≡ db' = ground (arith, rest) in
    (
      b,
      owner-Owns db store work_id consumer g now b eo,
      record {
        compared = ground (arith, rest);
        in_range = ground (arith, rest);
        generation = ground (arith, rest);
        advanced = ground (arith, rest);
        asked = ground (arith, rest);
        kept_longer = ground (arith, rest);
        exact = ground (arith, rest);
        after = sym ed ∙ ap write el;
      },
    )

-- The extension of a session's claims at the admission of its cycle keeps every bundle, in place,
-- and every other table. A live claim of the repository's store that belongs to a session of the
-- cycle expires at the cycle's deadline plus the grace at the earliest, and not earlier than
-- before; every other claim is as before. No claim changes from live to not live or from not live
-- to live.
pub protect_cycle_claims-extends :
    (digest : GoString → GoString → GoString) (db : Db) (c : CycleRow) (repository : GoString)
    (ms : ℕ)
    → let db' = protect_cycle_claims digest db c repository ms in
      (db' ≡ record db { bundles = db'.bundles })
      × Rowwise
          (IsExtended digest db c repository
            (ms * 1_000_000)
            (c.cycle_deadline * 1_000_000 + cycle_claim_grace * second))
          db.bundles
          db'.bundles
unfolding protect_cycle_claims
protect_cycle_claims-extends digest db c repository ms =
    let floor = c.cycle_deadline * 1_000_000 + cycle_claim_grace * second in
    let now = ms * 1_000_000 in
    elim (Bool-cases (str_eq repository [] || str_eq (store_of db repository) [])) [
      | inl e ↦
          rw e (refl, Rowwise-refl _ db.bundles (λ b. unnamed digest db c repository now floor b e))
      | inr e ↦ rw e (
        refl,
        Rowwise-update_rows _ _ _ db.bundles
            (λ b h. extended digest db c repository now floor b e h)
            (λ b h. left_out digest db c repository now floor b h),
      )
    ]
