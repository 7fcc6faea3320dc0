-- ===== src/Claims/Renewal.antt =====
-- The operations on a claim that is there already keep the claim tables sound.
use koinon.Base.{
  ℕ, ◌+◌, ◌*◌, ◌≡◌, refl, sym, ◌∙◌, ◌⊎◌, str_eq, subst, Bool, true, false, ◌||◌, [], arith,
  GoString, max, In, inl, inr, Bool-cases, if◌then◌else◌,
}
use koinon.Failure.{ok, >>=-eq-ok}
use koinon.Claims.Rows.{Bundle, Db, Lease, CycleRow, second}
use koinon.Claims.Queries.{at_generation}
use koinon.Claims.Cycles.{
  cycle_protects, store_of, cycle_claim_grace, protect_cycle_claims, extends,
}
use koinon.Claims.Engine.{
  owner, renew, progress, overdue, expire, release, end_claim, update_bundle, is_live,
}
use koinon.Claims.Invariant.{IsSound, Fits, update-IsSound}
use koinon.Claims.Ownership.{Owns, owner-Owns, Owns-is_live, at_generation-eq}

-- The bundles of one generation are the owner's bundle.
same_bundle :
    (db : Db) (now : ℕ) {store work_id consumer : GoString} {g : ℕ} {o : Bundle} (b : Bundle)
    → IsSound db now
    → Owns db store work_id consumer g now o
    → In b db.bundles
    → at_generation store g b ≡ true
    → b ≡ o
same_bundle db now {store} {g = g} {o} b h own i p =
    let (e, e') = at_generation-eq store g b p in
    h.unique b o i own.row (e ∙ sym own.store_eq) (e' ∙ sym own.generation_eq)

-- Ending a generation, live or not, keeps the tables sound.
pub end_claim-IsSound :
    (db : Db) (store : GoString) (g now : ℕ) → IsSound db now → IsSound (end_claim db store g) now
unfolding end_claim update_bundle
end_claim-IsSound db store g now h =
    update-IsSound db now (at_generation store g)
      (λ o. record o { active = false; overdue_credit = false; end_credit = false })
      (λ b i p. record {
        store = refl;
        generation = refl;
        live = λ e. unfold is_live in cc e;
        funded = λ f. record { end = refl; overdue = refl };
      })
      h

pub renew-IsSound :
    (digest : GoString → GoString → GoString) (db db' : Db) (store work_id consumer : GoString)
    (g revision now duration : ℕ) (l : Lease)
    → renew digest db store work_id consumer g revision now duration ≡ ok (l, db')
    → IsSound db now
    → IsSound db' now
unfolding renew update_bundle
renew-IsSound digest db db' store work_id consumer g revision now duration l e h =
    let (o, eo, rest) = >>=-eq-ok (owner db store work_id consumer g now) _ e in
    let own = owner-Owns db store work_id consumer g now o eo in
    let wanted = now + duration * second in
    let expires = if cycle_protects digest db store g then max wanted o.expires_at else wanted in
    let ed : update_bundle db store g
          (λ o. record o { revision = revision + 1; renewed_at = now; expires_at = expires })
        ≡ db' =
      ground (arith, rest) in
    subst (λ d. IsSound d now) ed
      (update-IsSound db now (at_generation store g)
        (λ o. record o { revision = revision + 1; renewed_at = now; expires_at = expires })
        (λ b i p.
          let same = same_bundle db now b h own i p in
          record {
            store = refl;
            generation = refl;
            live = λ _.
                subst (λ z. is_live z now ≡ true) (sym same)
                  (Owns-is_live db store work_id consumer g now o own);
            funded = λ f. record { end = f.end; overdue = f.overdue };
          })
        h)

pub progress-IsSound :
    (db db' : Db) (store work_id consumer : GoString) (g epoch now : ℕ)
    → progress db store work_id consumer g epoch now ≡ ok db'
    → IsSound db now
    → IsSound db' now
unfolding progress update_bundle
progress-IsSound db db' store work_id consumer g epoch now e h =
    let (o, eo, rest) = >>=-eq-ok (owner db store work_id consumer g now) _ e in
    let own = owner-Owns db store work_id consumer g now o eo in
    subst (λ d. IsSound d now) (ground (arith, rest))
      (update-IsSound db now (at_generation store g)
        (λ o. record o { progress_epoch = epoch; overdue_recorded = false; overdue_credit = true })
        (λ b i p.
          let same = same_bundle db now b h own i p in
          record {
            store = refl;
            generation = refl;
            live = λ e. unfold is_live in e;
            funded = λ f. record { end = f.end; overdue = cc (same, own.active) };
          })
        h)

pub overdue-IsSound :
    (db db' : Db) (store : GoString) (g epoch now : ℕ) (spent : Bool)
    → overdue db store g epoch ≡ ok (spent, db')
    → IsSound db now
    → IsSound db' now
unfolding overdue
overdue-IsSound db db' store g epoch now spent e h =
    let record_overdue =
      λ (o : Bundle). record o { overdue_credit = false; overdue_recorded = true } in
    let outcome : (db ≡ db') ⊎ (update_bundle db store g record_overdue ≡ db') = ground arith in
    let spends : (b : Bundle)
        → In b db.bundles
        → at_generation store g b ≡ true
        → Fits now b (record_overdue b) =
      λ b i p. record {
        store = refl;
        generation = refl;
        live = λ e. unfold is_live in e;
        funded = λ f. record { end = f.end; overdue = ground arith };
      } in
    elim outcome [
      | inl same ↦ subst (λ d. IsSound d now) same h
      | inr e ↦
          subst (λ d. IsSound d now) e
            (unfold update_bundle in
              update-IsSound db now (at_generation store g) record_overdue spends h)
    ]

pub expire-IsSound :
    (db : Db) (store : GoString) (g now : ℕ)
    → IsSound db now
    → IsSound (expire db store g now).1 now
unfolding expire
expire-IsSound db store g now h =
    let outcome : ((expire db store g now).1 ≡ db)
        ⊎ ((expire db store g now).1 ≡ end_claim db store g) =
      ground arith in
    elim outcome [
      | inl e ↦ subst (λ d. IsSound d now) (sym e) h
      | inr e ↦ subst (λ d. IsSound d now) (sym e) (end_claim-IsSound db store g now h)
    ]

pub release-IsSound :
    (db db' : Db) (store work_id consumer : GoString) (g now : ℕ)
    → release db store work_id consumer g now ≡ ok db'
    → IsSound db now
    → IsSound db' now
unfolding release
release-IsSound db db' store work_id consumer g now e h =
    let ended : end_claim db store g ≡ db' = ground arith in
    subst (λ d. IsSound d now) ended (end_claim-IsSound db store g now h)

-- protectCycleClaims revives no claim: it extends live ones only.
pub protect_cycle_claims-IsSound :
    (digest : GoString → GoString → GoString) (db : Db) (c : CycleRow) (repository : GoString)
    (now : ℕ)
    → IsSound db (now * 1_000_000)
    → IsSound (protect_cycle_claims digest db c repository now) (now * 1_000_000)
unfolding protect_cycle_claims
protect_cycle_claims-IsSound digest db c repository now h =
    let store = store_of db repository in
    let floor = c.cycle_deadline * 1_000_000 + cycle_claim_grace * second in
    let p = extends digest db.context_cycles store (now * 1_000_000) floor c.cycle_id in
    let extend = λ (b : Bundle). record b { expires_at = floor } in
    let lives : (b : Bundle) → In b db.bundles → p b ≡ true → Fits (now * 1_000_000) b (extend b) =
      λ b i e. record {
        store = refl;
        generation = refl;
        live = λ _. unfold extends is_live in ground arith;
        funded = λ f. record { end = f.end; overdue = f.overdue };
      } in
    elim (Bool-cases (str_eq repository [] || str_eq store [])) [
      | inl e ↦ rw e h
      | inr e ↦ rw e (update-IsSound db (now * 1_000_000) p extend lives h)
    ]
