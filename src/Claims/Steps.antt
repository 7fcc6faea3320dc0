-- ===== src/Claims/Steps.antt =====
-- Any sequence of operations, passages of time and changes of the other tables, and what holds of
-- the claim tables at its end.
use koinon.Base.{
  ℕ, ◌*◌, ◌≤◌, ◌≡◌, sym, subst, Bool, true, List, [], GoString, In, false, ◌≢◌, Bool-cases, inl,
  inr,
}
use koinon.Failure.{ok}
use koinon.Resource.{Resource, overlaps}
use koinon.Claims.Rows.{Bundle, StoreRow, CycleRow, SessionRow, Db, Lease}
use koinon.Claims.Queries.{bundle_resources}
use koinon.Claims.Cycles.{protect_cycle_claims}
use koinon.Claims.Engine.{acquire, renew, progress, overdue, expire, release, reclaim_one, is_live}
use koinon.Claims.Invariant.{IsSound, later-IsSound}
use koinon.Claims.Renewal.{
  renew-IsSound, progress-IsSound, overdue-IsSound, expire-IsSound, release-IsSound,
  protect_cycle_claims-IsSound,
}
use koinon.Claims.Reclaim.{reclaim_one-IsSound}
use koinon.Claims.Exclusion.{acquire-IsSound}

-- One committed operation, at the clock of both ends; a refusal is rolled back and is no step.
pub data Step (digest : GoString → GoString → GoString) : Db → ℕ → Db → ℕ → Type 0 where
  tick : {db : Db} {now later : ℕ} → now ≤ later → Step digest db now db later
  acquired :
      {db db' : Db} {now : ℕ} (store work_id consumer : GoString) (epoch : ℕ)
      (optional : List Resource) (duration : ℕ) (l : Lease)
      → acquire db store work_id consumer epoch optional now duration ≡ ok (l, db')
      → Step digest db now db' now
  renewed :
      {db db' : Db} {now : ℕ} (store work_id consumer : GoString) (g revision duration : ℕ)
      (l : Lease)
      → renew digest db store work_id consumer g revision now duration ≡ ok (l, db')
      → Step digest db now db' now
  progressed :
      {db db' : Db} {now : ℕ} (store work_id consumer : GoString) (g epoch : ℕ)
      → progress db store work_id consumer g epoch now ≡ ok db'
      → Step digest db now db' now
  went_overdue :
      {db db' : Db} {now : ℕ} (store : GoString) (g epoch : ℕ) (spent : Bool)
      → overdue db store g epoch ≡ ok (spent, db')
      → Step digest db now db' now
  expired :
      {db db' : Db} {now : ℕ} (store : GoString) (g : ℕ)
      → db' ≡ (expire db store g now).1
      → Step digest db now db' now
  released :
      {db db' : Db} {now : ℕ} (store work_id consumer : GoString) (g : ℕ)
      → release db store work_id consumer g now ≡ ok db'
      → Step digest db now db' now
  reclaimed :
      {db db' : Db} {now : ℕ} (store : GoString) (any : Bool)
      → reclaim_one db store ≡ ok (any, db')
      → Step digest db now db' now
  protected :
      {db db' : Db} {now : ℕ} (c : CycleRow) (repository : GoString) (ms : ℕ)
      → now ≡ ms * 1_000_000
      → db' ≡ protect_cycle_claims digest db c repository ms
      → Step digest db now db' now
  -- sessions and managed cycles come, change and go
  elsewhere :
      {db : Db} {now : ℕ} (cycles : List CycleRow) (sessions : List SessionRow)
      → Step digest db now (record db { context_cycles = cycles; sessions = sessions }) now

pub data Reach (digest : GoString → GoString → GoString) (start : Db) : Db → ℕ → Type 0 where
  here : {now : ℕ} → Reach digest start start now
  next :
      {db db' : Db} {now later : ℕ}
      → Reach digest start db now
      → Step digest db now db' later
      → Reach digest start db' later

elsewhere-IsSound :
    (db : Db) (now : ℕ) (cycles : List CycleRow) (sessions : List SessionRow)
    → IsSound db now
    → IsSound (record db { context_cycles = cycles; sessions = sessions }) now
unfolding bundle_resources
elsewhere-IsSound db now cycles sessions h = record {
  unique = h.unique;
  bounded = h.bounded;
  keys_bounded = h.keys_bounded;
  exclusive = h.exclusive;
  funded = h.funded;
}

pub Step-IsSound :
    (digest : GoString → GoString → GoString) {db db' : Db} {now later : ℕ}
    → Step digest db now db' later
    → IsSound db now
    → IsSound db' later
Step-IsSound digest {db = db} {now = now} {later = later} (tick le) h =
    later-IsSound db now later le h
Step-IsSound digest {db = db} {db' = db'} {now = now}
      (acquired store work_id consumer epoch optional duration l e) h =
    acquire-IsSound db store work_id consumer epoch optional now duration l db' e h
Step-IsSound digest {db = db} {db' = db'} {now = now}
      (renewed store work_id consumer g revision duration l e) h =
    renew-IsSound digest db db' store work_id consumer g revision now duration l e h
Step-IsSound digest {db = db} {db' = db'} {now = now} (progressed store work_id consumer g epoch e)
      h =
    progress-IsSound db db' store work_id consumer g epoch now e h
Step-IsSound digest {db = db} {db' = db'} {now = now} (went_overdue store g epoch spent e) h =
    overdue-IsSound db db' store g epoch now spent e h
Step-IsSound digest {db = db} {now = now} (expired store g e) h =
    subst (λ d. IsSound d now) (sym e) (expire-IsSound db store g now h)
Step-IsSound digest {db = db} {db' = db'} {now = now} (released store work_id consumer g e) h =
    release-IsSound db db' store work_id consumer g now e h
Step-IsSound digest {db = db} {db' = db'} {now = now} (reclaimed store any e) h =
    reclaim_one-IsSound db db' store now any e h
Step-IsSound digest {db = db} {db' = db'} {now = now} (protected c repository ms t e) h =
    subst (IsSound db') (sym t) (
      subst (λ d. IsSound d (ms * 1_000_000)) (sym e)
        (protect_cycle_claims-IsSound digest db c repository ms (subst (IsSound db) t h)))
Step-IsSound digest {db = db} {now = now} (elsewhere cycles sessions) h =
    elsewhere-IsSound db now cycles sessions h

abbrev pub no_claims : List StoreRow → Db
no_claims stores = record {
  bundles = [];
  claim_resources = [];
  memory_stores = stores;
  context_cycles = [];
  sessions = [];
}

-- Tables with no claim are sound.
pub no_claims-IsSound : (stores : List StoreRow) (now : ℕ) → IsSound (no_claims stores) now
no_claims-IsSound stores now = record {
  unique = λ b c i. absurd i;
  bounded = λ b s i. absurd i;
  keys_bounded = λ r s i. absurd i;
  exclusive = λ b c r s i. absurd i;
  funded = λ b i. absurd i;
}

pub Reach-IsSound :
    (digest : GoString → GoString → GoString) (stores : List StoreRow) {db : Db} {now : ℕ}
    → Reach digest (no_claims stores) db now
    → IsSound db now
Reach-IsSound digest stores {now = now} here = no_claims-IsSound stores now
Reach-IsSound digest stores (next r s) = Step-IsSound digest s (Reach-IsSound digest stores r)

-- After any sequence of operations that starts with no claim, at any time: no key of one live
-- claim overlaps a key of another live claim of its store.
pub live_claims_disjoint :
    (digest : GoString → GoString → GoString) (stores : List StoreRow) {db : Db} {now : ℕ}
    → Reach digest (no_claims stores) db now
    → (b c : Bundle) (r s : Resource) → In b db.bundles
    → In c db.bundles
    → b.store ≡ c.store
    → b ≢ c
    → is_live b now ≡ true
    → is_live c now ≡ true
    → In r (bundle_resources db b.store b.generation)
    → In s (bundle_resources db c.store c.generation)
    → overlaps r s ≡ false
live_claims_disjoint digest stores reach b c r s i j e n lb lc ir is =
    let h = Reach-IsSound digest stores reach in
    elim (Bool-cases (overlaps r s)) [
      | inl o ↦ absurd (n (h.unique b c i j e (h.exclusive b c r s i j e lb lc ir is o)))
      | inr d ↦ d
    ]
