-- ===== src/Claims/Extension.antt =====
-- Which claims the admission of a managed cycle extends, and what it makes of each
-- (internal/core/context_cycle_claims.go, protectCycleClaims).
use koinon.Base.{
  ℕ, ◌≤◌, ◌<◌, ◌↔◌, ◌&&◌, ◌⊎◌, any_row, any_row_iff, str_eq_iff, &&-true, ◌≡◌, refl, ◌≢◌, true,
  false, ◌||◌, [], ◌++◌, bytes, arith, GoString, max, str_eq, In,
}
use koinon.Claims.Rows.{Bundle, Db, CycleRow}
use koinon.Claims.Cycles.{
  extends, store_of, is_cycle, cycle_claim_match, native_work_actor, participant_prefix,
}
use koinon.Claims.Engine.{is_live}

-- The bundle is held by the session of a cycle: under the cycle's peer name, under the session's
-- own name, under its native actor, or under the address that the session held.
abbrev pub IsOfSession : (GoString → GoString → GoString) → CycleRow → Bundle → Type 0
IsOfSession digest row b =
    (b.consumer ≡ row.peer)
    ⊎ (b.consumer ≡ row.family ++ (bytes ":" ++ row.session_id))
    ⊎ ((b.native_actor ≢ [])
        × (b.native_actor ≡ native_work_actor digest row.family row.session_id))
    ⊎ ((row.held ≡ true) × (row.address ≢ []) × (b.consumer ≡ participant_prefix ++ row.address))

cycle_claim_match_iff :
    (digest : GoString → GoString → GoString) (row : CycleRow) (b : Bundle)
    → (cycle_claim_match digest row b ≡ true) ↔ IsOfSession digest row b
unfolding cycle_claim_match
cycle_claim_match_iff digest row b = ground (
  arith,
  str_eq_iff b.consumer row.peer,
  str_eq_iff b.consumer (row.family ++ (bytes ":" ++ row.session_id)),
  str_eq_iff b.native_actor [],
  str_eq_iff b.native_actor (native_work_actor digest row.family row.session_id),
  str_eq_iff row.address [],
  str_eq_iff b.consumer (participant_prefix ++ row.address),
)

-- The claim `b` is one that the cycle of `c` protects: a live claim of the repository's store whose
-- session is that of a stored row of the cycle.
pub record IsProtected (digest : GoString → GoString → GoString) (db : Db) (c : CycleRow)
    (repository : GoString) (now : ℕ) (b : Bundle) : Type 0 where
  pub repository_named : repository ≢ []
  pub store_known : store_of db repository ≢ []
  pub store_eq : b.store ≡ store_of db repository
  pub live : (b.active ≡ true) × (now < b.expires_at)
  pub cycle :
      (row : CycleRow) × In row db.context_cycles
      × (row.cycle_id ≡ c.cycle_id)
      × IsOfSession digest row b

-- A claim before and after the extension: a protected one expires at `floor` at the earliest, and
-- any other one is as before.
pub record IsExtended (digest : GoString → GoString → GoString) (db : Db) (c : CycleRow)
    (repository : GoString) (now floor : ℕ) (b b' : Bundle) : Type 0 where
  pub protected :
      IsProtected digest db c repository now b
      → b' ≡ record b { expires_at = max b.expires_at floor }
  pub unprotected : ¬ IsProtected digest db c repository now b → b' ≡ b
  pub only_expiry : b' ≡ record b { expires_at = b'.expires_at }
  pub kept_longer : b.expires_at ≤ b'.expires_at
  pub same_live : is_live b' now ≡ is_live b now

module _ (digest : GoString → GoString → GoString) (db : Db) (c : CycleRow) (repository : GoString)
    (now floor : ℕ) where
  cycle_row_iff :
      (b : Bundle)
      → (any_row (λ r. is_cycle c.cycle_id r && cycle_claim_match digest r b) db.context_cycles
          ≡ true)
        ↔ ((row : CycleRow) × In row db.context_cycles
            × (row.cycle_id ≡ c.cycle_id)
            × IsOfSession digest row b)
  unfolding is_cycle
  cycle_row_iff b =
      let (f, g) =
        any_row_iff (λ r. is_cycle c.cycle_id r && cycle_claim_match digest r b)
          db.context_cycles in
      (
        λ h.
            let (r, i, e) = f h in
            let (p, m) = &&-true _ _ e in
            (r, i, (str_eq_iff r.cycle_id c.cycle_id).0 p, (cycle_claim_match_iff digest r b).0 m),
        λ (r, i, e, m).
            let p = (str_eq_iff r.cycle_id c.cycle_id).1 e in
            let n = (cycle_claim_match_iff digest r b).1 m in g (r, i, ground (arith, p, n)),
      )

  -- No repository or no store: nothing is protected.
  pub unnamed :
      (b : Bundle)
      → (str_eq repository [] || str_eq (store_of db repository) []) ≡ true
      → IsExtended digest db c repository now floor b b
  unnamed b h = record {
    protected = λ p.
        let n = p.repository_named in
        let k = p.store_known in
        absurd (
          ground
            (arith, h, n, k, str_eq_iff repository [], str_eq_iff (store_of db repository) []));
    unprotected = λ n. refl;
    only_expiry = refl;
    kept_longer = omega arith;
    same_live = refl;
  }

  -- A claim that the WHERE condition leaves out.
  pub left_out :
      (b : Bundle)
      → extends digest db.context_cycles (store_of db repository) now floor c.cycle_id b ≡ false
      → IsExtended digest db c repository now floor b b
  unfolding extends
  left_out b h = record {
    protected = λ p.
        let e = p.store_eq in
        let (a, l) = p.live in
        let any : any_row (λ r. is_cycle c.cycle_id r && cycle_claim_match digest r b)
              db.context_cycles
            ≡ true =
          (cycle_row_iff b).1 p.cycle in
        let le : floor ≤ b.expires_at =
          ground (arith, h, any, a, l, e, str_eq_iff b.store (store_of db repository)) in
        let m : max b.expires_at floor ≡ b.expires_at = ground (arith, le) in rw m refl;
    unprotected = λ n. refl;
    only_expiry = refl;
    kept_longer = omega arith;
    same_live = refl;
  }

  -- A claim that the UPDATE extends.
  pub extended :
      (b : Bundle)
      → (str_eq repository [] || str_eq (store_of db repository) []) ≡ false
      → extends digest db.context_cycles (store_of db repository) now floor c.cycle_id b ≡ true
      → IsExtended digest db c repository now floor b (record b { expires_at = floor })
  unfolding extends is_live
  extended b named h =
      let lt : b.expires_at < floor = ground (arith, h) in
      let any : any_row (λ r. is_cycle c.cycle_id r && cycle_claim_match digest r b)
            db.context_cycles
          ≡ true =
        ground (arith, h) in
      let m : max b.expires_at floor ≡ floor = ground (arith, lt) in
      record {
        protected = λ p. rw m refl;
        unprotected = λ n. absurd (
            n (record {
              repository_named = ground (arith, named, str_eq_iff repository []);
              store_known = ground (arith, named, str_eq_iff (store_of db repository) []);
              store_eq = ground (arith, h, str_eq_iff b.store (store_of db repository));
              live = (ground (arith, h), ground (arith, h));
              cycle = (cycle_row_iff b).0 any;
            }));
        only_expiry = refl;
        kept_longer = omega (arith, lt);
        same_live = ground (arith, h);
      }
