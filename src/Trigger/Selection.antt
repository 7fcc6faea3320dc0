-- ===== src/Trigger/Selection.antt =====
-- When SelectContextTrigger selects, in plain arithmetic.
use koinon.Base.{
  ℕ, ◌+◌, ◌-◌, ◌*◌, ◌<◌, ◌≤◌, ◌≡◌, ◌≢◌, refl, ◌⊎◌, ◌↔◌, Bool, true, false, Option, none, some, [],
  arith, GoString, str_eq_iff, ltb,
}
use koinon.Int64.{two63, two64, lt64, lt64-false, sub64, lt64-ltb, sub64-lem, mul64-lem}
use koinon.Trigger.Policy.{
  Input, native_compaction, handoff_cycle, source_max_age, confirmation_max_age, current_reading,
  below, session_cases, reading_cases, count_cases, select_trigger,
}

-- The counts are any int64 patterns, negative ones among them, whose products with 100 and with the
-- threshold do not wrap where the count is not negative; the times are not negative.
pub record InRange (x : Input) : Type 0 where
  pub used : (u : ℕ) → x.evidence.used_tokens ≡ some u → (u < two64) × (u < two63 → u * 100 < two63)
  pub limit :
      (l : ℕ)
      → x.evidence.limit_tokens ≡ some l
      → (l < two64) × (l < two63 → x.policy.threshold * l < two63)
  pub now : x.now < two63
  pub source : x.evidence.source_at < two63
  pub confirmed : x.evidence.confirmed_at < two63

-- What makes a session a candidate, whatever its reading.
pub record IsCandidate (x : Input) : Type 0 where
  pub active : x.active ≡ true
  pub mode : (x.policy.mode ≡ handoff_cycle) ⊎ (x.policy.mode ≡ native_compaction)
  pub enabled : x.enabled ≡ true
  pub available : x.cycle_available ≡ true
  pub unconflicted : (x.overwatch_conflict ≡ true) → x.policy.mode ≢ handoff_cycle
  pub found : x.evidence.found ≡ true

-- A reading of `u` tokens of `l`, not negative, that reaches the threshold and may be acted on now.
pub record Reaches (x : Input) (u l : ℕ) : Type 0 where
  pub counted : u < two63
  pub positive : (0 < l) × (l < two63)
  pub epoch : x.evidence.epoch ≢ []
  pub source_past : x.evidence.source_at ≤ x.now
  pub confirmed_past : x.evidence.confirmed_at ≤ x.now
  pub fresh :
      (x.now ≤ x.evidence.source_at + source_max_age)
      ⊎ (current_reading x.policy.mode x.evidence ≡ true)
  pub confirmed : x.now ≤ x.evidence.confirmed_at + confirmation_max_age
  pub reached : x.policy.threshold * l ≤ u * 100
  pub read : x.awaiting_read ≡ false
  pub unlatched : x.latched_epoch ≢ x.evidence.epoch

session_cases-pass :
    (x : Input) (next : Bool × GoString)
    → session_cases x next ≡ (true, [])
    → IsCandidate x × (next ≡ (true, []))
unfolding session_cases
session_cases-pass x next h =
    ground
      (arith, str_eq_iff x.policy.mode handoff_cycle, str_eq_iff x.policy.mode native_compaction)

pass-session_cases :
    (x : Input) (next : Bool × GoString) → IsCandidate x → session_cases x next ≡ next
unfolding session_cases
pass-session_cases x next h =
    ground
      (arith, str_eq_iff x.policy.mode handoff_cycle, str_eq_iff x.policy.mode native_compaction)

-- The selected counts are not negative, and the limit is not 0.
reading_cases-counts :
    (x : Input) (u l : ℕ)
    → u < two64
    → l < two64
    → reading_cases x u l ≡ (true, [])
    → (u < two63) × (l < two63)
unfolding reading_cases
reading_cases-counts x u l bu bl h =
    let eu : lt64 u 0 ≡ false = ground (arith, h) in
    let el : lt64 l 1 ≡ false = ground (arith, h) in
    let (_, su) = lt64-false u 0 bu (omega arith) eu in
    let (_, sl) = lt64-false l 1 bl (omega arith) el in (su, sl)

module _ (x : Input) (u l : ℕ) (r : InRange x) (ru : u * 100 < two63) (rl : l < two63)
    (rp : x.policy.threshold * l < two63) where
  limit_test : lt64 l 1 ≡ ltb l 1
  limit_test = lt64-ltb l 1 rl (omega arith)

  used_test : lt64 u 0 ≡ false
  used_test = let e = lt64-ltb u 0 (omega arith) (omega arith) in ground (arith, e)

  source_test : lt64 x.now x.evidence.source_at ≡ ltb x.now x.evidence.source_at
  source_test = lt64-ltb _ _ r.now r.source

  confirmed_test : lt64 x.now x.evidence.confirmed_at ≡ ltb x.now x.evidence.confirmed_at
  confirmed_test = lt64-ltb _ _ r.now r.confirmed

  -- An age, of a time that is not in the future.
  age_test : (t age : ℕ) → t ≤ x.now → age < two63 → lt64 age (sub64 x.now t) ≡ ltb age (x.now - t)
  age_test t age le ra =
      let now = r.now in
      let e = sub64-lem x.now t le now in rw e (lt64-ltb age (x.now - t) ra (omega (arith, now)))

  below_test : below u l x.policy.threshold ≡ ltb (u * 100) (x.policy.threshold * l)
  unfolding below
  below_test = rw (mul64-lem u 100 ru, mul64-lem x.policy.threshold l rp) (lt64-ltb _ _ ru rp)

  reading_cases-Reaches : reading_cases x u l ≡ (true, []) → Reaches x u l
  unfolding reading_cases
  reading_cases-Reaches h =
      let past : (x.evidence.source_at ≤ x.now) × (x.evidence.confirmed_at ≤ x.now) =
        ground (arith, limit_test, used_test, source_test, confirmed_test) in
      let (ps, pc) = past in
      let a = age_test x.evidence.source_at source_max_age ps (omega arith) in
      let b = age_test x.evidence.confirmed_at confirmation_max_age pc (omega arith) in
      ground (
        arith,
        limit_test,
        used_test,
        source_test,
        confirmed_test,
        a,
        b,
        below_test,
        str_eq_iff x.evidence.epoch [],
        str_eq_iff x.latched_epoch x.evidence.epoch,
      )

  Reaches-reading_cases : Reaches x u l → reading_cases x u l ≡ (true, [])
  unfolding reading_cases
  Reaches-reading_cases h =
      let ps = h.source_past in
      let pc = h.confirmed_past in
      let a = age_test x.evidence.source_at source_max_age ps (omega arith) in
      let b = age_test x.evidence.confirmed_at confirmation_max_age pc (omega arith) in
      ground (
        arith,
        limit_test,
        used_test,
        source_test,
        confirmed_test,
        a,
        b,
        below_test,
        str_eq_iff x.evidence.epoch [],
        str_eq_iff x.latched_epoch x.evidence.epoch,
      )

-- Known counts that reach the threshold.
abbrev pub HasCounts : Input → Type 0
HasCounts x =
    (u : ℕ) × (l : ℕ) × (x.evidence.used_tokens ≡ some u)
    × (x.evidence.limit_tokens ≡ some l)
    × Reaches x u l

-- SelectContextTrigger selects a session exactly when it is a candidate and its counts are known
-- and reach the threshold in a reading that is of a verified epoch, not from the future, recent
-- enough or proven current, confirmed recently, and neither awaiting an inbox read nor selected
-- already for its epoch. Reaching it takes a count that is not negative and a limit of at least 1;
-- a negative count or limit is not selected. The condition is that the times are not negative and
-- that a count that is not negative is small enough for its int64 product not to wrap.
pub select_trigger_iff :
    (x : Input) → InRange x → (select_trigger x ≡ (true, [])) ↔ (IsCandidate x × HasCounts x)
unfolding select_trigger count_cases
select_trigger_iff x r = (sound, complete)
  where
    counts :
        (ou ol : Option ℕ)
        → x.evidence.used_tokens ≡ ou
        → x.evidence.limit_tokens ≡ ol
        → count_cases x ou ol ≡ (true, [])
        → HasCounts x
    counts none ol eu el h = cc h
    counts (some u) none eu el h = cc h
    counts (some u) (some l) eu el h =
        let (bu, wu) = r.used u eu in
        let (bl, wl) = r.limit l el in
        let (su, sl) = reading_cases-counts x u l bu bl h in
        (u, l, eu, el, reading_cases-Reaches x u l r (wu su) sl (wl sl) h)

    sound : select_trigger x ≡ (true, []) → IsCandidate x × HasCounts x
    sound h =
        let (c, n) = session_cases-pass x _ h in
        (c, counts x.evidence.used_tokens x.evidence.limit_tokens refl refl n)

    complete : IsCandidate x × HasCounts x → select_trigger x ≡ (true, [])
    complete (c, (u, l, eu, el, h)) =
        let (_, wu) = r.used u eu in
        let (_, wl) = r.limit l el in
        let (_, sl) = h.positive in
        let e = Reaches-reading_cases x u l r (wu h.counted) sl (wl sl) h in
        rw (pass-session_cases x _ c, eu, el, count_cases) e
