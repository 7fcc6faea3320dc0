-- ===== src/Trigger/Once.antt =====
-- The latch of a selected crossing (internal/core/context_policy.go, contextLatches) and one
-- observation of a session (internal/core/context_cycle.go, admitContextCycle): a crossing is
-- selected once in its epoch, and once more for each time its latch is cleared by rearm
-- (internal/core/context_cycle_controller.go). The latches are kept in memory, so that a run is within
-- one run of the daemon.
use koinon.Base.{
  ℕ, ◌+◌, ◌≤◌, ◌≡◌, ◌≢◌, refl, sym, ◌↔◌, ◌∙◌, inl, inr, Bool, true, false, not, ◌&&◌, ◌||◌, Option,
  none, some, List, [], ◌∷◌, arith, All, subst, GoString, str_eq, str_eq_iff, if◌then◌else◌,
  Bool-cases,
}
use koinon.Trigger.Policy.{
  Input, Evidence, below, session_cases, reading_cases, count_cases, select_trigger,
}

-- Key
pub record Key : Type 0 where
  pub family : GoString
  pub id : GoString

unfoldable pub key_eq : Key → Key → Bool
key_eq a b = str_eq a.family b.family && str_eq a.id b.id

-- contextLatches: the latched epoch of each session, "" for none
abbrev pub Latches : Type 0
Latches = Key → GoString

unfoldable pub put : Key → GoString → Latches → Latches
put k epoch m j = if key_eq k j then epoch else m j

-- The counts are known and below the threshold.
unfoldable pub counts_below : Option ℕ → Option ℕ → ℕ → Bool
counts_below (some used) (some limit) threshold = below used limit threshold
counts_below _ _ threshold = false

unfoldable pub known_below : Evidence → ℕ → Bool
known_below e threshold = counts_below e.used_tokens e.limit_tokens threshold

-- contextLatches.latched
unfoldable pub latched : Latches → Key → Evidence → ℕ → GoString × Latches
latched m k e threshold =
    let epoch = m k in
    if str_eq epoch []
    then ([], m)
    else if not (str_eq e.epoch epoch) || known_below e threshold
    then ([], put k [] m)
    else (epoch, m)

-- contextLatches.mark
unfoldable pub mark : Latches → Key → GoString → Latches
mark m k epoch = put k epoch m

-- rearm: the session's crossing is forgotten. A new Enable, the end of a compaction that keeps its
-- Enable and the read of an inbox that a compaction waited for call it.
unfoldable pub rearm : Latches → Key → Latches
rearm m k = put k [] m

-- One observation: the latch is read, the selection made, and the crossing marked when its cycle
-- is admitted. `admits` says that the checks after the selection pass and the write commits.
unfoldable pub observe : Latches → Key → Input → Bool → Bool × Latches
observe m k x admits =
    let (epoch, m') = latched m k x.evidence x.policy.threshold in
    let eligible = (select_trigger (record x { latched_epoch = epoch })).0 in
    if eligible && admits then (true, mark m' k x.evidence.epoch) else (false, m')

pub record Observation : Type 0 where
  pub key : Key
  pub input : Input
  pub admits : Bool

-- A run of the latches: observations of sessions, and sessions whose latch is cleared.
pub data Step : Type 0 where
  observed : Observation → Step
  rearmed : Key → Step

-- How many of the observations selected the session `k`.
unfoldable pub selections : Key → Latches → List Step → ℕ
selections k m [] = 0
selections k m (observed o ∷ rest) =
    let (selected, m') = observe m o.key o.input o.admits in
    (if key_eq k o.key && selected then 1 else 0) + selections k m' rest
selections k m (rearmed j ∷ rest) = selections k (rearm m j) rest

-- How often the latch of the session `k` was cleared.
unfoldable pub rearms : Key → List Step → ℕ
rearms k [] = 0
rearms k (observed o ∷ rest) = rearms k rest
rearms k (rearmed j ∷ rest) = (if key_eq k j then 1 else 0) + rearms k rest

key_eq_iff : (a b : Key) → (key_eq a b ≡ true) ↔ (a ≡ b)
unfolding key_eq
key_eq_iff a b = ground (arith, str_eq_iff a.family b.family, str_eq_iff a.id b.id)

reading_refused :
    (x : Input) (used limit : ℕ)
    → x.latched_epoch ≡ x.evidence.epoch
    → (reading_cases x used limit).0 ≡ false
unfolding reading_cases
reading_refused x used limit h = ground (arith, str_eq_iff x.latched_epoch x.evidence.epoch)

count_refused :
    (x : Input) (used limit : Option ℕ)
    → x.latched_epoch ≡ x.evidence.epoch
    → (count_cases x used limit).0 ≡ false
unfolding count_cases
count_refused x none limit h = refl
count_refused x (some used) none h = refl
count_refused x (some used) (some limit) h = reading_refused x used limit h

session_refused :
    (x : Input) (next : Bool × GoString) → next.0 ≡ false → (session_cases x next).0 ≡ false
unfolding session_cases
session_refused x next h = ground (arith)

-- The latched epoch is not selected again.
latched_refused : (x : Input) → x.latched_epoch ≡ x.evidence.epoch → (select_trigger x).0 ≡ false
unfolding select_trigger
latched_refused x h = session_refused x _ (count_refused x _ _ h)

-- A reading of the session `k` in the epoch, not below its threshold.
abbrev pub Stays : Key → GoString → Observation → Type 0
Stays k epoch o =
    o.key ≡ k
    → (o.input.evidence.epoch ≡ epoch)
      × (known_below o.input.evidence o.input.policy.threshold ≡ false)

-- The observations of the session stay in the epoch and not below the threshold.
abbrev pub StepStays : Key → GoString → Step → Type 0
StepStays k epoch (observed o) = Stays k epoch o
StepStays k epoch (rearmed j) = Unit

-- An observation of another session leaves the latch of `k`.
other_key :
    (m : Latches) (k j : Key) (x : Input) (admits : Bool) → j ≢ k → (observe m j x admits).1 k ≡ m k
unfolding observe latched mark put
other_key m k j x admits n = ground (arith, key_eq_iff j k, n)

-- While the latch holds the epoch, nothing is selected and the latch stays.
held_key :
    (m : Latches) (k : Key) (epoch : GoString) (x : Input) (admits : Bool)
    → epoch ≢ []
    → m k ≡ epoch
    → x.evidence.epoch ≡ epoch
    → known_below x.evidence x.policy.threshold ≡ false
    → (observe m k x admits ≡ (false, m))
unfolding observe latched
held_key m k epoch x admits n e f b =
    let r = latched_refused (record x { latched_epoch = m k }) (e ∙ sym f) in
    ground (arith, str_eq_iff (m k) [], str_eq_iff x.evidence.epoch (m k), r)

-- A selection leaves the epoch in the latch.
selected_key :
    (m : Latches) (k : Key) (x : Input) (admits : Bool)
    → (observe m k x admits).0 ≡ true
    → (observe m k x admits).1 k ≡ x.evidence.epoch
unfolding observe mark put
selected_key m k x admits h = ground (arith, key_eq_iff k k)

module _ (k : Key) (epoch : GoString) (n : epoch ≢ []) where
  same_key : (j : Key) → key_eq k j ≡ true → j ≡ k
  same_key j t = let r = key_eq_iff k j in sym (r.0 t)

  different_key : (j : Key) → key_eq k j ≡ false → j ≢ k
  different_key j f q = let r = key_eq_iff k j in cc (r.1 (sym q), f)

  both : {a b : Bool} → (a && b) ≡ true → (a ≡ true) × (b ≡ true)
  both h = ground (arith, h)

  held_step :
      (m : Latches) (o : Observation)
      → m k ≡ epoch
      → Stays k epoch o
      → ((key_eq k o.key && (observe m o.key o.input o.admits).0) ≡ false)
        × ((observe m o.key o.input o.admits).1 k ≡ epoch)
  held_step m o e s = elim (Bool-cases (key_eq k o.key)) [
    | inl t ↦
        let same = same_key o.key t in
        let (a, b) = s same in
        let c : observe m o.key o.input o.admits ≡ (false, m) =
          rw same (held_key m k epoch o.input o.admits n e a b) in
        (rw (t, c) refl, rw c e)
    | inr f ↦
        let d : o.key ≢ k = different_key o.key f in
        let h = other_key m k o.key o.input o.admits d in (rw f refl, h ∙ e)
  ]

  -- The clearing of another session's latch leaves that of `k`.
  other_rearmed : (m : Latches) (j : Key) → key_eq k j ≡ false → rearm m j k ≡ m k
  unfolding rearm put
  other_rearmed m j f = let d = different_key j f in ground (arith, key_eq_iff j k, d)

  -- With the epoch latched, a selection needs the latch to be cleared first; without it, one
  -- selection may come before that.
  counted :
      (m : Latches) (steps : List Step)
      → All (StepStays k epoch) steps
      → (m k ≡ epoch → selections k m steps ≤ rearms k steps)
        × (selections k m steps ≤ 1 + rearms k steps)
  unfolding selections rearms
  counted m [] h = ((λ e. omega arith), omega arith)
  counted m (rearmed j ∷ rest) (s, h) =
      let (held, any) = counted (rearm m j) rest h in
      elim (Bool-cases (key_eq k j)) [
        | inl t ↦ (λ e. ground (arith, t, any), ground (arith, t, any))
        | inr f ↦
            let o = other_rearmed m j f in
            (λ e. let g = held (o ∙ e) in ground (arith, f, g), ground (arith, f, any))
      ]
  counted m (observed o ∷ rest) (s, h) =
      let (held, any) = counted (observe m o.key o.input o.admits).1 rest h in
      (
        λ e. let (a, b) = held_step m o e s in let g = held b in ground (arith, a, g),
        elim (Bool-cases (key_eq k o.key && (observe m o.key o.input o.admits).0)) [
          | inl t ↦
              let (tk, ts) = both t in
              let same = same_key o.key tk in
              let (a, b) = s same in
              let c : (observe m o.key o.input o.admits).1 k ≡ epoch =
                subst (λ j. (observe m o.key o.input o.admits).1 j ≡ epoch) same
                  (selected_key m o.key o.input o.admits ts ∙ a) in
              let g = held c in ground (arith, t, g)
          | inr f ↦ ground (arith, f, any)
        ],
      )

  -- From any latches, a run in which the observations of a session stay in one epoch and not
  -- below the threshold selects it at most once, and once more for each time that the run clears
  -- its latch by rearm. Observations of other sessions and their cleared latches are unrestricted.
  pub selected_once :
      (m : Latches) (steps : List Step)
      → All (StepStays k epoch) steps
      → selections k m steps ≤ 1 + rearms k steps
  selected_once m steps h = (counted m steps h).1
