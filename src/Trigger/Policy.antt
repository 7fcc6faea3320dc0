-- ===== src/Trigger/Policy.antt =====
-- The family policies, the evidence and the selection (internal/core/context_policy.go).
use koinon.Base.{
  ℕ, Bool, true, false, not, ◌&&◌, ◌||◌, Option, some, [], ◌++◌, GoString, bytes, str_eq,
  if◌then◌else◌,
}
use koinon.Int64.{mul64, sub64, lt64}

abbrev pub observe_mode : GoString
observe_mode = bytes "observe"

abbrev pub native_compaction : GoString
native_compaction = bytes "native_compaction"

abbrev pub handoff_cycle : GoString
handoff_cycle = bytes "handoff_cycle"

-- ContextFamilyPolicy
pub record Policy : Type 0 where
  pub family : GoString
  pub mode : GoString
  pub threshold : ℕ

abbrev pub default_threshold : ℕ
default_threshold = 75

-- defaultContextPolicy
unfoldable pub default_policy : GoString → Policy
default_policy family = record {
  family = family;
  mode =
      if str_eq family (bytes "claude")
      then handoff_cycle
      else if str_eq family (bytes "codex")
      then native_compaction
      else observe_mode;
  threshold = default_threshold;
}

unfoldable pub known_mode : GoString → Bool
known_mode mode =
    str_eq mode observe_mode || (str_eq mode native_compaction || str_eq mode handoff_cycle)

-- validContextPolicy
unfoldable pub valid_policy : GoString → GoString → ℕ → Bool
valid_policy family mode threshold =
    if not (known_mode mode) || (lt64 threshold 1 || lt64 100 threshold)
    then false
    else not (str_eq mode native_compaction) || str_eq family (bytes "codex")

-- sessionContextPolicy: the family's policy, with the session's own threshold if it has one
unfoldable pub session_policy : Policy → ℕ → Policy
session_policy p threshold = if lt64 0 threshold then record p { threshold = threshold } else p

-- ContextEvidence; `end` says whether the caught-up mark is there
pub record Evidence : Type 0 where
  pub found : Bool
  pub used_tokens : Option ℕ
  pub limit_tokens : Option ℕ
  pub epoch : GoString
  pub source_at : ℕ
  pub confirmed_at : ℕ
  pub end : Bool
  pub current : Bool

-- ContextTriggerInput
pub record Input : Type 0 where
  pub active : Bool
  pub enabled : Bool
  pub policy : Policy
  pub cycle_available : Bool
  pub overwatch_conflict : Bool
  pub evidence : Evidence
  pub now : ℕ
  pub latched_epoch : GoString
  pub awaiting_read : Bool

abbrev pub source_max_age : ℕ
source_max_age = 120_000

abbrev pub confirmation_max_age : ℕ
confirmation_max_age = 90_000

-- currentReading
unfoldable pub current_reading : GoString → Evidence → Bool
current_reading mode e =
    if str_eq mode native_compaction
    then e.end
    else if str_eq mode handoff_cycle
    then e.end || e.current
    else false

-- `*e.UsedTokens*100 < threshold**e.LimitTokens`
unfoldable pub below : ℕ → ℕ → ℕ → Bool
below used limit threshold = lt64 (mul64 used 100) (mul64 threshold limit)

-- The switch of SelectContextTrigger, cut after the session's own cases and after the counts'.
-- `next` stands for the cases that follow.
unfoldable pub session_cases : Input → Bool × GoString → Bool × GoString
session_cases x next =
    if not x.active
    then (false, bytes "session_inactive")
    else if not (str_eq x.policy.mode handoff_cycle) && not (str_eq x.policy.mode native_compaction)
    then (false, bytes "mode_" ++ x.policy.mode)
    else if not x.enabled
    then (false, bytes "not_enabled")
    else if not x.cycle_available
    then (false, bytes "context_cycle_unavailable")
    else if x.overwatch_conflict && str_eq x.policy.mode handoff_cycle
    then (false, bytes "overwatch_name_conflict")
    else if not x.evidence.found
    then (false, bytes "context_unknown")
    else next

unfoldable pub reading_cases : Input → ℕ → ℕ → Bool × GoString
reading_cases x used limit =
    if lt64 limit 1 || lt64 used 0
    then (false, bytes "context_counts_invalid")
    else if str_eq x.evidence.epoch []
    then (false, bytes "epoch_unverified")
    else if lt64 x.now x.evidence.source_at || lt64 x.now x.evidence.confirmed_at
    then (false, bytes "observation_future")
    else if lt64 source_max_age (sub64 x.now x.evidence.source_at)
        && not (current_reading x.policy.mode x.evidence)
    then (false, bytes "source_stale")
    else if lt64 confirmation_max_age (sub64 x.now x.evidence.confirmed_at)
    then (false, bytes "confirmation_stale")
    else if below used limit x.policy.threshold
    then (false, bytes "below_threshold")
    else if x.awaiting_read
    then (false, bytes "awaiting_inbox_read")
    else if str_eq x.latched_epoch x.evidence.epoch
    then (false, bytes "already_selected_for_epoch")
    else (true, [])

unfoldable pub count_cases : Input → Option ℕ → Option ℕ → Bool × GoString
count_cases x (some used) (some limit) = reading_cases x used limit
count_cases x _ _ = (false, bytes "context_counts_unavailable")

-- SelectContextTrigger
unfoldable pub select_trigger : Input → Bool × GoString
select_trigger x = session_cases x (count_cases x x.evidence.used_tokens x.evidence.limit_tokens)
