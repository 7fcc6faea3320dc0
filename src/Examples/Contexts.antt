-- ===== src/Examples/Contexts.antt =====
-- A session reaches the threshold of its context and is selected once.
use koinon.Base.{
  ◌+◌, ◌≡◌, ◌≤◌, ◌↔◌, refl, arith, true, false, some, List, [], ◌∷◌, GoString, bytes, str_eq,
}
use koinon.Int64.{mul64, sub64, lt64}
use koinon.Trigger.Policy.{
  Input, handoff_cycle, select_trigger, session_cases, count_cases, reading_cases, below,
  current_reading,
}
use koinon.Trigger.Selection.{InRange, IsCandidate, HasCounts, select_trigger_iff}
use koinon.Trigger.Stored.{
  Setting, integer, family_policy, load_policy, IsInForce, family_policy-IsInForce,
}
use koinon.Trigger.Once.{
  Key, Observation, Latches, key_eq, put, observe, latched, mark, known_below, counts_below,
  selections, selected_once, Step, observed, rearmed, rearm, rearms,
}

abbrev epoch : GoString
epoch = bytes "e1"

abbrev high : Input
high = record {
  active = true;
  enabled = true;
  policy = record { family = bytes "claude"; mode = handoff_cycle; threshold = 75 };
  cycle_available = true;
  overwatch_conflict = false;
  evidence = record {
    found = true;
    used_tokens = some 160_000;
    limit_tokens = some 200_000;
    epoch = epoch;
    source_at = 1_000_000;
    confirmed_at = 1_001_000;
    end = false;
    current = false;
  };
  now = 1_010_000;
  latched_epoch = [];
  awaiting_read = false;
}

high-selected : select_trigger high ≡ (true, [])
unfolding select_trigger session_cases count_cases reading_cases below current_reading str_eq mul64
    sub64 lt64
high-selected = refl

high-InRange : InRange high
high-InRange = record {
  used = λ u e. (ground (arith, e), λ _. ground (arith, e));
  limit = λ l e. (ground (arith, e), λ _. ground (arith, e));
  now = omega arith;
  source = omega arith;
  confirmed = omega arith;
}

select_trigger_iff_example :
    (select_trigger high ≡ (true, [])) ↔ (IsCandidate high × HasCounts high)
select_trigger_iff_example = select_trigger_iff high high-InRange

abbrev session : Key
session = record { family = bytes "claude"; id = bytes "s1" }

abbrev seen : Observation
seen = record { key = session; input = high; admits = true }

abbrev unlatched : Latches
unlatched k = []

abbrev run : List Step
run = observed seen ∷ observed seen ∷ rearmed session ∷ observed seen ∷ observed seen ∷ []

-- The clearing of the latch lets the same epoch be selected again.
selected_first : selections session unlatched run ≡ 2
unfolding selections key_eq observe latched mark rearm put known_below counts_below select_trigger
    session_cases count_cases reading_cases below current_reading str_eq mul64 sub64 lt64
selected_first = refl

selected_once_example : selections session unlatched run ≤ 1 + rearms session run
unfolding known_below counts_below below mul64 lt64
selected_once_example =
    selected_once session epoch (λ e. cc e) unlatched run
      (
        (λ e. (refl, refl)),
        ((λ e. (refl, refl)), (tt, ((λ e. (refl, refl)), ((λ e. (refl, refl)), tt)))),
      )

abbrev settings : List Setting
settings =
    record { name = bytes "context_mode_codex"; value = integer 2 }
    ∷ record { name = bytes "context_threshold_codex"; value = integer 60 }
    ∷ []

family_policy-IsInForce_example :
    IsInForce (bytes "codex") (family_policy (load_policy settings) (bytes "codex"))
family_policy-IsInForce_example = family_policy-IsInForce settings (bytes "codex")
