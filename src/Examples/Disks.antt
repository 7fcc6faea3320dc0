-- ===== src/Examples/Disks.antt =====
-- A write near the ordinary ceiling, and the controls that follow it.
use koinon.Base.{
  ℕ, ◌+◌, ◌≤◌, ◌≡◌, refl, arith, true, false, [], ◌∷◌, GoString, bytes, str_eq, first_row,
  update_rows, inl, inr,
}
use koinon.Failure.{ok, err, capacity}
use koinon.Claims.Rows.{Bundle, Db}
use koinon.Claims.Queries.{at_generation}
use koinon.Claims.Engine.{expire, overdue, end_claim, update_bundle}
use koinon.Claims.Invariant.{IsSound}
use koinon.Storage.{
  default_max_pages, ordinary, control, Disk, kept_free, exceeds, proven, Engine, after_proof,
  admit, enter, committed, end_commit, commit, run_body, write, claim_debt,
}
use koinon.Storage.Writes.{
  Reach, here, next, wrote, promised_control_commits, ordinary_leaves_reserve,
}
use koinon.Storage.Credits.{expire_pays, overdue_pays}

abbrev disk : ℕ → ℕ → Disk
disk pages debt = record { pages = pages; debt = debt; max_pages = 10_000; blocked = [] }

abbrev engine : Engine
engine = record { first_proof = proven; vacuum = λ n. n; second_proof = proven }

abbrev leaves : ℕ → ℕ → Disk → ℕ × ℕ
leaves pages debt d = (pages, debt)

page_ceiling : default_max_pages ≡ 130_681
page_ceiling = refl

full_write :
    write engine committed (disk 6_000 1_344) ordinary (leaves 6_700 1_344)
    ≡ (err capacity, disk 6_000 1_344)
unfolding write run_body enter admit after_proof commit end_commit exceeds kept_free str_eq
full_write = refl

room_write : commit committed (disk 6_000 1_344) ordinary 6_600 1_344 ≡ (ok tt, disk 6_600 1_344)
unfolding commit end_commit exceeds kept_free
room_write = refl

ordinary_leaves_reserve_example :
    write engine committed (disk 6_600 1_344) control (leaves 8_600 1_344)
    ≡ (ok tt, disk 8_600 1_344)
ordinary_leaves_reserve_example =
    ordinary_leaves_reserve committed (disk 6_000 1_344) (disk 6_600 1_344) 6_600 1_344 room_write
      engine (leaves 8_600 1_344) refl refl (omega arith)

written :
    Reach
      (disk 6_000 1_344)
      (write engine committed (disk 6_000 1_344) control (leaves 8_600 1_344)).1
written = next here (wrote engine committed control (leaves 8_600 1_344) (λ n. omega arith))

promised_control_commits_example :
    write engine committed (disk 8_600 1_344) control (leaves 9_368 576) ≡ (ok tt, disk 9_368 576)
unfolding write run_body enter admit after_proof commit end_commit exceeds kept_free str_eq
promised_control_commits_example =
    promised_control_commits (disk 6_000 1_344) (omega arith) written engine (leaves 9_368 576) refl
      refl (omega arith)

abbrev store : GoString
store = bytes "m1"

abbrev bundle : Bundle
bundle = record {
  store = store;
  generation = 1;
  work_id = bytes "w";
  consumer = bytes "codex:a";
  native_actor = [];
  revision = 1;
  issued_at = 0;
  renewed_at = 0;
  expires_at = 5;
  progress_epoch = 1;
  overdue_recorded = false;
  active = true;
  overdue_credit = true;
  end_credit = true;
}

abbrev tables : Bundle → Db
tables b = record {
  bundles = b ∷ [];
  claim_resources = [];
  memory_stores = [];
  context_cycles = [];
  sessions = [];
}

tables-IsSound : IsSound (tables bundle) 9
tables-IsSound = record {
  unique = λ b c i j e g. elim i [
    | inl p ↦ elim j [ inl q ↦ cc (p, q) | inr x ↦ absurd x ]
    | inr x ↦ absurd x
  ];
  bounded = λ b s i j. absurd j;
  keys_bounded = λ r s i. absurd i;
  exclusive = λ b c r s i j e lb lc ir is o. elim i [
    | inl p ↦ elim j [ inl q ↦ cc (p, q) | inr x ↦ absurd x ]
    | inr x ↦ absurd x
  ];
  funded =
      λ b i. elim i [ inl p ↦ rw p (record { end = refl; overdue = refl }) | inr x ↦ absurd x ];
}

abbrev spent : Bundle
spent = record bundle { overdue_credit = false; overdue_recorded = true }

abbrev ended : Bundle
ended = record bundle { active = false; overdue_credit = false; end_credit = false }

expire_pays_example : claim_debt (ended ∷ []) + 768 ≤ claim_debt (bundle ∷ [])
unfolding expire end_claim update_bundle update_rows first_row at_generation str_eq
expire_pays_example = expire_pays (tables bundle) store 1 9 (tables ended) tables-IsSound refl

overdue_pays_example : claim_debt (spent ∷ []) + 576 ≤ claim_debt (bundle ∷ [])
unfolding overdue update_bundle update_rows first_row at_generation str_eq
overdue_pays_example = overdue_pays (tables bundle) store 1 1 9 (tables spent) tables-IsSound refl
