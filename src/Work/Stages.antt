-- ===== src/Work/Stages.antt =====
-- The abstract work item: its phase, its revision, its progress epoch, the revision of its scope and
-- whether a verdict is pending; and the steps that each operation may make of it.
use koinon.Base.{ℕ, ◌+◌, ◌≡◌, ◌≢◌, Bool, true, false}
use koinon.Work.Rows.{
  Lifecycle, open_, active, blocked, reported, finished, Item, Op, work_propose, work_edit,
  work_start, work_update, work_release, work_finish, work_report, work_accept, work_reject,
}

pub record Stage : Type 0 where
  pub phase : Lifecycle
  pub revision : ℕ
  pub epoch : ℕ
  pub scope : ℕ
  pub credit : Bool

abbrev pub stage_of : Item → Stage
stage_of w = record {
  phase = w.lifecycle;
  revision = w.revision;
  epoch = w.progress_epoch;
  scope = w.scope_revision;
  credit = w.verdict_credit;
}

-- neither finished nor awaiting a verdict
pub data Workable : Lifecycle → Type 0 where
  workable_open : Workable open_
  workable_active : Workable active
  workable_blocked : Workable blocked

pub data Ongoing : Lifecycle → Type 0 where
  ongoing_active : Ongoing active
  ongoing_blocked : Ongoing blocked

abbrev pub next : Stage → Stage
next s = record s { revision = s.revision + 1 }

pub data Step : Op → Stage → Stage → Type 0 where
  step_propose : (s : Stage) → s.phase ≢ finished → Step work_propose s (next s)
  step_edit :
      (s : Stage) → Workable s.phase → Step work_edit s (record (next s) { scope = s.revision + 1 })
  step_start :
      (s : Stage) (p : Lifecycle)
      → Workable s.phase
      → Ongoing p
      → Step work_start s (record (next s) { phase = p; epoch = s.epoch + 1 })
  step_update :
      (s : Stage) (p : Lifecycle)
      → Workable s.phase
      → Ongoing p
      → Step work_update s (record (next s) { phase = p; epoch = s.epoch + 1 })
  step_release :
      (s : Stage) → Workable s.phase → Step work_release s (record (next s) { phase = open_ })
  step_finish :
      (s : Stage) → Workable s.phase → Step work_finish s (record (next s) { phase = finished })
  step_report :
      (s : Stage)
      → Workable s.phase
      → Step work_report s (record (next s) { phase = reported; credit = true })
  step_accept :
      (s : Stage)
      → s.phase ≡ reported
      → Step work_accept s (record (next s) { phase = finished; credit = false })
  step_reject :
      (s : Stage)
      → s.phase ≡ reported
      → Step work_reject s
          (record (next s) { phase = open_; scope = s.revision + 1; credit = false })
