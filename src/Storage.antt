-- ===== src/Storage.antt =====
-- The storage boundary (internal/core/storage.go): the admission of a write, its commit under the
-- page ceilings, and recovery. The engine's answers are arguments: the proof of an empty log, the
-- pages after a vacuum, and how the commit of the transaction ends.
pub mod Writes
pub mod Credits
use koinon.Base.{
  ℕ, ◌+◌, ◌-◌, ◌*◌, ◌/◌, ◌^◌, Bool, true, false, not, List, [], ◌∷◌, GoString, bytes, str_eq, ltb,
  leb, if◌then◌else◌,
}
use koinon.Failure.{Failure, capacity, storage_blocked, interrupted, engine_failed, Result, ok, err}
use koinon.Claims.Rows.{Bundle}

abbrev page_size : ℕ
page_size = 4_096

abbrev frame_bytes : ℕ
frame_bytes = 24 + page_size

abbrev max_sector_size : ℕ
max_sector_size = 65_536

abbrev pad_frames : ℕ
pad_frames = (max_sector_size - 1 + frame_bytes - 1) / frame_bytes

abbrev max_physical_bytes : ℕ
max_physical_bytes = 2 ^ 30

abbrev pub default_max_pages : ℕ
default_max_pages = (max_physical_bytes - 32 - pad_frames * frame_bytes) / (page_size + frame_bytes)

abbrev pub reserve_pages : ℕ
reserve_pages = 2_048

abbrev pub commit_slack : ℕ
commit_slack = 2

abbrev pub append_allowance : ℕ
append_allowance = 8

abbrev pub overdue_credit_pages : ℕ
overdue_credit_pages = 576

abbrev pub end_credit_pages : ℕ
end_credit_pages = 768

-- writeClass
pub data WriteClass : Type 0 where
  ordinary control : WriteClass

-- The storage between two writes: the pages of the database, the page debt of its tables, the
-- engine's ceiling, and the reason of a block, "" for none.
pub record Disk : Type 0 where
  pub pages : ℕ
  pub debt : ℕ
  pub max_pages : ℕ
  pub blocked : GoString

-- the pages that a class leaves free: what `ceiling` subtracts from the engine's
unfoldable pub kept_free : WriteClass → ℕ
kept_free ordinary = reserve_pages + commit_slack
kept_free control = commit_slack

-- `pages > ceiling(class)-debt-allowance`, with the subtracted numbers on the other side
unfoldable pub exceeds : Disk → WriteClass → ℕ → Bool
exceeds d class allowance = ltb d.max_pages (d.pages + (d.debt + (allowance + kept_free class)))

-- the pages that a claim's credits promise
unfoldable pub owes : Bundle → ℕ
owes b =
    (if b.overdue_credit then overdue_credit_pages else 0)
    + (if b.end_credit then end_credit_pages else 0)

-- the part of debtPages that is due to claims
unfoldable pub claim_debt : List Bundle → ℕ
claim_debt [] = 0
claim_debt (b ∷ rest) = owes b + claim_debt rest

-- what resetLog proves; a proof may also end because its request does
pub data LogProof : Type 0 where
  proven : LogProof
  unproven : GoString → LogProof
  cancelled : LogProof

-- the engine's answers to one call
pub record Engine : Type 0 where
  pub first_proof : LogProof
  pub vacuum : ℕ → ℕ
  pub second_proof : LogProof

abbrev pub Answer : Type 0
Answer = Result (Unit {0}) × Disk

-- proofFailed, and `next` where the log is proven
unfoldable pub after_proof : LogProof → Disk → Answer → Answer
after_proof proven d next = next
after_proof (unproven reason) d next = (err storage_blocked, record d { blocked = reason })
after_proof cancelled d next = (err interrupted, d)

abbrev pub vacuumed : Engine → Disk → Disk
vacuumed e d = record d { pages = e.vacuum d.pages }

-- reclaim, and what enter does after it
unfoldable pub reclaim : Engine → Disk → Answer
reclaim e d = after_proof e.second_proof (vacuumed e d) (
    if exceeds (vacuumed e d) ordinary append_allowance
    then (err capacity, vacuumed e d)
    else (ok tt, vacuumed e d))

-- the admission of a class, when the log is proven
unfoldable pub admit : Engine → Disk → WriteClass → Answer
admit e d control = (ok tt, d)
admit e d ordinary = if exceeds d ordinary append_allowance then reclaim e d else (ok tt, d)

-- enter
unfoldable pub enter : Engine → Disk → WriteClass → Answer
enter e d class =
    if not (str_eq d.blocked [])
    then (err storage_blocked, d)
    else after_proof e.first_proof d (admit e d class)

-- how the engine ends a transaction's commit
pub data CommitEnd : Type 0 where
  committed engine_full engine_error : CommitEnd

-- full: an engine-full error as a refusal, and the block that it makes of a control write
unfoldable pub full : Disk → WriteClass → Answer
full d ordinary = (err capacity, d)
full d control = (
  err storage_blocked,
  record d { blocked = bytes "the engine ceiling refused a reserved write" },
)

unfoldable pub end_commit : CommitEnd → Disk → Disk → WriteClass → Answer
end_commit committed d after class = (ok tt, after)
end_commit engine_full d after class = full d class
end_commit engine_error d after class = (err engine_failed, d)

-- writeTx.Commit: `d` is the storage before the transaction, and the body leaves `pages` and `debt`
unfoldable pub commit : CommitEnd → Disk → WriteClass → ℕ → ℕ → Answer
commit c d class pages debt =
    let after = record d { pages = pages; debt = debt } in
    if exceeds after class 0 then (err capacity, d) else end_commit c d after class

-- the body and Commit, where the write is admitted
unfoldable pub run_body : CommitEnd → WriteClass → (Disk → ℕ × ℕ) → Answer → Answer
run_body c class body (err refusal, d) = (err refusal, d)
run_body c class body (ok u, d) = let (pages, debt) = body d in commit c d class pages debt

-- a write: begin, the body, which leaves `pages` and `debt` of what it meets, and Commit
unfoldable pub write : Engine → CommitEnd → Disk → WriteClass → (Disk → ℕ × ℕ) → Answer
write e c d class body = run_body c class body (enter e d class)

-- recoverLocked
unfoldable pub recover : Engine → Disk → Answer
recover e d = after_proof e.first_proof d (
    after_proof e.second_proof (vacuumed e d) (
      if ltb d.pages (e.vacuum d.pages)
      then (
        err storage_blocked,
        record (vacuumed e d) { blocked = bytes "reclamation grew the database" },
      )
      else (ok tt, record (vacuumed e d) { blocked = [] })))
