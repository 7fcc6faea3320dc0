-- ===== src/Storage/Writes.antt =====
-- What the ceilings promise: the page debt stays payable, and the reserve is there for controls.
use koinon.Base.{
  ℕ, ◌+◌, ◌≤◌, ◌≡◌, refl, subst, true, false, not, [], arith, str_eq, str_eq_iff, ltb, Bool-cases,
  inl, inr,
}
use koinon.Failure.{ok, err}
use koinon.Storage.{
  WriteClass, ordinary, control, Disk, kept_free, exceeds, LogProof, proven, unproven, cancelled,
  Engine, Answer, after_proof, vacuumed, reclaim, admit, enter, CommitEnd, committed, engine_full,
  engine_error, full, end_commit, commit, run_body, write, recover, commit_slack, reserve_pages,
  append_allowance,
}

-- The pages and the page debt fit under the ceiling of a control.
abbrev pub IsCovered : Disk → Type 0
IsCovered d = d.pages + d.debt + commit_slack ≤ d.max_pages

-- A vacuum returns pages and takes none.
abbrev pub Shrinks : Engine → Type 0
Shrinks e = (n : ℕ) → e.vacuum n ≤ n

after_proof-IsCovered :
    (p : LogProof) (d : Disk) (next : Answer)
    → IsCovered d
    → IsCovered next.1
    → IsCovered (after_proof p d next).1
unfolding after_proof
after_proof-IsCovered proven d next h k = k
after_proof-IsCovered (unproven reason) d next h k = h
after_proof-IsCovered cancelled d next h k = h

vacuumed-IsCovered : (e : Engine) (d : Disk) → Shrinks e → IsCovered d → IsCovered (vacuumed e d)
vacuumed-IsCovered e d s h = let v = s d.pages in omega (arith, v, h)

reclaim-IsCovered : (e : Engine) (d : Disk) → Shrinks e → IsCovered d → IsCovered (reclaim e d).1
unfolding reclaim
reclaim-IsCovered e d s h =
    let v = vacuumed-IsCovered e d s h in
    after_proof-IsCovered e.second_proof (vacuumed e d) _ v
      (elim (Bool-cases (exceeds (vacuumed e d) ordinary append_allowance)) [
        | inl x ↦ rw x v
        | inr x ↦ rw x v
      ])

admit-IsCovered :
    (e : Engine) (d : Disk) (class : WriteClass)
    → Shrinks e
    → IsCovered d
    → IsCovered (admit e d class).1
unfolding admit
admit-IsCovered e d control s h = h
admit-IsCovered e d ordinary s h = elim (Bool-cases (exceeds d ordinary append_allowance)) [
  | inl x ↦ rw x (reclaim-IsCovered e d s h)
  | inr x ↦ rw x h
]

enter-IsCovered :
    (e : Engine) (d : Disk) (class : WriteClass)
    → Shrinks e
    → IsCovered d
    → IsCovered (enter e d class).1
unfolding enter
enter-IsCovered e d class s h = elim (Bool-cases (not (str_eq d.blocked []))) [
  | inl x ↦ rw x h
  | inr x ↦ rw x (after_proof-IsCovered e.first_proof d _ h (admit-IsCovered e d class s h))
]

end_commit-IsCovered :
    (c : CommitEnd) (d after : Disk) (class : WriteClass)
    → IsCovered d
    → IsCovered after
    → IsCovered (end_commit c d after class).1
unfolding end_commit full
end_commit-IsCovered committed d after class h k = k
end_commit-IsCovered engine_full d after ordinary h k = h
end_commit-IsCovered engine_full d after control h k = h
end_commit-IsCovered engine_error d after class h k = h

commit-IsCovered :
    (c : CommitEnd) (d : Disk) (class : WriteClass) (pages debt : ℕ)
    → IsCovered d
    → IsCovered (commit c d class pages debt).1
unfolding commit
commit-IsCovered c d class pages debt h =
    let after : Disk = record d { pages = pages; debt = debt } in
    elim (Bool-cases (exceeds after class 0)) [
      | inl x ↦ rw x h
      | inr x ↦ rw x (end_commit-IsCovered c d after class h (fits class x))
    ]
  where
    fits :
        (class : WriteClass)
        → exceeds (record d { pages = pages; debt = debt }) class 0 ≡ false
        → pages + debt + commit_slack ≤ d.max_pages
    fits ordinary x = unfold exceeds kept_free in ground (arith, x)
    fits control x = unfold exceeds kept_free in ground (arith, x)

pub write-IsCovered :
    (e : Engine) (c : CommitEnd) (d : Disk) (class : WriteClass) (body : Disk → ℕ × ℕ)
    → Shrinks e
    → IsCovered d
    → IsCovered (write e c d class body).1
unfolding write
write-IsCovered e c d class body s h = ran (enter e d class) (enter-IsCovered e d class s h)
  where
    ran : (a : Answer) → IsCovered a.1 → IsCovered (run_body c class body a).1
    ran (err refusal, d1) k = unfold run_body in k
    ran (ok u, d1) k = unfold run_body in commit-IsCovered c d1 class (body d1).0 (body d1).1 k

pub recover-IsCovered :
    (e : Engine) (d : Disk) → Shrinks e → IsCovered d → IsCovered (recover e d).1
unfolding recover
recover-IsCovered e d s h =
    let v = vacuumed-IsCovered e d s h in
    after_proof-IsCovered e.first_proof d _ h (
      after_proof-IsCovered e.second_proof (vacuumed e d) _ v
        (elim (Bool-cases (ltb d.pages (e.vacuum d.pages))) [ inl x ↦ rw x v | inr x ↦ rw x v ]))

-- One write or recovery, whatever it answers.
pub data Step : Disk → Disk → Type 0 where
  wrote :
      {d : Disk} (e : Engine) (c : CommitEnd) (class : WriteClass) (body : Disk → ℕ × ℕ)
      → Shrinks e
      → Step d (write e c d class body).1
  recovered : {d : Disk} (e : Engine) → Shrinks e → Step d (recover e d).1

pub data Reach (start : Disk) : Disk → Type 0 where
  here : Reach start start
  next : {d d' : Disk} → Reach start d → Step d d' → Reach start d'

Step-IsCovered : {d d' : Disk} → Step d d' → IsCovered d → IsCovered d'
Step-IsCovered {d = d} (wrote e c class body s) h = write-IsCovered e c d class body s h
Step-IsCovered {d = d} (recovered e s) h = recover-IsCovered e d s h

Reach-IsCovered : (start : Disk) {d : Disk} → IsCovered start → Reach start d → IsCovered d
Reach-IsCovered start h here = h
Reach-IsCovered start h (next r s) = Step-IsCovered s (Reach-IsCovered start h r)

control-fits :
    (d : Disk) (pages debt : ℕ)
    → pages + debt + commit_slack ≤ d.max_pages
    → exceeds (record d { pages = pages; debt = debt }) control 0 ≡ false
unfolding exceeds kept_free
control-fits d pages debt h = ground (arith, h)

-- A control write that fits under its ceiling passes its admission and the check of its commit.
control-commits :
    (e : Engine) (d : Disk) (body : Disk → ℕ × ℕ)
    → d.blocked ≡ []
    → e.first_proof ≡ proven
    → (body d).0 + (body d).1 + commit_slack ≤ d.max_pages
    → write e committed d control body ≡ (ok tt, record d { pages = (body d).0; debt = (body d).1 })
unfolding write
control-commits e d body b p f =
    let x = control-fits d (body d).0 (body d).1 f in
    let t : str_eq d.blocked [] ≡ true = (let w = str_eq_iff d.blocked [] in w.1 b) in
    let entered : enter e d control ≡ (ok tt, d) =
      unfold enter admit after_proof in rw (t, p) refl in
    rw entered (unfold run_body commit end_commit in rw x refl)

-- After any writes and recoveries that start with the debt covered, a control write commits when it
-- takes no more pages than the debt that it pays off, if the storage is not blocked, the log is
-- proven empty and the engine commits. A vacuum is taken to return pages and take none.
pub promised_control_commits :
    (start : Disk) {d : Disk}
    → IsCovered start
    → Reach start d
    → (e : Engine) (body : Disk → ℕ × ℕ) → d.blocked ≡ []
    → e.first_proof ≡ proven
    → (body d).0 + (body d).1 ≤ d.pages + d.debt
    → write e committed d control body ≡ (ok tt, record d { pages = (body d).0; debt = (body d).1 })
promised_control_commits start {d = d} h r e body b p f =
    let k = Reach-IsCovered start h r in control-commits e d body b p (omega (arith, k, f))

end_commit-ok :
    (c : CommitEnd) (d after d' : Disk) → end_commit c d after ordinary ≡ (ok tt, d') → after ≡ d'
unfolding end_commit full
end_commit-ok committed d after d' h = ground (arith, h)
end_commit-ok engine_full d after d' h = cc h
end_commit-ok engine_error d after d' h = cc h

ordinary_room :
    (c : CommitEnd) (d d' : Disk) (pages debt : ℕ)
    → commit c d ordinary pages debt ≡ (ok tt, d')
    → d'.pages + d'.debt + reserve_pages + commit_slack ≤ d'.max_pages
unfolding commit
ordinary_room c d d' pages debt h =
    elim (Bool-cases (exceeds (record d { pages = pages; debt = debt }) ordinary 0)) [
      | inl x ↦ let w = rw x at h in cc w
      | inr x ↦
          let w = rw x at h in
          let q = end_commit-ok c d (record d { pages = pages; debt = debt }) d' w in
          subst (λ (z : Disk). z.pages + z.debt + reserve_pages + commit_slack ≤ z.max_pages) q
            (unfold exceeds kept_free in ground (arith, x))
    ]

-- The commit of an ordinary write leaves the reserve: a control write that comes next and takes up
-- to 2048 pages, or as much new debt, commits, if the storage is not blocked, the log is proven
-- empty and the engine commits.
pub ordinary_leaves_reserve :
    (c : CommitEnd) (d d' : Disk) (pages debt : ℕ)
    → commit c d ordinary pages debt ≡ (ok tt, d')
    → (e : Engine) (body : Disk → ℕ × ℕ) → d'.blocked ≡ []
    → e.first_proof ≡ proven
    → (body d').0 + (body d').1 ≤ d'.pages + d'.debt + reserve_pages
    → write e committed d' control body
      ≡ (ok tt, record d' { pages = (body d').0; debt = (body d').1 })
ordinary_leaves_reserve c d d' pages debt h e body b p f =
    let k = ordinary_room c d d' pages debt h in control-commits e d' body b p (omega (arith, k, f))
