-- ===== src/Inbox/Answered.antt =====
-- What an acknowledgement that succeeds has checked and done (internal/core/messages.go, ackIf).
use koinon.Base.{
  ℕ, ◌≤◌, ◌<◌, ◌≡◌, ◌≢◌, ◌⊎◌, refl, sym, subst, inl, inr, Bool, false, Option, none, some, arith,
  GoString, In,
}
use koinon.Failure.{Result, ok}
use koinon.Inbox.Rows.{Address, Session, Mail}
use koinon.Inbox.Marks.{target, ack_if}
use koinon.Inbox.Facts.{IsActive}
use koinon.Inbox.Routes.{active_caller-IsActive}
use koinon.Inbox.Recorded.{IsRecorded, record_ack-IsRecorded}
use koinon.Inbox.Acknowledged.{ack_if-AckedRow}

-- What an acknowledgement that succeeds has found and done: `to` is the sequence that it means.
pub record IsAnswered (mail : Mail) (now : ℕ) (k : Address) (through : Option ℕ) (dashboard : Bool)
    (revision : ℕ) (origin : GoString) (n : ℕ) (mail' : Mail) : Type 0 where
  pub row : Session
  pub stored : In row mail.sessions
  pub at : row.key ≡ k
  pub revision_met : (revision ≡ 0) ⊎ (revision ≡ row.revision)
  pub agent_asks : dashboard ≡ false → through ≢ none
  pub agent_active :
      dashboard ≡ false → (c : Session) × In c mail.sessions × (c.key ≡ k) × IsActive now c
  pub to : ℕ
  pub newest : through ≡ none → to ≡ row.last_seq
  pub asked : (q : ℕ) → through ≡ some q → to ≡ q
  pub within : to ≤ row.last_seq
  pub outcome :
      ((to ≤ row.acked_through) × (n ≡ row.acked_through) × (mail' ≡ mail))
      ⊎ ((row.acked_through < to)
          × (n ≡ to)
          × IsRecorded mail k row.acked_through to dashboard origin mail')

-- An acknowledgement that succeeds is of a stored inbox, at the revision that was named if one was;
-- an agent's comes from an active session and names a sequence. The sequence, or the last one if
-- none is named, is not past the inbox's last. If it is not later than the one acknowledged
-- before, that one is returned and nothing changes. If it is later, it is returned, the inbox's
-- mark is set to it, the messages between the two marks are signed with the name and the way of
-- the acknowledgement, the maintainer's inbox version goes up by one if the inbox is the
-- maintainer's, and no other session, message, name or counter changes.
pub ack_if-IsAnswered :
    (admission : Result (Unit {0})) (mail : Mail) (now : ℕ) (caller : Address) (through : Option ℕ)
    (dashboard : Bool) (revision : ℕ) (origin : GoString) (n : ℕ) (mail' : Mail)
    → ack_if admission mail now caller through dashboard revision origin ≡ ok (n, mail')
    → IsAnswered mail now caller through dashboard revision origin n mail'
unfolding target
ack_if-IsAnswered admission mail now caller through dashboard revision origin n mail' e =
    let r = ack_if-AckedRow admission mail now caller through dashboard revision origin n mail' e in
    let s = r.row in
    let asked = r.asked in
    record {
      row = s;
      stored = r.stored;
      at = r.at;
      revision_met = r.current;
      agent_asks = λ d q. absurd (ground (arith, rw (d, q) at asked));
      agent_active = λ d. active_caller-IsActive mail now caller false (r.called d);
      to = target through s.last_seq;
      newest = λ q. rw q refl;
      asked = λ m q. rw q refl;
      within = r.acked.within;
      outcome = elim r.acked.outcome [
        | inl same ↦ inl same
        | inr (lt, eq, q) ↦ inr (
          lt,
          eq,
          subst
              (IsRecorded mail caller s.acked_through (target through s.last_seq) dashboard origin)
              (sym q)
              (record_ack-IsRecorded mail caller s.acked_through (target through s.last_seq)
                dashboard origin),
        )
      ];
    }
