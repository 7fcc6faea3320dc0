-- ===== src/Inbox/Recorded.antt =====
-- What an acknowledgement changes (internal/core/messages.go, ackIf and ackedBy), said of the rows.
use koinon.Base.{
  ℕ, ◌+◌, ◌≤◌, ◌<◌, ◌≡◌, ◌≢◌, ◌↔◌, ◌⊎◌, refl, sym, ap, subst, inl, inr, Bool, true, false, not,
  ◌||◌, [], arith, GoString, bytes, str_eq, if◌then◌else◌, str_eq_iff, Bool-cases, Option-cases, In,
  Rowwise, Rowwise-update_rows,
}
use koinon.Inbox.Rows.{Address, same_address, Session, Name, Message, Mail}
use koinon.Inbox.Callers.{maintainer_key, at_address, peer_name}
use koinon.Inbox.Marks.{acked_name, newly_acked, set_acked, set_message_acks, record_ack}
use koinon.Inbox.Invariant.{same_address_iff}
use koinon.Inbox.Facts.{IsPeerRow, IsPeerName, peer_name-some, peer_name-none, bump_inbox-IsBumped}
use koinon.Inbox.Acks.{at_address-eq, elsewhere}

-- The name under which an acknowledgement is recorded: the maintainer for one of the dashboard or
-- of the maintainer's address, else the caller's peer name, else its family.
pub record IsAckName (mail : Mail) (k : Address) (dashboard : Bool) (name : GoString) : Type 0 where
  pub by_dashboard : dashboard ≡ true → name ≡ bytes "maintainer"
  pub by_maintainer : k ≡ maintainer_key → name ≡ bytes "maintainer"
  pub by_peer :
      dashboard ≡ false
      → k ≢ maintainer_key
      → IsPeerName mail k name
        ⊎ ((name ≡ k.family) × ((n : Name) → In n mail.names → ¬ IsPeerRow k n))

-- The way in which it is recorded: that of an agent, of the dashboard, or the named origin.
pub record IsAckVia (dashboard : Bool) (origin via : GoString) : Type 0 where
  pub agent : dashboard ≡ false → via ≡ bytes "ack"
  pub dashboard_itself : dashboard ≡ true → origin ≡ [] → via ≡ bytes "dashboard"
  pub named_origin : dashboard ≡ true → origin ≢ [] → via ≡ origin

-- The message is one of the inbox, past the sequence `acked` and up to `through`.
abbrev pub IsNewlyAcked : Address → ℕ → ℕ → Message → Type 0
IsNewlyAcked k acked through m = (m.recipient ≡ k) × (acked < m.seq) × (m.seq ≤ through)

-- The tables before and after the record of an acknowledgement through `through` of an inbox that
-- was acknowledged through `acked`.
pub record IsRecorded (mail : Mail) (k : Address) (acked through : ℕ) (dashboard : Bool)
    (origin : GoString) (mail' : Mail) : Type 0 where
  pub name : GoString
  pub via : GoString
  pub named : IsAckName mail k dashboard name
  pub by_way : IsAckVia dashboard origin via
  -- the mark of the inbox is set, and nothing else of a session
  pub sessions :
      Rowwise
        (λ (s s' : Session).
          (s.key ≡ k → s' ≡ record s { acked_through = through }) × (s.key ≢ k → s' ≡ s))
        mail.sessions
        mail'.sessions
  -- the newly acknowledged messages are signed, and no other message changes
  pub messages :
      Rowwise
        (λ (m m' : Message).
          (IsNewlyAcked k acked through m
            → m' ≡ record m {
              maintainer_ack = m.maintainer_ack || dashboard;
              ack_session = name;
              ack_via = via;
            })
          × (¬ IsNewlyAcked k acked through m → m' ≡ m))
        mail.messages
        mail'.messages
  pub names : mail'.names ≡ mail.names
  pub issued : mail'.issued ≡ mail.issued
  pub version : k ≡ maintainer_key → mail'.inbox_version ≡ mail.inbox_version + 1
  pub version_kept : k ≢ maintainer_key → mail'.inbox_version ≡ mail.inbox_version

acked_name-IsAckName :
    (mail : Mail) (k : Address) (dashboard : Bool)
    → IsAckName mail k dashboard (if dashboard then bytes "maintainer" else acked_name mail k)
unfolding acked_name
acked_name-IsAckName mail k true = record {
  by_dashboard = λ _. refl;
  by_maintainer = λ _. refl;
  by_peer = λ d. cc d;
}
acked_name-IsAckName mail k false = elim (Bool-cases (same_address k maintainer_key)) [
  | inl e ↦
      let q = (same_address_iff k maintainer_key).0 e in
      rw e (record {
        by_dashboard = λ d. cc d;
        by_maintainer = λ _. refl;
        by_peer = λ d n. absurd (n q);
      })
  | inr e ↦
      let n : k ≢ maintainer_key =
        λ q. let t = (same_address_iff k maintainer_key).1 q in absurd (ground (arith, e, t)) in
      elim (Option-cases (peer_name mail k)) [
        | inl f ↦
            rw (e, f)
              (record {
                by_dashboard = λ d. cc d;
                by_maintainer = λ q. absurd (n q);
                by_peer = λ d _. inr (refl, peer_name-none mail k f);
              })
        | inr (name, f) ↦
            rw (e, f)
              (record {
                by_dashboard = λ d. cc d;
                by_maintainer = λ q. absurd (n q);
                by_peer = λ d _. inl (peer_name-some mail k name f);
              })
      ]
]

newly_acked_iff :
    (k : Address) (acked through : ℕ) (m : Message)
    → (newly_acked k acked through m ≡ true) ↔ IsNewlyAcked k acked through m
unfolding newly_acked
newly_acked_iff k acked through m = ground (arith, same_address_iff m.recipient k)

via-IsAckVia :
    (dashboard : Bool) (origin : GoString)
    → IsAckVia dashboard origin (
        if not dashboard
        then bytes "ack"
        else if str_eq origin []
        then bytes "dashboard"
        else origin)
via-IsAckVia true origin = record {
  agent = λ d. cc d;
  dashboard_itself = λ _ e. ground (arith, e, str_eq_iff origin []);
  named_origin = λ _ n. ground (arith, n, str_eq_iff origin []);
}
via-IsAckVia false origin = record {
  agent = λ _. refl;
  dashboard_itself = λ d. cc d;
  named_origin = λ d. cc d;
}

unmarked :
    (k : Address) (acked through : ℕ) (m : Message)
    → newly_acked k acked through m ≡ false
    → ¬ IsNewlyAcked k acked through m
unmarked k acked through m p q =
    let t = (newly_acked_iff k acked through m).1 q in absurd (ground (arith, t, p))

pub record_ack-IsRecorded :
    (mail : Mail) (k : Address) (acked through : ℕ) (dashboard : Bool) (origin : GoString)
    → IsRecorded mail k acked through dashboard origin
        (record_ack mail k acked through dashboard origin)
unfolding record_ack set_acked set_message_acks
record_ack-IsRecorded mail k acked through dashboard origin =
    let b = bump_inbox-IsBumped _ k in
    let t = b.tables in
    record {
      name = if dashboard then bytes "maintainer" else acked_name mail k;
      via =
          if not dashboard
          then bytes "ack"
          else if str_eq origin []
          then bytes "dashboard"
          else origin;
      named = acked_name-IsAckName mail k dashboard;
      by_way = via-IsAckVia dashboard origin;
      sessions = subst (Rowwise _ mail.sessions) (sym (ap (λ (z : Mail). z.sessions) t)) (
          Rowwise-update_rows _ (at_address k) _ mail.sessions
            (λ s p. ((λ _. refl), λ n. absurd (n (at_address-eq k s p))))
            (λ s p. ((λ q. absurd (elsewhere k s p q)), λ _. refl)));
      messages = subst (Rowwise _ mail.messages) (sym (ap (λ (z : Mail). z.messages) t)) (
          Rowwise-update_rows _ (newly_acked k acked through) _ mail.messages
            (λ m p. ((λ _. refl), λ n. absurd (n ((newly_acked_iff k acked through m).0 p))))
            (λ m p. ((λ q. absurd (unmarked k acked through m p q)), λ _. refl)));
      names = ap (λ (z : Mail). z.names) t;
      issued = ap (λ (z : Mail). z.issued) t;
      version = b.version;
      version_kept = b.kept;
    }
