-- ===== src/Inbox/Steps.antt =====
-- Any sequence of sends, acknowledgements, reads and deliveries, and the inboxes at its end.
use koinon.Base.{ℕ, ◌≤◌, ◌≡◌, ◌↔◌, sym, subst, Bool, List, [], Option, GoString, In, arith}
use koinon.Failure.{Result, ok}
use koinon.Inbox.Rows.{Address, Session, Message, Mail, Outcome, Delivery}
use koinon.Inbox.Callers.{Process, participant_key}
use koinon.Inbox.Sending.{send_tx}
use koinon.Inbox.Reading.{mark_read}
use koinon.Inbox.Marks.{ack_if, ack_participant, set_delivery}
use koinon.Inbox.Invariant.{IsSound}
use koinon.Inbox.Sends.{send_tx-IsSound}
use koinon.Inbox.Acknowledged.{
  ack_if-IsSound, ack_participant-IsSound, set_delivery-IsSound, Returned, mark_read-IsSound,
}

-- One committed operation. A read marks messages that it returned earlier.
pub data Step : Mail → Mail → Type 0 where
  sent :
      {mail mail' : Mail} (process : ℕ → Process) (now : ℕ) (caller : Address) (to body : GoString)
      (dashboard : Bool) (o : Outcome)
      → send_tx process mail now caller to body dashboard ≡ ok (o, mail')
      → Step mail mail'
  acked :
      {mail mail' : Mail} (admission : Result (Unit {0})) (now : ℕ) (caller : Address)
      (through : Option ℕ) (dashboard : Bool) (revision : ℕ) (origin : GoString) (n : ℕ)
      → ack_if admission mail now caller through dashboard revision origin ≡ ok (n, mail')
      → Step mail mail'
  participant_acked :
      {mail mail' : Mail} (admission : Result (Unit {0})) (now : ℕ) (caller : Address)
      (through : Option ℕ) (n : ℕ)
      → ack_participant admission mail now caller through ≡ ok (n, mail')
      → Step mail mail'
  marked :
      {mail mail' : Mail} (admission : Result (Unit {0})) (now : ℕ) (caller : Address)
      (address : GoString) (after participant_after : ℕ) (own participant : List Message)
      → Returned mail caller own
      → Returned mail (record { family = caller.family; id = participant_key address }) participant
      → mail' ≡ mark_read admission mail now caller address after participant_after own participant
      → Step mail mail'
  delivered :
      {mail mail' : Mail} (admission : Result (Unit {0})) (now id : ℕ) (state : Delivery)
      (reason : GoString)
      → set_delivery admission mail now id state reason ≡ ok mail'
      → Step mail mail'

pub data Reach (start : Mail) : Mail → Type 0 where
  here : Reach start start
  next : {mail mail' : Mail} → Reach start mail → Step mail mail' → Reach start mail'

pub Step-IsSound : {mail mail' : Mail} → Step mail mail' → IsSound mail → IsSound mail'
Step-IsSound {mail = mail} {mail' = mail'} (sent process now caller to body dashboard o e) h =
    send_tx-IsSound process mail now caller to body dashboard o mail' e h
Step-IsSound {mail = mail} {mail' = mail'}
      (acked admission now caller through dashboard revision origin n e) h =
    ack_if-IsSound admission mail now caller through dashboard revision origin n mail' e h
Step-IsSound {mail = mail} {mail' = mail'} (participant_acked admission now caller through n e) h =
    ack_participant-IsSound admission mail now caller through n mail' e h
Step-IsSound {mail = mail} {mail' = mail'}
      (marked admission now caller address after participant_after own participant r q e) h =
    subst IsSound (sym e) (
      mark_read-IsSound admission mail now caller address after participant_after own participant r
        q h)
Step-IsSound {mail = mail} {mail' = mail'} (delivered admission now id state reason e) h =
    set_delivery-IsSound admission mail now id state reason mail' e h

-- Inboxes of which none has a message yet.
pub record IsEmpty (mail : Mail) : Type 0 where
  pub unique : (s t : Session) → In s mail.sessions → In t mail.sessions → s.key ≡ t.key → s ≡ t
  pub unused :
      (s : Session)
      → In s mail.sessions
      → (s.last_seq ≡ 0) × (s.acked_through ≡ 0) × (s.read_through ≡ 0)
  pub none_sent : mail.messages ≡ []

empty-IsSound : (mail : Mail) → IsEmpty mail → IsSound mail
empty-IsSound mail e =
    let gone = λ (m : Message) (i : In m mail.messages). subst (In m) e.none_sent i in
    record {
      unique = e.unique;
      acked = λ s i. let (a, b, c) = e.unused s i in omega (arith, a, b);
      read = λ s i. let (a, b, c) = e.unused s i in omega (arith, a, c);
      addressed = λ m i. absurd (gone m i);
      numbered = λ m s i. absurd (gone m i);
      distinct = λ m n i. absurd (gone m i);
      gapless = λ s n i a b. let (z, _, _) = e.unused s i in absurd (omega (arith, a, b, z));
    }

pub Reach-IsSound : (start : Mail) {mail : Mail} → IsEmpty start → Reach start mail → IsSound mail
Reach-IsSound start e here = empty-IsSound start e
Reach-IsSound start e (next r s) = Step-IsSound s (Reach-IsSound start e r)

-- After any sequence of sends, acknowledgements, reads and deliveries that starts with empty
-- inboxes: the sequences of an inbox's messages are exactly 1 to its last sequence.
pub sequences_gapless :
    (start : Mail) {mail : Mail}
    → IsEmpty start
    → Reach start mail
    → (s : Session) → In s mail.sessions
    → (n : ℕ)
    → ((1 ≤ n) × (n ≤ s.last_seq))
      ↔ ((m : Message) × In m mail.messages × (m.recipient ≡ s.key) × (m.seq ≡ n))
sequences_gapless start e r s i n =
    let h = Reach-IsSound start e r in
    (
      λ (a, b). h.gapless s n i a b,
      λ (m, j, q, w).
          let (a, b) = h.numbered m s j i (sym q) in (omega (arith, a, w), omega (arith, b, w)),
    )

-- After any such sequence: two messages of one inbox with the same sequence are the same message,
-- and neither the acknowledgement nor the read mark of an inbox is past its last sequence.
pub marks_bounded :
    (start : Mail) {mail : Mail}
    → IsEmpty start
    → Reach start mail
    → ((m n : Message)
        → In m mail.messages
        → In n mail.messages
        → m.recipient ≡ n.recipient
        → m.seq ≡ n.seq
        → m ≡ n)
      × ((s : Session)
          → In s mail.sessions
          → (s.acked_through ≤ s.last_seq) × (s.read_through ≤ s.last_seq))
marks_bounded start e r =
    let h = Reach-IsSound start e r in (h.distinct, λ s i. (h.acked s i, h.read s i))
