-- ===== src/Inbox/Outcomes.antt =====
-- Store.MessageOutcome (internal/core/messages.go): what a sender learns of its message. The
-- columns of the wake attempts are left out.
use koinon.Base.{
  ℕ, ◌≡◌, refl, ◌⊎◌, inl, inr, Bool, false, not, ◌&&◌, ◌||◌, Option, none, some, [], arith,
  GoString, bytes, str_eq, has_prefix, ltb, leb, ◌==◌, if◌then◌else◌, first_row, first_row-In,
  any_row, In, drop,
}
use koinon.Failure.{message_not_found, Result, ok, err, ◌>>◌, >>=-eq-ok}
use koinon.Inbox.Rows.{Address, same_address, Session, Delivery, Message, Mail}
use koinon.Inbox.Callers.{at_address, active_caller, is_participant_id, peer_name}
use koinon.Inbox.Marks.{has_id}
use koinon.Inbox.Invariant.{same_address_iff}

-- Outcome, as MessageOutcome fills it; no delivery state stands for "deleted"
pub record Report : Type 0 where
  pub id : ℕ
  pub recipient : GoString
  pub seq : ℕ
  pub delivery_state : Option Delivery
  pub delivery_reason : GoString
  pub updated_at : ℕ
  pub acknowledged : Bool
  pub acknowledged_by : GoString
  pub acknowledged_session : GoString
  pub acknowledged_via : GoString

-- acknowledgedBy
unfoldable pub acknowledged_by : Bool → Bool → GoString
acknowledged_by acknowledged maintainer =
    if not acknowledged then [] else if maintainer then bytes "maintainer" else bytes "recipient"

-- agentAckVia
unfoldable pub agent_ack_via : GoString → GoString
agent_ack_via via =
    if str_eq via (bytes "dashboard") || has_prefix via (bytes "mcp:")
    then bytes "maintainer"
    else via

-- the recipient's name in the query
unfoldable pub recipient_name : Mail → Address → GoString
recipient_name mail k =
    if is_participant_id k.id
    then drop 12 k.id
    else elim (peer_name mail k) [ none ↦ [] | some name ↦ name ]

-- the query's row, with the session that it joins
unfoldable pub report : Mail → Message → Session → Report
report mail m s =
    let acknowledged = leb m.seq s.acked_through in
    record {
      id = m.id;
      recipient = recipient_name mail m.recipient;
      seq = m.seq;
      delivery_state = some m.delivery_state;
      delivery_reason = m.delivery_reason;
      updated_at = m.delivery_updated_at;
      acknowledged = acknowledged;
      acknowledged_by = acknowledged_by acknowledged m.maintainer_ack;
      acknowledged_session = if acknowledged then m.ack_session else [];
      acknowledged_via = if acknowledged then agent_ack_via m.ack_via else [];
    }

unfoldable pub deleted_report : ℕ → Report
deleted_report id = record {
  id = id;
  recipient = [];
  seq = 0;
  delivery_state = none;
  delivery_reason = [];
  updated_at = 0;
  acknowledged = false;
  acknowledged_by = [];
  acknowledged_session = [];
  acknowledged_via = [];
}

unfoldable pub sent_by : Address → ℕ → Message → Bool
sent_by caller id m = m.id == id && same_address m.sender caller

-- no row of the query: an ID that was given and is gone, or none of the caller's
unfoldable pub absent_report : Mail → ℕ → Result Report
absent_report mail id =
    if ltb 0 id && (leb id mail.issued && not (any_row (has_id id) mail.messages))
    then ok (deleted_report id)
    else err message_not_found

-- the session that a found message joins
unfoldable pub joined_report : Mail → ℕ → Message → Result Report
joined_report mail id m = elim (first_row (at_address m.recipient) mail.sessions) [
  | none ↦ absent_report mail id
  | some s ↦ ok (report mail m s)
]

unfoldable pub found_report : Mail → ℕ → Option Message → Result Report
found_report mail id none = absent_report mail id
found_report mail id (some m) = joined_report mail id m

-- MessageOutcome
unfoldable pub message_outcome : Mail → ℕ → Address → ℕ → Result Report
message_outcome mail now caller id = do
  active_caller mail now caller false
  found_report mail id (first_row (sent_by caller id) mail.messages)

-- What a report may be of: a message that the caller sent, or an ID without a message.
pub record IsOwn (mail : Mail) (caller : Address) (id : ℕ) (m : Message) : Type 0 where
  pub stored : In m mail.messages
  pub numbered : m.id ≡ id
  pub own : m.sender ≡ caller

absent_report-ok :
    (mail : Mail) (id : ℕ) (r : Report)
    → absent_report mail id ≡ ok r
    → (r ≡ deleted_report id) × (any_row (has_id id) mail.messages ≡ false)
unfolding absent_report
absent_report-ok mail id r h = (ground (arith, h), ground (arith, h))

joined_report-ok :
    (mail : Mail) (id : ℕ) (m : Message) (r : Report)
    → joined_report mail id m ≡ ok r
    → ((s : Session) × (r ≡ report mail m s))
      ⊎ ((r ≡ deleted_report id) × (any_row (has_id id) mail.messages ≡ false))
unfolding joined_report
joined_report-ok mail id m r h = by_row (first_row (at_address m.recipient) mail.sessions) h
  where
    by_row :
        (o : Option Session)
        → elim o [ none ↦ absent_report mail id | some s ↦ ok (report mail m s) ] ≡ ok r
        → ((s : Session) × (r ≡ report mail m s))
          ⊎ ((r ≡ deleted_report id) × (any_row (has_id id) mail.messages ≡ false))
    by_row none e = inr (absent_report-ok mail id r e)
    by_row (some s) e = inl (s, ground (arith, e))

-- A caller learns only of its own messages: an outcome is the report of a stored message with that
-- ID that the caller sent, or it is the fixed report of a deleted one, and then no message with
-- that ID is stored.
pub message_outcome_private :
    (mail : Mail) (now : ℕ) (caller : Address) (id : ℕ) (r : Report)
    → message_outcome mail now caller id ≡ ok r
    → ((m : Message) × (s : Session) × IsOwn mail caller id m × (r ≡ report mail m s))
      ⊎ ((r ≡ deleted_report id) × (any_row (has_id id) mail.messages ≡ false))
unfolding message_outcome
message_outcome_private mail now caller id r h =
    let (_, _, e) = >>=-eq-ok (active_caller mail now caller false) _ h in
    by_message (first_row (sent_by caller id) mail.messages) refl e
  where
    by_message :
        (o : Option Message)
        → first_row (sent_by caller id) mail.messages ≡ o
        → found_report mail id o ≡ ok r
        → ((m : Message) × (s : Session) × IsOwn mail caller id m × (r ≡ report mail m s))
          ⊎ ((r ≡ deleted_report id) × (any_row (has_id id) mail.messages ≡ false))
    by_message none f e = inr (absent_report-ok mail id r (unfold found_report in e))
    by_message (some m) f e =
        let (i, p) = first_row-In (sent_by caller id) m mail.messages f in
        let own : IsOwn mail caller id m =
          unfold sent_by in
          (let w = same_address_iff m.sender caller in
            record { stored = i; numbered = ground (arith, p); own = ground (arith, p, w) }) in
        elim (joined_report-ok mail id m r (unfold found_report in e)) [
          | inl (s, q) ↦ inl (m, s, own, q)
          | inr d ↦ inr d
        ]
