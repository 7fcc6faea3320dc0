-- ===== src/Inbox/Marks.antt =====
-- Acknowledgements and delivery states (internal/core/messages.go, ackIf, AckParticipant and
-- SetDelivery). A sequence below 0 is `none`: the newest one at this moment.
use koinon.Base.{
  ℕ, Bool, true, false, not, ◌&&◌, ◌||◌, Option, none, some, [], ◌++◌, GoString, bytes, length,
  str_eq, ltb, leb, ◌==◌, if◌then◌else◌, update_rows, first_row, any_row,
}
use koinon.Failure.{
  invalid_request, no_rows, session_missing, session_conflict, ack_beyond_last, message_not_found,
  stale_holder, Result, ok, err, ◌>>=◌, ◌>>◌, guard,
}
use koinon.Inbox.Rows.{Address, same_address, Session, Delivery, failed, Message, Mail}
use koinon.Inbox.Callers.{
  maintainer_key, at_address, active_caller, participant_key, held_address,
  ensure_participant_inbox, peer_name,
}
use koinon.Inbox.Sending.{bump_inbox}

-- ackedBy
unfoldable pub acked_name : Mail → Address → GoString
acked_name mail caller =
    if same_address caller maintainer_key
    then bytes "maintainer"
    else elim (peer_name mail caller) [ none ↦ caller.family | some name ↦ name ]

unfoldable pub newly_acked : Address → ℕ → ℕ → Message → Bool
newly_acked k acked through m = same_address m.recipient k && (ltb acked m.seq && leb m.seq through)

-- UPDATE sessions SET acked_through=? WHERE family=? AND id=?
unfoldable pub set_acked : Mail → Address → (Session → Session) → Mail
set_acked mail k f = record mail { sessions = update_rows (at_address k) f mail.sessions }

-- the UPDATE of the newly acknowledged messages
unfoldable pub set_message_acks : Mail → Address → ℕ → ℕ → (Message → Message) → Mail
set_message_acks mail k acked through f = record mail {
  messages = update_rows (newly_acked k acked through) f mail.messages;
}

unfoldable pub record_ack : Mail → Address → ℕ → ℕ → Bool → GoString → Mail
record_ack mail caller acked through dashboard origin =
    let name = if dashboard then bytes "maintainer" else acked_name mail caller in
    let via =
      if not dashboard
      then bytes "ack"
      else if str_eq origin []
      then bytes "dashboard"
      else origin in
    let mail1 = set_acked mail caller (λ s. record s { acked_through = through }) in
    let mail2 = set_message_acks mail1 caller acked through (λ m. record m {
      maintainer_ack = m.maintainer_ack || dashboard;
      ack_session = name;
      ack_via = via;
    }) in
    bump_inbox mail2 caller

-- the sequence that the call acknowledges through
unfoldable pub target : Option ℕ → ℕ → ℕ
target none last = last
target (some through) last = through

-- the part of ackIf after the caller's checks, on the inbox's row
unfoldable pub ack_row :
    Mail → Address → Option ℕ → Bool → ℕ → GoString → Session → Result (ℕ × Mail)
ack_row mail caller through dashboard revision origin s =
    if ltb 0 revision && not (s.revision == revision)
    then err session_conflict
    else if ltb s.last_seq (target through s.last_seq)
    then err ack_beyond_last
    else if ltb s.acked_through (target through s.last_seq)
    then ok (
      target through s.last_seq,
      record_ack mail caller s.acked_through (target through s.last_seq) dashboard origin,
    )
    else ok (s.acked_through, mail)

abbrev pub is_negative : Option ℕ → Bool
is_negative none = true
is_negative (some through) = false

-- ackIf; `admission` is what begin answers to a control write
unfoldable pub ack_if :
    Result (Unit {0}) → Mail → ℕ → Address → Option ℕ → Bool → ℕ → GoString → Result (ℕ × Mail)
ack_if admission mail now caller through dashboard revision origin = do
  guard (dashboard || not (is_negative through)) invalid_request
  admission
  if dashboard then ok tt else active_caller mail now caller false
  elim (first_row (at_address caller) mail.sessions) [
    | none ↦ err (if dashboard then session_missing else no_rows)
    | some s ↦ ack_row mail caller through dashboard revision origin s
  ]

-- the part of AckParticipant on the participant's inbox
unfoldable pub ack_participant_row : Mail → Address → Address → ℕ → Session → Result (ℕ × Mail)
ack_participant_row mail caller inbox through s =
    if ltb s.last_seq through
    then err ack_beyond_last
    else if ltb s.acked_through through
    then ok (
      through,
      set_message_acks
          (set_acked mail inbox (λ s'. record s' {
            acked_through = through;
            acked_by = caller.family ++ (bytes ":" ++ caller.id);
          }))
          inbox s.acked_through through
          (λ m. record m {
            ack_session = acked_name mail caller;
            ack_via = bytes "participant_ack";
          }),
    )
    else ok (s.acked_through, mail)

-- AckParticipant; a holder's wait is not told from other stale holders
unfoldable pub ack_participant :
    Result (Unit {0}) → Mail → ℕ → Address → Option ℕ → Result (ℕ × Mail)
ack_participant admission mail now caller none = err invalid_request
ack_participant admission mail now caller (some through) = do
  admission
  active_caller mail now caller false
  let address = held_address mail now caller
  guard (not (str_eq address [])) stale_holder
  mail' ← ensure_participant_inbox mail address
  let inbox : Address = record { family = caller.family; id = participant_key address }
  elim (first_row (at_address inbox) mail'.sessions) [
    | none ↦ err no_rows
    | some s ↦ ack_participant_row mail' caller inbox through s
  ]

unfoldable pub valid_delivery : Delivery → GoString → Bool
valid_delivery failed reason = not (str_eq reason []) && leb (length reason) 256
valid_delivery _ reason = str_eq reason []

abbrev pub has_id : ℕ → Message → Bool
has_id id m = m.id == id

-- SetDelivery
unfoldable pub set_delivery : Result (Unit {0}) → Mail → ℕ → ℕ → Delivery → GoString → Result Mail
set_delivery admission mail now id state reason = do
  guard (valid_delivery state reason) invalid_request
  admission
  guard (any_row (has_id id) mail.messages) message_not_found
  ok (record mail {
    messages =
        update_rows (has_id id)
          (λ m. record m {
            delivery_state = state;
            delivery_reason = reason;
            delivery_updated_at = now;
          })
          mail.messages;
  })
