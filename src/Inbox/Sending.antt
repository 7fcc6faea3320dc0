-- ===== src/Inbox/Sending.antt =====
-- Store.Send (internal/core/messages.go, send and sendTx).
use koinon.Base.{
  ℕ, ◌+◌, Bool, false, not, ◌&&◌, ◌||◌, none, some, [], ◌∷◌, ◌++◌, GoString, length, str_eq, ltb,
  if◌then◌else◌, update_rows, first_row, any_row, ◌==◌,
}
use koinon.Failure.{
  invalid_request, peer_not_found, alias_unheld, no_rows, constraint, Result, ok, err, ◌>>=◌, ◌>>◌,
}
use koinon.Utf8.{valid_string}
use koinon.Inbox.Rows.{Address, same_address, Session, Name, waiting, Message, Mail, Outcome}
use koinon.Inbox.Callers.{
  maintainer_key, at_address, is_active, active_caller, holds, participant_key, is_participant_id,
  is_alias, held_address, ensure_participant_inbox, named, peer_name, Process, inactive_reason,
}

abbrev pub max_body : ℕ
max_body = 65_536

-- The session that a row of names leads to, and the tables with its inbox.
unfoldable pub resolve_name : Mail → ℕ → GoString → Name → Result (Address × Mail)
resolve_name mail now to n =
    if not (is_alias n)
    then ok (record { family = n.family; id = n.session_id }, mail)
    else if str_eq n.holder_id [] || not (holds mail now n.family n.holder_id n.repository n.role)
    then err alias_unheld
    else do
      mail' ← ensure_participant_inbox mail to
      ok (record { family = n.family; id = participant_key to }, mail')

-- the names lookup of sendTx
unfoldable pub resolve : Mail → ℕ → GoString → Result (Address × Mail)
resolve mail now to = elim (first_row (named to) mail.names) [
  | none ↦ err peer_not_found
  | some n ↦ resolve_name mail now to n
]

-- the name that a caller sends as: its held address, else its peer name
unfoldable pub sender_name : Mail → ℕ → Address → Result GoString
sender_name mail now caller =
    let held = held_address mail now caller in
    if not (str_eq held [])
    then ok held
    else elim (peer_name mail caller) [ none ↦ err no_rows | some name ↦ ok name ]

unfoldable pub takes : Address → ℕ → Session → Bool
takes k now s = at_address k s && is_active now s

abbrev pub next_seq : Session → Session
next_seq s = record s { last_seq = s.last_seq + 1 }

-- UPDATE sessions SET last_seq=last_seq+1 … RETURNING last_seq
unfoldable pub take_seq : (ℕ → Process) → Mail → ℕ → Address → Result (ℕ × Mail)
take_seq process mail now k = elim (first_row (takes k now) mail.sessions) [
  | none ↦ err (inactive_reason process mail k)
  | some s ↦
      ok (
        s.last_seq + 1,
        record mail { sessions = update_rows (takes k now) next_seq mail.sessions },
      )
]

unfoldable pub in_inbox : Address → ℕ → Message → Bool
in_inbox k seq m = same_address m.recipient k && m.seq == seq

-- bumpInbox
unfoldable pub bump_inbox : Mail → Address → Mail
bump_inbox mail k =
    if same_address k maintainer_key
    then record mail { inbox_version = mail.inbox_version + 1 }
    else mail

-- the row that sendTx inserts, with the columns' defaults
unfoldable pub new_message : ℕ → Address → ℕ → Address → GoString → GoString → ℕ → Message
new_message id k seq caller sender body now = record {
  id = id;
  recipient = k;
  seq = seq;
  sender = caller;
  sender_name = sender;
  body = body;
  created_at = now;
  delivery_state = waiting;
  delivery_reason = [];
  delivery_updated_at = now;
  maintainer_ack = false;
  ack_session = [];
  ack_via = [];
  room_id = [];
  room_event = [];
  system_kind = [];
  cycle_id = [];
}

-- INSERT INTO messages, with its UNIQUE(recipient_family, recipient_id, seq)
unfoldable pub insert_message :
    Mail → Address → ℕ → Address → GoString → GoString → ℕ → Result (ℕ × Mail)
insert_message mail k seq caller sender body now =
    if any_row (in_inbox k seq) mail.messages
    then err constraint
    else ok (
      mail.issued + 1,
      record mail {
        messages = mail.messages ++ new_message (mail.issued + 1) k seq caller sender body now ∷ [];
        issued = mail.issued + 1;
      },
    )

-- the name of the receiver in the outcome
unfoldable pub receiver_name : Mail → Address → GoString → Result GoString
receiver_name mail k to =
    if is_participant_id k.id
    then ok to
    else elim (peer_name mail k) [ none ↦ err no_rows | some name ↦ ok name ]

-- sendTx
unfoldable pub send_tx :
    (ℕ → Process) → Mail → ℕ → Address → GoString → GoString → Bool → Result (Outcome × Mail)
send_tx process mail now caller to body dashboard = do
  active_caller mail now caller dashboard
  (k, mail1) ← resolve mail now to
  sender ← sender_name mail1 now caller
  (seq, mail2) ← take_seq process mail1 now k
  (id, mail3) ← insert_message mail2 k seq caller sender body now
  let mail4 = bump_inbox mail3 k
  receiver ← receiver_name mail4 k to
  ok (record { id = id; recipient = receiver; seq = seq; updated_at = now }, mail4)

-- send; `admission` is what begin answers to an ordinary write
unfoldable pub send :
    (ℕ → Process)
    → Result (Unit {0})
    → Mail
    → ℕ
    → Address
    → GoString
    → GoString
    → Bool
    → Result (Outcome × Mail)
send process admission mail now caller to body dashboard =
    if str_eq to []
      || (ltb 256 (length to)
          || (str_eq body [] || (ltb max_body (length body) || not (valid_string body))))
    then err invalid_request
    else do admission; send_tx process mail now caller to body dashboard
