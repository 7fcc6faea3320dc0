-- ===== src/Examples/Inboxes.antt =====
-- Two sessions: one sends, the other reads and acknowledges.
use koinon.Base.{
  ℕ, arith, ◌≡◌, ◌≢◌, ◌≤◌, ◌↔◌, ◌⊎◌, refl, Bool, true, false, some, List, [], ◌∷◌, ◌++◌, GoString,
  bytes, length, str_eq, In, inl, inr, update_rows, select, first_row, any_row, has_prefix,
  contains_byte,
}
use koinon.Failure.{ok}
use koinon.Utf8.{valid_string, runes, decode, lead, pending, start, continue, emit}
use koinon.Claims.Cycles.{valid_key, is_supported}
use koinon.Inbox.Rows.{Address, same_address, Session, Name, peer, Message, Mail, Outcome, waiting}
use koinon.Inbox.Callers.{
  Process, gone, at_address, is_active, active_caller, is_alias, named, held_address, holds_name,
  least_name, peer_of, peer_name, is_participant_id,
}
use koinon.Inbox.Sending.{
  resolve, resolve_name, sender_name, takes, take_seq, in_inbox, insert_message, new_message,
  bump_inbox, receiver_name, send_tx, send, max_body,
}
use koinon.Inbox.Reading.{read_messages, page_bytes}
use koinon.Inbox.Marks.{
  ack_if, ack_row, target, record_ack, set_acked, set_message_acks, acked_name, newly_acked,
}
use koinon.Inbox.Delivered.{IsDelivered, send-IsDelivered}
use koinon.Inbox.Answered.{IsAnswered, ack_if-IsAnswered}
use koinon.Inbox.Steps.{sent, acked, Reach, here, next, IsEmpty, sequences_gapless, marks_bounded}
use koinon.Inbox.Outcomes.{
  message_outcome, report, deleted_report, sent_by, found_report, joined_report, IsOwn,
  message_outcome_private,
}
use koinon.Inbox.Marks.{has_id}
use koinon.Inbox.Pages.{weights, IsUnread, read_messages_complete}

abbrev key : GoString → Address
key id = record { family = bytes "codex"; id = id }

abbrev session : GoString → ℕ → ℕ → Session
session id last through = record {
  key = key id;
  repository = bytes "r1";
  role = [];
  subagent = false;
  launched = false;
  retired_at = 0;
  expires_at = 1_000;
  revision = 1;
  host_pid = 0;
  host_start = 0;
  last_seq = last;
  acked_through = through;
  acked_by = [];
  read_through = 0;
}

abbrev peer_row : GoString → GoString → Name
peer_row name id = record {
  name = name;
  kind = peer;
  family = bytes "codex";
  session_id = id;
  repository = [];
  holder_id = [];
  role = [];
  conflict = [];
}

abbrev names : List Name
names = peer_row (bytes "amber") (bytes "a") ∷ peer_row (bytes "birch") (bytes "b") ∷ []

abbrev quiet : Mail
quiet = record {
  sessions = session (bytes "a") 0 0 ∷ session (bytes "b") 0 0 ∷ [];
  names = names;
  messages = [];
  issued = 0;
  inbox_version = 1;
}

abbrev hello : Bool → GoString → GoString → Message
hello flag by via = record {
  id = 1;
  recipient = key (bytes "b");
  seq = 1;
  sender = key (bytes "a");
  sender_name = bytes "amber";
  body = bytes "hello";
  created_at = 10;
  delivery_state = waiting;
  delivery_reason = [];
  delivery_updated_at = 10;
  maintainer_ack = flag;
  ack_session = by;
  ack_via = via;
  room_id = [];
  room_event = [];
  system_kind = [];
  cycle_id = [];
}

abbrev greeted : Mail
greeted = record quiet {
  sessions = session (bytes "a") 0 0 ∷ session (bytes "b") 1 0 ∷ [];
  messages = hello false [] [] ∷ [];
  issued = 1;
}

abbrev read : Mail
read = record greeted {
  sessions = session (bytes "a") 0 0 ∷ session (bytes "b") 1 1 ∷ [];
  messages = hello false (bytes "birch") (bytes "ack") ∷ [];
}

abbrev no_process : ℕ → Process
no_process pid = gone

abbrev outcome : Outcome
outcome = record { id = 1; recipient = bytes "birch"; seq = 1; updated_at = 10 }

greeting :
    send_tx no_process quiet 10 (key (bytes "a")) (bytes "birch") (bytes "hello") false
    ≡ ok (outcome, greeted)
unfolding send_tx active_caller valid_key is_supported str_eq has_prefix contains_byte any_row
    at_address same_address is_active resolve resolve_name first_row named is_alias sender_name
    held_address select holds_name least_name peer_name peer_of take_seq takes update_rows
    insert_message in_inbox new_message bump_inbox receiver_name is_participant_id
greeting = refl

send-IsDelivered_example :
    (bytes "birch" ≢ [])
    × (length (bytes "birch") ≤ 256)
    × (bytes "hello" ≢ [])
    × (length (bytes "hello") ≤ max_body)
    × (valid_string (bytes "hello") ≡ true)
    × IsDelivered quiet 10 (key (bytes "a")) (bytes "birch") (bytes "hello") outcome greeted
unfolding send valid_string runes decode lead pending start continue emit str_eq
send-IsDelivered_example =
    send-IsDelivered no_process (ok tt) quiet 10 (key (bytes "a")) (bytes "birch") (bytes "hello")
      false outcome greeted greeting

acknowledgement : ack_if (ok tt) greeted 20 (key (bytes "b")) (some 1) false 0 [] ≡ ok (1, read)
unfolding ack_if active_caller valid_key is_supported str_eq has_prefix contains_byte any_row
    at_address same_address is_active first_row ack_row target record_ack set_acked set_message_acks
    acked_name newly_acked update_rows peer_name peer_of is_alias bump_inbox
acknowledgement = refl

ack_if-IsAnswered_example : IsAnswered greeted 20 (key (bytes "b")) (some 1) false 0 [] 1 read
ack_if-IsAnswered_example =
    ack_if-IsAnswered (ok tt) greeted 20 (key (bytes "b")) (some 1) false 0 [] 1 read
      acknowledgement

quiet-IsEmpty : IsEmpty quiet
quiet-IsEmpty = record {
  unique = alone;
  unused = λ s i. elim i [
    | inl e ↦ rw e (refl, refl, refl)
    | inr (inl e) ↦ rw e (refl, refl, refl)
    | inr (inr x) ↦ absurd x
  ];
  none_sent = refl;
}
  where
    alone : (s t : Session) → In s quiet.sessions → In t quiet.sessions → s.key ≡ t.key → s ≡ t
    alone s t (inl a) (inl b) e = cc (a, b)
    alone s t (inl a) (inr (inl b)) e = cc (a, b, e)
    alone s t (inl a) (inr (inr x)) e = absurd x
    alone s t (inr (inl a)) (inl b) e = cc (a, b, e)
    alone s t (inr (inl a)) (inr (inl b)) e = cc (a, b)
    alone s t (inr (inl a)) (inr (inr x)) e = absurd x
    alone s t (inr (inr x)) j e = absurd x

reached : Reach quiet read
reached =
    next
      (next here (
        sent no_process 10 (key (bytes "a")) (bytes "birch") (bytes "hello") false outcome
          greeting))
      (acked (ok tt) 20 (key (bytes "b")) (some 1) false 0 [] 1 acknowledgement)

sequences_gapless_example :
    ((1 ≤ 1) × (1 ≤ 1))
    ↔ ((m : Message) × In m read.messages × (m.recipient ≡ key (bytes "b")) × (m.seq ≡ 1))
sequences_gapless_example =
    sequences_gapless quiet quiet-IsEmpty reached (session (bytes "b") 1 1) (inr (inl refl)) 1

marks_bounded_example :
    ((m n : Message)
      → In m read.messages
      → In n read.messages
      → m.recipient ≡ n.recipient
      → m.seq ≡ n.seq
      → m ≡ n)
    × ((s : Session)
        → In s read.sessions
        → (s.acked_through ≤ s.last_seq) × (s.read_through ≤ s.last_seq))
marks_bounded_example = marks_bounded quiet quiet-IsEmpty reached

read_messages_complete_example :
    let (ms, more) = read_messages greeted (key (bytes "b")) 0 50 in
    (rest : List Message) × IsUnread greeted (key (bytes "b")) 0 (ms ++ rest)
    × ((more ≡ true) ↔ (rest ≢ []))
    × (length ms ≤ 50)
    × ((weights ms ≤ page_bytes) ⊎ (length ms ≤ 1))
    × (ms ≡ [] → rest ≡ [])
read_messages_complete_example = read_messages_complete greeted (key (bytes "b")) 0 50 (omega arith)

asked :
    message_outcome read 30 (key (bytes "a")) 1
    ≡ ok (report read (hello false (bytes "birch") (bytes "ack")) (session (bytes "b") 1 1))
unfolding message_outcome active_caller valid_key is_supported str_eq has_prefix contains_byte
    any_row at_address same_address is_active first_row sent_by found_report joined_report
asked = refl

message_outcome_private_example :
    let r = report read (hello false (bytes "birch") (bytes "ack")) (session (bytes "b") 1 1) in
    ((m : Message) × (s : Session) × IsOwn read (key (bytes "a")) 1 m × (r ≡ report read m s))
    ⊎ ((r ≡ deleted_report 1) × (any_row (has_id 1) read.messages ≡ false))
message_outcome_private_example =
    message_outcome_private read 30 (key (bytes "a")) 1
      (report read (hello false (bytes "birch") (bytes "ack")) (session (bytes "b") 1 1)) asked
