-- ===== src/Inbox/Delivered.antt =====
-- What a send that succeeds has checked and done (internal/core/messages.go, send and sendTx), said
-- of the rows.
use koinon.Base.{
  ℕ, ◌+◌, ◌≤◌, ◌≡◌, ◌≢◌, refl, sym, ap, subst, ◌∙◌, Bool, true, false, not, ◌||◌, List, [], ◌∷◌,
  ◌++◌, arith, GoString, str_eq, str_eq_iff, length, ltb, update_rows, inl, inr, Bool-cases, In,
  has_prefix, Rowwise, Rowwise-update_rows, &&-true,
}
use koinon.Failure.{Result, ok, >>=-eq-ok}
use koinon.Utf8.{valid_string}
use koinon.Claims.Cycles.{participant_prefix}
use koinon.Inbox.Rows.{Address, Session, Message, Mail, Outcome, waiting}
use koinon.Inbox.Callers.{maintainer_key, Process}
use koinon.Inbox.Sending.{takes, next_seq, new_message, bump_inbox, send, max_body}
use koinon.Inbox.Facts.{IsActive, is_active_iff, IsPeerName, IsBumped, bump_inbox-IsBumped}
use koinon.Inbox.Routes.{active_caller-IsActive, IsRouted, resolve-IsRouted}
use koinon.Inbox.Senders.{IsSenderName, sender_name-IsSenderName, receiver_name-cases}
use koinon.Inbox.Acks.{at_address-eq, elsewhere}
use koinon.Inbox.Sends.{IsSent, send_tx-IsSent}

-- The session is the recipient's, and active.
abbrev pub TakesIt : Address → ℕ → Session → Type 0
TakesIt k now s = (s.key ≡ k) × IsActive now s

-- The rows that a send finds, and the tables before and after it: `inboxes` are the sessions with
-- the inbox that the name leads to.
pub record IsDelivered (mail : Mail) (now : ℕ) (caller : Address) (to body : GoString) (o : Outcome)
    (mail' : Mail) : Type 0 where
  pub called : (c : Session) × In c mail.sessions × (c.key ≡ caller) × IsActive now c
  pub recipient : Address
  pub inboxes : List Session
  pub routed : IsRouted mail now to recipient inboxes
  pub row : Session
  pub stored : In row inboxes
  pub takes_it : TakesIt recipient now row
  pub sender : GoString
  pub named : IsSenderName (record mail { sessions = inboxes }) now caller sender
  -- what the send returns
  pub seq_eq : o.seq ≡ row.last_seq + 1
  pub id_eq : o.id ≡ mail.issued + 1
  pub sent_at : o.updated_at ≡ now
  pub alias_name : has_prefix recipient.id participant_prefix ≡ true → o.recipient ≡ to
  pub session_name :
      has_prefix recipient.id participant_prefix ≡ false → IsPeerName mail' recipient o.recipient
  -- the sequence of the recipient's active session goes up by one, and nothing else of a session
  pub sessions :
      Rowwise
        (λ (s s' : Session).
          (TakesIt recipient now s → s' ≡ record s { last_seq = s.last_seq + 1 })
          × (¬ TakesIt recipient now s → s' ≡ s))
        inboxes
        mail'.sessions
  -- one message more, at the end
  pub message : Message
  pub message_eq : message ≡ record {
    id = o.id;
    recipient = recipient;
    seq = o.seq;
    sender = caller;
    sender_name = sender;
    body = body;
    created_at = now;
    delivery_state = waiting;
    delivery_reason = [];
    delivery_updated_at = now;
    maintainer_ack = false;
    ack_session = [];
    ack_via = [];
    room_id = [];
    room_event = [];
    system_kind = [];
    cycle_id = [];
  }
  pub messages : mail'.messages ≡ mail.messages ++ message ∷ []
  pub names : mail'.names ≡ mail.names
  pub issued : mail'.issued ≡ o.id
  pub version : recipient ≡ maintainer_key → mail'.inbox_version ≡ mail.inbox_version + 1
  pub version_kept : recipient ≢ maintainer_key → mail'.inbox_version ≡ mail.inbox_version

takes-TakesIt : (k : Address) (now : ℕ) (s : Session) → takes k now s ≡ true → TakesIt k now s
unfolding takes
takes-TakesIt k now s h =
    let (a, b) = &&-true _ _ h in (at_address-eq k s a, (is_active_iff now s).0 b)

not-TakesIt : (k : Address) (now : ℕ) (s : Session) → takes k now s ≡ false → ¬ TakesIt k now s
unfolding takes
not-TakesIt k now s h (e, a) =
    let b = (is_active_iff now s).1 a in elsewhere k s (ground (arith, h, b)) e

IsSent-IsDelivered :
    (mail : Mail) (now : ℕ) (caller : Address) (to body : GoString) (dashboard : Bool) (o : Outcome)
    (mail' : Mail)
    → IsSent mail now caller to body dashboard o mail'
    → IsDelivered mail now caller to body o mail'
unfolding new_message
IsSent-IsDelivered mail now caller to body dashboard o mail' s =
    let k = s.recipient in
    let (inboxes, q, route) = resolve-IsRouted mail now to k s.resolved s.found in
    let m = new_message o.id k o.seq caller s.sender body now in
    let written = record mail {
      sessions = update_rows (takes k now) next_seq inboxes;
      messages = mail.messages ++ m ∷ [];
      issued = o.id;
    } in
    let after : mail' ≡ bump_inbox written k =
      s.after
      ∙ ap
          (λ (z : Mail).
            bump_inbox
              (record z {
                sessions = update_rows (takes k now) next_seq z.sessions;
                messages = z.messages ++ m ∷ [];
                issued = o.id;
              })
              k)
          q in
    let b = subst (λ z. IsBumped written z k) (sym after) (bump_inbox-IsBumped written k) in
    let t = b.tables in
    let (alias_name, session_name) = receiver_name-cases mail' k to o.recipient s.receiver in
    record {
      called = active_caller-IsActive mail now caller dashboard s.called;
      recipient = k;
      inboxes = inboxes;
      routed = route;
      row = s.row;
      stored = subst (λ (z : Mail). In s.row z.sessions) q s.stored;
      takes_it = takes-TakesIt k now s.row s.takes_it;
      sender = s.sender;
      named =
          subst (λ z. IsSenderName z now caller s.sender) q
            (sender_name-IsSenderName s.resolved now caller s.sender s.named_as);
      seq_eq = s.next;
      id_eq = s.issued_next ∙ ap (λ (z : Mail). z.issued + 1) q;
      sent_at = s.sent_at;
      alias_name = alias_name;
      session_name = session_name;
      sessions = subst (Rowwise _ inboxes) (sym (ap (λ (z : Mail). z.sessions) t)) (
          Rowwise-update_rows _ (takes k now) next_seq inboxes
            (λ r p. ((λ _. refl), λ n. absurd (n (takes-TakesIt k now r p))))
            (λ r p. ((λ h. absurd (not-TakesIt k now r p h)), λ _. refl)));
      message = m;
      message_eq = refl;
      messages = ap (λ (z : Mail). z.messages) t;
      names = ap (λ (z : Mail). z.names) t;
      issued = ap (λ (z : Mail). z.issued) t;
      version = b.version;
      version_kept = b.kept;
    }

-- A send that succeeds has a name of 1 to 256 bytes and a body of 1 to 65536 bytes of valid UTF-8,
-- comes from an active session, and goes to an active session, to which its name leads: that of a
-- peer, or the inbox of an alias that a live participant holds, which is opened if it is not
-- there. It adds one message at the end of the table, waiting and unacknowledged, with the next
-- message ID, the recipient's next sequence and the name of an alias that the sender holds, else
-- its peer name, and it returns these. It advances the last sequence of the recipient and, for a
-- message to the maintainer, the maintainer's inbox version; no other session, message or name
-- changes.
pub send-IsDelivered :
    (process : ℕ → Process) (admission : Result (Unit {0})) (mail : Mail) (now : ℕ)
    (caller : Address) (to body : GoString) (dashboard : Bool) (o : Outcome) (mail' : Mail)
    → send process admission mail now caller to body dashboard ≡ ok (o, mail')
    → (to ≢ [])
      × (length to ≤ 256)
      × (body ≢ [])
      × (length body ≤ max_body)
      × (valid_string body ≡ true)
      × IsDelivered mail now caller to body o mail'
unfolding send
send-IsDelivered process admission mail now caller to body dashboard o mail' e =
    elim (Bool-cases (
      str_eq to []
      || (ltb 256 (length to)
          || (str_eq body [] || (ltb max_body (length body) || not (valid_string body)))))) [
            | inl b ↦ let w = rw b at e in cc w
            | inr b ↦
                let w = rw b at e in
                let (u, _, r) = >>=-eq-ok admission _ w in
                (
                  ground (arith, b, str_eq_iff to []),
                  ground (arith, b),
                  ground (arith, b, str_eq_iff body []),
                  ground (arith, b),
                  ground (arith, b),
                  IsSent-IsDelivered mail now caller to body dashboard o mail'
                      (send_tx-IsSent process mail now caller to body dashboard o mail' r),
                )
          ]
