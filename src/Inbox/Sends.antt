-- ===== src/Inbox/Sends.antt =====
-- What a send does: its message, and the tables after it.
use koinon.Base.{
  ℕ, ◌+◌, ◌≡◌, refl, sym, ap, subst, ◌∙◌, inl, inr, Bool, true, not, ◌&&◌, ◌||◌, Option, none, some,
  [], ◌∷◌, ◌++◌, arith, GoString, str_eq, Bool-cases, Option-cases, In, first_row, first_row-In,
  update_rows,
}
use koinon.Failure.{ok, err, no_rows, peer_not_found, >>=-eq-ok}
use koinon.Inbox.Rows.{Address, same_address, Session, Mail, Outcome, Name}
use koinon.Inbox.Callers.{
  is_alias, named, holds, insert_session, participant_inbox, ensure_participant_inbox,
  active_caller, Process, maintainer_key,
}
use koinon.Inbox.Sending.{
  resolve, resolve_name, sender_name, take_seq, takes, next_seq, bump_inbox, new_message,
  insert_message, receiver_name, send_tx,
}
use koinon.Inbox.Invariant.{IsSound}
use koinon.Inbox.Changes.{insert_session-IsSound}
use koinon.Inbox.Sent.{sent-IsSound}

pub ensure-IsSound :
    (mail mail' : Mail) (address : GoString)
    → ensure_participant_inbox mail address ≡ ok mail'
    → IsSound mail
    → IsSound mail'
unfolding ensure_participant_inbox participant_inbox
ensure-IsSound mail mail' address e h =
    by_name (first_row (λ n. named address n && is_alias n) mail.names) e
  where
    by_name :
        (o : Option Name)
        → elim o [
          | none ↦ err no_rows
          | some n ↦
              ok (insert_session mail (participant_inbox n.family address n.repository n.role))
        ]
          ≡ ok mail'
        → IsSound mail'
    by_name none e = cc e
    by_name (some n) e =
        let q : insert_session mail (participant_inbox n.family address n.repository n.role)
            ≡ mail' =
          ground (arith, e) in
        subst IsSound q (
          insert_session-IsSound mail (participant_inbox n.family address n.repository n.role) refl
            refl refl h)

resolve_name-IsSound :
    (mail : Mail) (now : ℕ) (to : GoString) (n : Name) (k : Address) (mail' : Mail)
    → resolve_name mail now to n ≡ ok (k, mail')
    → IsSound mail
    → IsSound mail'
unfolding resolve_name
resolve_name-IsSound mail now to n k mail' e h = elim (Bool-cases (is_alias n)) [
  | inl a ↦
      elim (Bool-cases
        (str_eq n.holder_id [] || not (holds mail now n.family n.holder_id n.repository n.role))) [
          | inl b ↦ let w = rw (a, b) at e in cc w
          | inr b ↦
              let w = rw (a, b) at e in
              let (m, c, d) = >>=-eq-ok (ensure_participant_inbox mail to) _ w in
              let q : m ≡ mail' = ground (arith, d) in
              subst IsSound q (ensure-IsSound mail m to c h)
        ]
  | inr a ↦ let w = rw a at e in let q : mail ≡ mail' = ground (arith, w) in subst IsSound q h
]

resolve-IsSound :
    (mail : Mail) (now : ℕ) (to : GoString) (k : Address) (mail' : Mail)
    → resolve mail now to ≡ ok (k, mail')
    → IsSound mail
    → IsSound mail'
unfolding resolve
resolve-IsSound mail now to k mail' e h = by_name (first_row (named to) mail.names) e
  where
    by_name :
        (o : Option Name)
        → elim o [ none ↦ err peer_not_found | some n ↦ resolve_name mail now to n ] ≡ ok (k, mail')
        → IsSound mail'
    by_name none e = cc e
    by_name (some n) e = resolve_name-IsSound mail now to n k mail' e h

-- The message that a send makes and the tables that it leaves: `resolved` are the tables with the
-- recipient's inbox, and `row` its session in them.
pub record IsSent (mail : Mail) (now : ℕ) (caller : Address) (to body : GoString) (dashboard : Bool)
    (o : Outcome) (mail' : Mail) : Type 0 where
  pub recipient : Address
  pub resolved : Mail
  pub row : Session
  pub sender : GoString
  pub called : active_caller mail now caller dashboard ≡ ok tt
  pub found : resolve mail now to ≡ ok (recipient, resolved)
  pub stored : In row resolved.sessions
  pub takes_it : takes recipient now row ≡ true
  pub named_as : sender_name resolved now caller ≡ ok sender
  pub receiver : receiver_name mail' recipient to ≡ ok o.recipient
  pub sent_at : o.updated_at ≡ now
  pub next : o.seq ≡ row.last_seq + 1
  pub issued_next : o.id ≡ resolved.issued + 1
  pub after :
      mail'
      ≡ bump_inbox
          (record resolved {
            sessions = update_rows (takes recipient now) next_seq resolved.sessions;
            messages =
                resolved.messages ++ new_message o.id recipient o.seq caller sender body now ∷ [];
            issued = o.id;
          })
          recipient

take_seq-row :
    (process : ℕ → Process) (mail : Mail) (now : ℕ) (k : Address) (n : ℕ) (mail' : Mail)
    → take_seq process mail now k ≡ ok (n, mail')
    → (s : Session) × In s mail.sessions
      × (takes k now s ≡ true)
      × (n ≡ s.last_seq + 1)
      × (mail' ≡ record mail { sessions = update_rows (takes k now) next_seq mail.sessions })
unfolding take_seq
take_seq-row process mail now k n mail' e =
    elim (Option-cases (first_row (takes k now) mail.sessions)) [
      | inl f ↦ let w = rw (f, take_seq) at e in cc w
      | inr (s, f) ↦
          let w = rw (f, take_seq) at e in
          let (i, t) = first_row-In (takes k now) s mail.sessions f in
          (s, i, t, ground (arith, w), ground (arith, w))
    ]

insert_message-row :
    (mail : Mail) (k : Address) (seq : ℕ) (caller : Address) (sender body : GoString) (now id : ℕ)
    (mail' : Mail)
    → insert_message mail k seq caller sender body now ≡ ok (id, mail')
    → (id ≡ mail.issued + 1)
      × (mail' ≡ record mail {
        messages = mail.messages ++ new_message id k seq caller sender body now ∷ [];
        issued = id;
      })
unfolding insert_message
insert_message-row mail k seq caller sender body now id mail' e =
    let q : id ≡ mail.issued + 1 = ground (arith, e) in
    let w : record mail {
      messages = mail.messages ++ new_message (mail.issued + 1) k seq caller sender body now ∷ [];
      issued = mail.issued + 1;
    }
        ≡ mail' =
      ground (arith, e) in
    (q, rw q (sym w))

pub send_tx-IsSent :
    (process : ℕ → Process) (mail : Mail) (now : ℕ) (caller : Address) (to body : GoString)
    (dashboard : Bool) (o : Outcome) (mail' : Mail)
    → send_tx process mail now caller to body dashboard ≡ ok (o, mail')
    → IsSent mail now caller to body dashboard o mail'
unfolding send_tx
send_tx-IsSent process mail now caller to body dashboard o mail' e =
    let (u, e0, r0) = >>=-eq-ok (active_caller mail now caller dashboard) _ e in
    let ((k, mail1), e1, r1) = >>=-eq-ok (resolve mail now to) _ r0 in
    let (sender, e2, r2) = >>=-eq-ok (sender_name mail1 now caller) _ r1 in
    let ((seq, mail2), e3, r3) = >>=-eq-ok (take_seq process mail1 now k) _ r2 in
    let ((id, mail3), e4, r4) =
      >>=-eq-ok (insert_message mail2 k seq caller sender body now) _ r3 in
    let (receiver, e5, r5) = >>=-eq-ok (receiver_name (bump_inbox mail3 k) k to) _ r4 in
    let (s, i, t, n, m2) = take_seq-row process mail1 now k seq mail2 e3 in
    let (d, m3) = insert_message-row mail2 k seq caller sender body now id mail3 e4 in
    let write = λ (m : Mail) (id : ℕ) (seq : ℕ). record m {
      messages = m.messages ++ new_message id k seq caller sender body now ∷ [];
      issued = id;
    } in
    let stepped = record mail1 { sessions = update_rows (takes k now) next_seq mail1.sessions } in
    let qi : id ≡ o.id = ground (arith, r5) in
    let qs : seq ≡ o.seq = ground (arith, r5) in
    let w : bump_inbox mail3 k ≡ mail' = ground (arith, r5) in
    let made : mail3 ≡ write stepped o.id o.seq =
      m3
      ∙ ap (λ m. write m id seq) m2
      ∙ ap (λ i. write stepped i seq) qi
      ∙ ap (λ q. write stepped o.id q) qs in
    record {
      recipient = k;
      resolved = mail1;
      row = s;
      sender = sender;
      called = e0;
      found = e1;
      stored = i;
      takes_it = t;
      named_as = e2;
      receiver = ap (λ z. receiver_name z k to) (sym w) ∙ e5 ∙ ground (arith, r5);
      sent_at = ground (arith, r5);
      next = sym qs ∙ n;
      issued_next = sym qi ∙ d ∙ ap (λ (m : Mail). m.issued + 1) m2;
      after = sym w ∙ ap (λ m. bump_inbox m k) made;
    }

pub bump-IsSound : (mail : Mail) (k : Address) → IsSound mail → IsSound (bump_inbox mail k)
unfolding bump_inbox
bump-IsSound mail k h = elim (Bool-cases (same_address k maintainer_key)) [
  | inl e ↦ rw e (record {
    unique = h.unique;
    acked = h.acked;
    read = h.read;
    addressed = h.addressed;
    numbered = h.numbered;
    distinct = h.distinct;
    gapless = h.gapless;
  })
  | inr e ↦ rw e h
]

-- A send keeps the inboxes sound.
pub send_tx-IsSound :
    (process : ℕ → Process) (mail : Mail) (now : ℕ) (caller : Address) (to body : GoString)
    (dashboard : Bool) (o : Outcome) (mail' : Mail)
    → send_tx process mail now caller to body dashboard ≡ ok (o, mail')
    → IsSound mail
    → IsSound mail'
unfolding new_message
send_tx-IsSound process mail now caller to body dashboard o mail' e h =
    let s = send_tx-IsSent process mail now caller to body dashboard o mail' e in
    let r = resolve-IsSound mail now to s.recipient s.resolved s.found h in
    let b = new_message o.id s.recipient o.seq caller s.sender body now in
    let m =
      sent-IsSound s.resolved s.recipient now s.row s.stored s.takes_it b refl s.next r o.id in
    subst IsSound (sym s.after) (bump-IsSound _ s.recipient m)
