-- ===== src/Inbox/Acknowledged.antt =====
-- The calls that acknowledge, mark a read and set a delivery state: their results, and the
-- inboxes after them.
use koinon.Base.{
  ℕ, ◌≤◌, ◌≡◌, refl, sym, subst, ◌∙◌, ◌⊎◌, inl, inr, Bool, true, false, not, ◌||◌, Option, none,
  some, List, [], ◌∷◌, ◌++◌, arith, GoString, str_eq, bytes, ltb, if◌then◌else◌, Bool-cases, In,
  first_row, first_row-In, any_row,
}
use koinon.Failure.{
  Result, ok, err, guard, no_rows, session_missing, invalid_request, stale_holder,
  message_not_found, >>=-eq-ok, guard-eq-ok,
}
use koinon.Inbox.Rows.{Address, Session, Message, Mail, Delivery}
use koinon.Inbox.Callers.{
  at_address, held_address, ensure_participant_inbox, active_caller, participant_key,
}
use koinon.Inbox.Reading.{highest, may_mark, mark_inbox, mark_returned, mark_read}
use koinon.Inbox.Marks.{
  acked_name, newly_acked, set_acked, set_message_acks, target, ack_row, ack_if,
  ack_participant_row, ack_participant, set_delivery, valid_delivery, has_id, is_negative,
}
use koinon.Inbox.Invariant.{IsSound, sessions-IsSound, same_address_iff}
use koinon.Inbox.Changes.{messages-IsSound}
use koinon.Inbox.Sends.{ensure-IsSound}
use koinon.Inbox.Acks.{row_of, at_address-eq, record_ack-IsSound, IsAcked, ack_row-IsAcked}

-- The checks that an acknowledgement has passed, and the row of its inbox.
pub record AckedRow (mail : Mail) (now : ℕ) (k : Address) (through : Option ℕ) (dashboard : Bool)
    (revision : ℕ) (origin : GoString) (n : ℕ) (mail' : Mail) : Type 0 where
  pub row : Session
  pub stored : In row mail.sessions
  pub at : row.key ≡ k
  pub asked : (dashboard || not (is_negative through)) ≡ true
  pub called : dashboard ≡ false → active_caller mail now k false ≡ ok tt
  pub current : (revision ≡ 0) ⊎ (revision ≡ row.revision)
  pub acked : IsAcked mail k (target through row.last_seq) dashboard origin row n mail'

pub ack_if-AckedRow :
    (admission : Result (Unit {0})) (mail : Mail) (now : ℕ) (caller : Address) (through : Option ℕ)
    (dashboard : Bool) (revision : ℕ) (origin : GoString) (n : ℕ) (mail' : Mail)
    → ack_if admission mail now caller through dashboard revision origin ≡ ok (n, mail')
    → AckedRow mail now caller through dashboard revision origin n mail'
unfolding ack_if
ack_if-AckedRow admission mail now caller through dashboard revision origin n mail' e =
    let (u, f0, r0) =
      >>=-eq-ok (guard (dashboard || not (is_negative through)) invalid_request) _ e in
    let (_, _, r1) = >>=-eq-ok admission _ r0 in
    let (v, f2, r2) =
      >>=-eq-ok (if dashboard then ok tt else active_caller mail now caller false) _ r1 in
    by_row (guard-eq-ok _ _ u f0) (λ d. rw d at f2) (first_row (at_address caller) mail.sessions)
      refl r2
  where
    by_row :
        (dashboard || not (is_negative through)) ≡ true
        → (dashboard ≡ false → active_caller mail now caller false ≡ ok tt)
        → (o : Option Session) → first_row (at_address caller) mail.sessions ≡ o
        → elim o [
          | none ↦ err (if dashboard then session_missing else no_rows)
          | some s ↦ ack_row mail caller through dashboard revision origin s
        ]
          ≡ ok (n, mail')
        → AckedRow mail now caller through dashboard revision origin n mail'
    by_row a c none f r = cc r
    by_row a c (some s) f r =
        let (i, p) = first_row-In (at_address caller) s mail.sessions f in
        let (x, y) = ack_row-IsAcked mail caller through dashboard revision origin s n mail' r in
        record {
          row = s;
          stored = i;
          at = at_address-eq caller s p;
          asked = a;
          called = c;
          current = x;
          acked = y;
        }

pub ack_if-IsSound :
    (admission : Result (Unit {0})) (mail : Mail) (now : ℕ) (caller : Address) (through : Option ℕ)
    (dashboard : Bool) (revision : ℕ) (origin : GoString) (n : ℕ) (mail' : Mail)
    → ack_if admission mail now caller through dashboard revision origin ≡ ok (n, mail')
    → IsSound mail
    → IsSound mail'
ack_if-IsSound admission mail now caller through dashboard revision origin n mail' e h =
    let r = ack_if-AckedRow admission mail now caller through dashboard revision origin n mail' e in
    let s = r.row in
    elim r.acked.outcome [
      | inl (_, _, q) ↦ subst IsSound (sym q) h
      | inr (_, _, q) ↦ subst IsSound (sym q) (
          record_ack-IsSound mail caller s.acked_through (target through s.last_seq) dashboard
            origin s r.stored
            (unfold at_address in (let w = same_address_iff s.key caller in w.1 r.at))
            r.acked.within h)
    ]

ack_participant_row-IsSound :
    (mail : Mail) (caller inbox : Address) (through : ℕ) (s : Session) (n : ℕ) (mail' : Mail)
    → In s mail.sessions
    → at_address inbox s ≡ true
    → ack_participant_row mail caller inbox through s ≡ ok (n, mail')
    → IsSound mail
    → IsSound mail'
unfolding ack_participant_row set_acked set_message_acks
ack_participant_row-IsSound mail caller inbox through s n mail' i a e h =
    elim (Bool-cases (ltb s.last_seq through)) [
      | inl b ↦ let w = rw b at e in cc w
      | inr b ↦ elim (Bool-cases (ltb s.acked_through through)) [
        | inl c ↦
            let w = rw (b, c) at e in
            subst IsSound (ground (arith, w)) (
              messages-IsSound _ (newly_acked inbox s.acked_through through)
                (λ m. record m {
                  ack_session = acked_name mail caller;
                  ack_via = bytes "participant_ack";
                })
                (λ m. record { recipient = refl; seq = refl })
                (sessions-IsSound mail (at_address inbox)
                  (λ t. record t {
                    acked_through = through;
                    acked_by = caller.family ++ (bytes ":" ++ caller.id);
                  })
                  (λ t j d.
                    let q = row_of mail inbox s t h i a j d in
                    record {
                      key = refl;
                      last = refl;
                      acked = λ _.
                          subst (λ (z : Session). through ≤ z.last_seq) (sym q) (ground (arith, b));
                      read = λ r. r;
                    })
                  h))
        | inr c ↦
            let w = rw (b, c) at e in let q : mail ≡ mail' = ground (arith, w) in subst IsSound q h
      ]
    ]

pub ack_participant-IsSound :
    (admission : Result (Unit {0})) (mail : Mail) (now : ℕ) (caller : Address) (through : Option ℕ)
    (n : ℕ) (mail' : Mail)
    → ack_participant admission mail now caller through ≡ ok (n, mail')
    → IsSound mail
    → IsSound mail'
unfolding ack_participant
ack_participant-IsSound admission mail now caller none n mail' e h = cc e
ack_participant-IsSound admission mail now caller (some through) n mail' e h =
    let (_, _, r0) = >>=-eq-ok admission _ e in
    let (_, _, r1) = >>=-eq-ok (active_caller mail now caller false) _ r0 in
    let (_, _, r2) =
      >>=-eq-ok (guard (not (str_eq (held_address mail now caller) [])) stale_holder) _ r1 in
    let (mail1, e3, r3) =
      >>=-eq-ok (ensure_participant_inbox mail (held_address mail now caller)) _ r2 in
    let inbox : Address = record {
      family = caller.family;
      id = participant_key (held_address mail now caller);
    } in
    by_row mail1 inbox (ensure-IsSound mail mail1 (held_address mail now caller) e3 h)
      (first_row (at_address inbox) mail1.sessions) refl r3
  where
    by_row :
        (m : Mail) (inbox : Address)
        → IsSound m
        → (o : Option Session) → first_row (at_address inbox) m.sessions ≡ o
        → elim o [ none ↦ err no_rows | some s ↦ ack_participant_row m caller inbox through s ]
          ≡ ok (n, mail')
        → IsSound mail'
    by_row m inbox k none f r = cc r
    by_row m inbox k (some s) f r =
        let (i, a) = first_row-In (at_address inbox) s m.sessions f in
        ack_participant_row-IsSound m caller inbox through s n mail' i a r k

pub set_delivery-IsSound :
    (admission : Result (Unit {0})) (mail : Mail) (now id : ℕ) (state : Delivery)
    (reason : GoString) (mail' : Mail)
    → set_delivery admission mail now id state reason ≡ ok mail'
    → IsSound mail
    → IsSound mail'
unfolding set_delivery
set_delivery-IsSound admission mail now id state reason mail' e h =
    let (_, _, r0) = >>=-eq-ok (guard (valid_delivery state reason) invalid_request) _ e in
    let (_, _, r1) = >>=-eq-ok admission _ r0 in
    let (_, _, r2) = >>=-eq-ok (guard (any_row (has_id id) mail.messages) message_not_found) _ r1 in
    subst IsSound (ground (arith, r2)) (
      messages-IsSound mail (has_id id)
        (λ m. record m {
          delivery_state = state;
          delivery_reason = reason;
          delivery_updated_at = now;
        })
        (λ m. record { recipient = refl; seq = refl }) h)

-- Each of the messages is still in the inbox, at its sequence.
abbrev pub Returned : Mail → Address → List Message → Type 0
Returned mail k ms =
    (m : Message)
    → In m ms
    → (n : Message) × In n mail.messages × (n.recipient ≡ k) × (n.seq ≡ m.seq)

highest-le :
    (ms : List Message) (bound : ℕ) → ((m : Message) → In m ms → m.seq ≤ bound) → highest ms ≤ bound
unfolding highest
highest-le [] bound h = omega arith
highest-le (m ∷ ms) bound h =
    let a = h m (inl refl) in
    let b = highest-le ms bound (λ x i. h x (inr i)) in ground (arith, a, b)

pub mark_returned-IsSound :
    (mail : Mail) (k : Address) (after : ℕ) (ms : List Message)
    → Returned mail k ms
    → IsSound mail
    → IsSound (mark_returned mail k after ms)
unfolding mark_returned mark_inbox
mark_returned-IsSound mail k after [] r h = h
mark_returned-IsSound mail k after (m ∷ ms) r h =
    sessions-IsSound mail (may_mark k after (highest (m ∷ ms)))
      (λ s. record s { read_through = highest (m ∷ ms) })
      (λ s i p. record {
        key = refl;
        last = refl;
        acked = λ a. a;
        read = λ _. highest-le (m ∷ ms) s.last_seq (λ x j.
            let (n, l, a, b) = r x j in
            let (_, c) = h.numbered n s l i (at_address-eq k s (marks s p) ∙ sym a) in
            omega (arith, b, c));
      })
      h
  where
    marks : (s : Session) → may_mark k after (highest (m ∷ ms)) s ≡ true → at_address k s ≡ true
    marks s p = unfold may_mark in ground (arith, p)

pub mark_read-IsSound :
    (admission : Result (Unit {0})) (mail : Mail) (now : ℕ) (caller : Address) (address : GoString)
    (after participant_after : ℕ) (own participant : List Message)
    → Returned mail caller own
    → Returned mail (record { family = caller.family; id = participant_key address }) participant
    → IsSound mail
    → IsSound (mark_read admission mail now caller address after participant_after own participant)
unfolding mark_read
mark_read-IsSound (err e) mail now caller address after participant_after own participant r q h = h
mark_read-IsSound (ok u) mail now caller address after participant_after own participant r q h =
    let h1 = mark_returned-IsSound mail caller after own r h in
    elim (Bool-cases (str_eq address [] || not (str_eq (held_address mail now caller) address))) [
      | inl e ↦ rw e h1
      | inr e ↦ rw e (mark_returned-IsSound _ _ participant_after participant (later own) h1)
    ]
  where
    later :
        (ms : List Message)
        → Returned
            (mark_returned mail caller after ms)
            (record { family = caller.family; id = participant_key address })
            participant
    later [] = unfold mark_returned in q
    later (m ∷ ms) = unfold mark_returned mark_inbox in q
