-- ===== src/Inbox/Acks.antt =====
-- Acknowledgements, marks of a read and delivery states keep the inboxes sound.
use koinon.Base.{
  ℕ, ◌≤◌, ◌<◌, ◌≡◌, ◌≢◌, refl, sym, subst, ◌∙◌, ◌⊎◌, inl, inr, Bool, true, false, not, ◌&&◌, Option,
  ◌==◌, arith, GoString, ltb, Bool-cases, In,
}
use koinon.Failure.{ok}
use koinon.Inbox.Rows.{Address, Session, Mail}
use koinon.Inbox.Callers.{at_address}
use koinon.Inbox.Marks.{set_acked, set_message_acks, record_ack, target, ack_row}
use koinon.Inbox.Invariant.{IsSound, sessions-IsSound, same_address_iff}
use koinon.Inbox.Changes.{messages-IsSound}
use koinon.Inbox.Sends.{bump-IsSound}

pub at_address-eq : (k : Address) (s : Session) → at_address k s ≡ true → s.key ≡ k
unfolding at_address
at_address-eq k s h = ground (arith, same_address_iff s.key k)

pub elsewhere : (k : Address) (s : Session) → at_address k s ≡ false → s.key ≢ k
unfolding at_address
elsewhere k s p q = let t = (same_address_iff s.key k).1 q in absurd (ground (arith, t, p))

-- The one row of an address.
pub row_of :
    (mail : Mail) (k : Address) (s t : Session)
    → IsSound mail
    → In s mail.sessions
    → at_address k s ≡ true
    → In t mail.sessions
    → at_address k t ≡ true
    → t ≡ s
row_of mail k s t h i a j b = h.unique t s j i (at_address-eq k t b ∙ sym (at_address-eq k s a))

pub record_ack-IsSound :
    (mail : Mail) (k : Address) (acked through : ℕ) (dashboard : Bool) (origin : GoString)
    (s : Session)
    → In s mail.sessions
    → at_address k s ≡ true
    → through ≤ s.last_seq
    → IsSound mail
    → IsSound (record_ack mail k acked through dashboard origin)
unfolding record_ack set_acked set_message_acks
record_ack-IsSound mail k acked through dashboard origin s i a le h = bump-IsSound _ k (
    messages-IsSound _ _ _ (λ m. record { recipient = refl; seq = refl })
      (sessions-IsSound mail (at_address k) (λ t. record t { acked_through = through })
        (λ t j b.
          let q = row_of mail k s t h i a j b in
          record {
            key = refl;
            last = refl;
            acked = λ _. subst (λ (z : Session). through ≤ z.last_seq) (sym q) le;
            read = λ r. r;
          })
        h))

-- What the row of an inbox says of an acknowledgement through `n`: a sequence that is not later
-- than the one acknowledged changes nothing, and a later one is recorded.
pub record IsAcked (mail : Mail) (k : Address) (n : ℕ) (dashboard : Bool) (origin : GoString)
    (s : Session) (result : ℕ) (mail' : Mail) : Type 0 where
  pub within : n ≤ s.last_seq
  pub outcome :
      ((n ≤ s.acked_through) × (result ≡ s.acked_through) × (mail' ≡ mail))
      ⊎ ((s.acked_through < n)
          × (result ≡ n)
          × (mail' ≡ record_ack mail k s.acked_through n dashboard origin))

pub ack_row-IsAcked :
    (mail : Mail) (k : Address) (through : Option ℕ) (dashboard : Bool) (revision : ℕ)
    (origin : GoString) (s : Session) (n : ℕ) (mail' : Mail)
    → ack_row mail k through dashboard revision origin s ≡ ok (n, mail')
    → ((revision ≡ 0) ⊎ (revision ≡ s.revision))
      × IsAcked mail k (target through s.last_seq) dashboard origin s n mail'
unfolding ack_row
ack_row-IsAcked mail k through dashboard revision origin s n mail' e =
    elim (Bool-cases (ltb 0 revision && not (s.revision == revision))) [
      | inl a ↦ let w = rw a at e in cc w
      | inr a ↦ elim (Bool-cases (ltb s.last_seq (target through s.last_seq))) [
        | inl b ↦ let w = rw (a, b) at e in cc w
        | inr b ↦ elim (Bool-cases (ltb s.acked_through (target through s.last_seq))) [
          | inl c ↦
              let w = rw (a, b, c) at e in
              (
                ground (arith, a),
                record {
                  within = ground (arith, b);
                  outcome = inr (ground (arith, c), ground (arith, w), ground (arith, w));
                },
              )
          | inr c ↦
              let w = rw (a, b, c) at e in
              (
                ground (arith, a),
                record {
                  within = ground (arith, b);
                  outcome = inl (ground (arith, c), ground (arith, w), ground (arith, w));
                },
              )
        ]
      ]
    ]
