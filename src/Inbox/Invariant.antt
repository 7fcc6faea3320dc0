-- ===== src/Inbox/Invariant.antt =====
-- What holds of the inboxes, and the changes that keep it.
use koinon.Base.{
  ℕ, ◌≤◌, ◌≡◌, ◌↔◌, refl, sym, ap, subst, ◌∙◌, inl, inr, Bool, true, arith, str_eq_iff,
  if◌then◌else◌, Bool-cases, In, update_rows, In-update_rows, update_rows-In,
}
use koinon.Inbox.Rows.{Address, same_address, Session, Message, Mail}

pub same_address_iff : (a b : Address) → (same_address a b ≡ true) ↔ (a ≡ b)
unfolding same_address
same_address_iff a b = ground (arith, str_eq_iff a.family b.family, str_eq_iff a.id b.id)

pub record IsSound (mail : Mail) : Type 0 where
  -- an address has one row, and no mark of it is past its last sequence
  pub unique : (s t : Session) → In s mail.sessions → In t mail.sessions → s.key ≡ t.key → s ≡ t
  pub acked : (s : Session) → In s mail.sessions → s.acked_through ≤ s.last_seq
  pub read : (s : Session) → In s mail.sessions → s.read_through ≤ s.last_seq
  -- a message is in an inbox, at a sequence from 1 to the last one that no other message has
  pub addressed :
      (m : Message)
      → In m mail.messages
      → (s : Session) × In s mail.sessions × (s.key ≡ m.recipient)
  pub numbered :
      (m : Message) (s : Session)
      → In m mail.messages
      → In s mail.sessions
      → s.key ≡ m.recipient
      → (1 ≤ m.seq) × (m.seq ≤ s.last_seq)
  pub distinct :
      (m n : Message)
      → In m mail.messages
      → In n mail.messages
      → m.recipient ≡ n.recipient
      → m.seq ≡ n.seq
      → m ≡ n
  -- every such sequence has its message
  pub gapless :
      (s : Session) (n : ℕ)
      → In s mail.sessions
      → 1 ≤ n
      → n ≤ s.last_seq
      → (m : Message) × In m mail.messages × (m.recipient ≡ s.key) × (m.seq ≡ n)

-- A change of a row that leaves its sequences.
pub record Keeps (s t : Session) : Type 0 where
  pub key : t.key ≡ s.key
  pub last : t.last_seq ≡ s.last_seq
  pub acked : s.acked_through ≤ s.last_seq → t.acked_through ≤ t.last_seq
  pub read : s.read_through ≤ s.last_seq → t.read_through ≤ t.last_seq

unchanged : (s : Session) → Keeps s s
unchanged s = record { key = refl; last = refl; acked = λ h. h; read = λ h. h }

pub sessions-IsSound :
    (mail : Mail) (p : Session → Bool) (f : Session → Session)
    → ((s : Session) → In s mail.sessions → p s ≡ true → Keeps s (f s))
    → IsSound mail
    → IsSound (record mail { sessions = update_rows p f mail.sessions })
sessions-IsSound mail p f keeps h = record {
  unique = λ s t i j e.
      let (x, ix, ex, kx) = origin s i in
      let (y, iy, ey, ky) = origin t j in
      let same = h.unique x y ix iy (sym kx.key ∙ e ∙ ky.key) in ex ∙ ap after same ∙ sym ey;
  acked = λ s i. let (x, ix, ex, kx) = origin s i in kx.acked (h.acked x ix);
  read = λ s i. let (x, ix, ex, kx) = origin s i in kx.read (h.read x ix);
  addressed = λ m i.
      let (s, j, e) = h.addressed m i in
      let k = kept s j in (after s, update_rows-In p f s mail.sessions j, k.key ∙ e);
  numbered = λ m s i j e.
      let (x, ix, ex, kx) = origin s j in
      let (a, b) = h.numbered m x i ix (sym kx.key ∙ e) in
      let l = kx.last in (a, omega (arith, b, l));
  distinct = h.distinct;
  gapless = λ s n i a b.
      let (x, ix, ex, kx) = origin s i in
      let l = kx.last in
      let (m, j, r, q) = h.gapless x n ix a (omega (arith, b, l)) in (m, j, r ∙ sym kx.key, q);
}
  where
    after : Session → Session
    after s = if p s then f s else s

    kept : (s : Session) → In s mail.sessions → Keeps s (after s)
    kept s i = elim (Bool-cases (p s)) [ inl e ↦ rw e (keeps s i e) | inr e ↦ rw e (unchanged s) ]

    origin :
        (t : Session)
        → In t (update_rows p f mail.sessions)
        → (s : Session) × In s mail.sessions × (t ≡ after s) × Keeps s t
    origin t i =
        let (s, j, e) = In-update_rows p f t mail.sessions i in
        (s, j, e, subst (Keeps s) (sym e) (kept s j))
