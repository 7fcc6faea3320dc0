-- ===== src/Inbox/Changes.antt =====
-- Changes of messages, a new inbox and a sent message keep the inboxes sound.
use koinon.Base.{
  ◌≡◌, ◌≢◌, refl, sym, ap, subst, ◌∙◌, ◌⊎◌, inl, inr, Bool, false, [], ◌∷◌, ◌++◌, arith,
  if◌then◌else◌, Bool-cases, In, update_rows, In-update_rows, update_rows-In, In-append, In-left,
  any_row, any_row-false,
}
use koinon.Inbox.Rows.{Session, Message, Mail}
use koinon.Inbox.Callers.{at_address, insert_session}
use koinon.Inbox.Invariant.{IsSound, same_address_iff}

-- A change of a message that leaves its place.
pub record Places (m n : Message) : Type 0 where
  pub recipient : n.recipient ≡ m.recipient
  pub seq : n.seq ≡ m.seq

pub messages-IsSound :
    (mail : Mail) (p : Message → Bool) (f : Message → Message)
    → ((m : Message) → Places m (f m))
    → IsSound mail
    → IsSound (record mail { messages = update_rows p f mail.messages })
messages-IsSound mail p f places h = record {
  unique = h.unique;
  acked = h.acked;
  read = h.read;
  addressed = λ m i.
      let (x, ix, ex, px) = origin m i in
      let (s, j, e) = h.addressed x ix in (s, j, e ∙ sym px.recipient);
  numbered = λ m s i j e.
      let (x, ix, ex, px) = origin m i in
      let (a, b) = h.numbered x s ix j (e ∙ px.recipient) in
      let q = px.seq in (omega (arith, a, q), omega (arith, b, q));
  distinct = λ m n i j e q.
      let (x, ix, ex, px) = origin m i in
      let (y, iy, ey, py) = origin n j in
      ex
      ∙ ap after
          (h.distinct x y ix iy (sym px.recipient ∙ e ∙ py.recipient) (sym px.seq ∙ q ∙ py.seq))
      ∙ sym ey;
  gapless = λ s n i a b.
      let (m, j, r, q) = h.gapless s n i a b in
      let k = placed m in
      (after m, update_rows-In p f m mail.messages j, k.recipient ∙ r, k.seq ∙ q);
}
  where
    after : Message → Message
    after m = if p m then f m else m

    placed : (m : Message) → Places m (after m)
    placed m = elim (Bool-cases (p m)) [
      | inl e ↦ rw e (places m)
      | inr e ↦ rw e (record { recipient = refl; seq = refl })
    ]

    origin :
        (n : Message)
        → In n (update_rows p f mail.messages)
        → (m : Message) × In m mail.messages × (n ≡ after m) × Places m n
    origin n i =
        let (m, j, e) = In-update_rows p f n mail.messages i in
        (m, j, e, subst (Places m) (sym e) (placed m))

-- A new row with no message.
module _ (mail : Mail) (s : Session) (l : s.last_seq ≡ 0) (a : s.acked_through ≡ 0)
    (r : s.read_through ≡ 0) (h : IsSound mail) where
  fresh :
      any_row (at_address s.key) mail.sessions ≡ false
      → (t : Session) → In t mail.sessions
      → t.key ≢ s.key
  fresh e t i q =
      let f = any_row-false (at_address s.key) t mail.sessions e i in
      unfold at_address in (let w = same_address_iff t.key s.key in cc (f, w.1 q))

  either : (t : Session) → In t (mail.sessions ++ s ∷ []) → In t mail.sessions ⊎ (t ≡ s)
  either t i = elim (In-append t mail.sessions (s ∷ []) i) [
    | inl j ↦ inl j
    | inr (inl e) ↦ inr e
    | inr (inr e) ↦ absurd e
  ]

  pub insert_session-IsSound : IsSound (insert_session mail s)
  unfolding insert_session
  insert_session-IsSound = elim (Bool-cases (any_row (at_address s.key) mail.sessions)) [
    | inl e ↦ rw e h
    | inr e ↦ rw e (added e)
  ]
    where
      added :
          any_row (at_address s.key) mail.sessions ≡ false
          → IsSound (record mail { sessions = mail.sessions ++ s ∷ [] })
      added e = record {
        unique = λ t u i j q. elim (either t i) [
          | inl x ↦ elim (either u j) [
            | inl y ↦ h.unique t u x y q
            | inr y ↦ absurd (fresh e t x (q ∙ ap (λ (z : Session). z.key) y))
          ]
          | inr x ↦ elim (either u j) [
            | inl y ↦ absurd (fresh e u y (sym q ∙ ap (λ (z : Session). z.key) x))
            | inr y ↦ x ∙ sym y
          ]
        ];
        acked =
            λ t i. elim (either t i) [ inl x ↦ h.acked t x | inr x ↦ rw x (omega (arith, a, l)) ];
        read = λ t i. elim (either t i) [ inl x ↦ h.read t x | inr x ↦ rw x (omega (arith, r, l)) ];
        addressed =
            λ m i. let (t, j, q) = h.addressed m i in (t, In-left t mail.sessions (s ∷ []) j, q);
        numbered = λ m t i j q. elim (either t j) [
          | inl x ↦ h.numbered m t i x q
          | inr x ↦
              let (u, k, w) = h.addressed m i in
              absurd (fresh e u k (w ∙ sym q ∙ ap (λ (z : Session). z.key) x))
        ];
        distinct = h.distinct;
        gapless = λ t n i x y. elim (either t i) [
          | inl j ↦ h.gapless t n j x y
          | inr j ↦
              let z : t.last_seq ≡ 0 = ap (λ (z : Session). z.last_seq) j ∙ l in
              absurd (omega (arith, x, y, z))
        ];
      }
