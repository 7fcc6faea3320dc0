-- ===== src/Inbox/Sent.antt =====
-- A message that takes its recipient's next sequence keeps the inboxes sound, and so does a send.
use koinon.Base.{
  ℕ, ◌+◌, ◌≤◌, ◌≡◌, ◌≢◌, refl, sym, ap, subst, ◌∙◌, ◌⊎◌, inl, inr, true, false, List, [], ◌∷◌, ◌++◌,
  ◌==◌, arith, if◌then◌else◌, Bool-cases, In, update_rows, In-update_rows, update_rows-In,
  In-append, In-left, In-last,
}
use koinon.Inbox.Rows.{Address, Session, Message, Mail}
use koinon.Inbox.Callers.{at_address}
use koinon.Inbox.Sending.{takes, next_seq}
use koinon.Inbox.Invariant.{IsSound, same_address_iff}

takes-key : (k : Address) (now : ℕ) (s : Session) → takes k now s ≡ true → s.key ≡ k
unfolding takes at_address
takes-key k now s h = ground (arith, same_address_iff s.key k)

module _ (mail : Mail) (k : Address) (now : ℕ) (s : Session) (i : In s mail.sessions)
    (t : takes k now s ≡ true) (b : Message) (br : b.recipient ≡ k) (bs : b.seq ≡ s.last_seq + 1)
    (h : IsSound mail) where
  after : Session → Session
  after x = if takes k now x then next_seq x else x

  -- The new row of a session: the recipient's has one sequence more, the others are unchanged.
  moved :
      (x : Session)
      → In x mail.sessions
      → ((x ≡ s) × (after x ≡ next_seq s)) ⊎ ((x.key ≢ k) × (after x ≡ x))
  unfolding after
  moved x j = elim (Bool-cases (takes k now x)) [
    | inl e ↦
        let q = h.unique x s j i (takes-key k now x e ∙ sym (takes-key k now s t)) in
        inl (q, rw e (ap next_seq q))
    | inr e ↦ inr (λ q. other x j e (h.unique x s j i (q ∙ sym (takes-key k now s t))), rw e refl)
  ]
    where
      other : (x : Session) → In x mail.sessions → takes k now x ≡ false → x ≡ s → ⊥
      other x j e q =
          let w : takes k now s ≡ false = subst (λ z. takes k now z ≡ false) q e in cc (w, t)

  sessions_after : List Session
  sessions_after = update_rows (takes k now) next_seq mail.sessions

  -- Where a new row comes from.
  row : (y : Session) → In y sessions_after → (y ≡ next_seq s) ⊎ ((y.key ≢ k) × In y mail.sessions)
  unfolding sessions_after after
  row y j =
      let (x, ix, ex) = In-update_rows (takes k now) next_seq y mail.sessions j in
      elim (moved x ix) [
        | inl (q, e) ↦ inl (ex ∙ e)
        | inr (n, e) ↦
            let w : y ≡ x = ex ∙ e in
            inr (
              (λ z. n (sym (ap (λ (v : Session). v.key) w) ∙ z)),
              subst (λ v. In v mail.sessions) (sym w) ix,
            )
      ]

  old_or_new : (m : Message) → In m (mail.messages ++ b ∷ []) → In m mail.messages ⊎ (m ≡ b)
  old_or_new m j = elim (In-append m mail.messages (b ∷ []) j) [
    | inl x ↦ inl x
    | inr (inl e) ↦ inr e
    | inr (inr e) ↦ absurd e
  ]

  key_of : s.key ≡ k
  key_of = takes-key k now s t

  -- No old message of the inbox has the new sequence.
  unused : (m : Message) → In m mail.messages → m.recipient ≡ k → m.seq ≡ b.seq → ⊥
  unused m j r q =
      let (x, y) = h.numbered m s j i (key_of ∙ sym r) in absurd (omega (arith, y, q, bs))

  pub sent-IsSound :
      (issued : ℕ)
      → IsSound (record mail {
        sessions = update_rows (takes k now) next_seq mail.sessions;
        messages = mail.messages ++ b ∷ [];
        issued = issued;
      })
  unfolding sessions_after after
  sent-IsSound issued = record {
    unique = λ x y ix iy e. elim (row x ix) [
      | inl p ↦ elim (row y iy) [
        | inl q ↦ p ∙ sym q
        | inr (n, _) ↦ absurd (n (sym e ∙ ap (λ (z : Session). z.key) p ∙ key_of))
      ]
      | inr (n, j) ↦ elim (row y iy) [
        | inl q ↦ absurd (n (e ∙ ap (λ (z : Session). z.key) q ∙ key_of))
        | inr (_, l) ↦ h.unique x y j l e
      ]
    ];
    acked = λ x ix. elim (row x ix) [
      | inl p ↦ let l = h.acked s i in rw p (omega (arith, l))
      | inr (_, j) ↦ h.acked x j
    ];
    read = λ x ix. elim (row x ix) [
      | inl p ↦ let l = h.read s i in rw p (omega (arith, l))
      | inr (_, j) ↦ h.read x j
    ];
    addressed = λ m j. elim (old_or_new m j) [
      | inl x ↦ let (u, iu, e) = h.addressed m x in found m u iu e
      | inr e ↦ found m s i (key_of ∙ sym br ∙ sym (ap (λ (z : Message). z.recipient) e))
    ];
    numbered = λ m y j iy e. elim (old_or_new m j) [
      | inl x ↦ elim (row y iy) [
        | inl p ↦
            let (u, v) = h.numbered m s x i (sym (ap (λ (z : Session). z.key) p) ∙ e) in
            (u, rw p (omega (arith, v)))
        | inr (_, l) ↦ h.numbered m y x l e
      ]
      | inr x ↦
          let w : m.seq ≡ s.last_seq + 1 = ap (λ (z : Message). z.seq) x ∙ bs in
          elim (row y iy) [
            | inl p ↦ (omega (arith, w), rw p (omega (arith, w)))
            | inr (n, _) ↦ absurd (n (e ∙ ap (λ (z : Message). z.recipient) x ∙ br))
          ]
    ];
    distinct = λ m n j l e q. elim (old_or_new m j) [
      | inl x ↦ elim (old_or_new n l) [
        | inl y ↦ h.distinct m n x y e q
        | inr y ↦ absurd (
            unused m x (e ∙ ap (λ (z : Message). z.recipient) y ∙ br)
              (q ∙ ap (λ (z : Message). z.seq) y))
      ]
      | inr x ↦ elim (old_or_new n l) [
        | inl y ↦ absurd (
            unused n y (sym e ∙ ap (λ (z : Message). z.recipient) x ∙ br)
              (sym q ∙ ap (λ (z : Message). z.seq) x))
        | inr y ↦ x ∙ sym y
      ]
    ];
    gapless = λ y n iy a c. elim (row y iy) [
      | inl p ↦ elim (Bool-cases (n == s.last_seq + 1)) [
        | inl e ↦ (
          b,
          In-last mail.messages b,
          br ∙ sym key_of ∙ sym (ap (λ (z : Session). z.key) p),
          bs ∙ sym (ground (arith, e)),
        )
        | inr e ↦
            let d : n ≤ s.last_seq + 1 = subst (λ (z : Session). n ≤ z.last_seq) p c in
            let (m, j, r, q) = h.gapless s n i a (ground (arith, d, e)) in
            (m, In-left m mail.messages (b ∷ []) j, r ∙ sym (ap (λ (z : Session). z.key) p), q)
      ]
      | inr (_, j) ↦
          let (m, l, r, q) = h.gapless y n j a c in (m, In-left m mail.messages (b ∷ []) l, r, q)
    ];
  }
    where
      found :
          (m : Message) (u : Session)
          → In u mail.sessions
          → u.key ≡ m.recipient
          → (v : Session) × In v sessions_after × (v.key ≡ m.recipient)
      found m u iu e = elim (moved u iu) [
        | inl (p, q) ↦ (
          after u,
          update_rows-In (takes k now) next_seq u mail.sessions iu,
          ap (λ (z : Session). z.key) q ∙ sym (ap (λ (z : Session). z.key) p) ∙ e,
        )
        | inr (_, q) ↦ (
          after u,
          update_rows-In (takes k now) next_seq u mail.sessions iu,
          ap (λ (z : Session). z.key) q ∙ e,
        )
      ]
