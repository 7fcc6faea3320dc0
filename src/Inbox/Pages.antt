-- ===== src/Inbox/Pages.antt =====
-- What a page of an inbox holds.
use koinon.Base.{
  ℕ, zero, suc, ◌+◌, ◌≤◌, ◌<◌, ◌≡◌, ◌≢◌, ◌↔◌, refl, sym, ap, subst, ◌∙◌, ◌⊎◌, inl, inr, Bool, true,
  false, ◌&&◌, List, [], ◌∷◌, ◌++◌, ◌==◌, arith, take, length, ltb, Bool-cases, Perm, IsSorted, In,
  In-select, select-In, select, order_by_iff, order_by-IsSorted, order_by-Perm,
}
use koinon.Inbox.Rows.{Address, same_address, Message, Mail}
use koinon.Inbox.Reading.{
  page_bytes, weight, is_full, page, after_seq, seq_of, unread, read_messages,
}
use koinon.Inbox.Invariant.{same_address_iff}

-- the bytes of a page
unfoldable pub weights : List Message → ℕ
weights [] = 0
weights (m ∷ ms) = weight m + weights ms

-- `ms` is what the loop takes of the messages `from`, when `count` messages of `size` bytes stand
-- before it, and `more` whether it leaves any.
pub record IsPage (limit count size : ℕ) (from ms : List Message) (more : Bool) : Type 0 where
  pub rest : List Message
  pub prefix : from ≡ ms ++ rest
  pub more_iff : (more ≡ true) ↔ (rest ≢ [])
  pub counted : count + length ms ≤ limit
  pub sized : (size + weights ms ≤ page_bytes) ⊎ ((count ≡ 0) × (length ms ≤ 1)) ⊎ (ms ≡ [])

module _ (limit : ℕ) where
  stopped :
      (count size : ℕ) (m : Message) (l : List Message)
      → count ≤ limit
      → IsPage limit count size (m ∷ l) [] true
  stopped count size m l le = record {
    rest = m ∷ l;
    prefix = refl;
    more_iff = ((λ _ e. cc e), λ _. refl);
    counted = omega (arith, le);
    sized = inr (inr refl);
  }

  -- A message before a page, when the loop is not full at it.
  joined :
      (count size : ℕ) (m : Message) (l ms : List Message) (more : Bool)
      → is_full limit count size m ≡ false
      → IsPage limit (count + 1) (size + weight m) l ms more
      → IsPage limit count size (m ∷ l) (m ∷ ms) more
  unfolding is_full weights
  joined count size m l ms more f h = record {
    rest = h.rest;
    prefix = ap (λ t. m ∷ t) h.prefix;
    more_iff = h.more_iff;
    counted = let c = h.counted in omega (arith, c);
    sized = elim h.sized [
      | inl a ↦ inl (omega (arith, a))
      | inr (inl (z, _)) ↦ absurd (omega (arith, z))
      | inr (inr e) ↦ elim (Bool-cases (count == 0)) [
        | inl z ↦ inr (inl (ground (arith, z), rw e (omega arith)))
        | inr z ↦ inl (rw e (ground (arith, f, z)))
      ]
    ];
  }

  page-IsPage :
      (n count size : ℕ) (l : List Message)
      → count + n ≡ limit
      → IsPage limit count size l
          (page limit count size (take (suc n) l)).0
          (page limit count size (take (suc n) l)).1
  unfolding page take
  page-IsPage n count size [] e = record {
    rest = [];
    prefix = refl;
    more_iff = ((λ t. cc t), λ t. absurd (t refl));
    counted = omega (arith, e);
    sized = inr (inr refl);
  }
  page-IsPage zero count size (m ∷ l) e =
      let f : is_full limit count size m ≡ true = unfold is_full in ground (arith, e) in
      rw f (stopped count size m l (omega (arith, e)))
  page-IsPage (suc n) count size (m ∷ l) e = elim (Bool-cases (is_full limit count size m)) [
    | inl f ↦ rw f (stopped count size m l (omega (arith, e)))
    | inr f ↦ rw f (
        joined count size m l _ _ f
          (page-IsPage n (count + 1) (size + weight m) l (omega (arith, e))))
  ]

  -- The first message always fits.
  page-empty :
      (l : List Message) → 1 ≤ limit → (page limit 0 0 (take (suc limit) l)).0 ≡ [] → l ≡ []
  unfolding page take
  page-empty [] le e = refl
  page-empty (m ∷ l) le e =
      let f : is_full limit 0 0 m ≡ false = unfold is_full in ground (arith, le) in
      let w = rw (f, page, take) at e in cc w

-- The messages of the inbox `k` past the sequence `after`, each as often as the table has it, in
-- the order of their sequences.
pub record IsUnread (mail : Mail) (k : Address) (after : ℕ) (ms : List Message) : Type 0 where
  pub sorted : IsSorted seq_of ms
  pub rows_iff :
      (m : Message) → In m ms ↔ (In m mail.messages × (m.recipient ≡ k) × (after < m.seq))
  pub counted : Perm ms (select (λ m. same_address m.recipient k && ltb after m.seq) mail.messages)

unread-IsUnread :
    (mail : Mail) (k : Address) (after : ℕ) → IsUnread mail k after (unread mail k after)
unfolding unread
unread-IsUnread mail k after =
    let p = after_seq k after in
    record {
      sorted = order_by-IsSorted seq_of (select p mail.messages);
      rows_iff = λ m. (
        λ i.
            let (j, e) = In-select p m mail.messages ((order_by_iff seq_of m _).0 i) in
            unfold after_seq in
            (j, ground (arith, e, same_address_iff m.recipient k), ground (arith, e)),
        λ (i, e, f). (order_by_iff seq_of m _).1 (
            select-In p m mail.messages i
              (unfold after_seq in ground (arith, same_address_iff m.recipient k))),
      );
      counted = unfold after_seq in order_by-Perm seq_of (select p mail.messages);
    }

-- A read of an inbox with a limit of at least one returns the first of the inbox's messages past
-- the sequence, in the order of their sequences: with the messages `rest` that it leaves out they
-- are all the messages of the inbox past the sequence, each as often as the table has it, and
-- sorted. It returns at most the limit, and at most 1 MiB of bytes unless it is one message alone.
-- It says that more remain exactly when it leaves one out, and it returns a message whenever the
-- inbox has one past the sequence.
pub read_messages_complete :
    (mail : Mail) (k : Address) (after limit : ℕ)
    → 1 ≤ limit
    → let (ms, more) = read_messages mail k after limit in
      (rest : List Message) × IsUnread mail k after (ms ++ rest)
      × ((more ≡ true) ↔ (rest ≢ []))
      × (length ms ≤ limit)
      × ((weights ms ≤ page_bytes) ⊎ (length ms ≤ 1))
      × (ms ≡ [] → rest ≡ [])
unfolding read_messages
read_messages_complete mail k after limit le =
    let one : limit + 1 ≡ suc limit = omega arith in
    rw one (
      let p = page-IsPage limit limit 0 0 (unread mail k after) (omega arith) in
      let c = p.counted in
      (
        p.rest,
        subst (IsUnread mail k after) p.prefix (unread-IsUnread mail k after),
        p.more_iff,
        omega (arith, c),
        elim p.sized [
          | inl a ↦ inl (omega (arith, a))
          | inr (inl (_, b)) ↦ inr b
          | inr (inr e) ↦ inr (rw e (omega arith))
        ],
        λ e.
            let none_unread = page-empty limit (unread mail k after) le e in
            let f : [] ++ p.rest ≡ [] =
              ap (λ t. t ++ p.rest) (sym e) ∙ sym p.prefix ∙ none_unread in
            f,
      ))
