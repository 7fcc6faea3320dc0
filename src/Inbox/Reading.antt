-- ===== src/Inbox/Reading.antt =====
-- One inbox as a read returns it, and the mark of a read (internal/core/messages.go,
-- readMessages and markRead).
use koinon.Base.{
  ℕ, ◌+◌, ◌^◌, max, Bool, true, false, not, ◌&&◌, ◌||◌, List, [], ◌∷◌, GoString, length, str_eq,
  ltb, leb, ◌==◌, if◌then◌else◌, select, update_rows, order_by, take,
}
use koinon.Failure.{Result, ok, err}
use koinon.Inbox.Rows.{Address, same_address, Session, Message, Mail}
use koinon.Inbox.Callers.{at_address, participant_key, held_address}

abbrev pub page_bytes : ℕ
page_bytes = 2 ^ 20

-- a message's bytes as the page counts them: its body, its room and its system metadata
unfoldable pub weight : Message → ℕ
weight m =
    length m.body
    + (length m.room_id + (length m.room_event + (length m.system_kind + length m.cycle_id)))

unfoldable pub is_full : ℕ → ℕ → ℕ → Message → Bool
is_full limit count size m = count == limit || (ltb 0 count && ltb page_bytes (size + weight m))

-- the loop of readMessages: the page, and whether more remain
unfoldable pub page : ℕ → ℕ → ℕ → List Message → List Message × Bool
page limit count size [] = ([], false)
page limit count size (m ∷ rest) =
    let (ms, more) = page limit (count + 1) (size + weight m) rest in
    if is_full limit count size m then ([], true) else (m ∷ ms, more)

unfoldable pub after_seq : Address → ℕ → Message → Bool
after_seq k after m = same_address m.recipient k && ltb after m.seq

abbrev pub seq_of : Message → ℕ
seq_of m = m.seq

-- the messages of an inbox after a sequence, in order
unfoldable pub unread : Mail → Address → ℕ → List Message
unread mail k after = order_by seq_of (select (after_seq k after) mail.messages)

-- readMessages
unfoldable pub read_messages : Mail → Address → ℕ → ℕ → List Message × Bool
read_messages mail k after limit = page limit 0 0 (take (limit + 1) (unread mail k after))

-- the highest sequence of the returned messages of one inbox
unfoldable pub highest : List Message → ℕ
highest [] = 0
highest (m ∷ rest) = max m.seq (highest rest)

unfoldable pub may_mark : Address → ℕ → ℕ → Session → Bool
may_mark k after through s =
    at_address k s && (ltb s.read_through through && leb after (max s.read_through s.acked_through))

-- the UPDATE of markRead for one inbox
unfoldable pub mark_inbox : Mail → Address → ℕ → ℕ → Mail
mark_inbox mail k after through = record mail {
  sessions =
      update_rows (may_mark k after through) (λ s. record s { read_through = through })
        mail.sessions;
}

-- an inbox from which a message was returned is marked
unfoldable pub mark_returned : Mail → Address → ℕ → List Message → Mail
mark_returned mail k after [] = mail
mark_returned mail k after (m ∷ rest) = mark_inbox mail k after (highest (m ∷ rest))

-- markRead: `own` and `participant` are the messages that the read returned from the caller's
-- inbox and from that of `address`, the address it held then; `admission` is what begin answers
unfoldable pub mark_read :
    Result (Unit {0}) → Mail → ℕ → Address → GoString → ℕ → ℕ → List Message → List Message → Mail
mark_read (err e) mail now caller address after participant_after own participant = mail
mark_read (ok u) mail now caller address after participant_after own participant =
    let mail1 = mark_returned mail caller after own in
    if str_eq address [] || not (str_eq (held_address mail now caller) address)
    then mail1
    else mark_returned mail1 (record { family = caller.family; id = participant_key address })
        participant_after participant
