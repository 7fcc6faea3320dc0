-- ===== src/Inbox/Callers.antt =====
-- Who calls, which address a caller holds, and which inbox a name leads to
-- (internal/core/messages.go, names.go, participants.go and liveness.go).
use koinon.Base.{
  ℕ, Bool, true, false, not, ◌&&◌, ◌||◌, Option, none, some, List, [], ◌∷◌, ◌++◌, GoString, bytes,
  str_eq, has_prefix, ltb, ◌==◌, if◌then◌else◌, select, first_row, any_row,
}
use koinon.Failure.{
  Failure, invalid_request, caller_inactive, recipient_inactive, no_rows, Result, ok, err,
}
use koinon.Claims.Cycles.{valid_key, participant_prefix}
use koinon.Inbox.Rows.{Address, same_address, Session, peer, alias, Name, Mail}

abbrev pub maintainer_key : Address
maintainer_key = record { family = bytes "maintainer"; id = bytes "maintainer" }

unfoldable pub at_address : Address → Session → Bool
at_address k s = same_address s.key k

-- `retired_at=0 AND expires_at>now`
unfoldable pub is_active : ℕ → Session → Bool
is_active now s = s.retired_at == 0 && ltb now s.expires_at

-- activeCaller
unfoldable pub active_caller : Mail → ℕ → Address → Bool → Result (Unit {0})
active_caller mail now caller dashboard =
    if not (valid_key caller.family caller.id)
      && not (dashboard && same_address caller maintainer_key)
    then err invalid_request
    else if any_row (λ s. at_address caller s && is_active now s) mail.sessions
    then ok tt
    else err caller_inactive

-- holds
unfoldable pub holds : Mail → ℕ → GoString → GoString → GoString → GoString → Bool
holds mail now family id repository role =
    any_row
      (λ s.
        at_address (record { family = family; id = id }) s
        && (str_eq s.repository repository
            && (str_eq s.role role && (not s.subagent && (is_active now s && s.launched)))))
      mail.sessions

-- participantKey
unfoldable pub participant_key : GoString → GoString
participant_key address = participant_prefix ++ address

-- isParticipantID
unfoldable pub is_participant_id : GoString → Bool
is_participant_id id = has_prefix id participant_prefix

unfoldable pub is_alias : Name → Bool
is_alias n = elim n.kind [ peer ↦ false | alias ↦ true ]

-- the comparison of two strings of bytes, as ORDER BY makes it
unfoldable pub str_lt : GoString → GoString → Bool
str_lt [] [] = false
str_lt [] (b ∷ t) = true
str_lt (a ∷ s) [] = false
str_lt (a ∷ s) (b ∷ t) = let rest = str_lt s t in if ltb a b then true else a == b && rest

-- the least of a name and the least of the other names
unfoldable pub least_of : GoString → Option GoString → Option GoString
least_of name none = some name
least_of name (some least) = if str_lt least name then some least else some name

-- ORDER BY name LIMIT 1
unfoldable pub least_name : List Name → Option GoString
least_name [] = none
least_name (n ∷ rest) = least_of n.name (least_name rest)

unfoldable pub holds_name : Mail → ℕ → Address → Name → Bool
holds_name mail now caller n =
    is_alias n
    && (str_eq n.family caller.family
        && (str_eq n.holder_id caller.id
            && holds mail now n.family n.holder_id n.repository n.role))

-- heldAddress
unfoldable pub held_address : Mail → ℕ → Address → GoString
held_address mail now caller = elim (least_name (select (holds_name mail now caller) mail.names)) [
  | none ↦ []
  | some address ↦ address
]

abbrev pub no_expiry : ℕ
no_expiry = 9_007_199_254_740_991

-- the row that ensureParticipantInbox inserts; an empty wake target has no launch ID, so only a
-- deepseek row meets participantQualifier
unfoldable pub participant_inbox : GoString → GoString → GoString → GoString → Session
participant_inbox family address repository role = record {
  key = record { family = family; id = participant_key address };
  repository = repository;
  role = role;
  subagent = false;
  launched = str_eq family (bytes "deepseek");
  retired_at = 0;
  expires_at = no_expiry;
  revision = 1;
  host_pid = 0;
  host_start = 0;
  last_seq = 0;
  acked_through = 0;
  acked_by = [];
  read_through = 0;
}

-- INSERT INTO sessions … ON CONFLICT(family,id) DO NOTHING
unfoldable pub insert_session : Mail → Session → Mail
insert_session mail s =
    if any_row (at_address s.key) mail.sessions
    then mail
    else record mail { sessions = mail.sessions ++ s ∷ [] }

unfoldable pub named : GoString → Name → Bool
named name n = str_eq n.name name

-- ensureParticipantInbox
unfoldable pub ensure_participant_inbox : Mail → GoString → Result Mail
ensure_participant_inbox mail address =
    elim (first_row (λ n. named address n && is_alias n) mail.names) [
      | none ↦ err no_rows
      | some n ↦ ok (insert_session mail (participant_inbox n.family address n.repository n.role))
    ]

unfoldable pub peer_of : Address → Name → Bool
peer_of k n = not (is_alias n) && (str_eq n.family k.family && str_eq n.session_id k.id)

-- SELECT name FROM names WHERE kind='peer' AND family=? AND session_id=?
unfoldable pub peer_name : Mail → Address → Option GoString
peer_name mail k = elim (first_row (peer_of k) mail.names) [ none ↦ none | some n ↦ some n.name ]

-- what platform.ProcessStart reports of a process
pub data Process : Type 0 where
  gone unreadable : Process
  started : ℕ → Process

unfoldable pub ended_reason : Process → ℕ → GoString
ended_reason gone start = bytes "ended"
ended_reason unreadable start = bytes "no_liveness_evidence"
ended_reason (started current) start = if current == start then bytes "lapsed" else bytes "ended"

-- inactiveReason, as the refusal that sendTx makes of it; a host of 0 stands for none
unfoldable pub inactive_reason : (ℕ → Process) → Mail → Address → Failure
inactive_reason process mail k = elim (first_row (at_address k) mail.sessions) [
  | none ↦ recipient_inactive []
  | some s ↦ recipient_inactive (
      if not (s.retired_at == 0)
      then bytes "retired"
      else if s.subagent || (s.host_pid == 0 || s.host_start == 0)
      then bytes "no_liveness_evidence"
      else ended_reason (process s.host_pid) s.host_start)
]
