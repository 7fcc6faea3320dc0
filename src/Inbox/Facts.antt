-- ===== src/Inbox/Facts.antt =====
-- What the queries of the inboxes answer (internal/core/messages.go and names.go), said of the rows:
-- an active session, a peer's name, and the maintainer's inbox version.
use koinon.Base.{
  ℕ, ◌+◌, ◌<◌, ◌≡◌, ◌≢◌, ◌↔◌, ◌⊎◌, refl, inl, inr, true, false, none, some, arith, GoString,
  str_eq_iff, Bool-cases, Option-cases, In, first_row, first_row-In, first_row-none,
}
use koinon.Inbox.Rows.{Address, same_address, Session, NameKind, peer, alias, Name, Mail}
use koinon.Inbox.Callers.{maintainer_key, is_active, is_alias, peer_of, peer_name}
use koinon.Inbox.Sending.{bump_inbox}
use koinon.Inbox.Invariant.{same_address_iff}

-- A session that has not retired and whose time has not come.
abbrev pub IsActive : ℕ → Session → Type 0
IsActive now s = (s.retired_at ≡ 0) × (now < s.expires_at)

pub is_active_iff : (now : ℕ) (s : Session) → (is_active now s ≡ true) ↔ IsActive now s
unfolding is_active
is_active_iff now s = ground arith

kind_cases : (k : NameKind) → (k ≡ peer) ⊎ (k ≡ alias)
kind_cases peer = inl refl
kind_cases alias = inr refl

pub is_alias_cases :
    (n : Name) → ((n.kind ≡ peer) × (is_alias n ≡ false)) ⊎ ((n.kind ≡ alias) × (is_alias n ≡ true))
unfolding is_alias
is_alias_cases n = elim (kind_cases n.kind) [
  | inl e ↦ inl (e, rw e refl)
  | inr e ↦ inr (e, rw e refl)
]

-- A peer row of the address.
abbrev pub IsPeerRow : Address → Name → Type 0
IsPeerRow k n = (n.kind ≡ peer) × (n.family ≡ k.family) × (n.session_id ≡ k.id)

-- The row of names says that the address is a peer of the name.
abbrev pub IsPeerName : Mail → Address → GoString → Type 0
IsPeerName mail k name = (n : Name) × In n mail.names × IsPeerRow k n × (n.name ≡ name)

pub peer_of_iff : (k : Address) (n : Name) → (peer_of k n ≡ true) ↔ IsPeerRow k n
unfolding peer_of
peer_of_iff k n = elim (is_alias_cases n) [
  | inl (e, f) ↦ ground (arith, e, f, str_eq_iff n.family k.family, str_eq_iff n.session_id k.id)
  | inr (e, f) ↦ (λ h. absurd (ground (arith, h, f)), λ p. let q = p.0 in cc (e, q))
]

pub peer_name-some :
    (mail : Mail) (k : Address) (name : GoString)
    → peer_name mail k ≡ some name
    → IsPeerName mail k name
unfolding peer_name
peer_name-some mail k name h = elim (Option-cases (first_row (peer_of k) mail.names)) [
  | inl e ↦ let w = rw (e, peer_name) at h in cc w
  | inr (n, e) ↦
      let w = rw (e, peer_name) at h in
      let (i, p) = first_row-In (peer_of k) n mail.names e in
      (n, i, (peer_of_iff k n).0 p, ground (arith, w))
]

pub peer_name-none :
    (mail : Mail) (k : Address)
    → peer_name mail k ≡ none
    → (n : Name) → In n mail.names
    → ¬ IsPeerRow k n
unfolding peer_name
peer_name-none mail k h n i p = elim (Option-cases (first_row (peer_of k) mail.names)) [
  | inl e ↦
      let f = first_row-none (peer_of k) n mail.names e i in
      let t = (peer_of_iff k n).1 p in absurd (ground (arith, f, t))
  | inr (m, e) ↦ let w = rw (e, peer_name) at h in cc w
]

-- The maintainer's inbox version goes up by one if the inbox is the maintainer's, and no other
-- table changes.
pub record IsBumped (mail mail' : Mail) (k : Address) : Type 0 where
  pub version : k ≡ maintainer_key → mail'.inbox_version ≡ mail.inbox_version + 1
  pub kept : k ≢ maintainer_key → mail'.inbox_version ≡ mail.inbox_version
  pub tables : mail' ≡ record mail { inbox_version = mail'.inbox_version }

pub bump_inbox-IsBumped : (mail : Mail) (k : Address) → IsBumped mail (bump_inbox mail k) k
unfolding bump_inbox
bump_inbox-IsBumped mail k = elim (Bool-cases (same_address k maintainer_key)) [
  | inl e ↦
      let q = (same_address_iff k maintainer_key).0 e in
      rw e (record { version = λ _. refl; kept = λ n. absurd (n q); tables = refl })
  | inr e ↦ rw e (record {
    version = λ q. let t = (same_address_iff k maintainer_key).1 q in absurd (ground (arith, e, t));
    kept = λ _. refl;
    tables = refl;
  })
]
