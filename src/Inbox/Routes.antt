-- ===== src/Inbox/Routes.antt =====
-- Which session a caller and a name lead to (internal/core/messages.go, names.go and
-- participants.go), said of the rows.
use koinon.Base.{
  ℕ, ◌≡◌, ◌≢◌, ◌↔◌, ◌⊎◌, refl, sym, ap, subst, ◌∙◌, inl, inr, Bool, true, false, not, ◌&&◌, ◌||◌,
  some, List, [], ◌∷◌, ◌++◌, arith, GoString, str_eq, str_eq_iff, Bool-cases, Option-cases, In,
  first_row, first_row-In, any_row, any_row_iff, any_row-false, &&-true,
}
use koinon.Failure.{ok, >>=-eq-ok, ok_inj}
use koinon.Claims.Cycles.{participant_prefix}
use koinon.Inbox.Rows.{Address, Session, peer, alias, Name, Mail}
use koinon.Inbox.Callers.{
  is_active, at_address, active_caller, is_alias, named, holds, participant_key, participant_inbox,
  insert_session, ensure_participant_inbox,
}
use koinon.Inbox.Sending.{resolve, resolve_name}
use koinon.Inbox.Invariant.{same_address_iff}
use koinon.Inbox.Facts.{IsActive, is_active_iff, is_alias_cases}
use koinon.Inbox.Acks.{at_address-eq, elsewhere}

pub active_caller-IsActive :
    (mail : Mail) (now : ℕ) (k : Address) (dashboard : Bool)
    → active_caller mail now k dashboard ≡ ok tt
    → (c : Session) × In c mail.sessions × (c.key ≡ k) × IsActive now c
unfolding active_caller
active_caller-IsActive mail now k dashboard h =
    let any : any_row (λ s. at_address k s && is_active now s) mail.sessions ≡ true =
      ground (arith, h) in
    let (c, i, e) = (any_row_iff (λ s. at_address k s && is_active now s) mail.sessions).0 any in
    let (a, b) = &&-true _ _ e in (c, i, at_address-eq k c a, (is_active_iff now c).0 b)

-- The session `id` of the family is an active, launched participant of the repository and role.
abbrev pub IsHolder : Mail → ℕ → GoString → GoString → GoString → GoString → Type 0
IsHolder mail now family id repository role =
    (s : Session) × In s mail.sessions
    × (s.key ≡ record { family = family; id = id })
    × (s.repository ≡ repository)
    × (s.role ≡ role)
    × (s.subagent ≡ false)
    × (s.launched ≡ true)
    × IsActive now s

pub holds_iff :
    (mail : Mail) (now : ℕ) (family id repository role : GoString)
    → (holds mail now family id repository role ≡ true)
      ↔ IsHolder mail now family id repository role
unfolding holds
holds_iff mail now family id repository role = (
  λ h.
      let (s, i, e) = (any_row_iff _ mail.sessions).0 h in
      let (a, t) = &&-true _ _ e in
      (
        s,
        i,
        at_address-eq _ s a,
        ground (arith, t, str_eq_iff s.repository repository),
        ground (arith, t, str_eq_iff s.role role),
        ground (arith, t),
        ground (arith, t),
        (is_active_iff now s).0 (ground (arith, t)),
      ),
  λ (s, i, k, r, o, g, l, a).
      (any_row_iff _ mail.sessions).1 (s, i, met s k r o g l ((is_active_iff now s).1 a)),
)
  where
    met :
        (s : Session)
        → s.key ≡ record { family = family; id = id }
        → s.repository ≡ repository
        → s.role ≡ role
        → s.subagent ≡ false
        → s.launched ≡ true
        → is_active now s ≡ true
        → (at_address (record { family = family; id = id }) s
            && (str_eq s.repository repository
                && (str_eq s.role role && (not s.subagent && (is_active now s && s.launched)))))
          ≡ true
    met s k r o g l a =
        let t = (same_address_iff s.key (record { family = family; id = id })).1 k in
        let b = (str_eq_iff s.repository repository).1 r in
        let c = (str_eq_iff s.role role).1 o in
        unfold at_address in ground (arith, t, b, c, g, l, a)

-- The inbox `k` is among the sessions `before`, or `after` has a new row of it at the end, for the
-- participant of an alias's row, with no message yet.
abbrev pub IsOpened : List Session → List Session → Address → Name → Type 0
IsOpened before after k n =
    ((after ≡ before) × ((s : Session) × In s before × (s.key ≡ k)))
    ⊎ (((s : Session) → In s before → s.key ≢ k)
        × (s : Session) × (after ≡ before ++ s ∷ [])
        × (s.key ≡ k)
        × (s.repository ≡ n.repository)
        × (s.role ≡ n.role)
        × (s.last_seq ≡ 0)
        × (s.acked_through ≡ 0)
        × (s.read_through ≡ 0))

-- A name leads to the session of its peer row, or, for an alias that a live participant holds, to
-- the alias's own inbox. `inboxes` are the sessions with that inbox.
abbrev pub IsRouted : Mail → ℕ → GoString → Address → List Session → Type 0
IsRouted mail now to k inboxes =
    (n : Name) × In n mail.names
    × (n.name ≡ to)
    × (((n.kind ≡ peer)
          × (k ≡ record { family = n.family; id = n.session_id })
          × (inboxes ≡ mail.sessions))
        ⊎ ((n.kind ≡ alias)
            × (n.holder_id ≢ [])
            × IsHolder mail now n.family n.holder_id n.repository n.role
            × (k ≡ record { family = n.family; id = participant_prefix ++ to })
            × IsOpened mail.sessions inboxes k n))

-- The first row of a condition that meets another one is the first row of both.
first_row-both :
    {A : Type 0} (p q : A → Bool) (a : A) (rows : List A)
    → first_row p rows ≡ some a
    → q a ≡ true
    → first_row (λ b. p b && q b) rows ≡ some a
unfolding first_row
first_row-both p q a [] h t = cc h
first_row-both p q a (b ∷ rows) h t = ground (arith, h, t, first_row-both p q a rows)

abbrev Opened : Mail → Name → GoString → Mail → Type 0
Opened mail n to mail' =
    (inboxes : List Session) × (mail' ≡ record mail { sessions = inboxes })
    × IsOpened mail.sessions inboxes (record { family = n.family; id = participant_prefix ++ to }) n

insert_session-Opened :
    (mail : Mail) (n : Name) (to : GoString)
    → Opened mail n to (insert_session mail (participant_inbox n.family to n.repository n.role))
unfolding insert_session participant_inbox participant_key
insert_session-Opened mail n to =
    let k : Address = record { family = n.family; id = participant_prefix ++ to } in
    elim (Bool-cases (any_row (at_address k) mail.sessions)) [
      | inl e ↦
          let (s, i, a) = (any_row_iff (at_address k) mail.sessions).0 e in
          rw e (mail.sessions, refl, inl (refl, (s, i, at_address-eq k s a)))
      | inr e ↦ rw e (
        mail.sessions ++ participant_inbox n.family to n.repository n.role ∷ [],
        refl,
        inr (
          λ s i q. elsewhere k s (any_row-false (at_address k) s mail.sessions e i) q,
          participant_inbox n.family to n.repository n.role,
          refl,
          refl,
          refl,
          refl,
          refl,
          refl,
          refl,
        ),
      )
    ]

ensure-Opened :
    (mail : Mail) (n : Name) (to : GoString) (mail' : Mail)
    → first_row (named to) mail.names ≡ some n
    → is_alias n ≡ true
    → ensure_participant_inbox mail to ≡ ok mail'
    → Opened mail n to mail'
unfolding ensure_participant_inbox
ensure-Opened mail n to mail' e a h =
    let f : first_row (λ m. named to m && is_alias m) mail.names ≡ some n =
      first_row-both (named to) is_alias n mail.names e a in
    let w = rw (f, ensure_participant_inbox) at h in
    subst (Opened mail n to) (ok_inj _ _ w) (insert_session-Opened mail n to)

resolve_name-IsRouted :
    (mail : Mail) (now : ℕ) (to : GoString) (n : Name) (k : Address) (mail' : Mail)
    → In n mail.names
    → n.name ≡ to
    → first_row (named to) mail.names ≡ some n
    → resolve_name mail now to n ≡ ok (k, mail')
    → (inboxes : List Session) × (mail' ≡ record mail { sessions = inboxes })
      × IsRouted mail now to k inboxes
unfolding resolve_name participant_key
resolve_name-IsRouted mail now to n k mail' i t e h = elim (is_alias_cases n) [
  | inl (p, a) ↦
      let q = ok_inj _ _ (rw (a, resolve_name) at h) in
      (
        mail.sessions,
        sym (ap (λ (z : Address × Mail). z.1) q),
        (n, i, t, inl (p, sym (ap (λ (z : Address × Mail). z.0) q), refl)),
      )
  | inr (p, a) ↦
      elim (Bool-cases
        (str_eq n.holder_id [] || not (holds mail now n.family n.holder_id n.repository n.role))) [
          | inl b ↦ let w = rw (a, b, resolve_name) at h in cc w
          | inr b ↦
              let (m, c, d) =
                >>=-eq-ok (ensure_participant_inbox mail to) _ (rw (a, b, resolve_name) at h) in
              let q = ok_inj _ _ d in
              let (inboxes, g, o) = ensure-Opened mail n to m e a c in
              let k_eq = sym (ap (λ (z : Address × Mail). z.0) q) in
              (
                inboxes,
                sym (ap (λ (z : Address × Mail). z.1) q) ∙ g,
                (
                  n,
                  i,
                  t,
                  inr (
                    p,
                    ground (arith, b, str_eq_iff n.holder_id []),
                    (holds_iff mail now n.family n.holder_id n.repository n.role).0
                        (ground (arith, b)),
                    k_eq,
                    subst (λ j. IsOpened mail.sessions inboxes j n) (sym k_eq) o,
                  ),
                ),
              )
        ]
]

pub resolve-IsRouted :
    (mail : Mail) (now : ℕ) (to : GoString) (k : Address) (mail' : Mail)
    → resolve mail now to ≡ ok (k, mail')
    → (inboxes : List Session) × (mail' ≡ record mail { sessions = inboxes })
      × IsRouted mail now to k inboxes
unfolding resolve named
resolve-IsRouted mail now to k mail' h = elim (Option-cases (first_row (named to) mail.names)) [
  | inl e ↦ let w = rw (e, resolve) at h in cc w
  | inr (n, e) ↦
      let (i, q) = first_row-In (named to) n mail.names e in
      let t : n.name ≡ to = (str_eq_iff n.name to).0 q in
      resolve_name-IsRouted mail now to n k mail' i t e (rw (e, resolve) at h)
]
