-- ===== src/Inbox/Senders.antt =====
-- The name that a caller sends as (internal/core/messages.go and names.go), said of the rows.
use koinon.Base.{
  ℕ, ◌≡◌, ◌≢◌, ◌↔◌, ◌⊎◌, refl, sym, ap, ◌∙◌, inl, inr, true, false, Option, none, some, List, [],
  ◌∷◌, arith, GoString, str_eq, str_eq_iff, Bool-cases, Option-cases, In, In-select, select-In,
  select, has_prefix,
}
use koinon.Failure.{ok, err, no_rows, ok_inj}
use koinon.Claims.Cycles.{participant_prefix}
use koinon.Inbox.Rows.{Address, alias, Name, Mail}
use koinon.Inbox.Callers.{
  holds_name, str_lt, least_of, least_name, held_address, peer_name, is_participant_id,
}
use koinon.Inbox.Sending.{sender_name, receiver_name}
use koinon.Inbox.Facts.{is_alias_cases, IsPeerName, peer_name-some}
use koinon.Inbox.Routes.{IsHolder, holds_iff}

-- The alias's row is held by the caller, who is a live participant.
abbrev pub IsHeldBy : Mail → ℕ → Address → Name → Type 0
IsHeldBy mail now k n =
    (n.kind ≡ alias)
    × (n.family ≡ k.family)
    × (n.holder_id ≡ k.id)
    × IsHolder mail now n.family n.holder_id n.repository n.role

-- The name of an alias that the caller holds; or the caller's peer name, where it holds no alias
-- with a name.
abbrev pub IsSenderName : Mail → ℕ → Address → GoString → Type 0
IsSenderName mail now k name =
    ((name ≢ []) × (n : Name) × In n mail.names × IsHeldBy mail now k n × (n.name ≡ name))
    ⊎ (IsPeerName mail k name
        × (((n : Name) → In n mail.names → ¬ IsHeldBy mail now k n)
            ⊎ ((n : Name) × In n mail.names × IsHeldBy mail now k n × (n.name ≡ []))))

holds_name_iff :
    (mail : Mail) (now : ℕ) (k : Address) (n : Name)
    → (holds_name mail now k n ≡ true) ↔ IsHeldBy mail now k n
unfolding holds_name
holds_name_iff mail now k n =
    let (f, g) = holds_iff mail now n.family n.holder_id n.repository n.role in
    elim (is_alias_cases n) [
      | inl (p, a) ↦ (λ h. absurd (ground (arith, h, a)), λ q. let z = q.0 in cc (p, z))
      | inr (p, a) ↦ (
        λ h. (
          p,
          ground (arith, h, str_eq_iff n.family k.family),
          ground (arith, h, str_eq_iff n.holder_id k.id),
          f (ground (arith, h)),
        ),
        λ (z, x, y, t).
            let u = g t in
            let b = (str_eq_iff n.family k.family).1 x in
            let c = (str_eq_iff n.holder_id k.id).1 y in ground (arith, a, u, b, c),
      )
    ]

least_name-In :
    (rows : List Name) (a : GoString)
    → least_name rows ≡ some a
    → (n : Name) × In n rows × (n.name ≡ a)
unfolding least_name least_of
least_name-In [] a h = cc h
least_name-In (n ∷ rows) a h = by_rest (least_name-In rows a) (least_name rows) refl
  where
    by_rest :
        (least_name rows ≡ some a → (m : Name) × In m rows × (m.name ≡ a))
        → (o : Option GoString) → least_name rows ≡ o
        → (m : Name) × In m (n ∷ rows) × (m.name ≡ a)
    by_rest ih none e = let w = rw e at h in (n, inl refl, ground (arith, w))
    by_rest ih (some b) e =
        let w = rw e at h in
        elim (Bool-cases (str_lt b n.name)) [
          | inl t ↦ let v = rw t at w in let (m, i, q) = ih (e ∙ v) in (m, inr i, q)
          | inr t ↦ let v = rw t at w in (n, inl refl, ground (arith, v))
        ]

least_name-none : (rows : List Name) (n : Name) → least_name rows ≡ none → ¬ In n rows
unfolding least_name least_of
least_name-none [] n h i = i
least_name-none (m ∷ rows) n h i = elim (Option-cases (least_name rows)) [
  | inl e ↦ let w = rw e at h in cc w
  | inr (b, e) ↦ elim (Bool-cases (str_lt b m.name)) [
    | inl t ↦ let w = rw (e, t) at h in cc w
    | inr t ↦ let w = rw (e, t) at h in cc w
  ]
]

pub sender_name-IsSenderName :
    (mail : Mail) (now : ℕ) (k : Address) (name : GoString)
    → sender_name mail now k ≡ ok name
    → IsSenderName mail now k name
unfolding sender_name held_address str_eq
sender_name-IsSenderName mail now k name h =
    elim (Option-cases (least_name (select (holds_name mail now k) mail.names))) [
      | inl e ↦ peer_of_caller (rw (sender_name, held_address, e) at h) (
          inl (λ n i p.
            least_name-none _ n e (select-In _ n mail.names i ((holds_name_iff mail now k n).1 p))))
      | inr (a, e) ↦
          let (n, i, q) = least_name-In _ a e in
          let (j, p) = In-select _ n mail.names i in
          let held = (holds_name_iff mail now k n).0 p in
          elim (Bool-cases (str_eq a [])) [
            | inl t ↦
                let z : a ≡ [] = (str_eq_iff a []).0 t in
                peer_of_caller (rw (sender_name, held_address, e, t) at h) (inr (n, j, held, q ∙ z))
            | inr t ↦
                let v = ok_inj _ _ (rw (sender_name, held_address, e, t) at h) in
                inl (named_so a t v, n, j, held, q ∙ v)
          ]
    ]
  where
    named_so : (a : GoString) → str_eq a [] ≡ false → a ≡ name → name ≢ []
    named_so a t v z = let u = (str_eq_iff a []).1 (v ∙ z) in absurd (ground (arith, t, u))

    peer_of_caller :
        elim (peer_name mail k) [ none ↦ err no_rows | some n ↦ ok n ] ≡ ok name
        → ((n : Name) → In n mail.names → ¬ IsHeldBy mail now k n)
          ⊎ ((n : Name) × In n mail.names × IsHeldBy mail now k n × (n.name ≡ []))
        → IsSenderName mail now k name
    peer_of_caller g c = elim (Option-cases (peer_name mail k)) [
      | inl e ↦ let w = rw e at g in cc w
      | inr (n, e) ↦
          let w = rw e at g in inr (peer_name-some mail k name (e ∙ ap some (ok_inj _ _ w)), c)
    ]

-- The name of the receiver is the name sent to for an alias's inbox, and the session's peer name
-- for another.
pub receiver_name-cases :
    (mail : Mail) (k : Address) (to name : GoString)
    → receiver_name mail k to ≡ ok name
    → (has_prefix k.id participant_prefix ≡ true → name ≡ to)
      × (has_prefix k.id participant_prefix ≡ false → IsPeerName mail k name)
unfolding receiver_name is_participant_id
receiver_name-cases mail k to name h = (
  λ t. sym (ok_inj _ _ (rw t at h)),
  λ f. elim (Option-cases (peer_name mail k)) [
    | inl e ↦ let w = rw (f, e) at h in cc w
    | inr (n, e) ↦ let w = rw (f, e) at h in peer_name-some mail k name (e ∙ ap some (ok_inj _ _ w))
  ],
)
