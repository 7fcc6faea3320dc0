-- ===== src/Work/Retries.antt =====
-- A retry of a keyed mutation is answered by what the mutation returned.
use koinon.Base.{
  ◌+◌, ◌≡◌, ◌≢◌, ◌⊎◌, refl, sym, ap, subst, ◌∙◌, Bool, true, false, some, List, [], ◌∷◌, ◌++◌,
  GoString, arith, if◌then◌else◌, first_row, str_eq, str_eq_refl, str_eq_iff, any_row, ltb, leb,
  inl, inr, Bool-cases,
}
use koinon.Failure.{
  ok, err, ◌>>◌, >>=-eq-ok, ok_inj, guard, invalid_transition, idempotency_conflict,
}
use koinon.Claims.Queries.{bundle_for}
use koinon.Claims.Cycles.{store_of}
use koinon.Claims.Engine.{renew}
use koinon.Work.Rows.{Item, WorkDb, WorkResult}
use koinon.Work.Requests.{Request, has, text, int}
use koinon.Work.Views.{current, require_native_caller}
use koinon.Work.Events.{is_replay, replay_of, store_replay}
use koinon.Work.Apply.{Context, create, renew_claim, check_verdict, check_owner, admits_op}
use koinon.Work.Closing.{apply, apply_to, apply_create, change_item, is_create, is_renew}
use koinon.Work.Replaying.{replay, answer, answers, require_participant, op_text}
use koinon.Work.Applied.{
  Replayed, store_replay-Replayed, conclude-Concluded, check_owner-Acted, IsActorOn, with_actor,
  change_item-Changes, else_of, then_of,
}

-- The actor of a mutation in the tables before it: the request's own for the creation of an item,
-- and that of the operation for an item that is there.
abbrev pub IsActor : Context → WorkDb → Request → GoString → Type 0
IsActor x db r actor =
    ((is_create r.op ≡ true) × (actor ≡ r.actor))
    ⊎ ((is_create r.op ≡ false)
        × (w : Item) × (current db x.store (text r.work_id) x.now ≡ ok w)
        × IsActorOn x db r w (bundle_for db.claims x.store w.work_id) actor)

-- The replay result that a mutation stored, with the actor that it was stored for.
Stored : Context → WorkDb → WorkDb → Request → GoString → WorkResult → Type 0
Stored x db db' r print result =
    (actor : GoString) × IsActor x db r actor
    × (d : WorkDb) × Replayed x d db' (with_actor r actor) print result

renew_claim-Replayed :
    (x : Context) (db db' : WorkDb) (r : Request) (w : Item) (print : GoString)
    (result : WorkResult)
    → renew_claim x db r w print ≡ ok (result, db')
    → (d : WorkDb) × (d.items ≡ db.items) × Replayed x d db' r print result
unfolding renew_claim
renew_claim-Replayed x db db' r w print result h =
    let ((l, claims), e, h1) = >>=-eq-ok (renew _ _ _ _ _ _ _ _ _) _ h in
    let (d, f, h2) =
      >>=-eq-ok (store_replay x.codec (record db { claims = claims }) x.store x.caller r print _) _
        h1 in
    (
      record db { claims = claims },
      refl,
      subst
          (λ (z : WorkResult × WorkDb). Replayed x (record db { claims = claims }) z.1 r print z.0)
          (ok_inj _ _ h2) (store_replay-Replayed x (record db { claims = claims }) d r print _ f),
    )

-- the part of apply that follows the checks of an item that is there
abbrev Follows : Context → WorkDb → Request → GoString → WorkResult → WorkDb → Type 0
Follows x db r print result db' =
    (w : Item) × (actor : GoString) × (current db x.store (text r.work_id) x.now ≡ ok w)
    × IsActorOn x db r w (bundle_for db.claims x.store w.work_id) actor
    × ((if is_renew r.op
          then renew_claim x db (with_actor r actor) w print
          else change_item x db (with_actor r actor) w print)
        ≡ ok (result, db'))

apply_to-Follows :
    (x : Context) (db db' : WorkDb) (r : Request) (print : GoString) (result : WorkResult)
    → apply_to x db r print ≡ ok (result, db')
    → Follows x db r print result db'
unfolding apply_to
apply_to-Follows x db db' r print result h =
    let (w, c, h1) = >>=-eq-ok (current db x.store (text r.work_id) x.now) _ h in
    let (t, _, h2) = >>=-eq-ok (guard (admits_op r.op w.lifecycle) invalid_transition) _ h1 in
    let (v, _, h3) = >>=-eq-ok (check_verdict x r w) _ h2 in
    let (r', o, h4) =
      >>=-eq-ok (check_owner x db r w (bundle_for db.claims x.store w.work_id)) _ h3 in
    let (actor, q, a) = check_owner-Acted x db r r' w _ o in
    (
      w,
      actor,
      c,
      a,
      ap (λ z. if is_renew r.op then renew_claim x db z w print else change_item x db z w print)
            (sym q)
          ∙ h4,
    )

-- The operations on an item that is there.
apply-Follows :
    (x : Context) (db db' : WorkDb) (r : Request) (print : GoString) (result : WorkResult)
    → is_create r.op ≡ false
    → apply x db r print ≡ ok (result, db')
    → Follows x db r print result db'
unfolding apply
apply-Follows x db db' r print result a h =
    let (u, _, h1) = >>=-eq-ok (require_native_caller x.codec db.mail x.caller r.actor x.now) _ h in
    apply_to-Follows x db db' r print result (sym (else_of (is_create r.op) _ _ a) ∙ h1)

-- A renewal changes no item.
pub renewed-items :
    (x : Context) (db db' : WorkDb) (r : Request) (print : GoString) (result : WorkResult)
    → is_create r.op ≡ false
    → is_renew r.op ≡ true
    → apply x db r print ≡ ok (result, db')
    → db'.items ≡ db.items
renewed-items x db db' r print result a b h =
    let (w, actor, c, o, k) = apply-Follows x db db' r print result a h in
    let (d, e, p) =
      renew_claim-Replayed x db db' (with_actor r actor) w print result
        (sym (then_of (is_renew r.op) _ _ b) ∙ k) in
    ap (λ (z : WorkDb). z.items) p.after ∙ e

apply-Stored :
    (x : Context) (db db' : WorkDb) (r : Request) (print : GoString) (result : WorkResult)
    → apply x db r print ≡ ok (result, db')
    → Stored x db db' r print result
unfolding apply apply_create Stored
apply-Stored x db db' r print result h = elim (Bool-cases (is_create r.op)) [
  | inl a ↦
      let (u, _, h1) =
        >>=-eq-ok (require_native_caller x.codec db.mail x.caller r.actor x.now) _ h in
      let ((ch, d), _, h2) =
        >>=-eq-ok (create x db r) _ (sym (then_of (is_create r.op) _ _ a) ∙ h1) in
      let c = conclude-Concluded x d db' r print ch result h2 in
      (r.actor, inl (a, refl), record c.d { mail = c.mail }, c.replayed)
  | inr a ↦
      let (w, actor, c, o, k) = apply-Follows x db db' r print result a h in
      let r' = with_actor r actor in
      elim (Bool-cases (is_renew r.op)) [
        | inl b ↦
            let (d, _, p) =
              renew_claim-Replayed x db db' r' w print result
                (sym (then_of (is_renew r.op) _ _ b) ∙ k) in
            (actor, inr (a, w, c, o), d, p)
        | inr b ↦
            let (ch, _, d, _, e) =
              change_item-Changes x db db' r' print result w
                (sym (else_of (is_renew r.op) _ _ b) ∙ k) in
            (actor, inr (a, w, c, o), record e.d { mail = e.mail }, e.replayed)
      ]
]

pub appended-found :
    {A : Type 0} (p : A → Bool) (rows : List A) (a : A)
    → any_row p rows ≡ false
    → p a ≡ true
    → first_row p (rows ++ a ∷ []) ≡ some a
unfolding any_row first_row
appended-found p [] a h t = ground arith
appended-found p (b ∷ rows) a h t = ground (arith, appended-found p rows a)

-- A retry at another time: the same caller and encodings, in the store of its repository, in time.
pub record Retries (x y : Context) (db' : WorkDb) (r s : Request) : Type 0 where
  pub caller : y.caller ≡ x.caller
  pub codec : y.codec ≡ x.codec
  pub store : store_of db'.claims x.caller.repository ≡ x.store
  pub store_named : str_eq x.store [] ≡ false
  pub keyed : has r.key ≡ true
  pub same_key : s.key ≡ r.key
  pub participant : require_participant y db'.mail ≡ ok tt
  pub in_time : ltb y.now (int s.deadline) ≡ true
  pub near : leb (int s.deadline) (y.now + y.limits.idem_ttl) ≡ true

-- the row that the mutation stored answers the retry
answered :
    (x y : Context) (db db' : WorkDb) (r s : Request) (print : GoString) (result : WorkResult)
    → apply x db r print ≡ ok (result, db')
    → Retries x y db' r s
    → (actor : GoString) × IsActor x db r actor
      × (replay y db' s
          ≡ answer y db' s
              (x.codec.fingerprint s x.caller.consumer)
              (some (replay_of x.store x.caller (with_actor r actor) print result)))
unfolding replay Stored is_replay
answered x y db db' r s print result h t =
    let (actor, acts, d, p) = apply-Stored x db db' r print result h in
    let row = replay_of x.store x.caller (with_actor r actor) print result in
    let (fresh, e) = p.keyed t.keyed in
    let mine : is_replay x.store x.caller.consumer (text r.key) row ≡ true =
      rw (is_replay, str_eq_refl x.store, str_eq_refl x.caller.consumer, str_eq_refl (text r.key))
        refl in
    let found : first_row (is_replay x.store x.caller.consumer (text r.key)) db'.replays
        ≡ some row =
      ap (λ (z : WorkDb). first_row (is_replay x.store x.caller.consumer (text r.key)) z.replays)
        p.after
      ∙ ap (first_row (is_replay x.store x.caller.consumer (text r.key))) e
      ∙ appended-found _ d.replays row fresh mine in
    (
      actor,
      acts,
      rw
          (
            replay, t.same_key, t.keyed, t.participant, t.in_time, t.near, t.caller, t.codec,
            t.store, t.store_named, found,
          )
          refl,
    )

-- A retry of a keyed mutation that succeeded, by the same caller and before its deadline, gets what
-- the mutation returned, marked as a duplicate, once the caller check passes for the mutation's
-- actor: the actor of its request, or, for an operation that acts for a claim, the native actor
-- that the caller's live claim was bound to, if any. Nothing is changed, since a replay only reads.
pub replay-apply :
    (x y : Context) (db db' : WorkDb) (r : Request) (result : WorkResult)
    → apply x db r (x.codec.fingerprint r x.caller.consumer) ≡ ok (result, db')
    → Retries x y db' r r
    → (actor : GoString) × IsActor x db r actor
      × (replay y db' r ≡ (
          require_native_caller y.codec db'.mail y.caller actor y.now
          >> ok
              (x.codec.fingerprint r x.caller.consumer, some (record result { duplicate = true }))))
unfolding answer answers str_eq
replay-apply x y db db' r result h t =
    let print = x.codec.fingerprint r x.caller.consumer in
    let (actor, acts, e) = answered x y db db' r r print result h t in
    (actor, acts, e ∙ rw (answer, answers, str_eq_refl print, str_eq_refl (op_text r.op)) refl)

-- A request that reuses the key of a mutation that succeeded, with content of another fingerprint, is
-- refused as a conflict, once the caller check passes for the mutation's actor: the actor of the
-- mutation's request, or, for an operation that acts for a claim, the native actor that the
-- caller's live claim was bound to, if any.
pub replay-conflict :
    (x y : Context) (db db' : WorkDb) (r s : Request) (result : WorkResult)
    → apply x db r (x.codec.fingerprint r x.caller.consumer) ≡ ok (result, db')
    → Retries x y db' r s
    → x.codec.fingerprint r x.caller.consumer ≢ x.codec.fingerprint s x.caller.consumer
    → (actor : GoString) × IsActor x db r actor
      × (replay y db' s ≡ (
          require_native_caller y.codec db'.mail y.caller actor y.now >> err idempotency_conflict))
unfolding answer answers str_eq
replay-conflict x y db db' r s result h t n =
    let (actor, acts, e) = answered x y db db' r s _ result h t in
    let f : str_eq (x.codec.fingerprint r x.caller.consumer)
          (x.codec.fingerprint s x.caller.consumer)
        ≡ false =
      elim (Bool-cases (
        str_eq (x.codec.fingerprint r x.caller.consumer)
          (x.codec.fingerprint s x.caller.consumer))) [
            | inl q ↦ absurd (n ((str_eq_iff _ _).0 q))
            | inr q ↦ q
          ] in
    (actor, acts, e ∙ rw (answer, answers, f) refl)
