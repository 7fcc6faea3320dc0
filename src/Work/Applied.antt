-- ===== src/Work/Applied.antt =====
-- A successful apply on an item that is there, taken apart into the change of the item, its event
-- and the replay result.
use koinon.Base.{
  ℕ, ◌≡◌, refl, sym, ap, subst, ◌∙◌, Bool, true, false, not, Option, some, List, [], ◌∷◌, ◌++◌,
  GoString, arith, ◌≢◌, ◌⊎◌, str_eq_iff, if◌then◌else◌, ◌==◌, ==_iff, str_eq, inl, inr, Bool-cases,
  ltb, any_row,
}
use koinon.Failure.{
  Result, ok, guard, invalid_request, invalid_transition, stale_claim, incompatible_store,
  revision_conflict, >>=-eq-ok, ok_inj, guard-eq-ok,
}
use koinon.Claims.Rows.{Bundle}
use koinon.Claims.Queries.{bundle_for}
use koinon.Claims.Engine.{owner}
use koinon.Claims.Ownership.{Owns, owner-Owns}
use koinon.Inbox.Rows.{Mail, Outcome, same_address}
use koinon.Inbox.Sending.{send_tx}
use koinon.Work.Rows.{Item, Replay, WorkDb, WorkResult}
use koinon.Work.Requests.{Request, text, int, has, validate, valid_lifecycle}
use koinon.Work.Views.{millis, current, require_native_caller}
use koinon.Work.Events.{Change, event, store_replay, replay_of, is_replay, max_work_result}
use koinon.Work.Apply.{
  Context, admits_op, author_of, check_verdict, check_owner, is_owned, is_foreign, check_revision,
}
use koinon.Work.Closing.{
  apply, apply_to, change_item, change, conclude, notify, notify_handoff, handoff_caller,
  handoff_recipient, is_create, is_renew,
}
use koinon.Work.Recording.{Recorded, event-Recorded}
use koinon.Work.Changes.{next_item}

-- The request with the actor of its claim.
abbrev pub with_actor : Request → GoString → Request
with_actor r actor = record r { actor = actor }

-- The actor of an operation on the item `w`, which has the claim `held` or none: the request's, or
-- for an operation that acts for a claim the native actor that the caller's claim is bound to.
abbrev pub IsActorOn : Context → WorkDb → Request → Item → Option Bundle → GoString → Type 0
IsActorOn x db r w held actor =
    ((is_owned r.op held x.now ≡ false) × (actor ≡ r.actor))
    ⊎ ((is_owned r.op held x.now ≡ true)
        × (b : Bundle) × Owns db.claims x.store w.work_id x.caller.consumer (int r.claim_generation)
            x.now b
        × (b.native_actor ≡ [] → actor ≡ r.actor)
        × (b.native_actor ≢ [] → actor ≡ b.native_actor))

abbrev pub Acted : Context → WorkDb → Request → Item → Option Bundle → Request → Type 0
Acted x db r w held r' =
    (actor : GoString) × (r' ≡ with_actor r actor) × IsActorOn x db r w held actor

pub check_owner-Acted :
    (x : Context) (db : WorkDb) (r r' : Request) (w : Item) (held : Option Bundle)
    → check_owner x db r w held ≡ ok r'
    → Acted x db r w held r'
unfolding check_owner
check_owner-Acted x db r r' w held h = elim (Bool-cases (is_owned r.op held x.now)) [
  | inl e ↦
      let (u, _, h1) =
        >>=-eq-ok (guard (not (is_foreign x held)) stale_claim) _ (rw (e, check_owner) at h) in
      let (t, _, h2) = >>=-eq-ok (guard (has r.claim_generation) invalid_request) _ h1 in
      let (b, found, h3) =
        >>=-eq-ok
          (owner db.claims x.store w.work_id x.caller.consumer (int r.claim_generation) x.now) _
          h2 in
      let (v, _, h4) =
        >>=-eq-ok (guard (b.progress_epoch == w.progress_epoch) incompatible_store) _ h3 in
      let owns =
        owner-Owns db.claims x.store w.work_id x.caller.consumer (int r.claim_generation) x.now b
          found in
      elim (Bool-cases (str_eq b.native_actor [])) [
        | inl f ↦
            let q = (str_eq_iff b.native_actor []).0 f in
            (
              r.actor,
              sym (ok_inj _ _ (rw f at h4)),
              inr (e, b, owns, (λ _. refl), λ n. absurd (n q)),
            )
        | inr f ↦ (
          b.native_actor,
          sym (ok_inj _ _ (rw f at h4)),
          inr (
            e,
            b,
            owns,
            (λ q. let t = (str_eq_iff b.native_actor []).1 q in absurd (ground (arith, f, t))),
            λ _. refl,
          ),
        )
      ]
  | inr e ↦ (r.actor, sym (ok_inj _ _ (rw (e, check_owner) at h)), inl (e, refl))
]

pub validate-lifecycle : (r : Request) → validate r ≡ ok tt → valid_lifecycle r.lifecycle ≡ true
unfolding validate
validate-lifecycle r h = ground arith

-- What the replay result adds: a row of its key, or nothing where the request has none.
pub record Replayed (x : Context) (db db' : WorkDb) (r : Request) (print : GoString)
    (result : WorkResult) : Type 0 where
  pub replays : List Replay
  pub after : db' ≡ record db { replays = replays }
  pub keyed :
      has r.key ≡ true
      → (any_row (is_replay x.store x.caller.consumer (text r.key)) db.replays ≡ false)
        × (replays ≡ db.replays ++ replay_of x.store x.caller r print result ∷ [])

pub store_replay-Replayed :
    (x : Context) (db db' : WorkDb) (r : Request) (print : GoString) (result : WorkResult)
    → store_replay x.codec db x.store x.caller r print result ≡ ok db'
    → Replayed x db db' r print result
unfolding store_replay
store_replay-Replayed x db db' r print result h =
    elim (Bool-cases (ltb max_work_result (x.codec.result_bytes result))) [
      | inl e ↦ let k = rw (e, store_replay) at h in cc
      | inr e ↦ elim (Bool-cases (has r.key)) [
        | inl f ↦
            elim (Bool-cases
              (any_row (is_replay x.store x.caller.consumer (text r.key)) db.replays)) [
                | inl g ↦ let k = rw (e, f, g, store_replay) at h in cc
                | inr g ↦ record {
                  replays = db.replays ++ replay_of x.store x.caller r print result ∷ [];
                  after = sym (ok_inj _ _ (rw (e, f, g, store_replay) at h));
                  keyed = λ _. (g, refl);
                }
              ]
        | inr f ↦ record {
          replays = db.replays;
          after = sym (ok_inj _ _ (rw (e, f, store_replay) at h));
          keyed = λ k. cc;
        }
      ]
    ]

pub notify-mail :
    (x : Context) (db db' : WorkDb) (r : Request) (message : Option ℕ)
    → notify x db r ≡ ok (message, db')
    → (mail : Mail) × (db' ≡ record db { mail = mail })
unfolding notify notify_handoff
notify-mail x db db' r message h = elim (Bool-cases (has r.handoff_to)) [
  | inl e ↦
      let ((o, d), f, h1) = >>=-eq-ok (notify_handoff x db r) _ (rw (e, notify) at h) in
      let (k, _, f1) = >>=-eq-ok (handoff_caller db.mail x.caller) _ f in
      let (to, _, f2) = >>=-eq-ok (handoff_recipient db.mail x.caller r) _ f1 in
      let (u, _, f3) = >>=-eq-ok (guard (not (same_address to k)) invalid_request) _ f2 in
      let ((p, mail), _, f4) =
        >>=-eq-ok
          (send_tx x.process db.mail (millis x.now) k (text r.handoff_to) (x.codec.handoff_body r)
            false)
          _ f3 in
      (
        mail,
        sym (ap (λ (z : Option ℕ × WorkDb). z.1) (ok_inj _ _ h1))
            ∙ sym (ap (λ (z : Outcome × WorkDb). z.1) (ok_inj _ _ f4)),
      )
  | inr e ↦ (db.mail, sym (ap (λ (z : Option ℕ × WorkDb). z.1) (ok_inj _ _ (rw (e, notify) at h))))
]

-- The conclusion of a change: its event, then a notice, then the replay result.
pub record Concluded (x : Context) (db db' : WorkDb) (r : Request) (print : GoString) (ch : Change)
    (result : WorkResult) : Type 0 where
  pub w : Item
  pub d : WorkDb
  pub recorded : Recorded db d x.store x.caller ch x.caller.consumer (author_of r) x.now w
  pub mail : Mail
  pub replayed : Replayed x (record d { mail = mail }) db' r print result
  pub work_id_eq : result.work_id ≡ w.work_id
  pub revision_eq : result.revision ≡ w.revision
  pub seq_eq : result.seq ≡ some w.latest_seq
  pub first_time : result.duplicate ≡ false

pub conclude-Concluded :
    (x : Context) (db db' : WorkDb) (r : Request) (print : GoString) (ch : Change)
    (result : WorkResult)
    → conclude x r print (ch, db) ≡ ok (result, db')
    → Concluded x db db' r print ch result
unfolding conclude
conclude-Concluded x db db' r print ch result h =
    let ((w, d), e, h1) =
      >>=-eq-ok (event x.codec db x.store x.caller ch x.caller.consumer (author_of r) x.now) _ h in
    let ((message, d2), f, h2) = >>=-eq-ok (notify x d r) _ h1 in
    let (d3, g, h3) = >>=-eq-ok (store_replay x.codec d2 x.store x.caller r print _) _ h2 in
    let k = ok_inj _ _ h3 in
    let k0 = ap (λ (z : WorkResult × WorkDb). z.0) k in
    let (mail, q) = notify-mail x d d2 r message f in
    record {
      w = w;
      d = d;
      recorded =
          event-Recorded x.codec db d x.store x.caller ch x.caller.consumer (author_of r) x.now w e;
      mail = mail;
      replayed =
          subst (λ a. Replayed x a db' r print result) q
            (subst (λ (z : WorkResult × WorkDb). Replayed x d2 z.1 r print z.0) k
              (store_replay-Replayed x d2 d3 r print _ g));
      work_id_eq = sym (ap (λ (z : WorkResult). z.work_id) k0);
      revision_eq = sym (ap (λ (z : WorkResult). z.revision) k0);
      seq_eq = sym (ap (λ (z : WorkResult). z.seq) k0);
      first_time = sym (ap (λ (z : WorkResult). z.duplicate) k0);
    }

-- A successful apply on an item that is there.
pub record Applied (x : Context) (db db' : WorkDb) (r : Request) (print : GoString)
    (result : WorkResult) : Type 0 where
  pub before : Item
  pub found : current db x.store (text r.work_id) x.now ≡ ok before
  pub admitted : admits_op r.op before.lifecycle ≡ true
  pub judged : check_verdict x r before ≡ ok tt
  pub actor : GoString
  pub owned :
      check_owner x db r before (bundle_for db.claims x.store before.work_id)
      ≡ ok (with_actor r actor)
  pub fresh : int r.if_revision ≡ before.revision
  pub ch : Change
  pub d : WorkDb
  pub changes : change x db (with_actor r actor) (next_item before) ≡ ok (ch, d)
  pub concluded : Concluded x d db' (with_actor r actor) print ch result

pub then_of : (b : Bool) (p q : Result (WorkResult × WorkDb)) → b ≡ true → (if b then p else q) ≡ p
then_of b p q h = rw h refl

pub else_of : (b : Bool) (p q : Result (WorkResult × WorkDb)) → b ≡ false → (if b then p else q) ≡ q
else_of b p q h = rw h refl

-- the part of apply for an item that is there, other than a renewal
abbrev pub Changes : Context → WorkDb → Request → GoString → WorkResult → WorkDb → Item → Type 0
Changes x db r print result db' w =
    (ch : Change) × (int r.if_revision ≡ w.revision)
    × (d : WorkDb) × (change x db r (next_item w) ≡ ok (ch, d))
    × Concluded x d db' r print ch result

pub change_item-Changes :
    (x : Context) (db db' : WorkDb) (r : Request) (print : GoString) (result : WorkResult)
    (w : Item)
    → change_item x db r w print ≡ ok (result, db')
    → Changes x db r print result db' w
unfolding change_item check_revision
change_item-Changes x db db' r print result w h =
    let (u, e, h1) = >>=-eq-ok (check_revision r w) _ h in
    let (t, f, _) =
      >>=-eq-ok (guard (int r.if_revision == w.revision) (revision_conflict w.revision)) _ e in
    let ((ch, d), g, h2) = >>=-eq-ok (change x db r (next_item w)) _ h1 in
    (
      ch,
      (==_iff (int r.if_revision) w.revision).0 (guard-eq-ok _ _ t f),
      d,
      g,
      conclude-Concluded x d db' r print ch result h2,
    )

pub apply-Applied :
    (x : Context) (db db' : WorkDb) (r : Request) (print : GoString) (result : WorkResult)
    → is_create r.op ≡ false
    → is_renew r.op ≡ false
    → apply x db r print ≡ ok (result, db')
    → Applied x db db' r print result
unfolding apply apply_to
apply-Applied x db db' r print result a b h =
    let (u, _, h1) = >>=-eq-ok (require_native_caller x.codec db.mail x.caller r.actor x.now) _ h in
    let h2 = sym (else_of (is_create r.op) _ _ a) ∙ h1 in
    let (w, e, h3) = >>=-eq-ok (current db x.store (text r.work_id) x.now) _ h2 in
    let (t, f, h4) = >>=-eq-ok (guard (admits_op r.op w.lifecycle) invalid_transition) _ h3 in
    let (v, g, h5) = >>=-eq-ok (check_verdict x r w) _ h4 in
    let (r', o, h6) =
      >>=-eq-ok (check_owner x db r w (bundle_for db.claims x.store w.work_id)) _ h5 in
    let (actor, q, _) = check_owner-Acted x db r r' w _ o in
    let h7 =
      ap (λ z. change_item x db z w print) (sym q) ∙ sym (else_of (is_renew r.op) _ _ b) ∙ h6 in
    let (ch, fresh, d, changes, concluded) =
      change_item-Changes x db db' (with_actor r actor) print result w h7 in
    record {
      before = w;
      found = e;
      admitted = guard-eq-ok _ _ t f;
      judged = g;
      actor = actor;
      owned = o ∙ ap ok q;
      fresh = fresh;
      ch = ch;
      d = d;
      changes = changes;
      concluded = concluded;
    }
