-- ===== src/Examples/Sweeps.antt =====
-- An overdue claim is recorded once, and a finished item is removed.
use koinon.Base.{
  ℕ, arith, ◌≡◌, ◌*◌, refl, sym, ap, ◌∙◌, true, false, none, some, List, [], ◌∷◌, GoString, bytes,
  In, inl, inr,
}
use koinon.Failure.{ok}
use koinon.Claims.Rows.{Bundle, StoreRow, second}
use koinon.Claims.Invariant.{IsSound}
use koinon.Work.Rows.{
  Item, Scope, WorkDb, finished, was_finished, due_progress_overdue, completed, View, Entry,
}
use koinon.Work.Reconciled.{reconcile_idempotent}
use koinon.Work.Removed.{Removed, reclaim_finished-Removed}
use koinon.Examples.Works.{context, item, bundle, started_db, reported_view, work}
use koinon.Base.{first_row, update_rows, delete_rows, any_row, select, order_by, insert_by, str_eq}
use koinon.Claims.Cycles.{store_of, of_repository}
use koinon.Claims.Engine.{overdue, update_bundle}
use koinon.Claims.Queries.{
  at_generation, of_item, bundle_for, bundle_resources, resource_of, is_store,
}
use koinon.Work.Events.{
  event, next_head, store_item, checks_outcome, insert_event, row_cost, lifecycle_text, with_seq,
  record_limit, native_actor, is_event, is_entry, is_finished,
}
use koinon.Work.Maintenance.{
  reconcile, settle, settle_expired, settle_overdue, record_due, is_overdue, is_expired, of_event,
  highest_seq, lacks_entry, is_entry_of, lacks_event,
}
use koinon.Work.Reclaiming.{
  reclaim_finished, reclaim_item, oldest, keeps_bounds, is_consistent, remove_item, of_events,
}
use koinon.Work.Requests.{has}
use koinon.Work.Views.{
  current, is_item, has_passed, view, resolved_role, freshness, is_ongoing, of_scope, scopes_of,
  changed_scopes, changed_after, claim_view,
}

abbrev stores : ℕ → ℕ → List StoreRow
stores head floor =
    record {
      store_id = bytes "m1";
      repository = bytes "r1";
      head = head;
      floor = floor;
      work_counter = 1;
      claim_counter = 1;
    }
    ∷ []

abbrev overdue_item : Item
overdue_item = record item { revision = 3; latest_seq = 3 }

abbrev overdue_view : View
overdue_view = record reported_view {
  item = overdue_item;
  observed_at = 70 * second;
  current_claim = some (record {
    consumer = bytes "a";
    generation = 1;
    revision = 1;
    expires_at = 900 * second;
    resources = [];
    native = false;
  });
  lease_valid = true;
  progress_overdue = true;
  progress_unverified = true;
  report = none;
}

abbrev entry : ℕ → GoString → GoString → Entry
entry ts family name = record {
  repository = bytes "r1";
  seq = 3;
  ts = ts;
  target = work;
  author = none;
  family = family;
  name = name;
  consumer = bytes "a";
  revision = 3;
}

abbrev overdue_db : WorkDb
overdue_db = record started_db {
  claims = record started_db.claims {
    bundles = record bundle { overdue_recorded = true; overdue_credit = false } ∷ [];
    memory_stores = stores 3 0;
  };
  items = overdue_item ∷ [];
  events =
      record {
        store = bytes "m1";
        seq = 3;
        work_id = work;
        revision = 3;
        kind = due_progress_overdue;
        payload = overdue_view;
        actor = [];
      }
      ∷ [];
  entries = entry (70 * second) (bytes "daemon") [] ∷ [];
}

recorded_once : reconcile (context (bytes "a") (70 * second)) started_db work ≡ ok overdue_db
unfolding reconcile settle settle_expired settle_overdue record_due is_overdue overdue update_bundle
    at_generation of_item bundle_for bundle_resources resource_of store_of of_repository current
    is_item has_passed event next_head store_item checks_outcome view resolved_role insert_event
    first_row update_rows delete_rows any_row select order_by insert_by is_store row_cost
    lifecycle_text with_seq record_limit native_actor is_event is_entry is_finished has freshness
    is_ongoing of_scope scopes_of changed_scopes changed_after claim_view str_eq reclaim_finished
    reclaim_item oldest is_expired keeps_bounds is_consistent of_event highest_seq lacks_entry
    is_entry_of lacks_event remove_item of_events
recorded_once = refl

one_claim : IsSound started_db.claims (70 * second)
one_claim = record {
  unique = λ b c i j e f. elim i [
    | inl p ↦ elim j [ inl q ↦ p ∙ sym q | inr z ↦ absurd z ]
    | inr z ↦ absurd z
  ];
  bounded = λ b s i j e. elim i [
    | inl p ↦ elim j [ inl q ↦ rw (p, q) (omega arith) | inr z ↦ absurd z ]
    | inr z ↦ absurd z
  ];
  keys_bounded = λ r s i. absurd i;
  exclusive = λ b c r s i j e. elim i [
    | inl p ↦ elim j [
      | inl q ↦ λ l m n o t. ap (λ (z : Bundle). z.generation) (p ∙ sym q)
      | inr z ↦ absurd z
    ]
    | inr z ↦ absurd z
  ];
  funded =
      λ b i. elim i [ inl p ↦ rw p (record { end = refl; overdue = refl }) | inr z ↦ absurd z ];
}

reconcile_idempotent_example :
    reconcile (context (bytes "a") (70 * second)) overdue_db work ≡ ok overdue_db
reconcile_idempotent_example =
    reconcile_idempotent (context (bytes "a") (70 * second)) started_db overdue_db work one_claim
      recorded_once

abbrev finished_item : Item
finished_item = record item {
  revision = 3;
  lifecycle = finished;
  outcome = some completed;
  progress_deadline = none;
  finished_at = some 5;
  expires_at = some 50;
  latest_seq = 3;
}

abbrev scope : Scope
scope = record {
  store = bytes "m1";
  work_id = work;
  revision = 1;
  ts = 1;
  consumer = bytes "a";
  author = none;
  title = bytes "t";
  criteria = bytes "c";
  non_goals = bytes "n";
}

abbrev finished_db : WorkDb
finished_db = record started_db {
  claims = record started_db.claims { bundles = []; memory_stores = stores 4 1 };
  items = finished_item ∷ [];
  scopes = scope ∷ [];
  events =
      record {
        store = bytes "m1";
        seq = 3;
        work_id = work;
        revision = 3;
        kind = was_finished;
        payload = overdue_view;
        actor = [];
      }
      ∷ [];
  entries = entry 5 (bytes "codex") (bytes "a") ∷ [];
}

abbrev removed_db : WorkDb
removed_db = record started_db {
  claims = record started_db.claims { bundles = []; memory_stores = stores 4 3 };
  items = [];
}

removed_once :
    reclaim_finished (context (bytes "a") 60) finished_db (bytes "m1") (some 60)
    ≡ ok (true, removed_db)
unfolding reconcile settle settle_expired settle_overdue record_due is_overdue overdue update_bundle
    at_generation of_item bundle_for bundle_resources resource_of store_of of_repository current
    is_item has_passed event next_head store_item checks_outcome view resolved_role insert_event
    first_row update_rows delete_rows any_row select order_by insert_by is_store row_cost
    lifecycle_text with_seq record_limit native_actor is_event is_entry is_finished has freshness
    is_ongoing of_scope scopes_of changed_scopes changed_after claim_view str_eq reclaim_finished
    reclaim_item oldest is_expired keeps_bounds is_consistent of_event highest_seq lacks_entry
    is_entry_of lacks_event remove_item of_events
removed_once = refl

reclaim_finished-Removed_example :
    (w : Item) × In w finished_db.items
    × (w.store ≡ bytes "m1")
    × (w.lifecycle ≡ finished)
    × ((t : ℕ) → some 60 ≡ some t → has_passed w.expires_at t ≡ true)
    × (bundle_for finished_db.claims w.store w.work_id ≡ none)
    × Removed finished_db removed_db w
reclaim_finished-Removed_example =
    reclaim_finished-Removed (context (bytes "a") 60) finished_db removed_db (bytes "m1") (some 60)
      removed_once
