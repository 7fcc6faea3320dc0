-- ===== src/Examples/Works.antt =====
-- An item is worked on, reported, and judged by its reporter and by another.
use koinon.Base.{
  ℕ, arith, ◌≡◌, ◌≢◌, ◌+◌, ◌*◌, refl, true, false, none, some, [], ◌∷◌, ◌++◌, GoString, bytes,
  length, inl, inr,
}
use koinon.Failure.{ok, err, own_report, idempotency_conflict, ◌>>◌}
use koinon.Claims.Rows.{Bundle, second}
use koinon.Inbox.Rows.{Mail}
use koinon.Inbox.Callers.{gone}
use koinon.Work.Rows.{
  active, reported, was_reported, Item, Event, Entry, View, WorkDb, WorkResult, Op, work_report,
  work_accept, Caller,
}
use koinon.Work.Requests.{Request, absent, text, validate}
use koinon.Work.Views.{Codec}
use koinon.Base.{str_eq, has_prefix, contains_byte}
use koinon.Base.{first_row, update_rows, any_row, select, order_by, insert_by}
use koinon.Claims.Cycles.{valid_key, is_supported, native_work_actor}
use koinon.Claims.Engine.{release, owner, owned_by, end_claim, update_bundle}
use koinon.Claims.Queries.{at_generation, of_item, bundle_for, is_store}
use koinon.Resource.{check_text, check_work_id, claim_bundle, collect, check_resource, check_parts}
use koinon.Utf8.{
  runes, decode, lead, pending, start, continue, emit, valid_string, has_control, any_control,
  is_control,
}
use koinon.Work.Apply.{
  Context, is_reported, check_owner, is_owned, is_foreign, check_verdict, check_revision, admits_op,
  is_propose_op, same_seq, head_of,
}
use koinon.Resource.{trim, trim_left}
use koinon.Work.Stages.{stage_of, Step}
use koinon.Work.Lifecycles.{apply-Step, apply-logged, apply-own_report}
use koinon.Work.Retries.{Retries, IsActor, replay-apply, replay-conflict}
use koinon.Work.Replaying.{replay, require_participant}
use koinon.Work.Verdicts.{apply-IsWithin}
use koinon.Work.Credits.{IsWithin}
use koinon.Inbox.Callers.{is_participant_id}
use koinon.Claims.Cycles.{of_repository}
use koinon.Claims.Cycles
use koinon.Work.Closing.{
  apply, apply_to, change_item, report, change, reserve_verdict, participant_role, conclude, notify,
  is_create, is_renew, result_claim, bundle_result,
}
use koinon.Work.Events.{
  event, next_head, store_item, checks_outcome, insert_event, store_replay, row_cost,
  lifecycle_text, with_seq, record_limit, native_actor, is_event, is_entry, is_replay, is_finished,
}
use koinon.Work.Requests.{
  work_verdict, has, validate, sent, is_propose, has_required, check_name, check_work_ids, is_zero,
  check_limits, check_limit, nonempty, is_blank, all_spaces, is_space, sent_blank, outside_lease,
  check_resources, check_handoff, has_evidence, is_nil, is_report, valid_lifecycle, is_update,
  is_blocked,
}
use koinon.Work.Views.{
  view, resolved_role, is_item, current, has_passed, require_native_caller, is_maintainer,
  native_actor_of, freshness, is_ongoing, of_scope, scopes_of, changed_scopes, changed_after,
  differs, is_after, claim_view, require_verdict_caller, same_option,
}

abbrev pub codec : Codec
codec = record {
  digest = λ family id. family ++ id;
  fingerprint = λ r consumer. consumer ++ text r.summary;
  references_bytes = λ l. length l;
  role_bytes = λ r. 0;
  scope_bytes = λ s. 10;
  view_bytes = λ v. 100;
  result_bytes = λ r. 100;
  handoff_body = λ r. [];
}

abbrev pub work : GoString
work = bytes "0123456789abcdef0123456789abcdef"

abbrev pub caller : GoString → Caller
caller consumer = record {
  repository = bytes "r1";
  family = bytes "codex";
  name = consumer;
  consumer = consumer;
  native = record { family = []; id = [] };
  consumer_explicit = true;
}

abbrev pub context : GoString → ℕ → Context
context consumer now = record {
  codec = codec;
  limits = record {
    work_events = 2_048;
    work_items = 128;
    work_scopes_per_item = 64;
    idem_ttl = 86_400 * second;
  };
  process = λ pid. gone;
  caller = caller consumer;
  store = bytes "m1";
  now = now;
}

abbrev pub item : Item
item = record {
  store = bytes "m1";
  work_id = work;
  revision = 2;
  lifecycle = active;
  title = bytes "t";
  criteria = bytes "c";
  non_goals = bytes "n";
  proposed_assignee = none;
  proposed_role = none;
  created_at = 1;
  created_consumer = bytes "a";
  first_start_revision = some 2;
  scope_revision = 1;
  progress_epoch = 1;
  last_progress_at = some 2;
  progress_deadline = some (60 * second);
  progress = [];
  checkpoint = bytes "p";
  next_artifact = bytes "q";
  blocker = [];
  last_writer = some (bytes "a");
  last_generation = some 1;
  last_lease_expires = some (900 * second);
  lease_expired = false;
  outcome = none;
  reason = [];
  references = [];
  finished_at = none;
  expires_at = none;
  latest_seq = 2;
  report_seq = none;
  report_consumer = none;
  verdict = none;
  verdict_seq = none;
  report_actor = [];
  verdict_credit = false;
}

abbrev pub bundle : Bundle
bundle = record {
  store = bytes "m1";
  generation = 1;
  work_id = work;
  consumer = bytes "a";
  native_actor = [];
  revision = 1;
  issued_at = 2;
  renewed_at = 2;
  expires_at = 900 * second;
  progress_epoch = 1;
  overdue_recorded = false;
  active = true;
  overdue_credit = true;
  end_credit = true;
}

abbrev pub mail : Mail
mail = record { sessions = []; names = []; messages = []; issued = 0; inbox_version = 0 }

abbrev pub started_db : WorkDb
started_db = record {
  claims = record {
    bundles = bundle ∷ [];
    claim_resources = [];
    memory_stores =
        record {
          store_id = bytes "m1";
          repository = bytes "r1";
          head = 2;
          floor = 0;
          work_counter = 1;
          claim_counter = 1;
        }
        ∷ [];
    context_cycles = [];
    sessions = [];
  };
  mail = mail;
  items = item ∷ [];
  scopes = [];
  events = [];
  entries = [];
  replays = [];
}

abbrev pub request : Op → Request
request op = record {
  op = op;
  work_id = some work;
  if_revision = some 2;
  claim_generation = some 1;
  if_claim_revision = none;
  report_seq = none;
  lease_seconds = none;
  renew_for = none;
  progress_deadline = none;
  deadline = some (100 * second);
  key = some (bytes "k");
  author = absent;
  proposed_assignee = absent;
  proposed_role = absent;
  title = none;
  criteria = none;
  non_goals = none;
  progress = none;
  checkpoint = none;
  next_artifact = none;
  blocker = none;
  reason = none;
  summary = some (bytes "done");
  outcome = none;
  lifecycle = none;
  handoff_to = none;
  checkout_resource = none;
  references = some (bytes "x" ∷ []);
  resources = none;
  actor = [];
}

abbrev pub reported_item : Item
reported_item = record item {
  revision = 3;
  lifecycle = reported;
  progress_deadline = none;
  references = bytes "x" ∷ [];
  latest_seq = 3;
  report_seq = some 3;
  report_consumer = some (bytes "a");
  verdict_credit = true;
}

abbrev pub reported_view : View
reported_view = record {
  item = reported_item;
  observed_at = 10;
  observed_lease_expires = some (900 * second);
  current_claim = none;
  lease_valid = false;
  progress_overdue = false;
  progress_unverified = false;
  lease_reason = false;
  scope_revisions = [];
  criteria_changed_after_start = false;
  role_resolution = none;
  report = some (record {
    summary = bytes "done";
    scope_revision = 1;
    claim_generation = 1;
    participant_role = none;
  });
  verdict_report_seq = none;
}

abbrev pub reply : WorkResult
reply = record {
  work_id = work;
  revision = 3;
  seq = some 3;
  duplicate = false;
  claim = none;
  message = none;
}

abbrev pub reported_db : WorkDb
reported_db = record {
  claims = record {
    bundles = record bundle { active = false; overdue_credit = false; end_credit = false } ∷ [];
    claim_resources = [];
    memory_stores =
        record {
          store_id = bytes "m1";
          repository = bytes "r1";
          head = 3;
          floor = 0;
          work_counter = 1;
          claim_counter = 1;
        }
        ∷ [];
    context_cycles = [];
    sessions = [];
  };
  mail = mail;
  items = reported_item ∷ [];
  scopes = [];
  events =
      record {
        store = bytes "m1";
        seq = 3;
        work_id = work;
        revision = 3;
        kind = was_reported;
        payload = reported_view;
        actor = [];
      }
      ∷ [];
  entries =
      record {
        repository = bytes "r1";
        seq = 3;
        ts = 10;
        target = work;
        author = none;
        family = bytes "codex";
        name = bytes "a";
        consumer = bytes "a";
        revision = 3;
      }
      ∷ [];
  replays =
      record {
        store = bytes "m1";
        consumer = bytes "a";
        key = bytes "k";
        operation = work_report;
        scheme = bytes "go1";
        fingerprint = bytes "adone";
        deadline = 100 * second;
        result = reply;
        native_actor = [];
      }
      ∷ [];
}

reported_once :
    apply (context (bytes "a") 10) started_db (request work_report) (bytes "adone")
    ≡ ok (reply, reported_db)
unfolding apply apply_to check_owner is_owned is_foreign check_verdict check_revision change
    change_item report reserve_verdict participant_role conclude event next_head store_item
    checks_outcome view resolved_role insert_event notify store_replay release owner owned_by
    end_claim update_bundle at_generation of_item bundle_for first_row update_rows any_row select
    is_item current has_passed admits_op is_propose_op work_verdict same_seq require_native_caller
    is_maintainer native_actor_of is_create is_renew has is_store head_of row_cost lifecycle_text
    with_seq record_limit native_actor is_event is_entry is_replay is_finished freshness is_ongoing
    of_scope scopes_of order_by insert_by changed_scopes changed_after differs is_after claim_view
    result_claim bundle_result str_eq valid_key is_supported has_prefix contains_byte validate sent
    is_propose has_required check_name check_work_ids is_zero check_limits check_limit nonempty
    is_blank all_spaces is_space sent_blank outside_lease check_resources check_handoff has_evidence
    is_nil is_report valid_lifecycle is_update is_blocked runes decode lead pending start continue
    emit valid_string has_control any_control is_control check_text check_work_id claim_bundle
    collect check_resource check_parts native_work_actor require_verdict_caller same_option
reported_once = refl

pub report_valid : validate (request work_report) ≡ ok tt
unfolding apply apply_to check_owner is_owned is_foreign check_verdict check_revision change
    change_item report reserve_verdict participant_role conclude event next_head store_item
    checks_outcome view resolved_role insert_event notify store_replay release owner owned_by
    end_claim update_bundle at_generation of_item bundle_for first_row update_rows any_row select
    is_item current has_passed admits_op is_propose_op work_verdict same_seq require_native_caller
    is_maintainer native_actor_of is_create is_renew has is_store head_of row_cost lifecycle_text
    with_seq record_limit native_actor is_event is_entry is_replay is_finished freshness is_ongoing
    of_scope scopes_of order_by insert_by changed_scopes changed_after differs is_after claim_view
    result_claim bundle_result str_eq valid_key is_supported has_prefix contains_byte validate sent
    is_propose has_required check_name check_work_ids is_zero check_limits check_limit nonempty
    is_blank all_spaces is_space sent_blank outside_lease check_resources check_handoff has_evidence
    is_nil is_report valid_lifecycle is_update is_blocked runes decode lead pending start continue
    emit valid_string has_control any_control is_control check_text check_work_id claim_bundle
    collect check_resource check_parts native_work_actor require_verdict_caller same_option trim
    trim_left
report_valid = refl

not_create : is_create work_report ≡ false
unfolding is_create
not_create = refl

not_renew : is_renew work_report ≡ false
unfolding is_renew
not_renew = refl

apply-Step_example :
    (before : Item) × (after : Item) × (current started_db (bytes "m1") work 10 ≡ ok before)
    × (2 ≡ before.revision)
    × (first_row (is_item (bytes "m1") work) reported_db.items ≡ some after)
    × Step work_report (stage_of before) (stage_of after)
apply-Step_example =
    apply-Step (context (bytes "a") 10) started_db reported_db (request work_report) (bytes "adone")
      reply report_valid not_create not_renew reported_once

apply-logged_example :
    (head : ℕ) × (after : Item) × (event : Event) × (entry : Entry) × (head_of started_db
        (bytes "m1")
      ≡ ok head)
    × (head_of reported_db (bytes "m1") ≡ ok (head + 1))
    × (first_row (is_item (bytes "m1") work) reported_db.items ≡ some after)
    × (after.latest_seq ≡ head + 1)
    × (reported_db.events ≡ [] ++ event ∷ [])
    × (event.seq ≡ head + 1)
    × (event.revision ≡ after.revision)
    × (event.payload.item ≡ after)
    × (reported_db.entries ≡ [] ++ entry ∷ [])
    × (entry.seq ≡ head + 1)
    × (entry.revision ≡ after.revision)
    × (some 3 ≡ some (head + 1))
    × (3 ≡ after.revision)
apply-logged_example =
    apply-logged (context (bytes "a") 10) started_db reported_db (request work_report)
      (bytes "adone") reply report_valid not_create not_renew reported_once

caller_passes : require_native_caller codec mail (caller (bytes "a")) [] 20 ≡ ok tt
unfolding require_native_caller str_eq
caller_passes = refl

accept_is_verdict : work_verdict work_accept ≡ true
unfolding work_verdict
accept_is_verdict = refl

apply-own_report_example :
    apply (context (bytes "a") 20) reported_db (request work_accept) (bytes "p") ≡ err own_report
apply-own_report_example =
    apply-own_report (context (bytes "a") 10) (context (bytes "a") 20) started_db reported_db
      (request work_report) (request work_accept) (bytes "adone") (bytes "p") reply report_valid
      refl reported_once refl refl refl accept_is_verdict caller_passes

abbrev Again : Request → Context → Type 0
Again s y = Retries (context (bytes "a") 10) y reported_db (request work_report) s

retried : Again (request work_report) (context (bytes "a") 20)
unfolding Cycles.store_of of_repository first_row str_eq has require_participant is_participant_id
    has_prefix
retried = record {
  caller = refl;
  codec = refl;
  store = refl;
  store_named = refl;
  keyed = refl;
  same_key = refl;
  participant = refl;
  in_time = refl;
  near = refl;
}

replay-apply_example :
    (actor : GoString) × IsActor (context (bytes "a") 10) started_db (request work_report) actor
    × (replay (context (bytes "a") 20) reported_db (request work_report) ≡ (
        require_native_caller codec mail (caller (bytes "a")) actor 20
        >> ok (bytes "adone", some (record reply { duplicate = true }))))
replay-apply_example =
    replay-apply (context (bytes "a") 10) (context (bytes "a") 20) started_db reported_db
      (request work_report) reply reported_once retried

abbrev other_request : Request
other_request = record (request work_report) { summary = some (bytes "done!") }

retried_otherwise : Again other_request (context (bytes "a") 20)
unfolding Cycles.store_of of_repository first_row str_eq has require_participant is_participant_id
    has_prefix
retried_otherwise = record {
  caller = refl;
  codec = refl;
  store = refl;
  store_named = refl;
  keyed = refl;
  same_key = refl;
  participant = refl;
  in_time = refl;
  near = refl;
}

fingerprints_differ : bytes "adone" ≢ bytes "adone!"
fingerprints_differ e = cc

replay-conflict_example :
    (actor : GoString) × IsActor (context (bytes "a") 10) started_db (request work_report) actor
    × (replay (context (bytes "a") 20) reported_db other_request ≡ (
        require_native_caller codec mail (caller (bytes "a")) actor 20 >> err idempotency_conflict))
replay-conflict_example =
    replay-conflict (context (bytes "a") 10) (context (bytes "a") 20) started_db reported_db
      (request work_report) other_request reply reported_once retried_otherwise fingerprints_differ

one_item : IsWithin (item ∷ [])
unfolding select is_reported
one_item = record {
  keys = ((λ i. i), tt);
  credited = λ w i. elim i [ inl e ↦ rw e refl | inr z ↦ absurd z ];
  store = λ s. ground arith;
  daemon = ground arith;
}

apply-IsWithin_example : IsWithin (reported_item ∷ [])
apply-IsWithin_example =
    apply-IsWithin (context (bytes "a") 10) started_db reported_db (request work_report)
      (bytes "adone") reply report_valid one_item reported_once
