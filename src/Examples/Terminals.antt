-- ===== src/Examples/Terminals.antt =====
-- A report of one item leaves a finished one as it is.
use koinon.Base.{
  str_eq_iff, ap, In, arith, ◌≡◌, ◌*◌, refl, some, [], ◌∷◌, GoString, bytes, inl, inr,
}
use koinon.Failure.{ok}
use koinon.Claims.Rows.{second}
use koinon.Work.Rows.{Item, WorkDb, work_report}
use koinon.Work.Requests.{validate}
use koinon.Base.{str_eq, has_prefix, contains_byte}
use koinon.Base.{first_row, update_rows, any_row, select, order_by, insert_by}
use koinon.Claims.Cycles.{valid_key, is_supported, native_work_actor}
use koinon.Claims.Engine.{release, owner, owned_by, end_claim, update_bundle}
use koinon.Claims.Queries.{at_generation, of_item, bundle_for, is_store}
use koinon.Resource.{check_text, check_work_id, claim_bundle, collect, check_resource, check_parts}
use koinon.Utf8.{
  runes, decode, lead, pending, start, continue, emit, valid_string, has_control, any_control,
  is_control,
}
use koinon.Work.Apply.{
  is_reported, check_owner, is_owned, is_foreign, check_verdict, check_revision, admits_op,
  is_propose_op, same_seq, head_of,
}
use koinon.Work.Credits.{IsWithin}
use koinon.Work.Closing.{
  apply, apply_to, change_item, report, change, reserve_verdict, participant_role, conclude, notify,
  is_create, is_renew, result_claim, bundle_result,
}
use koinon.Work.Events.{
  event, next_head, store_item, checks_outcome, insert_event, store_replay, row_cost,
  lifecycle_text, with_seq, record_limit, native_actor, is_event, is_entry, is_replay, is_finished,
}
use koinon.Work.Requests.{
  work_verdict, has, validate, sent, is_propose, has_required, check_name, check_work_ids, is_zero,
  check_limits, check_limit, nonempty, is_blank, all_spaces, is_space, sent_blank, outside_lease,
  check_resources, check_handoff, has_evidence, is_nil, is_report, valid_lifecycle, is_update,
  is_blocked,
}
use koinon.Work.Views.{
  view, resolved_role, is_item, current, has_passed, require_native_caller, is_maintainer,
  native_actor_of, freshness, is_ongoing, of_scope, scopes_of, changed_scopes, changed_after,
  differs, is_after, claim_view, require_verdict_caller, same_option,
}
use koinon.Work.Credits.{IsWithin}
use koinon.Work.Terminal.{apply_keeps_finished}
use koinon.Work.Rows.{finished, completed}
use koinon.Examples.Works.{
  context, item, started_db, request, reported_item, reply, reported_db, report_valid,
}

abbrev done_item : Item
done_item = record item {
  work_id = bytes "fedcba9876543210fedcba9876543210";
  lifecycle = finished;
  outcome = some completed;
  finished_at = some 5;
  expires_at = some (50 * second);
}

abbrev two_items : WorkDb
two_items = record started_db { items = item ∷ done_item ∷ [] }

abbrev two_after : WorkDb
two_after = record reported_db { items = reported_item ∷ done_item ∷ [] }

reported_beside :
    apply (context (bytes "a") 10) two_items (request work_report) (bytes "adone")
    ≡ ok (reply, two_after)
unfolding apply apply_to check_owner is_owned is_foreign check_verdict check_revision change
    change_item report reserve_verdict participant_role conclude event next_head store_item
    checks_outcome view resolved_role insert_event notify store_replay release owner owned_by
    end_claim update_bundle at_generation of_item bundle_for first_row update_rows any_row select
    is_item current has_passed admits_op is_propose_op work_verdict same_seq require_native_caller
    is_maintainer native_actor_of is_create is_renew has is_store head_of row_cost lifecycle_text
    with_seq record_limit native_actor is_event is_entry is_replay is_finished freshness is_ongoing
    of_scope scopes_of order_by insert_by changed_scopes changed_after differs is_after claim_view
    result_claim bundle_result str_eq valid_key is_supported has_prefix contains_byte validate sent
    is_propose has_required check_name check_work_ids is_zero check_limits check_limit nonempty
    is_blank all_spaces is_space sent_blank outside_lease check_resources check_handoff has_evidence
    is_nil is_report valid_lifecycle is_update is_blocked runes decode lead pending start continue
    emit valid_string has_control any_control is_control check_text check_work_id claim_bundle
    collect check_resource check_parts native_work_actor require_verdict_caller same_option
reported_beside = refl

within : IsWithin two_items.items
unfolding select is_reported str_eq
within = record {
  keys = ((λ i. elim i [ inl e ↦ distinct e | inr z ↦ absurd z ]), ((λ i. i), tt));
  credited =
      λ w i. elim i [ inl e ↦ rw e refl | inr j ↦ elim j [ inl e ↦ rw e refl | inr z ↦ absurd z ] ];
  store = λ s. ground arith;
  daemon = ground arith;
}
  where
    distinct :
        ◌≡◌ {A = GoString × GoString}
          (item.store, item.work_id)
          (done_item.store, done_item.work_id)
        → ⊥
    distinct e =
        let k =
          (str_eq_iff item.work_id done_item.work_id).1 (ap (λ (z : GoString × GoString). z.1) e) in
        cc

apply_keeps_finished_example : In done_item two_after.items
apply_keeps_finished_example =
    apply_keeps_finished (context (bytes "a") 10) two_items two_after (request work_report)
      (bytes "adone") reply done_item report_valid within refl (inr (inl refl)) reported_beside
