-- ===== src/Examples/Claims.antt =====
-- Two works of one store are claimed, renewed, protected by a managed cycle and reclaimed.
use koinon.Base.{
  Rowwise, ℕ, arith, ◌≡◌, ◌*◌, ◌≤◌, refl, true, false, List, [], ◌∷◌, ◌++◌, GoString, bytes, length,
  str_eq, select, inl, inr, update_rows, first_row, any_row, order_by, insert_by, str_eq,
  has_prefix, contains_byte,
}
use koinon.Failure.{ok, err, claim_conflict}
use koinon.Utf8.{
  valid_string, runes, decode, lead, pending, start, continue, emit, has_control, any_control,
  is_control,
}
use koinon.Resource.{
  Resource, overlaps, claim_bundle, collect, check_resource, check_text, check_parts, split,
  cons_head, has_resource, resource_eq,
}
use koinon.Claims.Rows.{ResourceRow, Bundle, StoreRow, CycleRow, SessionRow, Db, Lease, second}
use koinon.Claims.Queries.{
  at_generation, in_store, of_item, resource_of, bundle_resources, counter, read_counter,
  write_counter, is_store,
}
use koinon.Claims.Cycles.{
  protect_cycle_claims, cycle_protects, protected_by, cycle_claim_match, store_of, of_repository,
  extends, is_cycle,
}
use koinon.Claims.Engine.{
  acquire, check_held, check_live, is_live, first_conflict, key_overlaps, conflict_of,
  insert_bundle, insert_resources, checks_bundle, fails_kind, resource_rows, new_bundle,
  write_claim, renew, release, owner, owned_by, end_claim, update_bundle,
}
use koinon.Claims.Invariant.{IsSound}
use koinon.Claims.Steps.{
  acquired, Reach, here, next, no_claims, no_claims-IsSound, live_claims_disjoint, tick, released,
  Reach-IsSound,
}
use koinon.Claims.Ownership.{Owns}
use koinon.Claims.Exclusion.{acquire-IsSound}
use koinon.Claims.Capacity.{retained_bounded}
use koinon.Claims.Reclaim.{Reclaimed, reclaim_one-total}
use koinon.Claims.Extension.{IsExtended}
use koinon.Claims.Protection.{Renewed, renew-Renewed, protect_cycle_claims-extends}

abbrev store : GoString
store = bytes "m1"

abbrev parser_work : GoString
parser_work = bytes "0123456789abcdef0123456789abcdef"

abbrev docs_work : GoString
docs_work = bytes "fedcba9876543210fedcba9876543210"

abbrev path : GoString → Resource
path key = record { kind = bytes "path"; key = key }

abbrev stores : List StoreRow
stores =
    record {
      store_id = store;
      repository = bytes "r1";
      head = 3;
      floor = 0;
      work_counter = 2;
      claim_counter = 0;
    }
    ∷ []

abbrev a_agent : GoString
a_agent = bytes "codex:a"

abbrev b_agent : GoString
b_agent = bytes "codex:b"

abbrev bundle : ℕ → GoString → GoString → Bundle
bundle g work_id consumer = record {
  store = store;
  generation = g;
  work_id = work_id;
  consumer = consumer;
  native_actor = [];
  revision = 1;
  issued_at = 0;
  renewed_at = 0;
  expires_at = 900 * second;
  progress_epoch = 1;
  overdue_recorded = false;
  active = true;
  overdue_credit = true;
  end_credit = true;
}

abbrev held : ℕ → ℕ → Resource → ResourceRow
held g i key = record { store = store; generation = g; ordinal = i; resource = key }

abbrev writer : GoString → Resource
writer work_id = record { kind = bytes "writer"; key = work_id }

abbrev stores_at : ℕ → List StoreRow
stores_at n =
    record {
      store_id = store;
      repository = bytes "r1";
      head = 3;
      floor = 0;
      work_counter = 2;
      claim_counter = n;
    }
    ∷ []

abbrev once : Db
once = record {
  bundles = bundle 1 parser_work a_agent ∷ [];
  claim_resources = held 1 0 (writer parser_work) ∷ held 1 1 (path (bytes "parser")) ∷ [];
  memory_stores = stores_at 1;
  context_cycles = [];
  sessions = [];
}

abbrev twice : Db
twice = record {
  bundles = bundle 1 parser_work a_agent ∷ bundle 2 docs_work b_agent ∷ [];
  claim_resources =
      held 1 0 (writer parser_work)
      ∷ held 1 1 (path (bytes "parser"))
      ∷ held 2 0 (writer docs_work)
      ∷ held 2 1 (path (bytes "docs"))
      ∷ [];
  memory_stores = stores_at 2;
  context_cycles = [];
  sessions = [];
}

abbrev lease : ℕ → Lease
lease g = record { generation = g; revision = 1; expires_at = 900 * second }

first_claim :
    acquire (no_claims (stores_at 0)) store parser_work a_agent 1 (path (bytes "parser") ∷ []) 0 900
    ≡ ok (lease 1, once)
unfolding acquire claim_bundle collect check_resource check_text check_parts split cons_head
    has_resource resource_eq str_eq valid_string runes decode lead pending start continue emit
    has_control any_control is_control select order_by insert_by check_held check_live is_live
    first_conflict key_overlaps overlaps bundle_resources resource_of in_store of_item at_generation
    write_claim counter read_counter write_counter is_store first_row update_rows any_row
    insert_bundle insert_resources checks_bundle fails_kind resource_rows new_bundle has_prefix
    contains_byte conflict_of
first_claim = refl

second_claim :
    acquire once store docs_work b_agent 1 (path (bytes "docs") ∷ []) 0 900 ≡ ok (lease 2, twice)
unfolding acquire claim_bundle collect check_resource check_text check_parts split cons_head
    has_resource resource_eq str_eq valid_string runes decode lead pending start continue emit
    has_control any_control is_control select order_by insert_by check_held check_live is_live
    first_conflict key_overlaps overlaps bundle_resources resource_of in_store of_item at_generation
    write_claim counter read_counter write_counter is_store first_row update_rows any_row
    insert_bundle insert_resources checks_bundle fails_kind resource_rows new_bundle has_prefix
    contains_byte conflict_of
second_claim = refl

-- A path below a claimed one is refused.
refused_claim :
    acquire once store docs_work b_agent 1 (path (bytes "parser/x") ∷ []) 0 900
    ≡ err (claim_conflict parser_work a_agent 1 (900 * second) (bytes "path") (bytes "parser"))
unfolding acquire claim_bundle collect check_resource check_text check_parts split cons_head
    has_resource resource_eq str_eq valid_string runes decode lead pending start continue emit
    has_control any_control is_control select order_by insert_by check_held check_live is_live
    first_conflict key_overlaps overlaps bundle_resources resource_of in_store of_item at_generation
    write_claim counter read_counter write_counter is_store first_row update_rows any_row
    insert_bundle insert_resources checks_bundle fails_kind resource_rows new_bundle has_prefix
    contains_byte conflict_of
refused_claim = refl

no_digest : GoString → GoString → GoString
no_digest family id = family ++ id

reached : Reach no_digest (no_claims (stores_at 0)) twice 0
reached =
    next
      (next here (
        acquired store parser_work a_agent 1 (path (bytes "parser") ∷ []) 900 (lease 1)
          first_claim))
      (acquired store docs_work b_agent 1 (path (bytes "docs") ∷ []) 900 (lease 2) second_claim)

acquire-IsSound_example : IsSound once 0
acquire-IsSound_example =
    acquire-IsSound (no_claims (stores_at 0)) store parser_work a_agent 1
      (path (bytes "parser") ∷ []) 0 900 (lease 1) once first_claim
      (no_claims-IsSound (stores_at 0) 0)

retained_bounded_example :
    (length twice.bundles ≤ 32) × ((s : GoString) → length (select (in_store s) twice.bundles) ≤ 16)
retained_bounded_example = retained_bounded no_digest (stores_at 0) reached

live_claims_disjoint_example : overlaps (path (bytes "parser")) (path (bytes "docs")) ≡ false
unfolding is_live bundle_resources resource_of str_eq select order_by insert_by
live_claims_disjoint_example =
    live_claims_disjoint no_digest (stores_at 0) reached (bundle 1 parser_work a_agent)
      (bundle 2 docs_work b_agent) (path (bytes "parser")) (path (bytes "docs")) (inl refl)
      (inr (inl refl)) refl (λ e. cc e) refl refl (inr (inl refl)) (inr (inl refl))

abbrev ended : Db
ended = record twice {
  bundles =
      bundle 1 parser_work a_agent
      ∷ record (bundle 2 docs_work b_agent) {
        active = false;
        overdue_credit = false;
        end_credit = false;
      }
      ∷ [];
}

second_release : release twice store docs_work b_agent 2 10 ≡ ok ended
unfolding release owner owned_by of_item str_eq first_row end_claim update_bundle update_rows
    at_generation
second_release = refl

ended-IsSound : IsSound ended 10
ended-IsSound =
    Reach-IsSound no_digest (stores_at 0)
      (next (next reached (tick (omega arith))) (released store docs_work b_agent 2 second_release))

reclaim_one-total_example : Reclaimed ended store
reclaim_one-total_example = reclaim_one-total ended store 10 ended-IsSound

abbrev cycle : CycleRow
cycle = record {
  cycle_id = bytes "c1";
  family = bytes "codex";
  session_id = bytes "a";
  peer = bytes "codex:a";
  address = [];
  held = false;
  cycle_deadline = 1_000_000;
  finished_at = 0;
}

abbrev session : SessionRow
session = record { family = bytes "codex"; id = bytes "a"; repository = bytes "r1" }

abbrev cycling : Db
cycling = record twice { context_cycles = cycle ∷ []; sessions = session ∷ [] }

abbrev extended : ℕ → Bundle
extended revision = record (bundle 1 parser_work a_agent) {
  revision = revision;
  expires_at = 1_060 * second;
}

abbrev covered : Db
covered = record cycling { bundles = extended 1 ∷ bundle 2 docs_work b_agent ∷ [] }

extension : protect_cycle_claims no_digest cycling cycle (bytes "r1") 0 ≡ covered
unfolding protect_cycle_claims store_of of_repository str_eq first_row update_rows extends any_row
    is_cycle cycle_claim_match
extension = refl

protect_cycle_claims-extends_example :
    let db' = protect_cycle_claims no_digest cycling cycle (bytes "r1") 0 in
    (db' ≡ record cycling { bundles = db'.bundles })
    × Rowwise
        (IsExtended no_digest cycling cycle (bytes "r1") 0 (1_060 * second))
        cycling.bundles
        db'.bundles
protect_cycle_claims-extends_example =
    protect_cycle_claims-extends no_digest cycling cycle (bytes "r1") 0

abbrev renewed_lease : Lease
renewed_lease = record { generation = 1; revision = 2; expires_at = 1_060 * second }

abbrev renewed_claim : Db
renewed_claim = record covered {
  bundles = record (extended 2) { renewed_at = 10 * second } ∷ bundle 2 docs_work b_agent ∷ [];
}

-- A shorter renewal during the cycle keeps the longer expiry.
first_renewal :
    renew no_digest covered store parser_work a_agent 1 1 (10 * second) 900
    ≡ ok (renewed_lease, renewed_claim)
unfolding renew owner owned_by of_item str_eq first_row update_bundle update_rows at_generation
    cycle_protects protected_by cycle_claim_match any_row select
first_renewal = refl

renew-Renewed_example :
    (b : Bundle) × Owns covered store parser_work a_agent 1 (10 * second) b
    × Renewed no_digest covered store 1 1 (10 * second) 900 renewed_lease renewed_claim b
renew-Renewed_example =
    renew-Renewed no_digest covered store parser_work a_agent 1 1 (10 * second) 900 renewed_lease
      renewed_claim first_renewal
