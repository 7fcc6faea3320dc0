-- ===== src/Work/Views.antt =====
-- Roles, callers and views of work items (internal/core/work_role.go, work_verdict.go and work.go).
-- A `Codec` has what encoding/json, crypto/sha256 and the random source compute for the source.
use koinon.Base.{
  ℕ, ◌/◌, Bool, true, false, not, ◌&&◌, ◌||◌, Option, none, some, List, [], ◌∷◌, map, GoString,
  bytes, str_eq, ltb, leb, if◌then◌else◌, select, first_row, order_by,
}
use koinon.Failure.{
  no_rows, own_report, stale_claim, role_not_held, role_refused, work_not_found, Result, ok, err,
  ◌>>=◌, ◌>>◌, guard,
}
use koinon.Claims.Rows.{Bundle}
use koinon.Claims.Queries.{bundle_for, bundle_resources, is_store}
use koinon.Claims.Cycles.{native_work_actor}
use koinon.Inbox.Rows.{Address, Name, Mail}
use koinon.Inbox.Callers.{
  maintainer_key, at_address, active_caller, holds, is_alias, held_address, peer_name,
}
use koinon.Work.Rows.{
  WorkRole, Lifecycle, active, blocked, Item, Scope, ClaimView, RoleState, role_unheld, role_held,
  role_conflict, RoleResolution, View, WorkDb, Caller, WorkResult,
}
use koinon.Work.Requests.{Request}

pub record Codec : Type 0 where
  -- hex(sha256(json([family, id])))
  pub digest : GoString → GoString → GoString
  -- fingerprint
  pub fingerprint : Request → GoString → GoString
  -- the lengths of encoded values
  pub references_bytes : List GoString → ℕ
  pub role_bytes : WorkRole → ℕ
  pub scope_bytes : Scope → ℕ
  pub view_bytes : View → ℕ
  pub result_bytes : WorkResult → ℕ
  -- the body of a handoff notice
  pub handoff_body : Request → GoString

-- nativeWorkActor
unfoldable pub native_actor_of : Codec → Caller → GoString
native_actor_of c m =
    if not (str_eq m.native.family m.family)
    then []
    else native_work_actor c.digest m.native.family m.native.id

-- the milliseconds of a time
abbrev pub millis : ℕ → ℕ
millis now = now / 1_000_000

unfoldable pub is_maintainer : Caller → Bool
is_maintainer m = str_eq m.family maintainer_key.family

unfoldable pub role_alias : GoString → WorkRole → Name → Bool
role_alias repository role n =
    is_alias n
    && (str_eq n.family role.family && (str_eq n.repository repository && str_eq n.role role.role))

unfoldable pub has_conflict : Name → Bool
has_conflict n = not (str_eq n.conflict []) && not (str_eq n.conflict (bytes "[]"))

-- peerOf
unfoldable pub peer_of_holder : Mail → Address → GoString
peer_of_holder mail k =
    if str_eq k.id [] then [] else elim (peer_name mail k) [ none ↦ [] | some name ↦ name ]

-- roleResolution
unfoldable pub role_resolution : Mail → ℕ → GoString → WorkRole → RoleResolution
role_resolution mail now repository role =
    elim (first_row (role_alias repository role) mail.names) [
      | none ↦ record { state = role_unheld; address = []; holder = [] }
      | some n ↦
          if holds mail (millis now) role.family n.holder_id repository role.role
          then record {
            state = role_held;
            address = n.name;
            holder = peer_of_holder mail (record { family = role.family; id = n.holder_id });
          }
          else record {
            state = if has_conflict n then role_conflict else role_unheld;
            address = n.name;
            holder = [];
          }
    ]

unfoldable pub session_repository : Mail → Address → Option GoString
session_repository mail k = elim (first_row (at_address k) mail.sessions) [
  | none ↦ none
  | some s ↦ some s.repository
]

-- the session's repository is the caller's
unfoldable pub check_repository : GoString → Option GoString → Result (Unit {0})
check_repository wanted none = err no_rows
check_repository wanted (some repository) =
    if str_eq repository wanted then ok tt else err role_not_held

-- requireNativeWorkCaller
unfoldable pub require_native_caller : Codec → Mail → Caller → GoString → ℕ → Result (Unit {0})
require_native_caller c mail m actor now =
    if str_eq actor [] || is_maintainer m
    then ok tt
    else if not (str_eq actor (native_actor_of c m))
    then err stale_claim
    else do
      active_caller mail (millis now) m.native false
      check_repository m.repository (session_repository mail m.native)

unfoldable pub role_state_text : RoleState → GoString
role_state_text role_unheld = bytes "unheld"
role_state_text role_held = bytes "held"
role_state_text role_conflict = bytes "conflict"

unfoldable pub is_held : RoleState → Bool
is_held role_held = true
is_held _ = false

-- requireWorkRole; requireHolder is the comparison of the held address
unfoldable pub require_role : Codec → Mail → Caller → WorkRole → ℕ → Result (Unit {0})
require_role c mail m role now = do
  let resolved = role_resolution mail now m.repository role
  guard (is_held resolved.state) (role_refused (role_state_text resolved.state))
  guard (str_eq role.family m.native.family && not (str_eq (native_actor_of c m) [])) role_not_held
  let address = held_address mail (millis now) m.native
  guard (not (str_eq address []) && str_eq address resolved.address) role_not_held

unfoldable pub same_option : GoString → Option GoString → Bool
same_option s none = false
same_option s (some t) = str_eq s t

-- requireVerdictCaller
unfoldable pub require_verdict_caller : Codec → Caller → Item → Result (Unit {0})
require_verdict_caller c m w =
    if same_option m.consumer w.report_consumer
      || (not (str_eq w.report_actor []) && str_eq (native_actor_of c m) w.report_actor)
    then err own_report
    else ok tt

unfoldable pub is_item : GoString → GoString → Item → Bool
is_item store work_id w = str_eq w.store store && str_eq w.work_id work_id

-- v != nil && *v <= now
unfoldable pub has_passed : Option ℕ → ℕ → Bool
has_passed none now = false
has_passed (some t) now = leb t now

-- current
unfoldable pub current : WorkDb → GoString → GoString → ℕ → Result Item
current db store work_id now = elim (first_row (is_item store work_id) db.items) [
  | none ↦ err work_not_found
  | some w ↦ if has_passed w.expires_at now then err work_not_found else ok w
]

unfoldable pub is_ongoing : Lifecycle → Bool
is_ongoing active = true
is_ongoing blocked = true
is_ongoing _ = false

-- freshness: live, overdue and unverified
unfoldable pub freshness : Lifecycle → Option ℕ → Bool → ℕ → ℕ → Bool × (Bool × Bool)
freshness lifecycle deadline has_claim lease_expires now =
    let live = has_claim && ltb now lease_expires in
    let overdue = is_ongoing lifecycle && has_passed deadline now in
    (live, (overdue, is_ongoing lifecycle && (not live || overdue)))

unfoldable pub of_scope : GoString → GoString → Scope → Bool
of_scope store work_id s = str_eq s.store store && str_eq s.work_id work_id

abbrev pub scope_revision : Scope → ℕ
scope_revision s = s.revision

unfoldable pub scopes_of : WorkDb → GoString → GoString → List Scope
scopes_of db store work_id = order_by scope_revision (select (of_scope store work_id) db.scopes)

-- the criteria or the non-goals differ
unfoldable pub differs : Scope → Scope → Bool
differs a b = not (str_eq a.criteria b.criteria && str_eq a.non_goals b.non_goals)

unfoldable pub is_after : Option ℕ → ℕ → Bool
is_after none revision = false
is_after (some first) revision = ltb first revision

-- a scope after `previous` that changed after the first start
unfoldable pub changed_after : Option ℕ → Scope → List Scope → Bool
changed_after first previous [] = false
changed_after first previous (s ∷ rest) =
    let later = changed_after first s rest in
    (is_after first s.revision && differs s previous) || later

unfoldable pub changed_scopes : Option ℕ → List Scope → Bool
changed_scopes first [] = false
changed_scopes first (s ∷ rest) = changed_after first s rest

abbrev pub lease_end : Option Bundle → ℕ
lease_end none = 0
lease_end (some b) = b.expires_at

abbrev pub has_active : Option Bundle → Bool
has_active none = false
has_active (some b) = b.active

unfoldable pub claim_view : WorkDb → GoString → Option Bundle → Bool → Option ClaimView
claim_view db store (some b) true = some (record {
  consumer = b.consumer;
  generation = b.generation;
  revision = b.revision;
  expires_at = b.expires_at;
  resources = bundle_resources db.claims store b.generation;
  native = not (str_eq b.native_actor []);
})
claim_view db store _ _ = none

-- the repository of a store, for the role's resolution
unfoldable pub resolved_role :
    WorkDb → GoString → Option WorkRole → ℕ → Result (Option RoleResolution)
resolved_role db store none now = ok none
resolved_role db store (some role) now = elim (first_row (is_store store) db.claims.memory_stores) [
  | none ↦ err no_rows
  | some s ↦ ok (some (role_resolution db.mail now s.repository role))
]

-- view
unfoldable pub view : WorkDb → GoString → Item → ℕ → Result View
view db store w now = do
  role ← resolved_role db store w.proposed_role now
  let b = bundle_for db.claims store w.work_id
  let (live, (overdue, unverified)) =
      freshness w.lifecycle w.progress_deadline (has_active b) (lease_end b) now
  let scopes = scopes_of db store w.work_id
  ok (record {
    item = w;
    observed_at = now;
    observed_lease_expires = elim b [ none ↦ none | some held ↦ some held.expires_at ];
    current_claim = claim_view db store b live;
    lease_valid = live;
    progress_overdue = overdue;
    progress_unverified = unverified;
    lease_reason = is_ongoing w.lifecycle && not live;
    scope_revisions = map scope_revision scopes;
    criteria_changed_after_start = changed_scopes w.first_start_revision scopes;
    role_resolution = role;
    report = none;
    verdict_report_seq = none;
  })
