-- ===== src/Claims/Cycles.antt =====
-- Work claims during a managed cycle (internal/core/context_cycle_claims.go), and the native
-- actor that a claim may be bound to (internal/core/work_role.go). The digest of a family and a
-- session ID, SHA-256 over their JSON encoding in hexadecimal, is a parameter.
use koinon.Base.{
  ℕ, ◌+◌, ◌*◌, Bool, false, not, ◌&&◌, ◌||◌, none, some, List, [], ◌∷◌, ◌++◌, GoString, bytes,
  length, str_eq, has_prefix, contains_byte, ltb, ◌==◌, if◌then◌else◌, select, update_rows,
  first_row, any_row,
}
use koinon.Claims.Rows.{Bundle, StoreRow, CycleRow, SessionRow, Db, second}
use koinon.Claims.Queries.{at_generation}

-- SupportedFamilies
abbrev pub supported_families : List GoString
supported_families =
    bytes "agy"
    ∷ bytes "claude"
    ∷ bytes "codex"
    ∷ bytes "deepseek"
    ∷ bytes "grok"
    ∷ bytes "opencode"
    ∷ []

unfoldable pub is_supported : GoString → List GoString → Bool
is_supported family [] = false
is_supported family (f ∷ rest) = str_eq family f || is_supported family rest

abbrev pub participant_prefix : GoString
participant_prefix = bytes "participant:"

-- validKey
unfoldable pub valid_key : GoString → GoString → Bool
valid_key family id =
    is_supported family supported_families
    && (not (str_eq id [])
        && (not (ltb 256 (length id))
            && (not (contains_byte id 0 || (contains_byte id 13 || contains_byte id 10))
                && not (has_prefix id participant_prefix))))

-- nativeWorkActorForKey
unfoldable pub native_work_actor : (GoString → GoString → GoString) → GoString → GoString → GoString
native_work_actor digest family id = if valid_key family id then digest family id else []

abbrev pub cycle_claim_grace : ℕ
cycle_claim_grace = 60

-- cycleClaimMatch: the bundle `b` is held by the session of the cycle `c`
unfoldable pub cycle_claim_match : (GoString → GoString → GoString) → CycleRow → Bundle → Bool
cycle_claim_match digest c b =
    str_eq b.consumer c.peer
    || (str_eq b.consumer (c.family ++ (bytes ":" ++ c.session_id))
        || ((not (str_eq b.native_actor [])
              && str_eq b.native_actor (native_work_actor digest c.family c.session_id))
            || (c.held
                && (not (str_eq c.address [])
                    && str_eq b.consumer (participant_prefix ++ c.address)))))

-- storeOf: the store of a repository, "" where it has none
unfoldable pub of_repository : GoString → StoreRow → Bool
of_repository repository s = str_eq s.repository repository

unfoldable pub store_of : Db → GoString → GoString
store_of db repository = elim (first_row (of_repository repository) db.memory_stores) [
  | none ↦ []
  | some s ↦ s.store_id
]

unfoldable pub is_cycle : GoString → CycleRow → Bool
is_cycle id c = str_eq c.cycle_id id

-- the WHERE condition of the extension
unfoldable pub extends :
    (GoString → GoString → GoString) → List CycleRow → GoString → ℕ → ℕ → GoString → Bundle → Bool
extends digest cycles store now floor id b =
    str_eq b.store store
    && (b.active
        && (ltb now b.expires_at
            && (ltb b.expires_at floor
                && any_row (λ c. is_cycle id c && cycle_claim_match digest c b) cycles)))

-- protectCycleClaims; `now` and the deadline are milliseconds
unfoldable pub protect_cycle_claims :
    (GoString → GoString → GoString) → Db → CycleRow → GoString → ℕ → Db
protect_cycle_claims digest db c repository now =
    let store = store_of db repository in
    if str_eq repository [] || str_eq store []
    then db
    else let floor = c.cycle_deadline * 1_000_000 + cycle_claim_grace * second in
      record db {
        bundles =
            update_rows (extends digest db.context_cycles store (now * 1_000_000) floor c.cycle_id)
              (λ b. record b { expires_at = floor }) db.bundles;
      }

-- the joined rows of one bundle
unfoldable pub protected_by : (GoString → GoString → GoString) → Db → Bundle → CycleRow → Bool
protected_by digest db b c =
    c.finished_at == 0
    && (cycle_claim_match digest c b
        && any_row
            (λ (s : SessionRow).
              str_eq s.family c.family
              && (str_eq s.id c.session_id
                  && any_row
                      (λ (m : StoreRow).
                        str_eq m.repository s.repository && str_eq m.store_id b.store)
                      db.memory_stores))
            db.sessions)

-- cycleProtects
unfoldable pub cycle_protects : (GoString → GoString → GoString) → Db → GoString → ℕ → Bool
cycle_protects digest db store g =
    any_row (λ b. any_row (protected_by digest db b) db.context_cycles)
      (select (at_generation store g) db.bundles)
