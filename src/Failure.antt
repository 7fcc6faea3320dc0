-- ===== src/Failure.antt =====
-- The refusals of the work and claim operations (internal/core/claims.go, WorkRefusal and
-- workError) as values, and the chaining of steps that may refuse. A refusal is its code, with
-- the details that the code carries; the message text is left out.
use koinon.Base.{ℕ, ◌≡◌, refl, Bool, true, false, GoString, ◌⊎◌, inl, inr, if◌then◌else◌}

pub data Failure : Type 0 where
  invalid_request claim_capacity stale_claim capacity incompatible_store : Failure
  invalid_transition stale_report checkout_not_held forbidden not_found : Failure
  -- the holder: work ID, consumer, generation, expiry, and the resource's kind and key
  claim_conflict : GoString → GoString → ℕ → ℕ → GoString → GoString → Failure
  -- the current revision
  revision_conflict : ℕ → Failure
  work_not_found record_too_large own_report role_not_held invalid_recipient : Failure
  retry_deadline_expired idempotency_conflict : Failure
  -- "role_" with the state of the proposed role
  role_refused : GoString → Failure
  -- the errors of the message operations (internal/core/messages.go); an inactive recipient has
  -- its reason
  caller_inactive peer_not_found alias_unheld ack_beyond_last : Failure
  message_not_found session_missing session_conflict stale_holder : Failure
  recipient_inactive : GoString → Failure
  -- the refusals of the storage boundary (internal/core/storage.go); `interrupted` is the end of
  -- the request, and `engine_failed` any other error of the engine
  storage_blocked interrupted engine_failed : Failure
  -- a CHECK, UNIQUE or PRIMARY KEY constraint of the database refused the row
  constraint : Failure
  -- sql.ErrNoRows, handed on as it is
  no_rows : Failure

pub data Result {ℓ} (T : Type ℓ) : Type ℓ where
  err : Failure → Result T
  ok : T → Result T

-- `if !passes { return failure }`
abbrev pub guard : Bool → Failure → Result (Unit {0})
guard passes failure = if passes then ok tt else err failure

pub guard-eq-ok :
    (passes : Bool) (e : Failure) (u : Unit {0}) → guard passes e ≡ ok u → passes ≡ true
guard-eq-ok true e u h = refl
guard-eq-ok false e u h = cc

-- the next step runs on the value of the one before, and a refusal is handed on
infixl 5 ◌>>=◌ ◌>>◌
abbrev pub ◌>>=◌ {m n} : {S : Type m} {T : Type n} → Result S → (S → Result T) → Result T
err failure >>= step = err failure
ok value >>= step = step value

pub Result-cases {ℓ} :
    {T : Type ℓ} (r : Result T)
    → ((failure : Failure) × (r ≡ err failure)) ⊎ ((value : T) × (r ≡ ok value))
Result-cases (ok value) = inr (value, refl)
Result-cases (err failure) = inl (failure, refl)

abbrev pub ◌>>◌ {m n} : {S : Type m} {T : Type n} → Result S → Result T → Result T
first >> second = first >>= λ _. second

-- A chain that succeeds has a first step that succeeds.
pub >>=-eq-ok {m n} :
    {S : Type m} {T : Type n} (first : Result S) (step : S → Result T) {result : T}
    → (first >>= step) ≡ ok result
    → (value : S) × (first ≡ ok value) × (step value ≡ ok result)
>>=-eq-ok (err failure) step h = cc
>>=-eq-ok (ok value) step h = (value, refl, h)

pub ok_inj {ℓ} : {T : Type ℓ} (a b : T) → ok a ≡ ok b → a ≡ b
ok_inj a b h = cc
