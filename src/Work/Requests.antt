-- ===== src/Work/Requests.antt =====
-- A decoded work request and its validation (internal/core/work.go, workRequest and validate).
-- The decoding of JSON is left out; a field that was not sent is `none`, or `absent` where an
-- explicit null is accepted. The reads work-get and work-list are not requests here.
use koinon.Base.{
  ℕ, Bool, true, false, not, ◌&&◌, ◌||◌, Option, none, some, List, [], ◌∷◌, GoString, bytes, length,
  str_eq, has_prefix, ltb, leb, ◌==◌, if◌then◌else◌, drop,
}
use koinon.Failure.{invalid_request, Result, ok, err, ◌>>◌, guard}
use koinon.Resource.{Resource, check_text, check_consumer, check_work_id, trim, claim_bundle}
use koinon.Utf8.{runes}
use koinon.Work.Rows.{
  WorkRole, Lifecycle, active, blocked, WorkOutcome, completed, withdrawn, Op, work_create,
  work_propose, work_edit, work_start, work_update, work_release, work_finish, claim_renew,
  work_report, work_accept, work_reject,
}

pub data Field {ℓ} (A : Type ℓ) : Type ℓ where
  absent null : Field A
  given : A → Field A

-- workRequest
pub record Request : Type 0 where
  pub op : Op
  pub work_id : Option GoString
  pub if_revision : Option ℕ
  pub claim_generation : Option ℕ
  pub if_claim_revision : Option ℕ
  pub report_seq : Option ℕ
  pub lease_seconds : Option ℕ
  pub renew_for : Option ℕ
  pub progress_deadline : Option ℕ
  pub deadline : Option ℕ
  pub key : Option GoString
  pub author : Field GoString
  pub proposed_assignee : Field GoString
  pub proposed_role : Field WorkRole
  pub title : Option GoString
  pub criteria : Option GoString
  pub non_goals : Option GoString
  pub progress : Option GoString
  pub checkpoint : Option GoString
  pub next_artifact : Option GoString
  pub blocker : Option GoString
  pub reason : Option GoString
  pub summary : Option GoString
  pub outcome : Option WorkOutcome
  pub lifecycle : Option Lifecycle
  pub handoff_to : Option GoString
  pub checkout_resource : Option GoString
  pub references : Option (List GoString)
  pub resources : Option (List Resource)
  pub actor : GoString

unfoldable pub has {ℓ} : {A : Type ℓ} → Option A → Bool
has none = false
has (some a) = true

unfoldable pub sent {ℓ} : {A : Type ℓ} → Field A → Bool
sent absent = false
sent null = true
sent (given a) = true

-- r.text[name], "" where it is not there
abbrev pub text : Option GoString → GoString
text none = []
text (some s) = s

-- r.ints[name], 0 where it is not there
abbrev pub int : Option ℕ → ℕ
int none = 0
int (some n) = n

abbrev pub list_of {ℓ} : {A : Type ℓ} → Option (List A) → List A
list_of none = []
list_of (some l) = l

-- optional
abbrev pub optional {ℓ} : {A : Type ℓ} → Field A → Option A
optional (given a) = some a
optional _ = none

-- workVerdict
unfoldable pub work_verdict : Op → Bool
work_verdict work_accept = true
work_verdict work_reject = true
work_verdict _ = false

-- WorkRequired: the unconditional fields of each operation are there
unfoldable pub has_required : Request → Bool
has_required r = elim r.op [
  | work_create ↦
      has r.title && (has r.criteria && (has r.non_goals && (has r.key && has r.deadline)))
  | work_propose ↦ has r.work_id && has r.if_revision
  | work_edit ↦ has r.work_id && has r.if_revision
  | work_start ↦
      has r.work_id
      && (has r.if_revision
          && (has r.checkpoint
              && (has r.next_artifact
                  && (has r.progress_deadline && (has r.key && has r.deadline)))))
  | work_update ↦
      has r.work_id
      && (has r.if_revision
          && (has r.claim_generation
              && (has r.progress
                  && (has r.checkpoint && (has r.next_artifact && has r.progress_deadline)))))
  | work_release ↦
      has r.work_id && (has r.if_revision && (has r.claim_generation && has r.checkpoint))
  | work_finish ↦ has r.work_id && (has r.if_revision && (has r.claim_generation && has r.outcome))
  | claim_renew ↦ has r.work_id && (has r.claim_generation && has r.if_claim_revision)
  | work_report ↦
      has r.work_id
      && (has r.if_revision
          && (has r.claim_generation
              && (has r.summary && (has r.references && (has r.key && has r.deadline)))))
  | work_accept ↦
      has r.work_id
      && (has r.if_revision
          && (has r.report_seq && (has r.references && (has r.key && has r.deadline))))
  | work_reject ↦
      has r.work_id
      && (has r.if_revision
          && (has r.report_seq
              && (has r.references
                  && (has r.criteria && (has r.non_goals && (has r.key && has r.deadline))))))
]

-- unicode.IsSpace
unfoldable pub is_space : ℕ → Bool
is_space c =
    (leb 9 c && leb c 13)
    || (c == 32
        || (c == 133
            || (c == 160
                || (c == 5_760
                    || ((leb 8_192 c && leb c 8_202)
                        || (c == 8_232
                            || (c == 8_233 || (c == 8_239 || (c == 8_287 || c == 12_288)))))))))

unfoldable pub all_spaces : List ℕ → Bool
all_spaces [] = true
all_spaces (c ∷ cs) = is_space c && all_spaces cs

-- strings.TrimSpace(s) == ""; a byte that is no UTF-8 is no space
unfoldable pub is_blank : Option GoString → Bool
is_blank s = elim (runes (text s)) [ none ↦ false | some cs ↦ all_spaces cs ]

-- a field that was sent and is blank
unfoldable pub sent_blank : Option GoString → Bool
sent_blank none = false
sent_blank (some s) = is_blank (some s)

-- the fields of each operation that must not be empty
unfoldable pub nonempty : Request → Bool
nonempty r = elim r.op [
  | work_create ↦ not (is_blank r.title || (is_blank r.criteria || is_blank r.non_goals))
  | work_start ↦ not (is_blank r.checkpoint || is_blank r.next_artifact)
  | work_update ↦ not (is_blank r.progress || (is_blank r.checkpoint || is_blank r.next_artifact))
  | work_release ↦ not (is_blank r.checkpoint)
  | work_report ↦ not (is_blank r.summary)
  | work_reject ↦ not (sent_blank r.title || (is_blank r.criteria || is_blank r.non_goals))
  | work_edit ↦
      (has r.title || (has r.criteria || has r.non_goals))
      && not (sent_blank r.title || (sent_blank r.criteria || sent_blank r.non_goals))
  | _ ↦ true
]

abbrev pub min_lease : ℕ
min_lease = 60

abbrev pub max_lease : ℕ
max_lease = 3_600

-- v < minLease || v > maxLease
unfoldable pub outside_lease : Option ℕ → Bool
outside_lease none = false
outside_lease (some v) = ltb v min_lease || ltb max_lease v

-- a counter that was sent is positive
unfoldable pub is_zero : Option ℕ → Bool
is_zero none = false
is_zero (some v) = v == 0

-- a text that was sent keeps its limit, unless it is empty
unfoldable pub check_limit : Option GoString → ℕ → Result (Unit {0})
check_limit none limit = ok tt
check_limit (some s) limit = if str_eq s [] then ok tt else check_text s limit

unfoldable pub check_name : Field GoString → Result (Unit {0})
check_name (given s) = check_consumer s
check_name _ = ok tt

abbrev pub checkout_prefix : GoString
checkout_prefix = bytes "checkout:v1:"

-- checkCheckoutKey
unfoldable pub check_checkout_key : GoString → Result (Unit {0})
check_checkout_key key =
    if not (has_prefix key checkout_prefix)
      || (not (length key == 76) || not (str_eq (trim (bytes "0123456789abcdef") (drop 12 key)) []))
    then err invalid_request
    else ok tt

-- workTextLimits
unfoldable pub check_limits : Request → Result (Unit {0})
check_limits r = do
  check_limit r.title 256
  check_limit r.criteria 4_096
  check_limit r.non_goals 2_048
  check_limit r.progress 2_048
  check_limit r.checkpoint 1_024
  check_limit r.next_artifact 1_024
  check_limit r.blocker 1_024
  check_limit r.reason 1_024
  check_limit r.summary 2_048

unfoldable pub check_handoff : Request → Result (Unit {0})
check_handoff r = do
  guard (if has r.handoff_to then has r.checkout_resource else not (has r.checkout_resource))
      invalid_request
  if has r.handoff_to
      then (do check_text (text r.handoff_to) 256; check_checkout_key (text r.checkout_resource))
      else ok tt

unfoldable pub is_nil {ℓ} : {A : Type ℓ} → List A → Bool
is_nil [] = true
is_nil (a ∷ l) = false

unfoldable pub is_report : Op → Bool
is_report work_report = true
is_report _ = false

-- evidence of a report, a verdict and a completion, and the reason of a withdrawal
unfoldable pub has_evidence : Request → Bool
has_evidence r = elim r.op [
  | work_finish ↦ elim r.outcome [
    | some completed ↦ not (is_nil (list_of r.references))
    | some withdrawn ↦ not (is_blank r.reason)
    | none ↦ false
  ]
  | _ ↦ not ((is_report r.op || work_verdict r.op) && is_nil (list_of r.references))
]

-- the lifecycle of a mutation
unfoldable pub valid_lifecycle : Option Lifecycle → Bool
valid_lifecycle none = true
valid_lifecycle (some active) = true
valid_lifecycle (some blocked) = true
valid_lifecycle (some _) = false

unfoldable pub is_blocked : Option Lifecycle → Bool
is_blocked (some blocked) = true
is_blocked _ = false

unfoldable pub is_update : Op → Bool
is_update work_update = true
is_update _ = false

unfoldable pub is_propose : Op → Bool
is_propose work_propose = true
is_propose _ = false

unfoldable pub check_work_ids : Option GoString → Result (Unit {0})
check_work_ids none = ok tt
check_work_ids (some id) = check_work_id id

unfoldable pub check_resources : Request → Result (Unit {0})
check_resources r = elim r.resources [
  | none ↦ ok tt
  | some l ↦ elim (claim_bundle (text r.work_id) l) [ err e ↦ err e | ok keys ↦ ok tt ]
]

-- validate
unfoldable pub validate : Request → Result (Unit {0})
validate r = do
  guard (not (sent r.proposed_assignee && sent r.proposed_role)) invalid_request
  guard (not (is_propose r.op) || (sent r.proposed_assignee || sent r.proposed_role))
      invalid_request
  guard (has_required r) invalid_request
  guard (if has r.key then has r.deadline else not (has r.deadline)) invalid_request
  check_name r.author
  check_name r.proposed_assignee
  check_work_ids r.work_id
  guard
      (not (
        is_zero r.if_revision
        || (is_zero r.claim_generation || (is_zero r.if_claim_revision || is_zero r.report_seq))))
      invalid_request
  check_limits r
  guard (nonempty r) invalid_request
  guard (not (outside_lease r.lease_seconds || outside_lease r.renew_for)) invalid_request
  check_resources r
  check_handoff r
  guard (has_evidence r) invalid_request
  guard (valid_lifecycle r.lifecycle) invalid_request
  guard (not (is_update r.op && is_blocked r.lifecycle) || not (is_blank r.blocker)) invalid_request
  if has r.key then check_text (text r.key) 128 else ok tt
