-- ===== src/Resource.antt =====
-- Claim keys (internal/core/claims.go): their validation, the bundle of keys of one claim, and
-- the test whether two keys overlap. The child modules prove what these promise.
pub mod Paths
pub mod Bundle
use koinon.Base.{
  ℕ, ◌≡◌, Bool, true, false, not, ◌&&◌, ◌||◌, List, [], ◌∷◌, ◌++◌, GoString, bytes, length, ltb,
  leb, ◌==◌, if◌then◌else◌, str_eq, has_prefix, contains_byte,
}
use mathlib.Core.List.{reverse}
use koinon.Failure.{Failure, invalid_request, Result, ok, err, ◌>>=◌, ◌>>◌, guard}
use koinon.Utf8.{valid_string, rune_count, has_control}

abbrev pub max_resources : ℕ
max_resources = 8

-- claimResource
pub record Resource : Type 0 where
  pub kind : GoString
  pub key : GoString

-- checkText: 1 to `limit` bytes of valid UTF-8
unfoldable pub check_text : GoString → ℕ → Result (Unit {0})
check_text value limit =
    if str_eq value [] || (ltb limit (length value) || not (valid_string value))
    then err invalid_request
    else ok tt

-- checkConsumer
unfoldable pub check_consumer : GoString → Result (Unit {0})
check_consumer value = do
  check_text value 512
  if ltb 128 (rune_count value) then err invalid_request else ok tt

-- strings.Trim(value, cutset) for an ASCII cutset
unfoldable pub trim_left : GoString → GoString → GoString
trim_left cutset [] = []
trim_left cutset (c ∷ s) =
    let rest = trim_left cutset s in if contains_byte cutset c then rest else c ∷ s

unfoldable pub trim : GoString → GoString → GoString
trim cutset s = reverse (trim_left cutset (reverse (trim_left cutset s)))

-- checkWorkID
unfoldable pub check_work_id : GoString → Result (Unit {0})
check_work_id value =
    if not (length value == 32) || not (str_eq (trim (bytes "0123456789abcdef") value) [])
    then err invalid_request
    else ok tt

unfoldable pub cons_head : ℕ → List GoString → List GoString
cons_head c [] = (c ∷ []) ∷ []
cons_head c (part ∷ parts) = (c ∷ part) ∷ parts

-- strings.Split(s, "/")
unfoldable pub split : ℕ → GoString → List GoString
split sep [] = [] ∷ []
split sep (c ∷ s) = let rest = split sep s in if c == sep then [] ∷ rest else cons_head c rest

unfoldable pub check_parts : List GoString → Result (Unit {0})
check_parts [] = ok tt
check_parts (part ∷ parts) =
    if str_eq part [] || (str_eq part (bytes ".") || str_eq part (bytes ".."))
    then err invalid_request
    else check_parts parts

-- checkResource
unfoldable pub check_resource : Resource → Result (Unit {0})
check_resource r = do
  guard
      (str_eq r.kind (bytes "writer")
        || (str_eq r.kind (bytes "path") || str_eq r.kind (bytes "exact")))
      invalid_request
  check_text r.key 512
  guard (not (contains_byte r.key b'\\' || has_control r.key)) invalid_request
  if str_eq r.kind (bytes "writer")
      then check_work_id r.key
      else if str_eq r.kind (bytes "path") && not (str_eq r.key (bytes "."))
      then check_parts (split b'/' r.key)
      else ok tt

-- overlaps
unfoldable pub overlaps : Resource → Resource → Bool
overlaps a b =
    if not (str_eq a.kind b.kind)
    then false
    else if not (str_eq a.kind (bytes "path"))
    then str_eq a.key b.key
    else str_eq a.key b.key
      || (str_eq a.key (bytes ".")
          || (str_eq b.key (bytes ".")
              || (has_prefix a.key (b.key ++ bytes "/") || has_prefix b.key (a.key ++ bytes "/"))))

-- Go's == on two claimResource values
unfoldable pub resource_eq : Resource → Resource → Bool
resource_eq a b = str_eq a.kind b.kind && str_eq a.key b.key

unfoldable pub has_resource : List Resource → Resource → Bool
has_resource [] r = false
has_resource (held ∷ rest) r = resource_eq held r || has_resource rest r

-- the loop of claimBundle; `result` is what it has collected
unfoldable pub collect : List Resource → List Resource → Result (List Resource)
collect result [] = ok result
collect result (r ∷ rest) =
    let next = collect (result ++ r ∷ []) rest in
    if not (str_eq r.kind (bytes "path")) && not (str_eq r.kind (bytes "exact"))
    then err invalid_request
    else do check_resource r; if has_resource result r then err invalid_request else next

-- claimBundle
unfoldable pub claim_bundle : GoString → List Resource → Result (List Resource)
claim_bundle work_id optional =
    if ltb max_resources (length optional)
    then err invalid_request
    else collect (record { kind = bytes "writer"; key = work_id } ∷ []) optional
