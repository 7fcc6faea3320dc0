-- ===== src/Resource/Bundle.antt =====
-- What claimBundle accepts, and the keys that it returns.
use mathlib.Core.List.{append_assoc, append-nil}
use koinon.Base.{
  ◌≡◌, sym, ◌∙◌, ap, subst, ◌⊎◌, inl, inr, ◌↔◌, true, false, List, [], ◌∷◌, ◌++◌, arith, ◌≤◌,
  GoString, bytes, length, str_eq_iff, In, All, NoRepeat, NoRepeat-middle, NoRepeat-last,
  Bool-cases,
}
use koinon.Failure.{ok}
use koinon.Resource.{
  Resource, check_resource, resource_eq, has_resource, collect, claim_bundle, max_resources,
}

-- What a caller may ask for beside its work item.
abbrev pub IsOptional : Resource → Type 0
IsOptional r = ((r.kind ≡ bytes "path") ⊎ (r.kind ≡ bytes "exact")) × (check_resource r ≡ ok tt)

abbrev pub writer_key : GoString → Resource
writer_key work_id = record { kind = bytes "writer"; key = work_id }

resource_eq_iff : (a b : Resource) → (resource_eq a b ≡ true) ↔ (a ≡ b)
unfolding resource_eq
resource_eq_iff a b = ground (arith, str_eq_iff a.kind b.kind, str_eq_iff a.key b.key)

has_resource_iff : (l : List Resource) (r : Resource) → (has_resource l r ≡ true) ↔ In r l
unfolding has_resource
has_resource_iff [] r = ground arith
has_resource_iff (x ∷ l) r = ground (arith, has_resource_iff l r, resource_eq_iff x r)

collect-ok :
    (result rest : List Resource) (keys : List Resource)
    → NoRepeat result
    → collect result rest ≡ ok keys
    → (keys ≡ result ++ rest) × All IsOptional rest × NoRepeat keys
unfolding collect
collect-ok result [] keys n h =
    let e : result ≡ keys = ground arith in
    (sym e ∙ sym (append-nil result), tt, subst NoRepeat e n)
collect-ok result (r ∷ rest) keys n h =
    let passed : IsOptional r
        × (has_resource result r ≡ false)
        × (collect (result ++ r ∷ []) rest ≡ ok keys) =
      ground (arith, str_eq_iff r.kind (bytes "path"), str_eq_iff r.kind (bytes "exact")) in
    let n' = NoRepeat-last result r n (λ i. cc (passed.1, (has_resource_iff result r).1 i)) in
    let (e, a, m) = collect-ok (result ++ r ∷ []) rest keys n' passed.2 in
    (e ∙ append_assoc result (r ∷ []) rest, (passed.0, a), m)

ok-collect :
    (result rest : List Resource)
    → All IsOptional rest
    → NoRepeat (result ++ rest)
    → collect result rest ≡ ok (result ++ rest)
unfolding collect
ok-collect result [] a n = ap ok (sym (append-nil result))
ok-collect result (r ∷ rest) (o, a) n =
    let fresh : has_resource result r ≡ false = elim (Bool-cases (has_resource result r)) [
      | inl h ↦ absurd (NoRepeat-middle result r rest n ((has_resource_iff result r).0 h))
      | inr h ↦ h
    ] in
    let e : (result ++ r ∷ []) ++ rest ≡ result ++ r ∷ rest = append_assoc result (r ∷ []) rest in
    let ih = ok-collect (result ++ r ∷ []) rest a (subst NoRepeat (sym e) n) in
    ground
      (arith, str_eq_iff r.kind (bytes "path"), str_eq_iff r.kind (bytes "exact"), fresh, ih, e, o)

-- claimBundle succeeds exactly when there are at most eight optional keys, each a valid path or
-- exact key, and no key is given twice; it then returns the writer key of the item followed by
-- those keys in their order.
pub claim_bundle_iff :
    (work_id : GoString) (optional keys : List Resource)
    → (claim_bundle work_id optional ≡ ok keys) ↔ (
        (keys ≡ writer_key work_id ∷ optional)
        × (length optional ≤ max_resources)
        × All IsOptional optional
        × NoRepeat keys)
claim_bundle_iff work_id optional keys = (sound, complete)
  where
    sound :
        claim_bundle work_id optional ≡ ok keys
        → (keys ≡ writer_key work_id ∷ optional)
          × (length optional ≤ max_resources)
          × All IsOptional optional
          × NoRepeat keys
    sound h =
        unfold claim_bundle in
        let c : collect (writer_key work_id ∷ []) optional ≡ ok keys = ground arith in
        let (e, a, n) = collect-ok (writer_key work_id ∷ []) optional keys ((λ i. i), tt) c in
        (e, ground arith, a, n)

    complete :
        (keys ≡ writer_key work_id ∷ optional)
          × (length optional ≤ max_resources)
          × All IsOptional optional
          × NoRepeat keys
        → claim_bundle work_id optional ≡ ok keys
    complete (e, b, a, n) =
        unfold claim_bundle in
        ground (arith, ok-collect (writer_key work_id ∷ []) optional a (subst NoRepeat e n))
