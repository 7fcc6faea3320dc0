-- ===== src/Examples/Resources.antt =====
-- Claim keys: overlapping paths and the keys of one claim.
use koinon.Base.{
  ◌≡◌, ◌↔◌, ◌≤◌, refl, true, false, [], ◌∷◌, GoString, bytes, str_eq, has_prefix, length, All,
  NoRepeat,
}
use koinon.Failure.{ok}
use koinon.Resource.{Resource, overlaps, claim_bundle, max_resources}
use koinon.Resource.Paths.{Overlap, overlaps_iff}
use koinon.Resource.Bundle.{IsOptional, writer_key, claim_bundle_iff}

abbrev path : GoString → Resource
path key = record { kind = bytes "path"; key = key }

below_is_covered : overlaps (path (bytes "docs")) (path (bytes "docs/a.md")) ≡ true
unfolding overlaps str_eq has_prefix
below_is_covered = refl

-- A name that only starts with the other is another path.
sibling_is_not : overlaps (path (bytes "docs")) (path (bytes "docs2")) ≡ false
unfolding overlaps str_eq has_prefix
sibling_is_not = refl

overlaps_iff_example :
    (overlaps (path (bytes "docs")) (path (bytes "docs/a.md")) ≡ true)
    ↔ Overlap (path (bytes "docs")) (path (bytes "docs/a.md"))
overlaps_iff_example = overlaps_iff (path (bytes "docs")) (path (bytes "docs/a.md"))

abbrev work_id : GoString
work_id = bytes "0123456789abcdef0123456789abcdef"

claim_bundle_iff_example :
    (claim_bundle work_id (path (bytes "docs") ∷ [])
      ≡ ok (writer_key work_id ∷ path (bytes "docs") ∷ []))
    ↔ ((writer_key work_id ∷ path (bytes "docs") ∷ []
          ≡ writer_key work_id ∷ path (bytes "docs") ∷ [])
        × (length (path (bytes "docs") ∷ []) ≤ max_resources)
        × All IsOptional (path (bytes "docs") ∷ [])
        × NoRepeat (writer_key work_id ∷ path (bytes "docs") ∷ []))
claim_bundle_iff_example =
    claim_bundle_iff work_id (path (bytes "docs") ∷ [])
      (writer_key work_id ∷ path (bytes "docs") ∷ [])
