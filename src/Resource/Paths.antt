-- ===== src/Resource/Paths.antt =====
-- The overlap of two path keys, read as components: one path is the other or an ancestor of it.
use koinon.Base.{
  ◌≡◌, refl, ◌⊎◌, ◌↔◌, Bool, true, false, ◌||◌, List, [], ◌∷◌, ◌++◌, arith, GoString, bytes, ◌==◌,
  if◌then◌else◌, str_eq, str_eq_iff, has_prefix,
}
use koinon.Resource.{Resource, split, cons_head, overlaps}

-- The components of a path key; the whole repository, ".", has none.
pub components : GoString → List GoString
components key = if str_eq key (bytes ".") then [] else split b'/' key

abbrev pub IsAncestor : List GoString → List GoString → Type 0
IsAncestor [] ys = Unit
IsAncestor (x ∷ xs) [] = ⊥
IsAncestor (x ∷ xs) (y ∷ ys) = (x ≡ y) × IsAncestor xs ys

split_parts : (s : GoString) → (h : GoString) × (t : List GoString) × (split b'/' s ≡ h ∷ t)
unfolding split cons_head
split_parts [] = ([], [], refl)
split_parts (c ∷ s) = let (h, t, e) = split_parts s in if-cases (c == b'/') e
  where
    if-cases :
        (b : Bool) {h : GoString} {t : List GoString}
        → split b'/' s ≡ h ∷ t
        → (h' : GoString) × (t' : List GoString) × ((if b
              then [] ∷ split b'/' s
              else cons_head c (split b'/' s))
            ≡ h' ∷ t')
    if-cases true {h} {t} e = ([], h ∷ t, ground arith)
    if-cases false {h} {t} e = (c ∷ h, t, ground arith)

covers : GoString → GoString → Bool
covers a b = str_eq a b || has_prefix a (b ++ bytes "/")

covers-IsAncestor : (a b : GoString) → covers a b ≡ true → IsAncestor (split b'/' b) (split b'/' a)
unfolding covers str_eq has_prefix split cons_head
covers-IsAncestor [] [] h = (refl, tt)
covers-IsAncestor [] (d ∷ t) h = cc
covers-IsAncestor (c ∷ s) [] h = ground arith
covers-IsAncestor (c ∷ s) (d ∷ t) h =
    let (h1, t1, e1) = split_parts t in
    let (h2, t2, e2) = split_parts s in ground (arith, covers-IsAncestor s t, e1, e2)

IsAncestor-covers : (a b : GoString) → IsAncestor (split b'/' b) (split b'/' a) → covers a b ≡ true
unfolding covers str_eq has_prefix split cons_head
IsAncestor-covers [] [] h = refl
IsAncestor-covers [] (d ∷ t) h = let (h1, t1, e1) = split_parts t in ground (arith, e1)
IsAncestor-covers (c ∷ s) [] h = let (h2, t2, e2) = split_parts s in ground (arith, e2)
IsAncestor-covers (c ∷ s) (d ∷ t) h =
    let (h1, t1, e1) = split_parts t in
    let (h2, t2, e2) = split_parts s in ground (arith, IsAncestor-covers s t, e1, e2)

prefix-IsAncestor :
    (a b : GoString)
    → has_prefix a (b ++ bytes "/") ≡ true
    → IsAncestor (split b'/' b) (split b'/' a)
prefix-IsAncestor a b h = covers-IsAncestor a b (unfold covers in ground (arith, h))

IsAncestor-prefix :
    (a b : GoString)
    → IsAncestor (split b'/' b) (split b'/' a)
    → (a ≡ b) ⊎ (has_prefix a (b ++ bytes "/") ≡ true)
IsAncestor-prefix a b h =
    let e = IsAncestor-covers a b h in unfold covers in ground (arith, e, str_eq_iff a b)

-- What an overlap means: the same kind, and the same key or, of paths, one above the other.
pub Overlap : Resource → Resource → Type 0
Overlap a b =
    (a.kind ≡ b.kind)
    × ((a.key ≡ b.key)
        ⊎ ((a.kind ≡ bytes "path")
            × (IsAncestor (components a.key) (components b.key)
                ⊎ IsAncestor (components b.key) (components a.key))))

overlaps-Overlap : (a b : Resource) → overlaps a b ≡ true → Overlap a b
unfolding overlaps Overlap components
overlaps-Overlap a b h = ground (
  arith,
  str_eq_iff a.kind b.kind,
  str_eq_iff a.kind (bytes "path"),
  str_eq_iff a.key b.key,
  prefix-IsAncestor a.key b.key,
  prefix-IsAncestor b.key a.key,
)

Overlap-overlaps : (a b : Resource) → Overlap a b → overlaps a b ≡ true
unfolding overlaps Overlap components
Overlap-overlaps a b h = ground (
  arith,
  str_eq_iff a.kind b.kind,
  str_eq_iff a.kind (bytes "path"),
  str_eq_iff a.key b.key,
  IsAncestor-prefix a.key b.key,
  IsAncestor-prefix b.key a.key,
)

-- Two claim keys overlap exactly when they have the same kind and either the same key or, both
-- being paths, one is the other's ancestor component by component ("." above every path).
pub overlaps_iff : (a b : Resource) → (overlaps a b ≡ true) ↔ Overlap a b
overlaps_iff a b = (overlaps-Overlap a b, Overlap-overlaps a b)

-- Which of two keys is the held one does not matter.
pub overlaps_comm : (a b : Resource) → overlaps a b ≡ overlaps b a
unfolding overlaps
overlaps_comm a b = ground (
  arith,
  str_eq_iff a.kind b.kind,
  str_eq_iff b.kind a.kind,
  str_eq_iff a.kind (bytes "path"),
  str_eq_iff b.kind (bytes "path"),
  str_eq_iff a.key b.key,
  str_eq_iff b.key a.key,
)
