-- ===== src/Base/Sorting.antt =====
-- ORDER BY puts the least key first.
use koinon.Base.Tests.{leb, Bool-cases}
use koinon.Base.Tables.{order_by, insert_by}
use koinon.Base.Members.{In, order_by_iff}
use Prim.Native.Nat.{ℕ, ◌≤◌}
use native.Mathlib.Omega.{arith}
use mathlib.Core.Path.{◌≡◌, subst, refl}
use mathlib.Core.Logic.{inl, inr}
use mathlib.Core.List.{List, [], ◌∷◌}

module _ {A : Type 0} (key : A → ℕ) where
  -- the first row has the least key, and so on down
  abbrev pub IsSorted : List A → Type 0
  IsSorted [] = Unit
  IsSorted (x ∷ xs) = ((y : A) → In y xs → key x ≤ key y) × IsSorted xs

  insert_by-In' : (x y : A) (xs : List A) → In y (insert_by key x xs) → In y (x ∷ xs)
  unfolding insert_by
  insert_by-In' x y [] m = m
  insert_by-In' x y (z ∷ xs) m = ground (arith, insert_by-In' x y xs)

  insert_by-IsSorted : (x : A) (xs : List A) → IsSorted xs → IsSorted (insert_by key x xs)
  unfolding insert_by
  insert_by-IsSorted x [] s = ((λ y m. absurd m), tt)
  insert_by-IsSorted x (z ∷ xs) s = elim (Bool-cases (leb (key x) (key z))) [
    | inl h ↦ rw h (
      (λ y m. elim m [
        | inl e ↦ rw e (ground arith)
        | inr i ↦ let le = s.0 y i in ground (arith, le)
      ]),
      s,
    )
    | inr h ↦ rw h (
      (λ y m. elim (insert_by-In' x y xs m) [ inl e ↦ rw e (ground arith) | inr i ↦ s.0 y i ]),
      insert_by-IsSorted x xs s.1,
    )
  ]

  pub order_by-IsSorted : (xs : List A) → IsSorted (order_by key xs)
  unfolding order_by
  order_by-IsSorted [] = tt
  order_by-IsSorted (x ∷ xs) = insert_by-IsSorted x (order_by key xs) (order_by-IsSorted xs)

  -- The first row of an ordered query has the least key of all rows.
  pub order_by-least :
      (xs : List A) (b : A) (rest : List A) (c : A)
      → order_by key xs ≡ b ∷ rest
      → In c xs
      → key b ≤ key c
  order_by-least xs b rest c e m =
      least (subst IsSorted e (order_by-IsSorted xs)) (subst (In c) e ((order_by_iff key c xs).1 m))
    where
      least : IsSorted (b ∷ rest) → In c (b ∷ rest) → key b ≤ key c
      least s (inl p) = omega (arith, subst (λ z. key z ≡ key c) p refl)
      least s (inr i) = s.0 c i

pub empty_of_no_row : {A : Type 0} (xs : List A) → ((x : A) → ¬ In x xs) → xs ≡ []
empty_of_no_row [] h = refl
empty_of_no_row (x ∷ xs) h = absurd (h x (inl refl))
