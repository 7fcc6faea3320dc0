-- ===== src/Base/Members.antt =====
-- Membership in a table, and in what `select`, `update_rows`, `delete_rows`, `order_by` and
-- `first_row` give.
use Prim.Native.Nat.{ℕ}
use mathlib.Core.Path.{◌≡◌, refl, sym, ap, subst}
use mathlib.Core.Logic.{◌⊎◌, inl, inr, ◌↔◌}
use mathlib.Core.Bool.{Bool, true, false}
use mathlib.Core.Option.{none, some}
use mathlib.Core.List.{List, [], ◌∷◌, ◌++◌, map}
use native.Mathlib.Omega.{arith}
use koinon.Base.Tests.{if◌then◌else◌}
use koinon.Base.Tables.{select, update_rows, delete_rows, first_row, any_row, order_by, insert_by}

-- by recursion, so that it computes to a choice between the rows
abbrev pub In : {A : Type 0} → A → List A → Type 0
In x [] = ⊥
In x (y ∷ ys) = (x ≡ y) ⊎ In x ys

module _ {A : Type 0} where
  pub In-append : (x : A) (xs ys : List A) → In x (xs ++ ys) → In x xs ⊎ In x ys
  In-append x [] ys m = inr m
  In-append x (z ∷ xs) ys (inl e) = inl (inl e)
  In-append x (z ∷ xs) ys (inr m) = elim (In-append x xs ys m) [
    | inl a ↦ inl (inr a)
    | inr b ↦ inr b
  ]

  pub In-left : (x : A) (xs ys : List A) → In x xs → In x (xs ++ ys)
  In-left x [] ys m = absurd m
  In-left x (z ∷ xs) ys (inl e) = inl e
  In-left x (z ∷ xs) ys (inr m) = inr (In-left x xs ys m)

  pub In-here : (xs : List A) (x : A) (ys : List A) → In x (xs ++ x ∷ ys)
  In-here [] x ys = inl refl
  In-here (y ∷ xs) x ys = inr (In-here xs x ys)

  pub In-last : (xs : List A) (x : A) → In x (xs ++ x ∷ [])
  In-last [] x = inl refl
  In-last (y ∷ xs) x = inr (In-last xs x)

  -- A selected row is a row that meets the condition.
  pub In-select : (p : A → Bool) (x : A) (xs : List A) → In x (select p xs) → In x xs × (p x ≡ true)
  unfolding select
  In-select p x [] m = elim m [ ]
  In-select p x (y ∷ xs) m = ground (arith, In-select p x xs)

  pub select-In : (p : A → Bool) (x : A) (xs : List A) → In x xs → p x ≡ true → In x (select p xs)
  unfolding select
  select-In p x [] m h = absurd m
  select-In p x (y ∷ xs) m h = ground (arith, select-In p x xs)

  -- An updated row comes from a row, changed where it met the condition.
  pub In-update_rows :
      (p : A → Bool) (f : A → A) (y : A) (xs : List A)
      → In y (update_rows p f xs)
      → (x : A) × In x xs × (y ≡ (if p x then f x else x))
  unfolding update_rows
  In-update_rows p f y [] m = absurd m
  In-update_rows p f y (x ∷ xs) (inl e) = (x, inl refl, e)
  In-update_rows p f y (x ∷ xs) (inr m) = let (z, i, e) = In-update_rows p f y xs m in (z, inr i, e)

  pub update_rows-In :
      (p : A → Bool) (f : A → A) (x : A) (xs : List A)
      → In x xs
      → In (if p x then f x else x) (update_rows p f xs)
  unfolding update_rows
  update_rows-In p f x [] m = absurd m
  update_rows-In p f x (y ∷ xs) (inl e) = inl (ap (λ z. if p z then f z else z) e)
  update_rows-In p f x (y ∷ xs) (inr m) = inr (update_rows-In p f x xs m)

  pub In-delete_rows :
      (p : A → Bool) (x : A) (xs : List A) → In x (delete_rows p xs) → In x xs × (p x ≡ false)
  unfolding delete_rows
  In-delete_rows p x [] m = elim m [ ]
  In-delete_rows p x (y ∷ xs) m = ground (arith, In-delete_rows p x xs)

  pub first_row-In :
      (p : A → Bool) (x : A) (xs : List A) → first_row p xs ≡ some x → In x xs × (p x ≡ true)
  unfolding first_row
  first_row-In p x [] h = cc
  first_row-In p x (y ∷ xs) h = ground (arith, first_row-In p x xs)

  pub first_row-none :
      (p : A → Bool) (x : A) (xs : List A) → first_row p xs ≡ none → In x xs → p x ≡ false
  unfolding first_row
  first_row-none p x [] h m = absurd m
  first_row-none p x (y ∷ xs) h m = ground (arith, first_row-none p x xs)

  pub any_row-false :
      (p : A → Bool) (x : A) (xs : List A) → any_row p xs ≡ false → In x xs → p x ≡ false
  unfolding any_row
  any_row-false p x [] h m = absurd m
  any_row-false p x (y ∷ xs) h m = ground (arith, any_row-false p x xs)

  In-insert_by :
      (key : A → ℕ) (x y : A) (xs : List A) → In x (insert_by key y xs) → (x ≡ y) ⊎ In x xs
  unfolding insert_by
  In-insert_by key x y [] m = m
  In-insert_by key x y (z ∷ xs) m = ground (arith, In-insert_by key x y xs)

  insert_by-In :
      (key : A → ℕ) (x y : A) (xs : List A) → (x ≡ y) ⊎ In x xs → In x (insert_by key y xs)
  unfolding insert_by
  insert_by-In key x y [] m = m
  insert_by-In key x y (z ∷ xs) m = ground (arith, insert_by-In key x y xs)

  -- Ordering keeps the rows.
  pub order_by_iff : (key : A → ℕ) (x : A) (xs : List A) → In x (order_by key xs) ↔ In x xs
  unfolding order_by
  order_by_iff key x [] = ((λ m. m), (λ m. m))
  order_by_iff key x (y ∷ xs) =
      let ih = order_by_iff key x xs in
      (
        λ m. elim (In-insert_by key x y (order_by key xs) m) [
          | inl e ↦ inl e
          | inr i ↦ inr (ih.0 i)
        ],
        λ m.
            insert_by-In key x y (order_by key xs)
              (elim m [ inl e ↦ inl e | inr i ↦ inr (ih.1 i) ]),
      )

abbrev pub All {κ} : {A : Type 0} → (A → Type κ) → List A → Type κ
All P [] = Unit
All P (x ∷ xs) = P x × All P xs

abbrev pub NoRepeat : {A : Type 0} → List A → Type 0
NoRepeat [] = Unit
NoRepeat (x ∷ xs) = (¬ In x xs) × NoRepeat xs

module _ {A : Type 0} where
  pub NoRepeat-middle : (xs : List A) (r : A) (ys : List A) → NoRepeat (xs ++ r ∷ ys) → ¬ In r xs
  NoRepeat-middle [] r ys n m = m
  NoRepeat-middle (x ∷ xs) r ys n (inl e) =
      n.0 (subst (λ z. In z (xs ++ r ∷ ys)) e (In-here xs r ys))
  NoRepeat-middle (x ∷ xs) r ys n (inr m) = NoRepeat-middle xs r ys n.1 m

  pub NoRepeat-last : (xs : List A) (r : A) → NoRepeat xs → ¬ In r xs → NoRepeat (xs ++ r ∷ [])
  NoRepeat-last [] r n m = ((λ i. i), tt)
  NoRepeat-last (x ∷ xs) r n m = (
    λ i. elim (In-append x xs (r ∷ []) i) [
      | inl old ↦ n.0 old
      | inr new ↦ elim new [ inl e ↦ m (inl (sym e)) | inr z ↦ z ]
    ],
    NoRepeat-last xs r n.1 (λ i. m (inr i)),
  )

  pub All-In {κ} : (P : A → Type κ) (x : A) (xs : List A) → All P xs → In x xs → P x
  All-In P x [] a m = absurd m
  All-In P x (y ∷ xs) a (inl e) = subst P (sym e) a.0
  All-In P x (y ∷ xs) a (inr m) = All-In P x xs a.1 m

  pub In-map :
      {B : Type 0} (f : A → B) (y : B) (xs : List A)
      → In y (map f xs)
      → (x : A) × In x xs × (y ≡ f x)
  In-map f y [] m = absurd m
  In-map f y (x ∷ xs) (inl e) = (x, inl refl, e)
  In-map f y (x ∷ xs) (inr m) = let (z, i, e) = In-map f y xs m in (z, inr i, e)

  pub map-In : {B : Type 0} (f : A → B) (x : A) (xs : List A) → In x xs → In (f x) (map f xs)
  map-In f x [] m = absurd m
  map-In f x (y ∷ xs) (inl e) = inl (ap f e)
  map-In f x (y ∷ xs) (inr m) = inr (map-In f x xs m)
