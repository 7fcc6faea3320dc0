-- ===== src/Base/Pairs.antt =====
-- Two tables row by row, membership after a DELETE, and the rows behind an EXISTS.
use mathlib.Core.Path.{◌≡◌, refl}
use mathlib.Core.Logic.{inl, inr, ◌↔◌}
use mathlib.Core.Bool.{Bool, true, false}
use mathlib.Core.List.{List, [], ◌∷◌}
use mathlib.Core.List.{Perm}
use mathlib.Core.List.Perm
use Prim.Native.Nat.{ℕ}
use native.Mathlib.Omega.{arith}
use koinon.Base.Tests.{Bool-cases, leb}
use koinon.Base.Tables.{update_rows, delete_rows, any_row, order_by, insert_by}
use koinon.Base.Members.{In, In-delete_rows}

-- The tables have the same number of rows, and the relation holds of each row and its counterpart.
abbrev pub Rowwise : {A : Type 0} → (A → A → Type 0) → List A → List A → Type 0
Rowwise R [] [] = Unit
Rowwise R [] (y ∷ ys) = ⊥
Rowwise R (x ∷ xs) [] = ⊥
Rowwise R (x ∷ xs) (y ∷ ys) = R x y × Rowwise R xs ys

module _ {A : Type 0} where
  pub Rowwise-update_rows :
      (R : A → A → Type 0) (p : A → Bool) (f : A → A) (xs : List A)
      → ((x : A) → p x ≡ true → R x (f x))
      → ((x : A) → p x ≡ false → R x x)
      → Rowwise R xs (update_rows p f xs)
  unfolding update_rows
  Rowwise-update_rows R p f [] h k = tt
  Rowwise-update_rows R p f (x ∷ xs) h k = (
    elim (Bool-cases (p x)) [ inl e ↦ rw e (h x e) | inr e ↦ rw e (k x e) ],
    Rowwise-update_rows R p f xs h k,
  )

  pub Rowwise-refl : (R : A → A → Type 0) (xs : List A) → ((x : A) → R x x) → Rowwise R xs xs
  Rowwise-refl R [] h = tt
  Rowwise-refl R (x ∷ xs) h = (h x, Rowwise-refl R xs h)

  delete_rows-In :
      (p : A → Bool) (x : A) (rows : List A) → In x rows → p x ≡ false → In x (delete_rows p rows)
  unfolding delete_rows
  delete_rows-In p x [] i h = absurd i
  delete_rows-In p x (y ∷ rows) i h = ground (arith, delete_rows-In p x rows)

  -- A DELETE keeps the rows that do not meet the condition.
  pub kept_iff :
      (p : A → Bool) (x : A) (rows : List A)
      → In x (delete_rows p rows) ↔ (In x rows × (p x ≡ false))
  kept_iff p x rows = ((λ i. In-delete_rows p x rows i), (λ (i, h). delete_rows-In p x rows i h))

  pub any_row_iff :
      (p : A → Bool) (xs : List A) → (any_row p xs ≡ true) ↔ ((x : A) × In x xs × (p x ≡ true))
  unfolding any_row
  any_row_iff p [] = ((λ h. cc h), λ (x, i, h). absurd i)
  any_row_iff p (y ∷ xs) =
      let (a, b) = any_row_iff p xs in
      (
        λ h. elim (Bool-cases (p y)) [
          | inl e ↦ (y, inl refl, e)
          | inr e ↦ let (x, i, k) = a (ground (arith, h, e)) in (x, inr i, k)
        ],
        λ (x, i, k). elim i [
          | inl q ↦ ground (arith, q, k)
          | inr j ↦ let g = b (x, j, k) in ground (arith, g)
        ],
      )

  insert_by-Perm : (key : A → ℕ) (x : A) (xs : List A) → Perm (insert_by key x xs) (x ∷ xs)
  unfolding insert_by
  insert_by-Perm key x [] = Perm.refl (x ∷ [])
  insert_by-Perm key x (y ∷ ys) = elim (Bool-cases (leb (key x) (key y))) [
    | inl e ↦ rw e (Perm.refl (x ∷ y ∷ ys))
    | inr e ↦ rw e (Perm.trans (Perm.cons y (insert_by-Perm key x ys)) (Perm.swap x y ys))
  ]

  -- Ordering keeps the rows and how often each stands there.
  pub order_by-Perm : (key : A → ℕ) (xs : List A) → Perm (order_by key xs) xs
  unfolding order_by
  order_by-Perm key [] = Perm.refl []
  order_by-Perm key (x ∷ xs) =
      Perm.trans (insert_by-Perm key x (order_by key xs)) (Perm.cons x (order_by-Perm key xs))
