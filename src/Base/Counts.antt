-- ===== src/Base/Counts.antt =====
-- How many rows a table has after each operation on it.
use Prim.Native.Nat.{ℕ, suc, ◌+◌, ◌≤◌}
use native.Mathlib.Omega.{arith}
use mathlib.Core.Path.{◌≡◌, refl}
use mathlib.Core.Bool.{Bool, true}
use mathlib.Core.List.{List, [], ◌∷◌, ◌++◌}
use koinon.Base.Strings.{length}
use koinon.Base.Tables.{select, update_rows, delete_rows, order_by, insert_by}

module _ {A : Type 0} where
  pub length-append : (xs ys : List A) → length (xs ++ ys) ≡ length xs + length ys
  length-append [] ys = omega arith
  length-append (x ∷ xs) ys = omega (arith, length-append xs ys)

  pub length-update_rows :
      (p : A → Bool) (f : A → A) (xs : List A) → length (update_rows p f xs) ≡ length xs
  unfolding update_rows
  length-update_rows p f [] = refl
  length-update_rows p f (x ∷ xs) = omega (arith, length-update_rows p f xs)

  pub length-delete_rows : (p : A → Bool) (xs : List A) → length (delete_rows p xs) ≤ length xs
  unfolding delete_rows
  length-delete_rows p [] = omega arith
  length-delete_rows p (x ∷ xs) = ground (arith, length-delete_rows p xs)

  length-insert_by :
      (key : A → ℕ) (x : A) (xs : List A) → length (insert_by key x xs) ≡ suc (length xs)
  unfolding insert_by
  length-insert_by key x [] = refl
  length-insert_by key x (y ∷ xs) = ground (arith, length-insert_by key x xs)

  pub length-order_by : (key : A → ℕ) (xs : List A) → length (order_by key xs) ≡ length xs
  unfolding order_by
  length-order_by key [] = refl
  length-order_by key (x ∷ xs) =
      omega (arith, length-insert_by key x (order_by key xs), length-order_by key xs)

  pub select-append :
      (q : A → Bool) (xs ys : List A) → select q (xs ++ ys) ≡ select q xs ++ select q ys
  unfolding select
  select-append q [] ys = refl
  select-append q (x ∷ xs) ys = ground (arith, select-append q xs ys)

  -- An update that does not change what is asked for keeps the count.
  pub length-select-update_rows :
      (q p : A → Bool) (f : A → A) (xs : List A)
      → ((x : A) → p x ≡ true → q (f x) ≡ q x)
      → length (select q (update_rows p f xs)) ≡ length (select q xs)
  unfolding select update_rows
  length-select-update_rows q p f [] h = refl
  length-select-update_rows q p f (x ∷ xs) h =
      ground (arith, h x, length-select-update_rows q p f xs h)

  pub length-select-delete_rows :
      (q p : A → Bool) (xs : List A) → length (select q (delete_rows p xs)) ≤ length (select q xs)
  unfolding select delete_rows
  length-select-delete_rows q p [] = omega arith
  length-select-delete_rows q p (x ∷ xs) = ground (arith, length-select-delete_rows q p xs)
