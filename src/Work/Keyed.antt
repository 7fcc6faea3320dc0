-- ===== src/Work/Keyed.antt =====
-- The rows of a table under a change of one row: their keys and their counts.
use koinon.Base.{
  suc, ◌≡◌, ◌≤◌, refl, sym, ap, subst, ◌∙◌, Bool, true, false, List, [], ◌∷◌, ◌++◌, map, arith,
  length, select, update_rows, In, NoRepeat, map-In, inl, inr, Bool-cases,
}

-- A new row that is not counted keeps a count.
pub uncounted :
    {A : Type 0} (q : A → Bool) (w : A) (rows : List A)
    → q w ≡ false
    → length (select q (rows ++ w ∷ [])) ≡ length (select q rows)
unfolding select
uncounted q w [] h = ground (arith, h)
uncounted q w (x ∷ rows) h = ground (arith, uncounted q w rows h)

module _ {A K : Type 0} (key : A → K) where
  -- A key names one row.
  pub same_row :
      (rows : List A) (v w : A)
      → NoRepeat (map key rows)
      → In v rows
      → In w rows
      → key v ≡ key w
      → v ≡ w
  same_row [] v w n i j e = absurd i
  same_row (x ∷ rows) v w n (inl a) (inl b) e = a ∙ sym b
  same_row (x ∷ rows) v w n (inl a) (inr j) e =
      absurd (n.0 (subst (λ z. In z (map key rows)) (sym e ∙ ap key a) (map-In key w rows j)))
  same_row (x ∷ rows) v w n (inr i) (inl b) e =
      absurd (n.0 (subst (λ z. In z (map key rows)) (e ∙ ap key b) (map-In key v rows i)))
  same_row (x ∷ rows) v w n (inr i) (inr j) e = same_row rows v w n.1 i j e

  module _ (p : A → Bool) (w : A) where
    pub keys-replaced :
        (rows : List A)
        → ((x : A) → In x rows → p x ≡ true → key x ≡ key w)
        → map key (update_rows p (λ o. w) rows) ≡ map key rows
    unfolding update_rows
    keys-replaced [] h = refl
    keys-replaced (x ∷ rows) h =
        let ih = keys-replaced rows (λ y i. h y (inr i)) in
        elim (Bool-cases (p x)) [
          | inl e ↦ rw (e, ih, h x (inl refl) e) refl
          | inr e ↦ rw (e, ih) refl
        ]

    -- no row of the key is left unmatched
    unmatched :
        (rows : List A)
        → ((x : A) → In x rows → p x ≡ true → key x ≡ key w)
        → ¬ In (key w) (map key rows)
        → update_rows p (λ o. w) rows ≡ rows
    unfolding update_rows
    unmatched [] h n = refl
    unmatched (x ∷ rows) h n =
        let ih = unmatched rows (λ y i. h y (inr i)) (λ m. n (inr m)) in
        elim (Bool-cases (p x)) [
          | inl e ↦ absurd (n (inl (sym (h x (inl refl) e))))
          | inr e ↦ rw (e, ih) refl
        ]

    -- A change of the row of one key adds at most one to a count.
    pub count-grows :
        (q : A → Bool) (rows : List A)
        → NoRepeat (map key rows)
        → ((x : A) → In x rows → p x ≡ true → key x ≡ key w)
        → length (select q (update_rows p (λ o. w) rows)) ≤ suc (length (select q rows))
    unfolding update_rows select
    count-grows q [] n h = omega arith
    count-grows q (x ∷ rows) n h = elim (Bool-cases (p x)) [
      | inl e ↦
          let k =
            unmatched rows (λ y i. h y (inr i))
              (λ m. n.0 (subst (λ z. In z (map key rows)) (sym (h x (inl refl) e)) m)) in
          rw (e, k) (ground arith)
      | inr e ↦ let ih = count-grows q rows n.1 (λ y i. h y (inr i)) in rw e (ground (arith, ih))
    ]

    -- Where the new row is counted only if the old one was, the count does not grow.
    pub count-kept :
        (q : A → Bool) (rows : List A)
        → ((x : A) → In x rows → p x ≡ true → q w ≡ true → q x ≡ true)
        → length (select q (update_rows p (λ o. w) rows)) ≤ length (select q rows)
    unfolding update_rows select
    count-kept q [] h = omega arith
    count-kept q (x ∷ rows) h =
        let ih = count-kept q rows (λ y i. h y (inr i)) in
        let here = h x (inl refl) in ground (arith, ih, here)
