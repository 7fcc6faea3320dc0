-- ===== src/Storage/Credits.antt =====
-- The page debt that the controls of claims pay off.
use koinon.Base.{
  ℕ, ◌+◌, ◌≤◌, ◌≡◌, sym, subst, Bool, true, false, not, ◌||◌, some, List, [], ◌∷◌, arith, GoString,
  ltb, Bool-cases, Option-cases, inl, inr, first_row, first_row-In, update_rows,
}
use koinon.Failure.{ok}
use koinon.Claims.Rows.{Bundle, Db}
use koinon.Claims.Queries.{at_generation}
use koinon.Claims.Engine.{expire, overdue, end_claim, update_bundle}
use koinon.Claims.Invariant.{IsSound}
use koinon.Storage.{owes, claim_debt, overdue_credit_pages, end_credit_pages}

-- A change that raises no claim's debt pays off at least what it pays off of the first row.
update_pays :
    (p : Bundle → Bool) (f : Bundle → Bundle) (paid : ℕ) (b : Bundle) (rows : List Bundle)
    → ((x : Bundle) → owes (f x) ≤ owes x)
    → first_row p rows ≡ some b
    → owes (f b) + paid ≤ owes b
    → claim_debt (update_rows p f rows) + paid ≤ claim_debt rows
unfolding claim_debt update_rows first_row
update_pays p f paid b [] le h k = cc h
update_pays p f paid b (x ∷ rows) le h k = elim (Bool-cases (p x)) [
  | inl e ↦
      let q : x ≡ b = (let w = rw e at h in ground (arith, w)) in
      let r = no_more rows in
      let z : owes (f x) + paid ≤ owes x = subst (λ y. owes (f y) + paid ≤ owes y) (sym q) k in
      rw e (omega (arith, r, z))
  | inr e ↦
      let w = rw e at h in let r = update_pays p f paid b rows le w k in rw e (omega (arith, r))
]
  where
    no_more : (l : List Bundle) → claim_debt (update_rows p f l) ≤ claim_debt l
    no_more [] = omega arith
    no_more (y ∷ l) =
        let r = no_more l in
        let d = le y in
        elim (Bool-cases (p y)) [
          | inl e ↦ rw e (omega (arith, r, d))
          | inr e ↦ rw e (omega (arith, r))
        ]

-- In sound tables an expiry that ends a claim pays off at least the 768 pages of its end credit.
pub expire_pays :
    (db : Db) (store : GoString) (g now : ℕ) (db' : Db)
    → IsSound db now
    → expire db store g now ≡ (true, db')
    → claim_debt db'.bundles + end_credit_pages ≤ claim_debt db.bundles
unfolding expire end_claim update_bundle
expire_pays db store g now db' h e =
    elim (Option-cases (first_row (at_generation store g) db.bundles)) [
      | inl f ↦ let w = rw (f, expire) at e in cc w
      | inr (b, f) ↦
          let w = rw (f, expire) at e in
          let (i, _) = first_row-In (at_generation store g) b db.bundles f in
          let k = h.funded b i in
          elim (Bool-cases (not b.active || ltb now b.expires_at)) [
            | inl x ↦ let v = rw x at w in cc v
            | inr x ↦
                let v = rw x at w in
                let q : end_claim db store g ≡ db' = ground (arith, v) in
                subst (λ (d : Db). claim_debt d.bundles + end_credit_pages ≤ claim_debt db.bundles)
                  q
                  (update_pays (at_generation store g)
                    (λ o. record o { active = false; overdue_credit = false; end_credit = false })
                    end_credit_pages b db.bundles (λ y. unfold owes in ground arith) f
                    (unfold owes in (let c = k.end in ground (arith, c, x))))
          ]
    ]

-- In sound tables an overdue event that is recorded pays off at least the 576 pages of its credit.
pub overdue_pays :
    (db : Db) (store : GoString) (g epoch now : ℕ) (db' : Db)
    → IsSound db now
    → overdue db store g epoch ≡ ok (true, db')
    → claim_debt db'.bundles + overdue_credit_pages ≤ claim_debt db.bundles
unfolding overdue update_bundle
overdue_pays db store g epoch now db' h e =
    elim (Option-cases (first_row (at_generation store g) db.bundles)) [
      | inl f ↦ let w = rw (f, overdue) at e in cc w
      | inr (b, f) ↦
          let w = rw (f, overdue) at e in
          let (i, _) = first_row-In (at_generation store g) b db.bundles f in
          let k = h.funded b i in
          elim (Bool-cases (not b.active || b.overdue_recorded)) [
            | inl x ↦ let v = rw x at w in cc v
            | inr x ↦
                let v = rw x at w in
                let q : update_bundle db store g
                      (λ o. record o { overdue_credit = false; overdue_recorded = true })
                    ≡ db' =
                  ground (arith, v) in
                subst
                  (λ (d : Db). claim_debt d.bundles + overdue_credit_pages ≤ claim_debt db.bundles)
                  q
                  (update_pays (at_generation store g)
                    (λ o. record o { overdue_credit = false; overdue_recorded = true })
                    overdue_credit_pages b db.bundles (λ y. unfold owes in ground arith) f
                    (unfold owes in (let c = k.overdue in ground (arith, c, x))))
          ]
    ]
