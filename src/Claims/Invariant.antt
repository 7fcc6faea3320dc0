-- ===== src/Claims/Invariant.antt =====
-- What holds of the claim tables at a time `now`, and the changes of a bundle that keep it.
use koinon.Base.{
  ℕ, ◌≤◌, ◌≡◌, refl, sym, ap, subst, ◌∙◌, Bool, true, not, ◌&&◌, List, arith, In, update_rows,
  In-update_rows, Bool-cases, inl, inr, if◌then◌else◌,
}
use koinon.Resource.{Resource, overlaps}
use koinon.Claims.Rows.{Bundle, ResourceRow, StoreRow, Db}
use koinon.Claims.Queries.{bundle_resources}
use koinon.Claims.Engine.{is_live}

-- A generation that has not ended is funded for its end, and for one overdue event until that
-- is recorded; one that has ended is funded for nothing.
pub record IsFunded (b : Bundle) : Type 0 where
  pub end : b.end_credit ≡ b.active
  pub overdue : b.overdue_credit ≡ (b.active && not b.overdue_recorded)

pub record IsSound (db : Db) (now : ℕ) : Type 0 where
  -- a generation names one bundle of its store
  pub unique :
      (b c : Bundle)
      → In b db.bundles
      → In c db.bundles
      → b.store ≡ c.store
      → b.generation ≡ c.generation
      → b ≡ c
  -- no generation is past its store's counter, neither a bundle's nor a key's
  pub bounded :
      (b : Bundle) (s : StoreRow)
      → In b db.bundles
      → In s db.memory_stores
      → s.store_id ≡ b.store
      → b.generation ≤ s.claim_counter
  pub keys_bounded :
      (r : ResourceRow) (s : StoreRow)
      → In r db.claim_resources
      → In s db.memory_stores
      → s.store_id ≡ r.store
      → r.generation ≤ s.claim_counter
  -- the keys of two live claims of a store do not overlap
  pub exclusive :
      (b c : Bundle) (r s : Resource)
      → In b db.bundles
      → In c db.bundles
      → b.store ≡ c.store
      → is_live b now ≡ true
      → is_live c now ≡ true
      → In r (bundle_resources db b.store b.generation)
      → In s (bundle_resources db c.store c.generation)
      → overlaps r s ≡ true
      → b.generation ≡ c.generation
  pub funded : (b : Bundle) → In b db.bundles → IsFunded b

-- A change of a bundle that brings no claim to life.
pub record Fits (now : ℕ) (b b' : Bundle) : Type 0 where
  pub store : b'.store ≡ b.store
  pub generation : b'.generation ≡ b.generation
  pub live : is_live b' now ≡ true → is_live b now ≡ true
  pub funded : IsFunded b → IsFunded b'

stays : (now : ℕ) (x : Bundle) → Fits now x x
stays now x = record { store = refl; generation = refl; live = λ h. h; funded = λ h. h }

-- Every row that the update writes comes from a row that it fits.
origin :
    (now : ℕ) (p : Bundle → Bool) (f : Bundle → Bundle) (rows : List Bundle)
    → ((b : Bundle) → In b rows → p b ≡ true → Fits now b (f b))
    → (y : Bundle) → In y (update_rows p f rows)
    → (x : Bundle) × In x rows × Fits now x y × (y ≡ (if p x then f x else x))
origin now p f rows fits y m =
    let (x, i, e) = In-update_rows p f y rows m in
    let fit : Fits now x (if p x then f x else x) = elim (Bool-cases (p x)) [
      | inl h ↦ rw h (fits x i h)
      | inr h ↦ rw h (stays now x)
    ] in
    (x, i, subst (Fits now x) (sym e) fit, e)

pub update-IsSound :
    (db : Db) (now : ℕ) (p : Bundle → Bool) (f : Bundle → Bundle)
    → ((b : Bundle) → In b db.bundles → p b ≡ true → Fits now b (f b))
    → IsSound db now
    → IsSound (record db { bundles = update_rows p f db.bundles }) now
unfolding bundle_resources
update-IsSound db now p f fits h = record {
  unique = λ b c i j e g.
      let (x, ix, fx, ex) = origin now p f db.bundles fits b i in
      let (y, iy, fy, ey) = origin now p f db.bundles fits c j in
      let same =
        h.unique x y ix iy (sym fx.store ∙ e ∙ fy.store) (sym fx.generation ∙ g ∙ fy.generation) in
      ex ∙ ap (λ z. if p z then f z else z) same ∙ sym ey;
  bounded = λ b s i j e.
      let (x, ix, fx, ex) = origin now p f db.bundles fits b i in
      omega (arith, fx.generation, h.bounded x s ix j (e ∙ fx.store));
  keys_bounded = h.keys_bounded;
  exclusive = λ b c r s i j e lb lc ir is o.
      let (x, ix, fx, ex) = origin now p f db.bundles fits b i in
      let (y, iy, fy, ey) = origin now p f db.bundles fits c j in
      fx.generation
      ∙ h.exclusive x y r s ix iy (sym fx.store ∙ e ∙ fy.store) (fx.live lb) (fy.live lc)
          (rw (← fx.store, ← fx.generation) ir) (rw (← fy.store, ← fy.generation) is) o
      ∙ sym fy.generation;
  funded =
      λ b i. let (x, ix, fx, ex) = origin now p f db.bundles fits b i in fx.funded (h.funded x ix);
}

-- Time passes: fewer claims are live.
pub later-IsSound : (db : Db) (now later : ℕ) → now ≤ later → IsSound db now → IsSound db later
unfolding is_live
later-IsSound db now later le h = record {
  unique = h.unique;
  bounded = h.bounded;
  keys_bounded = h.keys_bounded;
  exclusive = λ b c r s i j e lb lc. h.exclusive b c r s i j e (ground arith) (ground arith);
  funded = h.funded;
}
