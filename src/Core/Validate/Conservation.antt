-- ===== src/Core/Validate/Conservation.antt =====
-- Step 6 of `validate_and_plan`: the sums of each asset.
use kuatia.Prelude.{
  map_err, ◌≡◌, refl, sym, ◌∙◌, ap, ℕ, ◌+◌, List, [], ◌∷◌, ◌++◌, arith, ok, >>=-eq-ok,
  map_err-eq-ok, for_each-All, reject_if-eq-ok, Bool-cases, inl, inr, All, All-append_left,
  All-append_right, eqb_ℤ_iff, zero_add, Eq, int_eq, nat_eq, or_panic-eq-ok, ok-injective, or_panic,
}
use kuatia.Prelude.Bytes.{Bytes}
use kuatia.Prelude.Map.{Map, lookup, keys, contains_key, All-keys}
use kuatia.Money.{Cent, checked_add}
use kuatia.Types.{AssetId, PostingId, EnvelopeId, Posting, NewPosting, posting_id_eq}
use kuatia.Types.Select.{postings_at}
use kuatia.Core.Required.{PlanInput, Plan, ValidationError, from_overflow}
use kuatia.Core.Accumulate.{accumulate, get_or_zero, amount_of}
use kuatia.Core.Accumulate.Laws.{accumulate_add, get_or_zero_absent}
use kuatia.Core.Validate.{
  index_postings, consumed_of, asset_entries, new_asset_entries, check_asset, check_conservation,
  number_postings, build_plan, validate_and_plan,
}
use kuatia.Core.Validate.Inversion.{validate-Passed}

pub consumed_of-postings_at :
    (by_id : Map PostingId Posting) (pids : List PostingId) {ps : List Posting}
    → consumed_of by_id pids ≡ ok ps
    → ps ≡ postings_at by_id pids
unfolding consumed_of postings_at
consumed_of-postings_at by_id [] h = sym (ok-injective h)
consumed_of-postings_at by_id (pid ∷ pids) h =
    let (p, found, rest) = >>=-eq-ok (or_panic (lookup pid by_id)) _ h in
    let (ps, more, last) = >>=-eq-ok (consumed_of by_id pids) _ rest in
    rw (or_panic-eq-ok {E = ValidationError} (lookup pid by_id) found, postings_at)
      (sym (ok-injective last) ∙ ap (λ l. p ∷ l) (consumed_of-postings_at by_id pids more))

module _ (consumed created : Map AssetId Cent) (asset : AssetId) where
  check_asset-eq :
      check_asset consumed created asset ≡ ok tt
      → get_or_zero asset consumed ≡ get_or_zero asset created
  unfolding check_asset
  check_asset-eq h = ground (
    arith,
    reject_if-eq-ok _ _ h,
    eqb_ℤ_iff (get_or_zero asset consumed) (get_or_zero asset created),
  )

  -- An asset on neither side counts as zero on both.
  same_amounts :
      All (λ a. check_asset consumed created a ≡ ok tt) (keys consumed ++ keys created)
      → get_or_zero asset consumed ≡ get_or_zero asset created
  same_amounts h = elim (Bool-cases (contains_key asset consumed)) [
    | inl has ↦ check_asset-eq (All-keys Checked asset consumed (All-append_left Checked _ _ h) has)
    | inr absent ↦ elim (Bool-cases (contains_key asset created)) [
      | inl has ↦
          check_asset-eq (All-keys Checked asset created (All-append_right Checked _ _ h) has)
      | inr also ↦
          get_or_zero_absent asset consumed absent ∙ sym (get_or_zero_absent asset created also)
    ]
  ]
    where
      Checked : AssetId → Type 0
      Checked a = check_asset consumed created a ≡ ok tt

-- The sums of an accumulation that starts from the empty map.
pub accumulated :
    {K : Type 0} ⦃e : Eq K⦄ (xs : List (K × Cent)) (k : K) {m : Map K Cent}
    → map_err from_overflow (accumulate checked_add xs []) ≡ ok m
    → get_or_zero k m ≡ amount_of k xs
unfolding get_or_zero lookup
accumulated xs k h =
    accumulate_add xs k [] (map_err-eq-ok from_overflow _ h) ∙ zero_add (amount_of k xs)

pub check_conservation-eq :
    (consumed : List Posting) (creates : List NewPosting) (asset : AssetId)
    → check_conservation consumed creates ≡ ok tt
    → amount_of asset (asset_entries consumed) ≡ amount_of asset (new_asset_entries creates)
unfolding check_conservation
check_conservation-eq consumed creates asset h =
    let (c, h1, r1) = >>=-eq-ok _ _ h in
    let (d, h2, r2) = >>=-eq-ok _ _ r1 in
    sym (accumulated (asset_entries consumed) asset h1)
    ∙ same_amounts c d asset (for_each-All _ _ r2)
    ∙ accumulated (new_asset_entries creates) asset h2

number_postings-assets :
    (tid : EnvelopeId) (i : ℕ) (ps : List NewPosting)
    → asset_entries (number_postings tid i ps) ≡ new_asset_entries ps
unfolding number_postings
number_postings-assets tid i [] = refl
number_postings-assets tid i (p ∷ ps) =
    ap (λ l. (p.asset, p.value) ∷ l) (number_postings-assets tid (i + 1) ps)

-- If validation returns a plan, then for each asset the exact sum of the consumed postings is the
-- exact sum of the postings that the plan creates.
pub validate-conserves :
    (sha256 : Bytes → Bytes) (input : PlanInput) {plan : Plan} (asset : AssetId)
    → validate_and_plan sha256 input ≡ ok plan
    → amount_of asset (
        asset_entries
          (postings_at (index_postings [] input.consumed_postings) plan.postings_to_deactivate))
      ≡ amount_of asset (asset_entries plan.postings_to_create)
unfolding build_plan
validate-conserves sha256 input asset h =
    let p = validate-Passed sha256 input h in
    let creates = input.envelope.creates in
    rw (p.planned, ← consumed_of-postings_at _ _ p.found, number_postings-assets _ 0 creates)
      (check_conservation-eq p.consumed creates asset p.conserved)
