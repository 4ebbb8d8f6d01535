-- ===== src/Core/Resolve/Assets.antt =====
-- crates/kuatia-core/src/posting_resolution.rs: the asset of what a resolved debit consumes and
-- creates.
use kuatia.Prelude.{
  All-filter, ◌≡◌, sym, ap, subst, List, [], ◌∷◌, map, arith, ℤ, pos, ◌+ℤ◌, leb_ℤ, int_laws, sum,
  if◌then◌else◌, ok, >>=-eq-ok, ok-injective, Bool-cases, Option-cases, inl, inr, All, All-imp, eqb,
  nat_eq,
}
use kuatia.Prelude.Map.{Map, lookup, All-lookup}
use kuatia.Prelude.Sort.{sort, All-sort}
use kuatia.Money.{Cent, cent_zero, checked_sub, checked_neg, is_positive}
use kuatia.Types.{
  AccountId, AssetId, BalanceKey, Account, Posting, NewPosting, account_id_eq, balance_key_eq,
}
use kuatia.Types.Select.{asset_value, new_asset_value}
use kuatia.Core.Resolve.{
  Debit, debit_key, take_postings, Selection, positives, select_postings, cover_shortfall,
  available_for, resolve_debit,
}
use kuatia.Core.Resolve.Take.{take_postings-Round, Ends, values_of, new_values_of}
use kuatia.Core.Resolve.Debits.{resolve_debit-balances, resolve_debit-cases}

module _ (P : Posting → Type 0) where
  take_postings-All :
      (amount acc : Cent) (ps : List Posting) (r : List Posting × Cent)
      → All P ps
      → take_postings amount acc ps ≡ ok r
      → All P r.0
  unfolding take_postings Ends
  take_postings-All amount acc [] r ps h =
      let e : ◌≡◌ {A = List Posting × Cent} ([], acc) r = ok-injective h in
      rw (← ap (λ x. x.0) e) tt
  take_postings-All amount acc (p ∷ ps) r h k =
      let round = take_postings-Round amount acc p ps r k in
      rw (round.first) (elim (round.ends) [
        | inl (enough, none_more, stop) ↦ rw none_more (h.0, tt)
        | inr (short, more) ↦
            (h.0, take_postings-All amount round.c ps (round.taken, round.end) h.1 more)
      ])

  -- A debit consumes only what was available for it.
  resolve_debit-All :
      (available : Map BalanceKey (List Posting)) (accounts : Map AccountId Account) (d : Debit)
      {s : Selection}
      → All P (available_for available d)
      → resolve_debit available accounts d ≡ ok s
      → All P s.consumed
  unfolding select_postings cover_shortfall
  resolve_debit-All available accounts d {s} from h =
      let avail = available_for available d in
      let some_of = All-filter P (λ p. is_positive p.value) avail from in
      elim (resolve_debit-cases available accounts d h) [
        | inl (enough, picked) ↦
            let sorted = sort (λ p q. leb_ℤ q.value p.value) (positives avail) in
            let ((taken, end), h2, r2) =
              >>=-eq-ok (take_postings d.amount cent_zero sorted) _ picked in
            let (change, h3, r3) = >>=-eq-ok (checked_sub end d.amount) _ r2 in
            let same : taken ≡ s.consumed = ap (λ x. x.consumed) (ok-injective r3) in
            rw (← same) (
              take_postings-All d.amount cent_zero sorted (taken, end)
                (All-sort P (λ p q. leb_ℤ q.value p.value) (positives avail) some_of) h2)
        | inr (permits, covered) ↦
            let (shortfall, h2, r2) =
              >>=-eq-ok (checked_sub d.amount (values_of (positives avail))) _ covered in
            let (offset, h3, r3) = >>=-eq-ok (checked_neg shortfall) _ r2 in
            let same : positives avail ≡ s.consumed = ap (λ x. x.consumed) (ok-injective r3) in
            rw (← same) some_of
      ]

-- The value of one asset in postings that all are of one asset.
one_asset :
    (a b : AssetId) (ps : List Posting)
    → All (λ p. p.asset ≡ b) ps
    → sum (map (asset_value a) ps) ≡ (if eqb b a then values_of ps else pos 0)
unfolding sum
one_asset a b [] h = ground arith
one_asset a b (p ∷ ps) h = elim (Bool-cases (eqb b a)) [
  | inl same ↦ rw (h.0, same, one_asset a b ps h.1, same)
  | inr other ↦ rw (h.0, other, one_asset a b ps h.1, other) (omega int_laws)
]

one_asset_new :
    (a b : AssetId) (ps : List NewPosting)
    → All (λ p. p.asset ≡ b) ps
    → sum (map (new_asset_value a) ps) ≡ (if eqb b a then new_values_of ps else pos 0)
unfolding sum
one_asset_new a b [] h = ground arith
one_asset_new a b (p ∷ ps) h = elim (Bool-cases (eqb b a)) [
  | inl same ↦ rw (h.0, same, one_asset_new a b ps h.1, same)
  | inr other ↦ rw (h.0, other, one_asset_new a b ps h.1, other) (omega int_laws)
]

abbrev pub debit_value : AssetId → Debit → ℤ
debit_value a d = if eqb d.asset a then d.amount else pos 0

-- Every posting that is available for a balance is of the balance's asset.
abbrev pub AreOfAsset : Map BalanceKey (List Posting) → Type 0
AreOfAsset available = All (λ x. All (λ p. p.asset ≡ x.0.1) x.1) available

available_for-asset :
    (available : Map BalanceKey (List Posting)) (d : Debit)
    → AreOfAsset available
    → All (λ p. p.asset ≡ d.asset) (available_for available d)
available_for-asset available d h = elim (Option-cases (lookup (debit_key d) available)) [
  | inl absent ↦
      let none_there : available_for available d ≡ [] = rw (available_for, absent) in
      subst (All (λ p. p.asset ≡ d.asset)) (sym none_there) tt
  | inr (ps, found) ↦
      let these : available_for available d ≡ ps = rw (available_for, found) in
      subst (All (λ p. p.asset ≡ d.asset)) (sym these)
        (All-lookup (λ k qs. All (λ p. p.asset ≡ k.1) qs) (debit_key d) ps available h found)
]

-- One debit, seen from an asset.
pub resolve_debit-value :
    (available : Map BalanceKey (List Posting)) (accounts : Map AccountId Account) (a : AssetId)
    (d : Debit) {s : Selection}
    → AreOfAsset available
    → resolve_debit available accounts d ≡ ok s
    → sum (map (asset_value a) s.consumed)
      ≡ debit_value a d +ℤ sum (map (new_asset_value a) s.created)
resolve_debit-value available accounts a d {s} h e =
    let (balances, own_all) = resolve_debit-balances available accounts d e in
    let of_asset =
      resolve_debit-All (λ p. p.asset ≡ d.asset) available accounts d
        (available_for-asset available d h) e in
    let made = one_asset_new a d.asset s.created (All-imp _ (λ p k. k.1) own_all) in
    let used = one_asset a d.asset s.consumed of_asset in
    elim (Bool-cases (eqb d.asset a)) [
      | inl same ↦ rw (used, made, same) balances
      | inr other ↦ rw (used, made, other) (omega int_laws)
    ]
