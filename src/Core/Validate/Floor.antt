-- ===== src/Core/Validate/Floor.antt =====
-- Steps 7 and 8 of `validate_and_plan`: what it lets happen to an account that forbids overdraft.
use kuatia.Prelude.{
  ◌≡◌, sym, subst, ◌∙◌, true, false, some, List, [], arith, ℤ, pos, ◌+ℤ◌, ◌-ℤ◌, ◌≤ℤ◌, int_laws, ok,
  >>=-eq-ok, map_err-eq-ok, for_each-All, reject_if-eq-ok, Bool-cases, inl, inr, ◌⊎◌, All, All-imp,
  ok_or-eq-ok, Option-cases,
}
use kuatia.Prelude.Bytes.{Bytes}
use kuatia.Prelude.Map.{Map, lookup, All-lookup, contains_key}
use kuatia.Money.{Cent, checked_add, checked_sub, is_negative}
use kuatia.Money.Sums.{checked_add-eq}
use kuatia.Types.{
  BalanceKey, AccountId, Account, Posting, NewPosting, forbids_overdraft, account_id_eq,
  balance_key_eq, posting_id_eq,
}
use kuatia.Types.Select.{postings_at}
use kuatia.Core.Required.{PlanInput, Plan, from_overflow, account_not_found}
use kuatia.Core.Accumulate.{accumulate, get_or_zero, amount_of}
use kuatia.Core.Accumulate.Laws.{accumulate_add, accumulate_sub, get_or_zero_absent}
use kuatia.Core.Validate.{
  index_postings, owner_entries, new_owner_entries, check_floor, check_projected, build_plan,
  check_overdraft, check_negative, validate_and_plan,
}
use kuatia.Core.Validate.Conservation.{consumed_of-postings_at}
use kuatia.Core.Validate.Inversion.{validate-Passed}

nonneg_of : (c : Cent) → is_negative c ≡ false → pos 0 ≤ℤ c
nonneg_of c h = ground arith

module _ (accounts : Map AccountId Account) (balances : Map BalanceKey Cent)
    (key : BalanceKey) where
  check_projected-nonneg :
      (delta : Cent)
      → check_projected balances key delta ≡ ok tt
      → pos 0 ≤ℤ get_or_zero key balances +ℤ delta
  check_projected-nonneg delta h =
      let (c, added, r) = >>=-eq-ok _ _ h in
      let e : c ≡ get_or_zero key balances +ℤ delta =
        checked_add-eq _ delta (map_err-eq-ok from_overflow _ added) in
      subst (λ x. pos 0 ≤ℤ x) e (nonneg_of c (reject_if-eq-ok _ _ r))

  check_floor-nonneg :
      (delta : Cent) {a : Account}
      → lookup key.0 accounts ≡ some a
      → forbids_overdraft a ≡ true
      → check_floor accounts balances (key, delta) ≡ ok tt
      → pos 0 ≤ℤ get_or_zero key balances +ℤ delta
  unfolding check_floor
  check_floor-nonneg delta known forbids h = check_projected-nonneg delta (rw (known, forbids) at h)

-- The change of a balance: what is created less what is consumed.
abbrev pub change : BalanceKey → List Posting → List NewPosting → ℤ
change key consumed creates =
    amount_of key (new_owner_entries creates) -ℤ amount_of key (owner_entries consumed)

deltas-eq :
    (key : BalanceKey) (consumed : List Posting) (creates : List NewPosting)
    {debited deltas : Map BalanceKey Cent}
    → accumulate checked_sub (owner_entries consumed) [] ≡ ok debited
    → accumulate checked_add (new_owner_entries creates) debited ≡ ok deltas
    → get_or_zero key deltas ≡ change key consumed creates
unfolding get_or_zero lookup
deltas-eq key consumed creates h k =
    rw
      (
        accumulate_add (new_owner_entries creates) key _ k,
        accumulate_sub (owner_entries consumed) key [] h,
      )
      (omega int_laws)

-- A map that has a key has an entry for it.
entry_of :
    (P : BalanceKey → Cent → Type 0) (key : BalanceKey) (m : Map BalanceKey Cent)
    → All (λ x. P x.0 x.1) m
    → contains_key key m ≡ true
    → P key (get_or_zero key m)
unfolding get_or_zero
entry_of P key m h has = elim (Option-cases (lookup key m)) [
  | inl absent ↦ absurd (ground arith)
  | inr (c, found) ↦ rw (found, get_or_zero) (All-lookup P key c m h found)
]

module _ (accounts : Map AccountId Account) (balances : Map BalanceKey Cent)
    (consumed : List Posting) (creates : List NewPosting) (key : BalanceKey) where
  check_overdraft-floor :
      {a : Account}
      → lookup key.0 accounts ≡ some a
      → forbids_overdraft a ≡ true
      → check_overdraft accounts balances consumed creates ≡ ok tt
      → (pos 0 ≤ℤ get_or_zero key balances +ℤ change key consumed creates)
        ⊎ (change key consumed creates ≡ pos 0)
  unfolding check_overdraft
  check_overdraft-floor known forbids h =
      let (debited, h1, r1) = >>=-eq-ok _ _ h in
      let (deltas, h2, r2) = >>=-eq-ok _ _ r1 in
      let e : get_or_zero key deltas ≡ change key consumed creates =
        deltas-eq key consumed creates (map_err-eq-ok from_overflow _ h1)
          (map_err-eq-ok from_overflow _ h2) in
      let checks = for_each-All deltas (check_floor accounts balances) r2 in
      elim (Bool-cases (contains_key key deltas)) [
        | inl has ↦ inl (
            subst (λ d. pos 0 ≤ℤ get_or_zero key balances +ℤ d) e
              (check_floor-nonneg accounts balances key (get_or_zero key deltas) known forbids (
                entry_of (λ k d. check_floor accounts balances (k, d) ≡ ok tt) key deltas checks
                  has)))
        | inr absent ↦ inr (sym e ∙ get_or_zero_absent key deltas absent)
      ]

-- If validation returns a plan, then for each balance of an account that is loaded and forbids
-- overdraft: the balance that was loaded, plus what the plan changes, is not negative, or the plan
-- does not change it.
pub validate-floor :
    (sha256 : Bytes → Bytes) (input : PlanInput) {plan : Plan} (key : BalanceKey) {a : Account}
    → validate_and_plan sha256 input ≡ ok plan
    → lookup key.0 input.accounts ≡ some a
    → forbids_overdraft a ≡ true
    → let by_id = index_postings [] input.consumed_postings in
      let delta =
        change key (postings_at by_id plan.postings_to_deactivate) input.envelope.creates in
      (pos 0 ≤ℤ get_or_zero key input.balances +ℤ delta) ⊎ (delta ≡ pos 0)
unfolding build_plan
validate-floor sha256 input key h known forbids =
    let p = validate-Passed sha256 input h in
    rw (p.planned, ← consumed_of-postings_at _ _ p.found)
      (check_overdraft-floor input.accounts input.balances p.consumed input.envelope.creates key
        known forbids p.floors)

-- A posting that its owner may hold: it is not negative, or the owner permits overdraft.
abbrev pub MayHold : Map AccountId Account → NewPosting → Type 0
MayHold accounts p =
    (is_negative p.value ≡ false)
    ⊎ ((a : Account) × (lookup p.owner accounts ≡ some a) × (forbids_overdraft a ≡ false))

check_negative-MayHold :
    (accounts : Map AccountId Account) (p : NewPosting)
    → check_negative accounts p ≡ ok tt
    → MayHold accounts p
unfolding check_negative
check_negative-MayHold accounts p h = elim (Bool-cases (is_negative p.value)) [
  | inl neg ↦
      let (a, found, r) = >>=-eq-ok _ _ (rw neg at h) in
      inr (a, ok_or-eq-ok _ (account_not_found p.owner) found, reject_if-eq-ok _ _ r)
  | inr nonneg ↦ inl nonneg
]

-- If validation returns a plan, then each created posting is not negative, or belongs to a loaded
-- account that permits overdraft.
pub validate-offsets :
    (sha256 : Bytes → Bytes) (input : PlanInput) {plan : Plan}
    → validate_and_plan sha256 input ≡ ok plan
    → All (MayHold input.accounts) input.envelope.creates
validate-offsets sha256 input h =
    let p = validate-Passed sha256 input h in
    All-imp _ (check_negative-MayHold input.accounts) (for_each-All _ _ p.negatives)
