-- ===== src/Core/Resolve/Debits.antt =====
-- crates/kuatia-core/src/posting_resolution.rs: one debit, what it consumes and what it creates.
use kuatia.Prelude.{
  ◌≡◌, refl, true, false, List, [], ◌∷◌, map, arith, ℤ, pos, ◌+ℤ◌, ◌-ℤ◌, ◌≤ℤ◌, leb_ℤ, int_laws, sum,
  if◌then◌else◌, ok, map_err, >>=-eq-ok, map_err-eq-ok, ok-injective, Bool-cases, inl, inr, All,
  ◌⊎◌,
}
use kuatia.Prelude.Map.{Map}
use kuatia.Prelude.Sort.{sort, sum-sort}
use kuatia.Money.{Cent, cent_zero, checked_sub, checked_neg, checked_sum, is_positive}
use kuatia.Money.Sums.{checked_sub-eq, checked_neg-eq, checked_sum-eq}
use kuatia.Types.{
  AccountId, BalanceKey, Account, Posting, NewPosting, account_id_eq, balance_key_eq,
}
use kuatia.Core.Resolve.{
  from_overflow, Debit, take_postings, Selection, own, positives, select_postings, cover_shortfall,
  permits_overdraft, available_for, resolve_debit,
}
use kuatia.Core.Resolve.Take.{
  values_of, new_values_of, take_postings-sum, take_postings-enough, le_of,
}

cover_shortfall-balances :
    (d : Debit) (avail : List Posting) (total : Cent) {s : Selection}
    → total ≡ values_of (positives avail)
    → cover_shortfall d avail total ≡ ok s
    → values_of s.consumed ≡ d.amount +ℤ new_values_of s.created
unfolding cover_shortfall sum
cover_shortfall-balances d avail total {s} e h =
    let (shortfall, h1, r1) = >>=-eq-ok _ _ h in
    let (offset, h2, r2) = >>=-eq-ok _ _ r1 in
    rw (← ok-injective r2, checked_neg-eq shortfall h2, checked_sub-eq d.amount total h1, e)
      (omega int_laws)

change_zero : (c d : ℤ) → is_positive (c -ℤ d) ≡ false → d ≤ℤ c → c ≡ d
change_zero c d h k = let le : c -ℤ d ≤ℤ pos 0 = not_pos (c -ℤ d) h in omega int_laws
  where
    not_pos : (x : ℤ) → is_positive x ≡ false → x ≤ℤ pos 0
    not_pos x e = ground arith

select_postings-balances :
    (d : Debit) (avail : List Posting) {s : Selection}
    → d.amount ≤ℤ values_of (positives avail)
    → select_postings d avail ≡ ok s
    → values_of s.consumed ≡ d.amount +ℤ new_values_of s.created
unfolding select_postings sum
select_postings-balances d avail {s} enough h =
    let sorted = sort (λ p q. leb_ℤ q.value p.value) (positives avail) in
    let same = sum-sort (λ p. p.value) (λ p q. leb_ℤ q.value p.value) (positives avail) in
    let ((taken, end), h1, r1) = >>=-eq-ok (take_postings d.amount cent_zero sorted) _ h in
    let (change, h2, r2) = >>=-eq-ok (checked_sub end d.amount) _ r1 in
    let all_sum = take_postings-sum d.amount cent_zero sorted (taken, end) h1 in
    let reached =
      take_postings-enough d.amount cent_zero sorted (taken, end) (rw same (omega int_laws)) h1 in
    let exact : change ≡ end -ℤ d.amount = checked_sub-eq end d.amount h2 in
    let whole : ◌≡◌ {A = Selection}
        (record {
          consumed = taken;
          created = if is_positive change then own d change ∷ [] else [];
        })
        s =
      ok-injective r2 in
    rw (← whole) (elim (Bool-cases (is_positive change)) [
      | inl more ↦ rw (more, exact, all_sum) (omega int_laws)
      | inr none_left ↦
          let even : end ≡ d.amount = change_zero end d.amount (rw exact at none_left) reached in
          rw (none_left, ← even, all_sum) (omega int_laws)
    ])

-- What a debit creates beyond change: only an account that permits overdraft goes negative.
abbrev pub MayOffset : Map AccountId Account → Debit → NewPosting → Type 0
MayOffset accounts d p =
    (p.owner ≡ d.account)
    × (p.asset ≡ d.asset)
    × ((pos 0 ≤ℤ p.value) ⊎ (permits_overdraft accounts d.account ≡ true))

select_postings-own :
    (accounts : Map AccountId Account) (d : Debit) (avail : List Posting) {s : Selection}
    → select_postings d avail ≡ ok s
    → All (MayOffset accounts d) s.created
unfolding select_postings
select_postings-own accounts d avail {s} h =
    let ((taken, end), h1, r1) =
      >>=-eq-ok
        (take_postings d.amount cent_zero (sort (λ p q. leb_ℤ q.value p.value) (positives avail))) _
        h in
    let (change, h2, r2) = >>=-eq-ok (checked_sub end d.amount) _ r1 in
    let whole : ◌≡◌ {A = Selection}
        (record {
          consumed = taken;
          created = if is_positive change then own d change ∷ [] else [];
        })
        s =
      ok-injective r2 in
    rw (← whole) (elim (Bool-cases (is_positive change)) [
      | inl more ↦ rw more ((refl, refl, inl (nonneg change more)), tt)
      | inr none_left ↦ rw none_left tt
    ])
  where
    nonneg : (c : ℤ) → is_positive c ≡ true → pos 0 ≤ℤ c
    nonneg c e = ground arith

cover_shortfall-own :
    (accounts : Map AccountId Account) (d : Debit) (avail : List Posting) (total : Cent)
    {s : Selection}
    → permits_overdraft accounts d.account ≡ true
    → cover_shortfall d avail total ≡ ok s
    → All (MayOffset accounts d) s.created
unfolding cover_shortfall
cover_shortfall-own accounts d avail total {s} permits h =
    let (shortfall, h1, r1) = >>=-eq-ok (checked_sub d.amount total) _ h in
    let (offset, h2, r2) = >>=-eq-ok (checked_neg shortfall) _ r1 in
    let whole : ◌≡◌ {A = Selection}
        (record { consumed = positives avail; created = own d offset ∷ [] }) s =
      ok-injective r2 in
    rw (← whole) ((refl, refl, inr permits), tt)

-- A debit that is resolved is covered by the postings taken, or its account permits overdraft and
-- every positive posting is consumed.
pub resolve_debit-cases :
    (available : Map BalanceKey (List Posting)) (accounts : Map AccountId Account) (d : Debit)
    {s : Selection}
    → resolve_debit available accounts d ≡ ok s
    → let avail = available_for available d in
      (d.amount ≤ℤ values_of (positives avail)) × (select_postings d avail ≡ ok s)
      ⊎ (permits_overdraft accounts d.account ≡ true)
        × (cover_shortfall d avail (values_of (positives avail)) ≡ ok s)
unfolding resolve_debit
resolve_debit-cases available accounts d {s} h =
    let avail = available_for available d in
    let (total, h1, r1) =
      >>=-eq-ok (map_err from_overflow (checked_sum (map (λ p. p.value) (positives avail)))) _ h in
    let exact : total ≡ values_of (positives avail) =
      checked_sum-eq _ (map_err-eq-ok from_overflow _ h1) in
    elim (Bool-cases (leb_ℤ d.amount total)) [
      | inl enough ↦ inl (
        rw (← exact) (le_of d.amount total enough),
        map_err-eq-ok from_overflow (select_postings d avail) (rw enough at r1),
      )
      | inr short ↦ elim (Bool-cases (permits_overdraft accounts d.account)) [
        | inl permits ↦ inr (
          permits,
          rw (← exact) (
              map_err-eq-ok from_overflow (cover_shortfall d avail total)
                (rw (short, permits) at r1)),
        )
        | inr forbids ↦ absurd (ground arith)
      ]
    ]

-- If a debit is resolved, then what it consumes is worth exactly the debit and what it creates, it
-- creates postings only for the debit's own account and asset, and a negative one only where the
-- account permits overdraft.
pub resolve_debit-balances :
    (available : Map BalanceKey (List Posting)) (accounts : Map AccountId Account) (d : Debit)
    {s : Selection}
    → resolve_debit available accounts d ≡ ok s
    → (values_of s.consumed ≡ d.amount +ℤ new_values_of s.created)
      × All (MayOffset accounts d) s.created
resolve_debit-balances available accounts d {s} h =
    let avail = available_for available d in
    elim (resolve_debit-cases available accounts d h) [
      | inl (enough, picked) ↦ (
        select_postings-balances d avail enough picked,
        select_postings-own accounts d avail picked,
      )
      | inr (permits, covered) ↦ (
        cover_shortfall-balances d avail _ refl covered,
        cover_shortfall-own accounts d avail _ permits covered,
      )
    ]
