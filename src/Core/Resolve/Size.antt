-- ===== src/Core/Resolve/Size.antt =====
-- crates/kuatia-core/src/posting_resolution.rs: how many postings a resolved transfer creates.
use kuatia.Prelude.{
  suc, ◌+◌, ◌*◌, ◌≤◌, ◌≡◌, refl, arith, Bool, List, [], ◌∷◌, ◌++◌, map, filter, length,
  length-append, if◌then◌else◌, Eq, Outcome, ok, >>=-eq-ok, ok-injective, Bool-cases, inl, inr,
  leb_ℤ,
}
use kuatia.Prelude.Map.{Map, insert}
use kuatia.Prelude.Sort.{sort, insert_sorted}
use kuatia.Money.{
  Cent, cent_zero, OverflowError, checked_add, checked_sub, checked_neg, is_positive,
}
use kuatia.Types.{
  AccountId, BalanceKey, Account, Posting, Transfer, Envelope, le_key, balance_key_eq,
}
use kuatia.Core.Accumulate.{accumulate, get_or_zero}
use kuatia.Core.Resolve.{
  Debit, MovementDraft, Selection, credit, debit_entry, to_debit, debit_key, net_debits,
  draft_movements, take_postings, select_postings, cover_shortfall, resolve_debit, resolve_debits,
  resolve_envelope, own, positives, available_for,
}
use kuatia.Core.Resolve.Debits.{resolve_debit-cases}

module _ {ℓ κ} {A : Type ℓ} {B : Type κ} where
  length-map : (f : A → B) (xs : List A) → length (map f xs) ≡ length xs
  length-map f [] = refl
  length-map f (x ∷ xs) = omega (arith, length-map f xs)

module _ {ℓ} {A : Type ℓ} where
  length-filter : (p : A → Bool) (xs : List A) → length (filter p xs) ≤ length xs
  length-filter p [] = omega arith
  length-filter p (x ∷ xs) = ground (arith, length-filter p xs)

  length-insert_sorted :
      (le : A → A → Bool) (x : A) (ys : List A) → length (insert_sorted le x ys) ≡ suc (length ys)
  unfolding insert_sorted
  length-insert_sorted le x [] = refl
  length-insert_sorted le x (y ∷ ys) = ground (arith, length-insert_sorted le x ys)

  length-sort : (le : A → A → Bool) (xs : List A) → length (sort le xs) ≡ length xs
  unfolding sort
  length-sort le [] = refl
  length-sort le (x ∷ xs) = omega (arith, length-insert_sorted le x (sort le xs), length-sort le xs)

module _ {K : Type 0} ⦃e : Eq K⦄ where
  length-insert : (k : K) (v : Cent) (m : Map K Cent) → length (insert k v m) ≤ suc (length m)
  unfolding insert
  length-insert k v [] = omega arith
  length-insert k v ((j, w) ∷ m) = ground (arith, length-insert k v m)

  length-accumulate :
      (op : Cent → Cent → Outcome OverflowError Cent) (xs : List (K × Cent)) (m m' : Map K Cent)
      → accumulate op xs m ≡ ok m'
      → length m' ≤ length m + length xs
  unfolding accumulate
  length-accumulate op [] m m' h = let s : m ≡ m' = cc in rw (← s) (omega arith)
  length-accumulate op ((j, v) ∷ xs) m m' h =
      let (c, added, rest) =
        >>=-eq-ok (op (get_or_zero j m) v) (λ c. accumulate op xs (insert j c m)) h in
      omega (arith, length-insert j c m, length-accumulate op xs (insert j c m) m' rest)

-- The draft has a credit for each movement, and no more debits than movements.
length-draft_movements :
    (t : Transfer) (d : MovementDraft)
    → draft_movements t ≡ ok d
    → (length d.creates ≡ length t.movements) × (length d.debits ≤ length t.movements)
unfolding draft_movements net_debits
length-draft_movements t d h =
    let (nets, h1, r1) = >>=-eq-ok (net_debits t.movements) _ h in
    let le : Debit → Debit → Bool = λ c d. le_key (debit_key c) (debit_key d) in
    let kept = filter (λ e. is_positive e.1) nets in
    let whole : ◌≡◌ {A = MovementDraft}
        (record { creates = map credit t.movements; debits = sort le (map to_debit kept) }) d =
      ok-injective r1 in
    rw (← whole) (
      length-map credit t.movements,
      omega (
        arith,
        length-sort le (map to_debit kept),
        length-map to_debit kept,
        length-filter (λ (e : BalanceKey × Cent). is_positive e.1) nets,
        length-accumulate checked_add (map debit_entry t.movements) [] nets h1,
        length-map debit_entry t.movements,
      ),
    )

select_postings-one :
    (d : Debit) (avail : List Posting) (s : Selection)
    → select_postings d avail ≡ ok s
    → length s.created ≤ 1
unfolding select_postings
select_postings-one d avail s h =
    let ((taken, end), h1, r1) =
      >>=-eq-ok
        (take_postings d.amount cent_zero (sort (λ p q. leb_ℤ q.value p.value) (positives avail))) _
        h in
    let (change, h2, r2) = >>=-eq-ok (checked_sub end d.amount) _ r1 in
    let whole : ◌≡◌ {A = Selection}
        (record {
          consumed = taken;
          created = if is_positive change then own d change ∷ [] else [];
        })
        s =
      ok-injective r2 in
    rw (← whole) (elim (Bool-cases (is_positive change)) [
      | inl more ↦ rw more (omega arith)
      | inr none_left ↦ rw none_left (omega arith)
    ])

cover_shortfall-one :
    (d : Debit) (avail : List Posting) (total : Cent) (s : Selection)
    → cover_shortfall d avail total ≡ ok s
    → length s.created ≤ 1
unfolding cover_shortfall
cover_shortfall-one d avail total s h =
    let (shortfall, h1, r1) = >>=-eq-ok (checked_sub d.amount total) _ h in
    let (offset, h2, r2) = >>=-eq-ok (checked_neg shortfall) _ r1 in
    let whole : ◌≡◌ {A = Selection}
        (record { consumed = positives avail; created = own d offset ∷ [] }) s =
      ok-injective r2 in
    rw (← whole) (omega arith)

resolve_debits-size :
    (available : Map BalanceKey (List Posting)) (accounts : Map AccountId Account) (ds : List Debit)
    (s : Selection)
    → resolve_debits available accounts ds ≡ ok s
    → length s.created ≤ length ds
unfolding resolve_debits
resolve_debits-size available accounts [] s h =
    let whole : ◌≡◌ {A = Selection} (record { consumed = []; created = [] }) s = ok-injective h in
    rw (← whole) (omega arith)
resolve_debits-size available accounts (d ∷ ds) s h =
    let (one, h1, r1) = >>=-eq-ok (resolve_debit available accounts d) _ h in
    let (rest, h2, r2) = >>=-eq-ok (resolve_debits available accounts ds) _ r1 in
    let whole : ◌≡◌ {A = Selection}
        (record { consumed = one.consumed ++ rest.consumed; created = one.created ++ rest.created })
        s =
      ok-injective r2 in
    let few : length one.created ≤ 1 = elim (resolve_debit-cases available accounts d h1) [
      | inl (enough, picked) ↦ select_postings-one d (available_for available d) one picked
      | inr (permits, covered) ↦ cover_shortfall-one d (available_for available d) _ one covered
    ] in
    rw (← whole) (
      omega (
        arith,
        few,
        length-append one.created rest.created,
        resolve_debits-size available accounts ds rest h2,
      ))

-- A resolved transfer creates at most two postings for each movement.
pub resolve_envelope-size :
    (t : Transfer) (draft : MovementDraft) (available : Map BalanceKey (List Posting))
    (accounts : Map AccountId Account) (e : Envelope)
    → draft_movements t ≡ ok draft
    → resolve_envelope t draft available accounts ≡ ok e
    → length e.creates ≤ 2 * length t.movements
unfolding resolve_envelope
resolve_envelope-size t draft available accounts e h k =
    let (s, h1, r1) = >>=-eq-ok (resolve_debits available accounts draft.debits) _ k in
    let whole : ◌≡◌ {A = Envelope}
        (record {
          consumes = map (λ p. p.id) s.consumed;
          creates = draft.creates ++ s.created;
          account_snapshots = [];
          book = t.book;
          metadata = t.metadata;
        })
        e =
      ok-injective r1 in
    rw (← whole) (
      omega (
        arith,
        length-append draft.creates s.created,
        length-draft_movements t draft h,
        resolve_debits-size available accounts draft.debits s h1,
      ))
