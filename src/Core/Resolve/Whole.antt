-- ===== src/Core/Resolve/Whole.antt =====
-- crates/kuatia-core/src/posting_resolution.rs: the whole envelope, from the debits that a
-- transfer drafts to what resolving all of them consumes and creates.
use kuatia.Prelude.{
  ◌≡◌, refl, sym, ◌∙◌, ap, true, false, List, [], ◌∷◌, ◌++◌, map, filter, arith, ℤ, pos, ◌+ℤ◌, ◌≤ℤ◌,
  int_laws, sum, zero_add, if◌then◌else◌, ok, >>=-eq-ok, ok-injective, Bool-cases, inl, inr, All,
  eqb, ◌==◌, ==→eq, nat_eq,
}
use kuatia.Prelude.Map.{Map, lookup, insert, total}
use kuatia.Prelude.Sort.{sort, sum-sort}
use kuatia.Money.{Cent, checked_add, is_positive}
use kuatia.Money.Sums.{checked_add-eq}
use kuatia.Types.{
  AccountId, AssetId, BalanceKey, Account, Posting, Movement, Transfer, Envelope, le_key,
  account_id_eq, balance_key_eq,
}
use kuatia.Types.Select.{asset_value, new_asset_value}
use kuatia.Core.Accumulate.{accumulate, get_or_zero}
use kuatia.Core.Resolve.{
  Debit, MovementDraft, debit_key, to_debit, credit, debit_entry, net_debits, draft_movements,
  Selection, resolve_debit, resolve_debits, resolve_envelope,
}
use kuatia.Core.Resolve.Assets.{debit_value, AreOfAsset, resolve_debit-value}

sum-map-append :
    {A : Type 0} (f : A → ℤ) (xs ys : List A)
    → sum (map f (xs ++ ys)) ≡ sum (map f xs) +ℤ sum (map f ys)
unfolding sum
sum-map-append f [] ys = omega int_laws
sum-map-append f (x ∷ xs) ys = rw (sum-map-append f xs ys) (omega int_laws)

resolve_debits-value :
    (available : Map BalanceKey (List Posting)) (accounts : Map AccountId Account) (a : AssetId)
    (ds : List Debit) {s : Selection}
    → AreOfAsset available
    → resolve_debits available accounts ds ≡ ok s
    → sum (map (asset_value a) s.consumed)
      ≡ sum (map (debit_value a) ds) +ℤ sum (map (new_asset_value a) s.created)
unfolding resolve_debits sum
resolve_debits-value available accounts a [] {s} h e =
    let same : ◌≡◌ {A = Selection} (record { consumed = []; created = [] }) s = ok-injective e in
    rw (← same) (omega int_laws)
resolve_debits-value available accounts a (d ∷ ds) {s} h e =
    let (one, h1, r1) = >>=-eq-ok (resolve_debit available accounts d) _ e in
    let (rest, h2, r2) = >>=-eq-ok (resolve_debits available accounts ds) _ r1 in
    let same : ◌≡◌ {A = Selection}
        (record { consumed = one.consumed ++ rest.consumed; created = one.created ++ rest.created })
        s =
      ok-injective r2 in
    let first = resolve_debit-value available accounts a d h h1 in
    let others = resolve_debits-value available accounts a ds h h2 in
    rw
      (
        ← same,
        sum-map-append (asset_value a) one.consumed rest.consumed,
        sum-map-append (new_asset_value a) one.created rest.created,
        first,
        others,
      )
      (omega int_laws)

-- What an entry of the net debits counts for in an asset.
abbrev net_value : AssetId → BalanceKey → Cent → ℤ
net_value a k c = if eqb k.1 a then c else pos 0

get_or_zero_empty : (k : BalanceKey) → get_or_zero k [] ≡ pos 0
unfolding get_or_zero lookup
get_or_zero_empty k = refl

get_or_zero_here :
    (j k : BalanceKey) (w : Cent) (m : Map BalanceKey Cent)
    → (j == k) ≡ true
    → get_or_zero k ((j, w) ∷ m) ≡ w
unfolding get_or_zero lookup
get_or_zero_here j k w m h = rw (get_or_zero, h)

get_or_zero_later :
    (j k : BalanceKey) (w : Cent) (m : Map BalanceKey Cent)
    → (j == k) ≡ false
    → get_or_zero k ((j, w) ∷ m) ≡ get_or_zero k m
unfolding get_or_zero lookup
get_or_zero_later j k w m h = rw (get_or_zero, h)

total-round :
    (a : AssetId) (k : BalanceKey) (c v : Cent) (m : Map BalanceKey Cent)
    → c ≡ get_or_zero k m +ℤ v
    → total (net_value a) (insert k c m) ≡ total (net_value a) m +ℤ net_value a k v
unfolding total insert
total-round a k c v [] h =
    let same : c ≡ v = h ∙ ap (λ x. x +ℤ v) (get_or_zero_empty k) ∙ zero_add v in
    rw same (omega int_laws)
total-round a k c v ((j, w) ∷ m) h = elim (Bool-cases (j == k)) [
  | inl same ↦
      let jk : j ≡ k = ==→eq j k same in
      let exact : c ≡ w +ℤ v = rw (get_or_zero_here j k w m same) at h in
      elim (Bool-cases (eqb k.1 a)) [
        | inl this ↦ rw (same, exact, jk, this) (omega int_laws)
        | inr other ↦ rw (same, jk, other) (omega int_laws)
      ]
  | inr other ↦
      rw (other, total-round a k c v m (rw (get_or_zero_later j k w m other) at h)) (omega int_laws)
]

total-accumulate :
    (a : AssetId) (xs : List (BalanceKey × Cent)) (m : Map BalanceKey Cent)
    {nets : Map BalanceKey Cent}
    → accumulate checked_add xs m ≡ ok nets
    → total (net_value a) nets ≡ total (net_value a) m +ℤ sum (map (λ e. net_value a e.0 e.1) xs)
unfolding accumulate sum
total-accumulate a [] m {nets} h =
    let same : m ≡ nets = ok-injective h in rw (← same) (omega int_laws)
total-accumulate a ((k, v) ∷ xs) m h =
    let (c, added, rest) =
      >>=-eq-ok (checked_add (get_or_zero k m) v) (λ c. accumulate checked_add xs (insert k c m))
        h in
    rw (total-accumulate a xs (insert k c m) rest, total-round a k c v m (checked_add-eq _ v added))
      (omega int_laws)

-- The credits are worth the movements.
credits-value :
    (a : AssetId) (ms : List Movement)
    → sum (map (λ e. net_value a e.0 e.1) (map debit_entry ms))
      ≡ sum (map (new_asset_value a) (map credit ms))
unfolding sum
credits-value a [] = refl
credits-value a (m ∷ ms) = rw (credits-value a ms)

not_positive : (c : ℤ) → is_positive c ≡ false → pos 0 ≤ℤ c → c ≡ pos 0
not_positive c h k = ground arith

-- Where no net debit is negative, the debits that remain are worth all net debits.
positive_debits :
    (a : AssetId) (nets : Map BalanceKey Cent)
    → All (λ e. pos 0 ≤ℤ e.1) nets
    → sum (map (debit_value a) (map to_debit (filter (λ e. is_positive e.1) nets)))
      ≡ total (net_value a) nets
unfolding sum total
positive_debits a [] h = refl
positive_debits a ((k, c) ∷ nets) h = elim (Bool-cases (is_positive c)) [
  | inl kept ↦ rw (kept, positive_debits a nets h.1)
  | inr dropped ↦ elim (Bool-cases (eqb k.1 a)) [
    | inl this ↦
        rw (dropped, this, positive_debits a nets h.1, not_positive c dropped h.0) (omega int_laws)
    | inr other ↦ rw (dropped, other, positive_debits a nets h.1) (omega int_laws)
  ]
]

nets-value :
    (a : AssetId) (ms : List Movement) {nets : Map BalanceKey Cent}
    → net_debits ms ≡ ok nets
    → total (net_value a) nets ≡ sum (map (new_asset_value a) (map credit ms))
unfolding net_debits total
nets-value a ms h =
    rw (total-accumulate a (map debit_entry ms) [] h, credits-value a ms) (omega int_laws)

draft-value :
    (a : AssetId) (t : Transfer) {draft : MovementDraft} {nets : Map BalanceKey Cent}
    → net_debits t.movements ≡ ok nets
    → All (λ e. pos 0 ≤ℤ e.1) nets
    → draft_movements t ≡ ok draft
    → sum (map (debit_value a) draft.debits) ≡ sum (map (new_asset_value a) draft.creates)
unfolding draft_movements
draft-value a t {draft} {nets} h n e =
    let (nets', h1, r1) = >>=-eq-ok (net_debits t.movements) _ e in
    let same : nets' ≡ nets = ok-injective (sym h1 ∙ h) in
    let debits : draft.debits
        ≡ sort (λ c d. le_key (debit_key c) (debit_key d))
            (map to_debit (filter (λ x. is_positive x.1) nets)) =
      rw (← same) (sym (ap (λ x. x.debits) (ok-injective r1))) in
    let creates : map credit t.movements ≡ draft.creates = ap (λ x. x.creates) (ok-injective r1) in
    rw
      (
        debits,
        ← creates,
        sum-sort (debit_value a) (λ c d. le_key (debit_key c) (debit_key d))
            (map to_debit (filter (λ x. is_positive x.1) nets)),
        positive_debits a nets n,
      )
      (nets-value a t.movements h)

-- If a transfer is drafted, no net debit is negative, and the draft is resolved against postings that
-- are filed under their own asset, then the envelope consumes the postings that the loop over the debits
-- selects, and in every asset these are worth exactly what the envelope creates.
pub resolve_envelope-conserves :
    (t : Transfer) (available : Map BalanceKey (List Posting)) (accounts : Map AccountId Account)
    (a : AssetId) {draft : MovementDraft} {nets : Map BalanceKey Cent} {envelope : Envelope}
    → AreOfAsset available
    → net_debits t.movements ≡ ok nets
    → All (λ e. pos 0 ≤ℤ e.1) nets
    → draft_movements t ≡ ok draft
    → resolve_envelope t draft available accounts ≡ ok envelope
    → (s : Selection) × (resolve_debits available accounts draft.debits ≡ ok s)
      × (envelope.consumes ≡ map (λ p. p.id) s.consumed)
      × (sum (map (asset_value a) s.consumed) ≡ sum (map (new_asset_value a) envelope.creates))
unfolding resolve_envelope
resolve_envelope-conserves t available accounts a {draft} {nets} {envelope} h n k d e =
    let (s, h1, r1) = >>=-eq-ok (resolve_debits available accounts draft.debits) _ e in
    let consumes : map (λ p. p.id) s.consumed ≡ envelope.consumes =
      ap (λ x. x.consumes) (ok-injective r1) in
    let creates : draft.creates ++ s.created ≡ envelope.creates =
      ap (λ x. x.creates) (ok-injective r1) in
    (
      s,
      h1,
      sym consumes,
      rw
          (
            ← creates,
            sum-map-append (new_asset_value a) draft.creates s.created,
            ← draft-value a t n k d,
          )
          (resolve_debits-value available accounts a draft.debits h h1),
    )
