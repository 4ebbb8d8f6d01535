-- ===== src/Storage/Commit/Floor.antt =====
-- The overdraft floor inside a commit: what the active postings of an account that forbids overdraft
-- sum to, once the commit is done.
use kuatia.Prelude.{
  ◌≡◌, refl, sym, ◌∙◌, subst, ℕ, true, false, not, ◌&&◌, none, some, List, [], ◌∷◌, map, filter,
  arith, ℤ, pos, ◌+ℤ◌, ◌≤ℤ◌, int_laws, sum, if◌then◌else◌, ok, Bool-cases, inl, inr, All, All-imp,
  contains, ◌==◌, int_eq, nat_eq, >>=-eq-ok, map_err-eq-ok, reject_if-eq-ok, for_each-All,
}
use kuatia.Prelude.Map.{Map, lookup, remove, values, total, total-insert_new, All-lookup}
use kuatia.Prelude.Distinct.{All-contains}
use kuatia.Money.{is_negative}
use kuatia.Money.Sums.{checked_sum-eq, checked_add-eq}
use kuatia.Types.{
  AccountId, AssetId, PostingId, Account, Posting, Receipt, forbids_overdraft, posting_id_eq,
  account_id_eq, posting_id_beq_iff,
}
use kuatia.Types.Select.{remove_ids}
use kuatia.Storage.Records.{PostingTables, InMemoryStore}
use kuatia.Storage.Accounts.{current_version}
use kuatia.Storage.Tables.Valid.{IsValid, insert_new-IsValid}
use kuatia.Storage.Commit.{
  CommitRequest, committed, account_of, is_of, touched_assets, guard_asset, guard_floor,
  on_overflow, create_one, create_all, apply_commit, commit_envelope,
}
use kuatia.Storage.Commit.Guards.{commit_envelope-cases, guards-All}
use kuatia.Storage.Commit.Effect.{IsFresh, spend, spend-IsValid, create_one-new, still_new}
use kuatia.Storage.Commit.Value.{not_live}
use kuatia.Storage.Commit.Touched.{Moves, Moves-touched}

-- What a posting counts for in the account and the asset.
abbrev pub value_of : AccountId → AssetId → Posting → ℤ
value_of aid asset p = if is_of aid asset p then p.value else pos 0

-- The balance that the active postings give an account in an asset.
unfoldable pub active_balance : AccountId → AssetId → PostingTables → ℤ
active_balance aid asset t = total (λ _ p. value_of aid asset p) t.active

remove_ids-entry :
    (ids : List PostingId) (k : PostingId) (p : Posting) (m : Map PostingId Posting)
    → remove_ids ids ((k, p) ∷ m)
      ≡ (if contains k ids then remove_ids ids m else (k, p) ∷ remove_ids ids m)
unfolding remove_ids remove contains
remove_ids-entry [] k p m = refl
remove_ids-entry (id ∷ ids) k p m = elim (Bool-cases (k == id)) [
  | inl same ↦
      let back : (id == k) ≡ true =
        ground (arith, posting_id_beq_iff id k, posting_id_beq_iff k id) in
      rw (same, back)
  | inr other ↦
      let back : (id == k) ≡ false =
        ground (arith, posting_id_beq_iff id k, posting_id_beq_iff k id) in
      rw (other, back) (remove_ids-entry ids k p (remove id m))
]

remove_ids-empty : (ids : List PostingId) → remove_ids ids [] ≡ []
unfolding remove_ids remove
remove_ids-empty [] = refl
remove_ids-empty (id ∷ ids) = remove_ids-empty ids

filter-sum :
    (aid : AccountId) (asset : AssetId) (ps : List Posting)
    → sum (map (λ p. p.value) (filter (is_of aid asset) ps)) ≡ sum (map (value_of aid asset) ps)
unfolding sum
filter-sum aid asset [] = refl
filter-sum aid asset (p ∷ ps) = elim (Bool-cases (is_of aid asset p)) [
  | inl mine ↦ rw (mine, filter-sum aid asset ps)
  | inr other ↦ rw (other, filter-sum aid asset ps) (omega int_laws)
]

-- What is left after the removals, as the guard sums it.
left_over :
    (aid : AccountId) (asset : AssetId) (ids : List PostingId) (m : Map PostingId Posting)
    → All (λ x. x.1.id ≡ x.0) m
    → total (λ _ p. value_of aid asset p) (remove_ids ids m)
      ≡ sum (
          map
            (λ p. p.value)
            (filter (λ p. is_of aid asset p && not (contains p.id ids)) (values m)))
unfolding total sum
left_over aid asset ids [] h = rw (remove_ids-empty ids)
left_over aid asset ids ((k, p) ∷ m) h = elim (Bool-cases (contains p.id ids)) [
  | inl gone ↦ elim (Bool-cases (is_of aid asset p)) [
    | inl mine ↦ rw (remove_ids-entry ids k p m, ← h.0, gone, mine) (left_over aid asset ids m h.1)
    | inr other ↦
        rw (remove_ids-entry ids k p m, ← h.0, gone, other) (left_over aid asset ids m h.1)
  ]
  | inr kept ↦ elim (Bool-cases (is_of aid asset p)) [
    | inl mine ↦ rw (remove_ids-entry ids k p m, ← h.0, kept, mine, left_over aid asset ids m h.1)
    | inr other ↦
        rw (remove_ids-entry ids k p m, ← h.0, kept, other, left_over aid asset ids m h.1)
          (omega int_laws)
  ]
]

insert_new-balance :
    (aid : AccountId) (asset : AssetId) (p : Posting) (t : PostingTables)
    → IsValid t
    → lookup p.id t.immutable ≡ none
    → active_balance aid asset (create_one p t) ≡ active_balance aid asset t +ℤ value_of aid asset p
unfolding active_balance
insert_new-balance aid asset p t v new = rw (
  create_one-new p t new,
  total-insert_new (λ _ x. value_of aid asset x) p.id p t.active (not_live p.id t v new),
)

create_all-balance :
    (aid : AccountId) (asset : AssetId) (ps : List Posting) (t : PostingTables)
    → IsValid t
    → IsFresh t ps
    → active_balance aid asset (create_all ps t)
      ≡ active_balance aid asset t +ℤ sum (map (value_of aid asset) ps)
unfolding create_all sum
create_all-balance aid asset [] t v f = omega int_laws
create_all-balance aid asset (p ∷ ps) t v (new, d) =
    let same = create_one-new p t new.0 in
    let rest =
      create_all-balance aid asset ps (create_one p t) (rw same (insert_new-IsValid p t v new.0)) (
        subst (λ u. All (λ q. lookup q.id u.immutable ≡ none) ps) (sym same)
            (still_new p ps t d.0 new.1),
        d.1,
      ) in
    rest ∙ rw (insert_new-balance aid asset p t v new.0) (omega int_laws)

nonneg_of : (c : ℤ) → is_negative c ≡ false → pos 0 ≤ℤ c
nonneg_of c h = ground arith

-- What the guard of one asset has tested.
guard_asset-nonneg :
    (aid : AccountId) (asset : AssetId) (req : CommitRequest) (t : PostingTables)
    → All (λ x. x.1.id ≡ x.0) t.active
    → guard_asset t.active req aid asset ≡ ok tt
    → pos 0
      ≤ℤ active_balance aid asset (spend req.consume t) +ℤ sum (map (value_of aid asset) req.create)
unfolding guard_asset active_balance
guard_asset-nonneg aid asset req t n h =
    let (live, e1, r1) = >>=-eq-ok _ _ h in
    let (made, e2, r2) = >>=-eq-ok _ _ r1 in
    let (projected, e3, r3) = >>=-eq-ok _ _ r2 in
    let live_eq = checked_sum-eq _ (map_err-eq-ok on_overflow _ e1) in
    let made_eq = checked_sum-eq _ (map_err-eq-ok on_overflow _ e2) in
    let sum_eq = checked_add-eq live made (map_err-eq-ok on_overflow _ e3) in
    rw
      (
        left_over aid asset req.consume t.active n,
        ← filter-sum aid asset req.create,
        ← live_eq,
        ← made_eq,
        ← sum_eq,
      )
      (nonneg_of projected (reject_if-eq-ok _ _ r3))

active_named : (t : PostingTables) → IsValid t → All (λ x. x.1.id ≡ x.0) t.active
active_named t v =
    All-imp _ (λ x h. All-lookup (λ k p. p.id ≡ k) x.0 x.1 t.immutable v.named h) v.active_known

guard_floor-nonneg :
    (aid : AccountId) (asset : AssetId) (req : CommitRequest) (s : InMemoryStore) {a : Account}
    → IsValid s.postings
    → current_version aid s.accounts ≡ some a
    → forbids_overdraft a ≡ true
    → contains asset (touched_assets s.postings.active req aid) ≡ true
    → guard_floor s.accounts s.postings.active req aid ≡ ok tt
    → pos 0
      ≤ℤ active_balance aid asset (spend req.consume s.postings)
        +ℤ sum (map (value_of aid asset) req.create)
unfolding guard_floor account_of
guard_floor-nonneg aid asset req s v found forbids touched h =
    guard_asset-nonneg aid asset req s.postings (active_named s.postings v) (
      All-contains (λ x. guard_asset s.postings.active req aid x ≡ ok tt) asset _
        (for_each-All _ _ (rw (found, forbids) at h)) touched)

-- If a call answers `committed` on a valid store, where the created postings are new, then the active
-- postings of every involved account that forbids overdraft sum to no less than zero in every asset in
-- which the call creates a posting of the account or consumes an active one.
pub commit_envelope-floor :
    (seq : ℕ) (req : CommitRequest) (s : InMemoryStore) (aid : AccountId) (asset : AssetId)
    {r : Receipt} {a : Account}
    → IsValid s.postings
    → IsFresh s.postings req.create
    → (commit_envelope seq req s).0 ≡ ok (committed r)
    → contains aid req.involved ≡ true
    → current_version aid s.accounts ≡ some a
    → forbids_overdraft a ≡ true
    → Moves req s.postings aid asset
    → pos 0 ≤ℤ active_balance aid asset (commit_envelope seq req s).1.postings
unfolding apply_commit
commit_envelope-floor seq req s aid asset {r} v f h inv found forbids moves =
    elim (commit_envelope-cases seq req s) [
      | inl (same, other) ↦ absurd (other r h)
      | inr (new, passed, result) ↦
          let (opened, were_active, floors) = guards-All s req passed in
          let floor = All-contains _ aid req.involved floors inv in
          let touched = Moves-touched req s.postings aid asset moves in
          rw
            (
              result,
              create_all-balance aid asset req.create (spend req.consume s.postings)
                  (spend-IsValid req.consume s.postings v) f,
            )
            (guard_floor-nonneg aid asset req s v found forbids touched floor)
    ]
