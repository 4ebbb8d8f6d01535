-- ===== src/Storage/Tables.antt =====
-- crates/kuatia-storage/src/mem_store.rs: `PostingStore` for `InMemoryStore`. A posting's state is
-- the table that holds it.
pub mod Valid
pub mod States
use kuatia.Prelude.{
  ℕ, ◌+◌, Bool, true, false, ◌&&◌, Option, none, some, List, [], ◌∷◌, ◌++◌, map, filter, ◌==◌, Eq,
  int_eq, if◌then◌else◌, ℤ, eqb_ℤ, eqb, Outcome, ok, err, ◌>>=◌, ok_or,
}
use kuatia.Prelude.Map.{Map, lookup, insert, remove, values, contains_key}
use kuatia.Prelude.Sort.{sort}
use kuatia.Types.{
  AssetId, AccountId, PostingId, ReservationId, Posting, PostingFilter, PostingState, is_active,
  is_reserved, is_spent, is_missing, active, reserved, live, every, posting_id_eq, le_posting_id,
}
use kuatia.Storage.Records.{PostingTables, StoreError, not_found}

-- The body of `get_posting_states`.
unfoldable pub posting_state : PostingTables → PostingId → PostingState
posting_state t id = if contains_key id t.active then is_active else elim (lookup id t.reserved) [
  | some (p, rid) ↦ is_reserved rid
  | none ↦ if contains_key id t.immutable then is_spent else is_missing
]

unfoldable pub get_posting_states : PostingTables → List PostingId → List PostingState
unfolding posting_state
get_posting_states t ids = map (posting_state t) ids

unfoldable pub get_postings : PostingTables → List PostingId → Outcome StoreError (List Posting)
get_postings t [] = ok []
get_postings t (id ∷ ids) = do
  p ← ok_or (lookup id t.immutable) not_found
  ps ← get_postings t ids
  ok (p ∷ ps)

-- `matches`, with the optional subaccount and asset.
abbrev pub matches : ℤ → Option ℤ → Option AssetId → Posting → Bool
matches id sub asset p =
    eqb_ℤ p.owner.id id
    && elim sub [ none ↦ true | some s ↦ eqb_ℤ p.owner.sub s ]
    && elim asset [ none ↦ true | some a ↦ eqb p.asset a ]

abbrev pub rows : PostingFilter → PostingTables → List Posting
rows active t = values t.active
rows reserved t = map (λ e. e.0) (values t.reserved)
rows live t = values t.active ++ map (λ e. e.0) (values t.reserved)
rows every t = values t.immutable

unfoldable pub get_postings_by_account :
    PostingTables → ℤ → Option ℤ → Option AssetId → PostingFilter → List Posting
get_postings_by_account t id sub asset f =
    sort (λ p q. le_posting_id p.id q.id) (filter (matches id sub asset) (rows f t))

-- A loop over ids that counts the rows that it has moved.
unfoldable pub for_ids {ℓ} :
    {A : Type ℓ}
    → (A → PostingTables → PostingTables × ℕ)
    → List A
    → PostingTables
    → PostingTables × ℕ
for_ids body [] t = (t, 0)
for_ids body (x ∷ xs) t =
    let (t', n) = body x t in let (t'', k) = for_ids body xs t' in (t'', n + k)

unfoldable pub reserve_one : ReservationId → PostingId → PostingTables → PostingTables × ℕ
reserve_one r id t = elim (lookup id t.active) [
  | none ↦ (t, 0)
  | some p ↦ (record t { active = remove id t.active; reserved = insert id (p, r) t.reserved }, 1)
]

unfoldable pub reserve_postings : List PostingId → ReservationId → PostingTables → PostingTables × ℕ
unfolding for_ids reserve_one
reserve_postings ids r = for_ids (reserve_one r) ids

unfoldable pub release_one : ReservationId → PostingId → PostingTables → PostingTables × ℕ
release_one r id t = elim (lookup id t.reserved) [
  | none ↦ (t, 0)
  | some (p, s) ↦
      if s == r
      then (record t { active = insert id p t.active; reserved = remove id t.reserved }, 1)
      else (t, 0)
]

unfoldable pub release_postings : List PostingId → ReservationId → PostingTables → PostingTables × ℕ
unfolding for_ids release_one
release_postings ids r = for_ids (release_one r) ids

unfoldable pub deactivate_one : Option ReservationId → PostingId → PostingTables → PostingTables × ℕ
deactivate_one none id t =
    if contains_key id t.active then (record t { active = remove id t.active }, 1) else (t, 0)
deactivate_one (some r) id t = elim (lookup id t.reserved) [
  | none ↦ (t, 0)
  | some (p, s) ↦ if s == r then (record t { reserved = remove id t.reserved }, 1) else (t, 0)
]

unfoldable pub deactivate_postings :
    List PostingId → Option ReservationId → PostingTables → PostingTables × ℕ
unfolding for_ids deactivate_one
deactivate_postings ids r = for_ids (deactivate_one r) ids

unfoldable pub insert_one : Posting → PostingTables → PostingTables × ℕ
insert_one p t =
    if contains_key p.id t.immutable
    then (t, 0)
    else (record t { immutable = insert p.id p t.immutable; active = insert p.id p t.active }, 1)

unfoldable pub insert_postings : List Posting → PostingTables → PostingTables × ℕ
unfolding for_ids insert_one
insert_postings ps = for_ids insert_one ps
