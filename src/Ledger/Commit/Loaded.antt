-- ===== src/Ledger/Commit/Loaded.antt =====
-- crates/kuatia/src/ledger/commit.rs: the loaded state and the plan, compared with the store.
use kuatia.Prelude.{
  ℕ, ◌≡◌, refl, sym, ap, subst, ◌+◌, ◌≤◌, ◌<◌, ◌%◌, ◌^◌, true, false, none, some, List, [], ◌∷◌,
  map, arith, sum, length, if◌then◌else◌, is_empty, ok, map_err, >>=-eq-ok, map_err-eq-ok,
  ok_or-eq-ok, ok-injective, All, Option-cases, inl, inr, contains, nat_eq, list_eq, eqb,
}
use kuatia.Prelude.Map.{Map, lookup, insert, contains_key, All-lookup, All-insert_entry}
use kuatia.Prelude.Distinct.{IsDistinct}
use kuatia.Types.{
  AssetId, PostingId, EnvelopeId, Envelope, Posting, NewPosting, posting_id_eq, posting_id_beq,
}
use kuatia.Types.Select.{postings_at, asset_value}
use kuatia.Core.Accumulate.{amount_of}
use kuatia.Core.Validate.{index_postings, number_postings, asset_entries}
use kuatia.Storage.{PostingTables, InMemoryStore, not_found}
use kuatia.Storage.Tables.{get_postings}
use kuatia.Storage.Tables.Valid.{IsValid}
use kuatia.Storage.Commit.Effect.{IsFresh}
use kuatia.Ledger.Errors.{store_error}
use kuatia.Ledger.Commit.{load_consumed}

pub number_postings-transfer :
    (tid : EnvelopeId) (i : ℕ) (ps : List NewPosting)
    → All (λ p. p.id.transfer ≡ tid) (number_postings tid i ps)
unfolding number_postings
number_postings-transfer tid i [] = tt
number_postings-transfer tid i (p ∷ ps) = (refl, number_postings-transfer tid (i + 1) ps)

index_apart : (k j : ℕ) → k < j → j < 2 ^ 16 → eqb (j % 2 ^ 16) (k % 2 ^ 16) ≡ false
index_apart k j h b = ground arith

ids_apart :
    (tid : EnvelopeId) (k j : ℕ)
    → k < j
    → j < 2 ^ 16
    → posting_id_beq
        (record { transfer = tid; index = j % 2 ^ 16 })
        (record { transfer = tid; index = k % 2 ^ 16 })
      ≡ false
unfolding posting_id_beq
ids_apart tid k j h b = ground (arith, index_apart k j h b)

number_postings-contains :
    (tid : EnvelopeId) (k j : ℕ) (ps : List NewPosting)
    → k < j
    → j + length ps ≤ 2 ^ 16
    → contains
        (record { transfer = tid; index = k % 2 ^ 16 })
        (map (λ p. p.id) (number_postings tid j ps))
      ≡ false
unfolding number_postings contains
number_postings-contains tid k j [] h b = refl
number_postings-contains tid k j (p ∷ ps) h b =
    rw (ids_apart tid k j h (omega arith))
      (number_postings-contains tid k (j + 1) ps (omega arith) (omega arith))

pub number_postings-IsDistinct :
    (tid : EnvelopeId) (i : ℕ) (ps : List NewPosting)
    → i + length ps ≤ 2 ^ 16
    → IsDistinct (map (λ p. p.id) (number_postings tid i ps))
unfolding number_postings
number_postings-IsDistinct tid i [] b = tt
number_postings-IsDistinct tid i (p ∷ ps) b = (
  number_postings-contains tid i (i + 1) ps (omega arith) (omega arith),
  number_postings-IsDistinct tid (i + 1) ps (omega arith),
)

-- Every posting of the store belongs to a transfer that the store has.
abbrev pub IsRecorded : InMemoryStore → Type 0
IsRecorded s = All (λ x. contains_key x.0.transfer s.transfers ≡ true) s.postings.immutable

unknown :
    (s : InMemoryStore) (id : PostingId)
    → IsRecorded s
    → lookup id.transfer s.transfers ≡ none
    → lookup id s.postings.immutable ≡ none
unknown s id r absent = elim (Option-cases (lookup id s.postings.immutable)) [
  | inl e ↦ e
  | inr (p, found) ↦
      let has =
        All-lookup (λ k q. contains_key k.transfer s.transfers ≡ true) id p s.postings.immutable r
          found in
      absurd (ground arith)
]

unknown-All :
    (s : InMemoryStore) (tid : EnvelopeId) (ps : List Posting)
    → IsRecorded s
    → lookup tid s.transfers ≡ none
    → All (λ p. p.id.transfer ≡ tid) ps
    → All (λ p. lookup p.id s.postings.immutable ≡ none) ps
unknown-All s tid [] r absent h = tt
unknown-All s tid (p ∷ ps) r absent h = (
  unknown s p.id r (subst (λ t. lookup t s.transfers ≡ none) (sym h.0) absent),
  unknown-All s tid ps r absent h.1,
)

-- The postings of a transfer that the store does not have are new, where 16 bits number them.
pub number_postings-IsFresh :
    (s : InMemoryStore) (tid : EnvelopeId) (ps : List NewPosting)
    → IsRecorded s
    → lookup tid s.transfers ≡ none
    → length ps ≤ 2 ^ 16
    → IsFresh s.postings (number_postings tid 0 ps)
number_postings-IsFresh s tid ps r absent b = (
  unknown-All s tid (number_postings tid 0 ps) r absent (number_postings-transfer tid 0 ps),
  number_postings-IsDistinct tid 0 ps (omega arith),
)

-- What the store hands out for ids is recorded under its own id.
pub get_postings-All :
    (t : PostingTables) (ids : List PostingId) {ps : List Posting}
    → IsValid t
    → get_postings t ids ≡ ok ps
    → All (λ p. lookup p.id t.immutable ≡ some p) ps
unfolding get_postings
get_postings-All t [] {ps} v h =
    let same : ◌≡◌ {A = List Posting} [] ps = ok-injective h in rw (← same) tt
get_postings-All t (id ∷ ids) {ps} v h =
    let (p, found, r1) = >>=-eq-ok _ _ h in
    let (rest, more, r2) = >>=-eq-ok (get_postings t ids) _ r1 in
    let same : p ∷ rest ≡ ps = ok-injective r2 in
    let here : lookup id t.immutable ≡ some p = ok_or-eq-ok _ not_found found in
    let named : p.id ≡ id = All-lookup (λ k q. q.id ≡ k) id p t.immutable v.named here in
    rw (← same)
      (subst (λ k. lookup k t.immutable ≡ some p) (sym named) here, get_postings-All t ids v more)

pub index_postings-All :
    (t : PostingTables) (ps : List Posting) (m : Map PostingId Posting)
    → All (λ p. lookup p.id t.immutable ≡ some p) ps
    → All (λ x. lookup x.0 t.immutable ≡ some x.1) m
    → All (λ x. lookup x.0 t.immutable ≡ some x.1) (index_postings m ps)
unfolding index_postings
index_postings-All t [] m h k = k
index_postings-All t (p ∷ ps) m h k =
    index_postings-All t ps (insert p.id p m) h.1
      (All-insert_entry (λ x. lookup x.0 t.immutable ≡ some x.1) p.id p m h.0 k)

-- Postings that are active and were loaded are the same postings.
pub same_postings :
    (t : PostingTables) (m : Map PostingId Posting) (ids : List PostingId)
    → IsValid t
    → All (λ x. lookup x.0 t.immutable ≡ some x.1) m
    → All (λ id. (p : Posting) × (lookup id m ≡ some p)) ids
    → All (λ id. contains_key id t.active ≡ true) ids
    → postings_at m ids ≡ postings_at t.active ids
unfolding postings_at
same_postings t m [] v k f h = refl
same_postings t m (id ∷ ids) v k ((p, found), f) h = elim (Option-cases (lookup id t.active)) [
  | inl absent ↦ absurd (ground arith)
  | inr (q, held) ↦
      let one : lookup id t.immutable ≡ some p =
        All-lookup (λ i x. lookup i t.immutable ≡ some x) id p m k found in
      let two : lookup id t.immutable ≡ some q =
        All-lookup (λ i x. lookup i t.immutable ≡ some x) id q t.active v.active_known held in
      let pq : p ≡ q = ground arith in
      rw (postings_at, found, held, pq, same_postings t m ids v k f h.1)
]

pub load_consumed-eq :
    (s : InMemoryStore) (e : Envelope) {ps : List Posting}
    → load_consumed s e ≡ ok ps
    → get_postings s.postings e.consumes ≡ ok ps
unfolding get_postings
load_consumed-eq s e {ps} h = split e.consumes h
  where
    split :
        (ids : List PostingId)
        → (if is_empty ids then ok [] else map_err store_error (get_postings s.postings ids))
          ≡ ok ps
        → get_postings s.postings ids ≡ ok ps
    split [] k = ap ok (ok-injective k)
    split (id ∷ ids) k = map_err-eq-ok store_error _ k

pub amount_of-sum :
    (a : AssetId) (ps : List Posting)
    → amount_of a (asset_entries ps) ≡ sum (map (asset_value a) ps)
unfolding amount_of sum
amount_of-sum a [] = refl
amount_of-sum a (p ∷ ps) = rw (amount_of-sum a ps)
