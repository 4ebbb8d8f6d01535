-- ===== src/Types/Select.antt =====
-- The postings that a map holds under a list of ids: the description that proofs give of the loops
-- that look up consumed postings.
use kuatia.Prelude.{
  eqb, pos, ◌≡◌, refl, true, false, none, some, List, [], ◌∷◌, arith, ℤ, ◌+ℤ◌, int_laws, sum, map,
  contains, inl, inr, if◌then◌else◌, All, Option-cases,
}
use kuatia.Prelude.Map.{
  Map, lookup, remove, IsMap, remove-IsMap, total, total-remove, lookup-remove, contains_key,
}
use kuatia.Prelude.Distinct.{IsDistinct}
use kuatia.Types.Ids.{AssetId, PostingId, posting_id_eq, posting_id_beq_iff}
use kuatia.Types.Postings.{Posting, NewPosting}

unfoldable pub postings_at : Map PostingId Posting → List PostingId → List Posting
postings_at m [] = []
postings_at m (id ∷ ids) = elim (lookup id m) [
  | none ↦ postings_at m ids
  | some p ↦ p ∷ postings_at m ids
]

-- `for id in ids { map.remove(id) }`
unfoldable pub remove_ids : List PostingId → Map PostingId Posting → Map PostingId Posting
remove_ids [] m = m
remove_ids (id ∷ ids) m = remove_ids ids (remove id m)

pub postings_at-remove :
    (id : PostingId) (ids : List PostingId) (m : Map PostingId Posting)
    → contains id ids ≡ false
    → postings_at (remove id m) ids ≡ postings_at m ids
unfolding postings_at contains
postings_at-remove id [] m h = refl
postings_at-remove id (i ∷ ids) m h = ground (
  arith,
  posting_id_beq_iff id i,
  posting_id_beq_iff i id,
  lookup-remove id i m,
  postings_at-remove id ids m,
)

pub lookup-remove_ids :
    (ids : List PostingId) (q : PostingId) (m : Map PostingId Posting)
    → lookup q (remove_ids ids m) ≡ (if contains q ids then none else lookup q m)
unfolding remove_ids contains
lookup-remove_ids [] q m = refl
lookup-remove_ids (id ∷ ids) q m =
    ground (arith, lookup-remove id q m, lookup-remove_ids ids q (remove id m))

still :
    (id : PostingId) (ids : List PostingId) (m : Map PostingId Posting)
    → contains id ids ≡ false
    → All (λ i. contains_key i m ≡ true) ids
    → All (λ i. contains_key i (remove id m) ≡ true) ids
unfolding contains
still id [] m d h = h
still id (i ∷ ids) m d h = (
  ground (arith, h.0, posting_id_beq_iff id i, posting_id_beq_iff i id, lookup-remove id i m),
  still id ids m (ground arith) h.1,
)

-- Removing distinct ids that are all there takes their postings out of every sum.
pub total-remove_ids :
    (f : Posting → ℤ) (ids : List PostingId) (m : Map PostingId Posting)
    → IsMap m
    → IsDistinct ids
    → All (λ id. contains_key id m ≡ true) ids
    → total (λ _ p. f p) (remove_ids ids m) +ℤ sum (map f (postings_at m ids))
      ≡ total (λ _ p. f p) m
unfolding remove_ids postings_at sum
total-remove_ids f [] m u d h = omega int_laws
total-remove_ids f (id ∷ ids) m u d h = elim (Option-cases (lookup id m)) [
  | inl absent ↦ absurd (ground arith)
  | inr (p, found) ↦
      let rest =
        total-remove_ids f ids (remove id m) (remove-IsMap id m u) d.1 (still id ids m d.0 h.1) in
      let here = total-remove (λ _ p. f p) id p m u found in
      let same = postings_at-remove id ids m d.0 in
      rw (found, postings_at, ← here, ← rest, same) (omega int_laws)
]

-- What a posting counts for in an asset.
abbrev pub asset_value : AssetId → Posting → ℤ
asset_value a p = if eqb p.asset a then p.value else pos 0

abbrev pub new_asset_value : AssetId → NewPosting → ℤ
new_asset_value a p = if eqb p.asset a then p.value else pos 0
