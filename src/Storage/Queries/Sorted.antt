-- ===== src/Storage/Queries/Sorted.antt =====
-- crates/kuatia-storage/src/mem_store.rs: transfers in the order of their times.
use kuatia.Prelude.{
  inl, inr, arith, Bool, List, [], ◌∷◌, filter, ◌≤ℤ◌, Bool-cases, nat_eq, list_eq, All-filter,
  int_eq, All, All-imp,
}
use kuatia.Prelude.Sort.{sort, insert_sorted, All-insert_sorted}
use kuatia.Storage.Records.{EnvelopeRecord}
use kuatia.Storage.Queries.{le_created}

abbrev pub IsSorted : List EnvelopeRecord → Type 0
IsSorted [] = Unit
IsSorted (r ∷ rs) = All (λ x. r.created_at ≤ℤ x.created_at) rs × IsSorted rs

insert_sorted-IsSorted :
    (r : EnvelopeRecord) (rs : List EnvelopeRecord)
    → IsSorted rs
    → IsSorted (insert_sorted le_created r rs)
unfolding insert_sorted
insert_sorted-IsSorted r [] h = (tt, tt)
insert_sorted-IsSorted r (x ∷ xs) h = elim (Bool-cases (le_created r x)) [
  | inl below ↦
      let lo : r.created_at ≤ℤ x.created_at = ground arith in
      rw below ((lo, All-imp xs (λ y k. omega arith) h.0), h)
  | inr above ↦
      let hi : x.created_at ≤ℤ r.created_at = ground arith in
      rw above (
        All-insert_sorted (λ y. x.created_at ≤ℤ y.created_at) le_created r xs hi h.0,
        insert_sorted-IsSorted r xs h.1,
      )
]

pub sort-IsSorted : (rs : List EnvelopeRecord) → IsSorted (sort le_created rs)
unfolding sort
sort-IsSorted [] = tt
sort-IsSorted (r ∷ rs) = insert_sorted-IsSorted r (sort le_created rs) (sort-IsSorted rs)

pub filter-IsSorted :
    (test : EnvelopeRecord → Bool) (rs : List EnvelopeRecord)
    → IsSorted rs
    → IsSorted (filter test rs)
filter-IsSorted test [] h = tt
filter-IsSorted test (r ∷ rs) h = elim (Bool-cases (test r)) [
  | inl keep ↦
      rw keep
        (All-filter (λ x. r.created_at ≤ℤ x.created_at) test rs h.0, filter-IsSorted test rs h.1)
  | inr skip ↦ rw skip (filter-IsSorted test rs h.1)
]
