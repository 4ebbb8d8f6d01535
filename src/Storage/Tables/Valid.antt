-- ===== src/Storage/Tables/Valid.antt =====
-- crates/kuatia-storage/src/mem_store.rs: the invariant of the posting tables. The live copies
-- agree with the immutable record, and no posting is both active and reserved.
use kuatia.Prelude.{
  ℕ, ◌≡◌, refl, false, Option, none, some, List, [], ◌∷◌, arith, ◌==◌, int_eq, Bool-cases,
  Option-cases, inl, inr, All, All-imp,
}
use kuatia.Prelude.Map.{
  lookup, insert, remove, contains_key, is_some, lookup-insert, lookup-remove, IsMap, insert-IsMap,
  remove-IsMap, All-lookup, All-remove, All-insert_entry, lookup-insert_new,
}
use kuatia.Types.{PostingId, ReservationId, Posting, posting_id_eq, posting_id_beq_iff}
use kuatia.Storage.Records.{PostingTables}
use kuatia.Storage.Tables.{
  for_ids, reserve_one, reserve_postings, release_one, release_postings, deactivate_one,
  deactivate_postings, insert_one, insert_postings,
}

pub record IsValid (t : PostingTables) : Type 0 where
  pub immutable_map : IsMap t.immutable
  pub active_map : IsMap t.active
  pub reserved_map : IsMap t.reserved
  pub named : All (λ x. x.1.id ≡ x.0) t.immutable
  pub active_known : All (λ x. lookup x.0 t.immutable ≡ some x.1) t.active
  pub reserved_known : All (λ x. lookup x.0 t.immutable ≡ some x.1.0) t.reserved
  pub disjoint : All (λ x. lookup x.0 t.reserved ≡ none) t.active

-- Taking an active posting out of the active table.
pub remove_active-IsValid :
    (id : PostingId) (t : PostingTables)
    → IsValid t
    → IsValid (record t { active = remove id t.active })
remove_active-IsValid id t v = record {
  immutable_map = v.immutable_map;
  active_map = remove-IsMap id t.active v.active_map;
  reserved_map = v.reserved_map;
  named = v.named;
  active_known = All-imp _ (λ x h. h.0) (All-remove _ id t.active v.active_known);
  reserved_known = v.reserved_known;
  disjoint = All-imp _ (λ x h. h.0) (All-remove _ id t.active v.disjoint);
}

remove_reserved-IsValid :
    (id : PostingId) (t : PostingTables)
    → IsValid t
    → IsValid (record t { reserved = remove id t.reserved })
remove_reserved-IsValid id t v = record {
  immutable_map = v.immutable_map;
  active_map = v.active_map;
  reserved_map = remove-IsMap id t.reserved v.reserved_map;
  named = v.named;
  active_known = v.active_known;
  reserved_known = All-imp _ (λ x h. h.0) (All-remove _ id t.reserved v.reserved_known);
  disjoint = All-imp _ (λ x h. ground (arith, lookup-remove id x.0 t.reserved)) v.disjoint;
}

pub reserve_one-IsValid :
    (r : ReservationId) (id : PostingId) (t : PostingTables)
    → IsValid t
    → IsValid (reserve_one r id t).0
unfolding reserve_one
reserve_one-IsValid r id t v = split (lookup id t.active) refl
  where
    split :
        (o : Option Posting)
        → lookup id t.active ≡ o
        → IsValid
            (elim o as (λ _. PostingTables × ℕ) [
              | none ↦ (t, 0)
              | some p ↦ (
                record t { active = remove id t.active; reserved = insert id (p, r) t.reserved },
                1,
              )
            ]).0
    split none e = v
    split (some p) e = record {
      immutable_map = v.immutable_map;
      active_map = remove-IsMap id t.active v.active_map;
      reserved_map = insert-IsMap id (p, r) t.reserved v.reserved_map;
      named = v.named;
      active_known = All-imp _ (λ x h. h.0) (All-remove _ id t.active v.active_known);
      reserved_known =
          All-insert_entry _ id (p, r) t.reserved
            (All-lookup (λ k q. lookup k t.immutable ≡ some q) id p t.active v.active_known e)
            v.reserved_known;
      disjoint =
          All-imp _ (λ x h. ground (arith, h.0, h.1, lookup-insert id x.0 (p, r) t.reserved))
            (All-remove _ id t.active v.disjoint);
    }

pub release_one-IsValid :
    (r : ReservationId) (id : PostingId) (t : PostingTables)
    → IsValid t
    → IsValid (release_one r id t).0
unfolding release_one
release_one-IsValid r id t v = elim (Option-cases (lookup id t.reserved)) [
  | inl absent ↦ rw (absent, release_one) v
  | inr ((p, s), found) ↦ elim (Bool-cases (s == r)) [
    | inl mine ↦
        rw (found, mine, release_one)
          (record {
            immutable_map = v.immutable_map;
            active_map = insert-IsMap id p t.active v.active_map;
            reserved_map = remove-IsMap id t.reserved v.reserved_map;
            named = v.named;
            active_known =
                All-insert_entry _ id p t.active
                  (All-lookup (λ k q. lookup k t.immutable ≡ some q.0) id (p, s) t.reserved
                    v.reserved_known found)
                  v.active_known;
            reserved_known = All-imp _ (λ x h. h.0) (All-remove _ id t.reserved v.reserved_known);
            disjoint =
                All-insert_entry _ id p t.active
                  (ground (arith, posting_id_beq_iff id id, lookup-remove id id t.reserved))
                  (All-imp _ (λ x h. ground (arith, lookup-remove id x.0 t.reserved)) v.disjoint);
          })
    | inr other ↦ rw (found, other, release_one) v
  ]
]

-- A posting that the immutable record does not have is in no table.
pub absent_of :
    (id : PostingId) (t : PostingTables)
    → IsValid t
    → lookup id t.immutable ≡ none
    → lookup id t.reserved ≡ none
absent_of id t v absent = elim (Option-cases (lookup id t.reserved)) [
  | inl e ↦ e
  | inr ((p, s), found) ↦
      let known : lookup id t.immutable ≡ some p =
        All-lookup (λ k q. lookup k t.immutable ≡ some q.0) id (p, s) t.reserved v.reserved_known
          found in
      absurd (ground arith)
]

-- A new posting is recorded and becomes active.
pub insert_new-IsValid :
    (p : Posting) (t : PostingTables)
    → IsValid t
    → lookup p.id t.immutable ≡ none
    → IsValid (record t { immutable = insert p.id p t.immutable; active = insert p.id p t.active })
insert_new-IsValid p t v absent = record {
  immutable_map = insert-IsMap p.id p t.immutable v.immutable_map;
  active_map = insert-IsMap p.id p t.active v.active_map;
  reserved_map = v.reserved_map;
  named = All-insert_entry (λ x. x.1.id ≡ x.0) p.id p t.immutable refl v.named;
  active_known =
      All-insert_entry _ p.id p t.active
        (ground (arith, posting_id_beq_iff p.id p.id, lookup-insert p.id p.id p t.immutable))
        (All-imp _ (λ x h. lookup-insert_new p.id x.0 p x.1 t.immutable absent h) v.active_known);
  reserved_known =
      All-imp _ (λ x h. lookup-insert_new p.id x.0 p x.1.0 t.immutable absent h) v.reserved_known;
  disjoint = All-insert_entry _ p.id p t.active (absent_of p.id t v absent) v.disjoint;
}

not_contained : {A : Type 0} (o : Option A) → is_some o ≡ false → o ≡ none
not_contained none h = refl
not_contained (some a) h = cc

pub insert_one-IsValid : (p : Posting) (t : PostingTables) → IsValid t → IsValid (insert_one p t).0
unfolding insert_one
insert_one-IsValid p t v = elim (Bool-cases (contains_key p.id t.immutable)) [
  | inl old ↦ rw (old, insert_one) v
  | inr new ↦ rw (new, insert_one) (insert_new-IsValid p t v (not_contained _ new))
]

pub deactivate_one-IsValid :
    (r : Option ReservationId) (id : PostingId) (t : PostingTables)
    → IsValid t
    → IsValid (deactivate_one r id t).0
unfolding deactivate_one
deactivate_one-IsValid none id t v = elim (Bool-cases (contains_key id t.active)) [
  | inl has ↦ rw has (remove_active-IsValid id t v)
  | inr not_there ↦ rw not_there v
]
deactivate_one-IsValid (some r) id t v = elim (Option-cases (lookup id t.reserved)) [
  | inl absent ↦ rw (absent, deactivate_one) v
  | inr ((p, s), found) ↦ elim (Bool-cases (s == r)) [
    | inl mine ↦ rw (found, mine, deactivate_one) (remove_reserved-IsValid id t v)
    | inr other ↦ rw (found, other, deactivate_one) v
  ]
]

-- A loop keeps what each of its rounds keeps.
pub for_ids_keeps :
    {A : Type 0} (P : PostingTables → Type 0) (body : A → PostingTables → PostingTables × ℕ)
    → ((x : A) (t : PostingTables) → P t → P (body x t).0)
    → (xs : List A) (t : PostingTables) → P t
    → P (for_ids body xs t).0
unfolding for_ids
for_ids_keeps P body f [] t h = h
for_ids_keeps P body f (x ∷ xs) t h = for_ids_keeps P body f xs (body x t).0 (f x t h)

-- Reserving, releasing, deactivating and inserting postings all keep the invariant of the tables.
pub operations-IsValid :
    (ids : List PostingId) (ps : List Posting) (r : ReservationId) (o : Option ReservationId)
    (t : PostingTables)
    → IsValid t
    → IsValid (reserve_postings ids r t).0
      × IsValid (release_postings ids r t).0
      × IsValid (deactivate_postings ids o t).0
      × IsValid (insert_postings ps t).0
unfolding reserve_postings release_postings deactivate_postings insert_postings
operations-IsValid ids ps r o t v = (
  for_ids_keeps IsValid (reserve_one r) (reserve_one-IsValid r) ids t v,
  for_ids_keeps IsValid (release_one r) (release_one-IsValid r) ids t v,
  for_ids_keeps IsValid (deactivate_one o) (deactivate_one-IsValid o) ids t v,
  for_ids_keeps IsValid insert_one insert_one-IsValid ps t v,
)
