-- ===== src/Storage/Commit/Effect.antt =====
-- crates/kuatia-storage/src/mem_store.rs: a commit and the posting tables.
use kuatia.Prelude.{
  ◌≡◌, refl, ℕ, true, false, none, some, List, [], ◌∷◌, map, arith, if◌then◌else◌, ok, Bool-cases,
  Option-cases, inl, inr, All, contains, ◌==◌, int_eq, nat_eq,
}
use kuatia.Prelude.Map.{lookup, insert, remove, contains_key, lookup-insert, All-lookup}
use kuatia.Prelude.Distinct.{IsDistinct, All-contains}
use kuatia.Types.{
  PostingId, Posting, is_active, is_spent, Receipt, posting_id_eq, posting_id_beq_iff,
}
use kuatia.Types.Select.{remove_ids, lookup-remove_ids}
use kuatia.Storage.Records.{PostingTables, InMemoryStore}
use kuatia.Storage.Tables.{posting_state}
use kuatia.Storage.Tables.Valid.{IsValid, remove_active-IsValid, insert_new-IsValid}
use kuatia.Storage.Commit.{
  CommitRequest, committed, create_one, create_all, apply_commit, commit_envelope,
}
use kuatia.Storage.Commit.Guards.{commit_envelope-cases, guards-All}

-- The postings to create are new to the store, and have different ids.
abbrev pub IsFresh : PostingTables → List Posting → Type 0
IsFresh t ps = All (λ p. lookup p.id t.immutable ≡ none) ps × IsDistinct (map (λ p. p.id) ps)

abbrev pub spend : List PostingId → PostingTables → PostingTables
spend ids t = record t { active = remove_ids ids t.active }

pub spend-IsValid : (ids : List PostingId) (t : PostingTables) → IsValid t → IsValid (spend ids t)
unfolding remove_ids
spend-IsValid [] t v = v
spend-IsValid (id ∷ ids) t v =
    spend-IsValid ids (record t { active = remove id t.active }) (remove_active-IsValid id t v)

pub create_one-new :
    (p : Posting) (t : PostingTables)
    → lookup p.id t.immutable ≡ none
    → create_one p t
      ≡ record t { immutable = insert p.id p t.immutable; active = insert p.id p t.active }
unfolding create_one
create_one-new p t h = rw (create_one, h)

pub still_new :
    (p : Posting) (ps : List Posting) (t : PostingTables)
    → contains p.id (map (λ q. q.id) ps) ≡ false
    → All (λ q. lookup q.id t.immutable ≡ none) ps
    → All (λ q. lookup q.id (insert p.id p t.immutable) ≡ none) ps
unfolding contains
still_new p [] t d h = tt
still_new p (q ∷ ps) t d h = (
  ground (
    arith,
    h.0,
    posting_id_beq_iff p.id q.id,
    posting_id_beq_iff q.id p.id,
    lookup-insert p.id q.id p t.immutable,
  ),
  still_new p ps t (ground arith) h.1,
)

create_all-IsValid :
    (ps : List Posting) (t : PostingTables) → IsValid t → IsFresh t ps → IsValid (create_all ps t)
unfolding create_all
create_all-IsValid [] t v f = v
create_all-IsValid (p ∷ ps) t v (new, d) =
    rw (create_one-new p t new.0)
      (create_all-IsValid ps _ (insert_new-IsValid p t v new.0) (still_new p ps t d.0 new.1, d.1))

-- A commit keeps the invariant of the posting tables, where the created postings are new.
pub commit_envelope-IsValid :
    (seq : ℕ) (req : CommitRequest) (s : InMemoryStore)
    → IsValid s.postings
    → IsFresh s.postings req.create
    → IsValid (commit_envelope seq req s).1.postings
unfolding apply_commit
commit_envelope-IsValid seq req s v f = elim (commit_envelope-cases seq req s) [
  | inl (same, other) ↦ rw same v
  | inr (new, passed, result) ↦
      rw result (create_all-IsValid req.create _ (spend-IsValid req.consume s.postings v) f)
]

create_one-state :
    (p : Posting) (t : PostingTables) (q : PostingId)
    → posting_state (create_one p t) q ≡ (if p.id == q then is_active else posting_state t q)
unfolding create_one posting_state
create_one-state p t q = ground (
  arith,
  posting_id_beq_iff p.id q,
  lookup-insert p.id q p t.active,
  lookup-insert p.id q p t.immutable,
)

create_all-state :
    (ps : List Posting) (t : PostingTables) (q : PostingId)
    → posting_state (create_all ps t) q
      ≡ (if contains q (map (λ p. p.id) ps) then is_active else posting_state t q)
unfolding create_all contains
create_all-state [] t q = refl
create_all-state (p ∷ ps) t q =
    ground (arith, create_all-state ps (create_one p t) q, create_one-state p t q)

spend-state :
    (ids : List PostingId) (t : PostingTables) (q : PostingId)
    → IsValid t
    → All (λ id. contains_key id t.active ≡ true) ids
    → posting_state (spend ids t) q ≡ (if contains q ids then is_spent else posting_state t q)
unfolding posting_state
spend-state ids t q v h = elim (Bool-cases (contains q ids)) [
  | inr other ↦ rw (other, lookup-remove_ids ids q t.active, other)
  | inl taken ↦ elim (Option-cases (lookup q t.active)) [
    | inl absent ↦
        let has = All-contains (λ id. contains_key id t.active ≡ true) q ids h taken in
        absurd (ground arith)
    | inr (p, found) ↦
        let known =
          All-lookup (λ k x. lookup k t.immutable ≡ some x) q p t.active v.active_known found in
        let apart = All-lookup (λ k x. lookup k t.reserved ≡ none) q p t.active v.disjoint found in
        ground (arith, lookup-remove_ids ids q t.active)
  ]
]

-- If a call answers `committed` on a valid store, then every created posting is active, every other
-- consumed posting is spent, and every other posting is in the state that it was in.
pub commit_envelope-states :
    (seq : ℕ) (req : CommitRequest) (s : InMemoryStore) (q : PostingId) {r : Receipt}
    → IsValid s.postings
    → (commit_envelope seq req s).0 ≡ ok (committed r)
    → posting_state (commit_envelope seq req s).1.postings q ≡ (
        if contains q (map (λ p. p.id) req.create)
        then is_active
        else if contains q req.consume
        then is_spent
        else posting_state s.postings q)
unfolding apply_commit
commit_envelope-states seq req s q {r} v h = elim (commit_envelope-cases seq req s) [
  | inl (same, other) ↦ absurd (other r h)
  | inr (new, passed, result) ↦
      let (opened, were_active, floors) = guards-All s req passed in
      rw (result, ← spend-state req.consume s.postings q v were_active)
        (create_all-state req.create (spend req.consume s.postings) q)
]
