-- ===== src/Storage/Commit/Value.antt =====
-- The live value of every asset, before and after a commit.
use kuatia.Prelude.{
  ◌≡◌, sym, ◌∙◌, subst, ℕ, true, none, some, List, [], ◌∷◌, map, arith, ℤ, ◌+ℤ◌, int_laws, sum, ok,
  Option-cases, inl, inr, All, int_eq, nat_eq,
}
use kuatia.Prelude.Map.{lookup, contains_key, All-lookup, total, total-insert_new}
use kuatia.Prelude.Distinct.{IsDistinct}
use kuatia.Types.{PostingId, AssetId, Posting, Receipt, posting_id_eq}
use kuatia.Types.Select.{asset_value, postings_at, total-remove_ids}
use kuatia.Storage.Records.{PostingTables, InMemoryStore}
use kuatia.Storage.Tables.Valid.{IsValid, insert_new-IsValid}
use kuatia.Storage.Commit.{
  CommitRequest, committed, create_one, create_all, apply_commit, commit_envelope,
}
use kuatia.Storage.Commit.Guards.{commit_envelope-cases, guards-All}
use kuatia.Storage.Commit.Effect.{IsFresh, spend, spend-IsValid, create_one-new, still_new}

-- The value of the live postings of an asset.
unfoldable pub live_value : AssetId → PostingTables → ℤ
live_value a t =
    total (λ _ p. asset_value a p) t.active +ℤ total (λ _ e. asset_value a e.0) t.reserved

pub not_live :
    (id : PostingId) (t : PostingTables)
    → IsValid t
    → lookup id t.immutable ≡ none
    → lookup id t.active ≡ none
not_live id t v absent = elim (Option-cases (lookup id t.active)) [
  | inl e ↦ e
  | inr (p, found) ↦
      let known =
        All-lookup (λ k x. lookup k t.immutable ≡ some x) id p t.active v.active_known found in
      absurd (ground arith)
]

insert_new-value :
    (a : AssetId) (p : Posting) (t : PostingTables)
    → IsValid t
    → lookup p.id t.immutable ≡ none
    → live_value a (create_one p t) ≡ live_value a t +ℤ asset_value a p
unfolding live_value
insert_new-value a p t v new =
    rw
      (
        create_one-new p t new,
        total-insert_new (λ _ x. asset_value a x) p.id p t.active (not_live p.id t v new),
      )
      (omega int_laws)

create_all-value :
    (a : AssetId) (ps : List Posting) (t : PostingTables)
    → IsValid t
    → IsFresh t ps
    → live_value a (create_all ps t) ≡ live_value a t +ℤ sum (map (asset_value a) ps)
unfolding create_all sum
create_all-value a [] t v f = omega int_laws
create_all-value a (p ∷ ps) t v (new, d) =
    let next = create_one p t in
    let same = create_one-new p t new.0 in
    let rest = create_all-value a ps next (rw same (insert_new-IsValid p t v new.0)) (
      subst (λ u. All (λ q. lookup q.id u.immutable ≡ none) ps) (sym same)
          (still_new p ps t d.0 new.1),
      d.1,
    ) in
    rest ∙ rw (insert_new-value a p t v new.0) (omega int_laws)

spend-value :
    (a : AssetId) (ids : List PostingId) (t : PostingTables)
    → IsValid t
    → IsDistinct ids
    → All (λ id. contains_key id t.active ≡ true) ids
    → live_value a (spend ids t) +ℤ sum (map (asset_value a) (postings_at t.active ids))
      ≡ live_value a t
unfolding live_value
spend-value a ids t v d h =
    rw (← total-remove_ids (asset_value a) ids t.active v.active_map d h) (omega int_laws)

-- If a call answers `committed` on a valid store, where the consumed ids are distinct and the created
-- postings are new, then for each asset the live value changes by exactly the value of the created
-- postings less that of the consumed ones.
pub commit_envelope-value :
    (seq : ℕ) (req : CommitRequest) (s : InMemoryStore) (a : AssetId) {r : Receipt}
    → IsValid s.postings
    → IsDistinct req.consume
    → IsFresh s.postings req.create
    → (commit_envelope seq req s).0 ≡ ok (committed r)
    → live_value a (commit_envelope seq req s).1.postings
        +ℤ sum (map (asset_value a) (postings_at s.postings.active req.consume))
      ≡ live_value a s.postings +ℤ sum (map (asset_value a) req.create)
unfolding apply_commit
commit_envelope-value seq req s a {r} v d f h = elim (commit_envelope-cases seq req s) [
  | inl (same, other) ↦ absurd (other r h)
  | inr (new, passed, result) ↦
      let (opened, were_active, floors) = guards-All s req passed in
      rw
        (
          result,
          create_all-value a req.create (spend req.consume s.postings)
              (spend-IsValid req.consume s.postings v) f,
          ← spend-value a req.consume s.postings v d were_active,
        )
        (omega int_laws)
]
