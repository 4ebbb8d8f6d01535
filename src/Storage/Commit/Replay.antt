-- ===== src/Storage/Commit/Replay.antt =====
-- crates/kuatia-storage/src/mem_store.rs: calls after a commit.
use kuatia.Prelude.{
  some-ne-none, ◌≡◌, ℕ, none, some, List, Outcome, ok, Bool-cases, Option-cases, inl, inr, list_eq,
  nat_eq, ==_self, ◌==◌, ==→eq, ◌∙◌, sym, ap,
}
use kuatia.Prelude.Map.{lookup, insert, lookup-insert}
use kuatia.Types.{AccountId, EnvelopeId, Receipt}
use kuatia.Storage.Records.{StoreError, InMemoryStore, EnvelopeRecord}
use kuatia.Storage.Queries.{store_transfer}
use kuatia.Storage.Commit.{
  CommitRequest, CommitOutcome, committed, already_committed, apply_commit, commit_envelope,
}
use kuatia.Storage.Commit.Guards.{commit_envelope-cases}

-- Any sequence of calls: commits, transfers that are stored, and calls that do not write the table of the
-- transfers.
pub data Later (s : InMemoryStore) : InMemoryStore → Type 0 where
  here : Later s s
  commits :
      (s' : InMemoryStore) (seq : ℕ) (req : CommitRequest)
      → Later s s'
      → Later s (commit_envelope seq req s').1
  stores :
      (s' : InMemoryStore) (r : EnvelopeRecord) (involved : List AccountId)
      → Later s s'
      → Later s (store_transfer r involved s').1
  others : (s' s'' : InMemoryStore) → s''.transfers ≡ s'.transfers → Later s s' → Later s s''

receipt_of :
    (a b : Receipt)
    → ◌≡◌ {A = Outcome StoreError CommitOutcome} (ok (committed a)) (ok (committed b))
    → a ≡ b
receipt_of a b h = cc

already_stored :
    (seq : ℕ) (req : CommitRequest) (s : InMemoryStore) (e : EnvelopeRecord)
    → lookup req.transfer_id s.transfers ≡ some e
    → commit_envelope seq req s ≡ (ok (already_committed e.receipt), s)
unfolding commit_envelope
already_stored seq req s e found = rw (commit_envelope, found)

apply_commit-stored :
    (seq : ℕ) (req : CommitRequest) (s : InMemoryStore)
    → lookup req.transfer_id (apply_commit seq req s).transfers ≡ some req.envelope_record
unfolding apply_commit
apply_commit-stored seq req s = rw (
  lookup-insert req.transfer_id req.transfer_id req.envelope_record s.transfers,
  ==_self req.transfer_id,
)

kept_by_insert :
    (tid k : EnvelopeId) (e r : EnvelopeRecord) (s : InMemoryStore)
    → lookup tid s.transfers ≡ some e
    → lookup k s.transfers ≡ none
    → lookup tid (insert k r s.transfers) ≡ some e
kept_by_insert tid k e r s found new = elim (Bool-cases (k == tid)) [
  | inl same ↦
      absurd
        (some-ne-none (sym found ∙ sym (ap (λ j. lookup j s.transfers) (==→eq k tid same)) ∙ new))
  | inr other ↦ lookup-insert k tid r s.transfers ∙ rw other found
]

-- A commit keeps every stored transfer.
commit_envelope-kept :
    (seq : ℕ) (req : CommitRequest) (s : InMemoryStore) (tid : EnvelopeId) (e : EnvelopeRecord)
    → lookup tid s.transfers ≡ some e
    → lookup tid (commit_envelope seq req s).1.transfers ≡ some e
unfolding apply_commit
commit_envelope-kept seq req s tid e found = elim (commit_envelope-cases seq req s) [
  | inl (unchanged, _) ↦ rw unchanged found
  | inr (new, _, result) ↦
      rw result (kept_by_insert tid req.transfer_id e req.envelope_record s found new)
]

store_transfer-kept :
    (r : EnvelopeRecord) (involved : List AccountId) (s : InMemoryStore) (tid : EnvelopeId)
    (e : EnvelopeRecord)
    → lookup tid s.transfers ≡ some e
    → lookup tid (store_transfer r involved s).1.transfers ≡ some e
unfolding store_transfer
store_transfer-kept r involved s tid e found =
    elim (Option-cases (lookup r.receipt.transfer_id s.transfers)) [
      | inl new ↦
          rw (new, store_transfer) (kept_by_insert tid r.receipt.transfer_id e r s found new)
      | inr (old, there) ↦ rw (there, store_transfer) found
    ]

Later-kept :
    {s s' : InMemoryStore} (tid : EnvelopeId) (e : EnvelopeRecord)
    → Later s s'
    → lookup tid s.transfers ≡ some e
    → lookup tid s'.transfers ≡ some e
Later-kept tid e here found = found
Later-kept tid e (commits s' seq req l) found =
    commit_envelope-kept seq req s' tid e (Later-kept tid e l found)
Later-kept tid e (stores s' r involved l) found =
    store_transfer-kept r involved s' tid e (Later-kept tid e l found)
Later-kept tid e (others s' s'' same l) found = rw same (Later-kept tid e l found)

-- If a call answers `committed`, then after any sequence of later calls (commits, transfers that are stored,
-- and calls that do not write the table of the transfers) a call with the same transfer id answers
-- `already_committed` with the receipt that the first call answered, and leaves the store as it is.
pub commit_envelope-replay :
    (seq seq' : ℕ) (req req' : CommitRequest) (s later : InMemoryStore) {r : Receipt}
    → (commit_envelope seq req s).0 ≡ ok (committed r)
    → Later (commit_envelope seq req s).1 later
    → req'.transfer_id ≡ req.transfer_id
    → commit_envelope seq' req' later ≡ (ok (already_committed r), later)
commit_envelope-replay seq seq' req req' s later {r} h after same =
    elim (commit_envelope-cases seq req s) [
      | inl (unchanged, other) ↦ absurd (other r h)
      | inr (new, passed, result) ↦
          let receipt : req.envelope_record.receipt ≡ r = receipt_of _ r (rw result at h) in
          let first : lookup req.transfer_id (commit_envelope seq req s).1.transfers
              ≡ some req.envelope_record =
            rw result (apply_commit-stored seq req s) in
          let found = Later-kept req.transfer_id req.envelope_record after first in
          rw (← receipt) (already_stored seq' req' later req.envelope_record (rw same found))
    ]
