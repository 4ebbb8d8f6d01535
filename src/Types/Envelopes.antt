-- ===== src/Types/Envelopes.antt =====
-- crates/kuatia-types/src/envelope.rs. The builder's setters are the fields of the record.
use kuatia.Prelude.{List, map}
use kuatia.Prelude.Sort.{sort, dedup}
use kuatia.Types.Ids.{AccountId, AccountSnapshotId, BookId, PostingId, le_account, account_id_eq}
use kuatia.Types.Accounts.{Metadata}
use kuatia.Types.Postings.{NewPosting}

pub record Envelope : Type 0 where
  pub consumes : List PostingId
  pub creates : List NewPosting
  pub account_snapshots : List AccountSnapshotId
  pub book : BookId
  pub metadata : Metadata

-- The owners of the created postings, sorted, each once.
unfoldable pub referenced_accounts : Envelope → List AccountId
referenced_accounts e = dedup (sort le_account (map (λ p. p.owner) e.creates))

abbrev pub set_account_snapshots : List AccountSnapshotId → Envelope → Envelope
set_account_snapshots snapshots e = record e { account_snapshots = snapshots }
