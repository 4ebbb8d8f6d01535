-- ===== src/Core/Hash.antt =====
-- crates/kuatia-core/src/hash.rs. SHA-256 comes from the `sha2` crate: it is a parameter.
use kuatia.Prelude.Bytes.{Bytes}
use kuatia.Types.{Account, AccountSnapshotId, Envelope, EnvelopeId}
use kuatia.Types.Canonical.{envelope_bytes, account_bytes}

module _ (sha256 : Bytes → Bytes) where
  abbrev pub double_sha256 : Bytes → Bytes
  double_sha256 input = sha256 (sha256 input)

  abbrev pub content_hash : Bytes → EnvelopeId
  content_hash input = double_sha256 input

  unfoldable pub envelope_id : Envelope → EnvelopeId
  envelope_id e = content_hash (envelope_bytes e)

  unfoldable pub account_hash : Account → Bytes
  account_hash a = double_sha256 (account_bytes a)

  unfoldable pub account_snapshot_id : Account → AccountSnapshotId
  unfolding account_hash
  account_snapshot_id a = record { account = a.id; snapshot_id = account_hash a }
