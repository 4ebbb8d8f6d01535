-- ===== src/Inflight/Meta.antt =====
-- crates/kuatia/src/inflight/projection.rs, lines 22 to 77: the payload in the metadata. The CBOR writer
-- and reader are those of the crate `ciborium`, and arguments here.
use kuatia.Prelude.{Option, none, some, List, [], ◌∷◌, nat_eq, list_eq, Outcome, ok, ◌>>=◌, ok_or}
use kuatia.Prelude.Bytes.{Bytes}
use kuatia.Prelude.Map.{lookup}
use kuatia.Types.{AccountId, EnvelopeId, Metadata}
use kuatia.Storage.{internal}
use kuatia.Ledger.{LedgerError, store_error}
use kuatia.Inflight.{InflightLeg}

pub data InflightMeta : Type 0 where
  authorize : List InflightLeg → InflightMeta
  hold : (destination : AccountId) → InflightMeta
  confirm void : (tx : EnvelopeId) → (destination : AccountId) → InflightMeta

-- "inflight"
abbrev pub k_inflight : Bytes
k_inflight = b'i' ∷ b'n' ∷ b'f' ∷ b'l' ∷ b'i' ∷ b'g' ∷ b'h' ∷ b't' ∷ []

module _ (into_writer : InflightMeta → Option Bytes) where
  unfoldable pub encode_meta : InflightMeta → Outcome LedgerError Bytes
  encode_meta meta = ok_or (into_writer meta) (store_error internal)

  unfoldable pub meta_map : InflightMeta → Outcome LedgerError Metadata
  unfolding encode_meta
  meta_map meta = do bytes ← encode_meta meta; ok ((k_inflight, bytes) ∷ [])

module _ (from_reader : Bytes → Option InflightMeta) where
  unfoldable pub read_meta : Metadata → Option InflightMeta
  read_meta meta = elim (lookup k_inflight meta) [ none ↦ none | some bytes ↦ from_reader bytes ]
