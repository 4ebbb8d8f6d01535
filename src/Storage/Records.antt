-- ===== src/Storage/Records.antt =====
-- crates/kuatia-storage/src/store.rs, events.rs, error.rs: the records of the store. Error messages
-- are left out. The store's id generator reads a clock, so an id that it hands out is an argument of
-- the method that asks for one.
use kuatia.Prelude.{
  ℕ, ◌≡◌, ◌↔◌, arith, Bool, true, false, ◌&&◌, Option, none, some, List, ℤ, Eq, eqb, eqb_iff,
  list_beq, list_beq_iff, nat_eq,
}
use kuatia.Prelude.Map.{Map}
use kuatia.Types.{
  AccountId, BookId, PostingId, EnvelopeId, ReservationId, Account, Book, Envelope, Posting,
  Receipt, account_id_beq, account_id_beq_iff,
}

pub data StoreError : Type 0 where
  not_found internal : StoreError

pub record EnvelopeRecord : Type 0 where
  pub envelope : Envelope
  pub receipt : Receipt
  pub created_at : ℤ

pub data LedgerEventKind : Type 0 where
  transfer_committed : EnvelopeId → LedgerEventKind
  account_created : AccountId → LedgerEventKind
  account_frozen account_unfrozen account_closed : AccountId → (version : ℕ) → LedgerEventKind

pub record LedgerEvent : Type 0 where
  pub seq : ℕ
  pub timestamp : ℤ
  pub kind : LedgerEventKind

-- What the text of a deduplication key spells: the hex digits of a transfer, or `acct:id:sub:version`.
pub data DedupKey : Type 0 where
  transfer_key : EnvelopeId → DedupKey
  version_key : AccountId → (version : ℕ) → DedupKey

unfoldable pub event_dedup_key : LedgerEventKind → Option DedupKey
event_dedup_key (transfer_committed tid) = some (transfer_key tid)
event_dedup_key (account_frozen a v) = some (version_key a v)
event_dedup_key (account_unfrozen a v) = some (version_key a v)
event_dedup_key (account_closed a v) = some (version_key a v)
event_dedup_key (account_created a) = none

abbrev pub dedup_key_beq : DedupKey → DedupKey → Bool
dedup_key_beq (transfer_key s) (transfer_key t) = list_beq s t
dedup_key_beq (transfer_key s) (version_key b w) = false
dedup_key_beq (version_key a v) (transfer_key t) = false
dedup_key_beq (version_key a v) (version_key b w) = account_id_beq a b && eqb v w

pub dedup_key_beq_iff : (a b : DedupKey) → (dedup_key_beq a b ≡ true) ↔ (a ≡ b)
dedup_key_beq_iff (transfer_key s) (transfer_key t) = ground (arith, list_beq_iff s t)
dedup_key_beq_iff (transfer_key s) (version_key b w) = ground arith
dedup_key_beq_iff (version_key a v) (transfer_key t) = ground arith
dedup_key_beq_iff (version_key a v) (version_key b w) =
    ground (arith, account_id_beq_iff a b, eqb_iff v w)

instance abbrev pub dedup_key_eq : Eq DedupKey
dedup_key_eq = record { test = dedup_key_beq; test_iff = dedup_key_beq_iff }

-- The immutable record of every posting, and full copies of the live ones.
pub record PostingTables : Type 0 where
  pub immutable : Map PostingId Posting
  pub active : Map PostingId Posting
  pub reserved : Map PostingId (Posting × ReservationId)

pub record InMemoryStore : Type 0 where
  pub postings : PostingTables
  pub accounts : Map AccountId (List Account)
  pub transfers : Map EnvelopeId EnvelopeRecord
  pub transfer_accounts : Map EnvelopeId (List AccountId)
  pub events : List LedgerEvent
  pub books : Map BookId Book
