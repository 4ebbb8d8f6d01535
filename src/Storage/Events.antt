-- ===== src/Storage/Events.antt =====
-- crates/kuatia-storage/src/mem_store.rs: `append_event_locked` and `EventStore`. The sequence number
-- that the id generator hands out is an argument.
pub mod Unique
use kuatia.Prelude.{
  ℕ, Bool, true, false, Option, none, some, List, [], ◌∷◌, ◌++◌, ◌==◌, filter, take, ltb,
  if◌then◌else◌,
}
use kuatia.Storage.Records.{LedgerEvent, LedgerEventKind, DedupKey, dedup_key_eq, event_dedup_key}

-- `event_dedup_key(&e.kind).as_deref() == Some(key)`
abbrev pub has_dedup_key : DedupKey → LedgerEvent → Bool
has_dedup_key k e = elim (event_dedup_key e.kind) [ none ↦ false | some j ↦ j == k ]

-- `events.iter().find(..)`
unfoldable pub find_event : DedupKey → List LedgerEvent → Option LedgerEvent
find_event k [] = none
find_event k (e ∷ es) = if has_dedup_key k e then some e else find_event k es

-- The event in the log that has the key of the kind, where the kind has a key.
abbrev pub existing_event : LedgerEventKind → List LedgerEvent → Option LedgerEvent
existing_event kind es = elim (event_dedup_key kind) [ none ↦ none | some k ↦ find_event k es ]

-- `append_event`: the sequence number of the event, and the log.
unfoldable pub append_event : ℕ → LedgerEvent → List LedgerEvent → ℕ × List LedgerEvent
append_event seq e es = elim (existing_event e.kind es) [
  | some old ↦ (old.seq, es)
  | none ↦ (seq, es ++ (record e { seq = seq } ∷ []))
]

-- `append_event_locked`: the log alone.
unfoldable pub append_event_locked : ℕ → LedgerEvent → List LedgerEvent → List LedgerEvent
append_event_locked seq e es = elim (existing_event e.kind es) [
  | some old ↦ es
  | none ↦ es ++ (record e { seq = seq } ∷ [])
]

unfoldable pub get_events_since : (after_seq limit : ℕ) → List LedgerEvent → List LedgerEvent
get_events_since after_seq limit es = take limit (filter (λ e. ltb after_seq e.seq) es)
