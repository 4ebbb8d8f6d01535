-- ===== src/Storage/Events/Unique.antt =====
-- crates/kuatia-storage/src/mem_store.rs: the deduplication keys of the event log.
use kuatia.Prelude.{
  true-ne-false, some-ne-none, ℕ, ◌≡◌, ◌≢◌, refl, sym, ◌∙◌, All, All-append, All-every, All-imp,
  true, false, none, some, List, [], ◌∷◌, ◌++◌, arith, Bool-cases, Option-cases, inl, inr, ==_self,
}
use kuatia.Storage.Records.{LedgerEvent, DedupKey, dedup_key_eq, event_dedup_key}
use kuatia.Storage.Events.{
  has_dedup_key, find_event, existing_event, append_event, append_event_locked,
}

-- Two events do not have one key.
abbrev pub Apart : LedgerEvent → LedgerEvent → Type 0
Apart x y = (k : DedupKey) → event_dedup_key x.kind ≡ some k → event_dedup_key y.kind ≢ some k

-- No two events of a log have one key.
abbrev pub IsUnique : List LedgerEvent → Type 0
IsUnique [] = Unit
IsUnique (e ∷ es) = All (Apart e) es × IsUnique es

find_event-later :
    (k : DedupKey) (x : LedgerEvent) (es : List LedgerEvent)
    → find_event k (x ∷ es) ≡ none
    → (has_dedup_key k x ≡ false) × (find_event k es ≡ none)
unfolding find_event
find_event-later k x es h = elim (Bool-cases (has_dedup_key k x)) [
  | inl same ↦ absurd (ground arith)
  | inr other ↦ (other, rw (other, find_event) at h)
]

-- A key that a search does not find belongs to no event.
find_event-none :
    (k : DedupKey) (es : List LedgerEvent)
    → find_event k es ≡ none
    → All (λ x. event_dedup_key x.kind ≢ some k) es
find_event-none k [] h = tt
find_event-none k (x ∷ es) h =
    let (other, rest) = find_event-later k x es h in
    (
      λ same. true-ne-false (sym (==_self k) ∙ (rw (has_dedup_key, same) at other)),
      find_event-none k es rest,
    )

existing_event-none :
    (e : LedgerEvent) (es : List LedgerEvent)
    → existing_event e.kind es ≡ none
    → All (λ x. Apart x e) es
existing_event-none e es h = elim (Option-cases (event_dedup_key e.kind)) [
  | inl plain ↦ All-every (λ x k hx he. some-ne-none (sym he ∙ plain)) es
  | inr (j, key) ↦
      All-imp es (λ x differs k hx he. differs (hx ∙ sym he ∙ key))
        (find_event-none j es (rw (key, existing_event) at h))
]

append-IsUnique :
    (e : LedgerEvent) (es : List LedgerEvent)
    → IsUnique es
    → All (λ x. Apart x e) es
    → IsUnique (es ++ (e ∷ []))
append-IsUnique e [] u h = (tt, tt)
append-IsUnique e (x ∷ es) (apart, u) (h, hs) =
    (All-append (Apart x) es (e ∷ []) apart (h, tt), append-IsUnique e es u hs)

-- Appending an event to a log in which no two events have one key keeps that so, and the call inside a
-- commit writes the same log.
pub append_event-IsUnique :
    (seq : ℕ) (e : LedgerEvent) (es : List LedgerEvent)
    → IsUnique es
    → IsUnique (append_event seq e es).1
      × (append_event_locked seq e es ≡ (append_event seq e es).1)
unfolding append_event append_event_locked
append_event-IsUnique seq e es u = elim (Option-cases (existing_event e.kind es)) [
  | inl new ↦
      rw (new, append_event, append_event_locked)
        (append-IsUnique (record e { seq = seq }) es u (existing_event-none e es new), refl)
  | inr (old, found) ↦ rw (found, append_event, append_event_locked) (u, refl)
]

find_event-append_new :
    (k : DedupKey) (es : List LedgerEvent) (e : LedgerEvent)
    → find_event k es ≡ none
    → has_dedup_key k e ≡ true
    → find_event k (es ++ (e ∷ [])) ≡ some e
unfolding find_event
find_event-append_new k [] e h a = rw (a, find_event)
find_event-append_new k (x ∷ es) e h a =
    let (other, rest) = find_event-later k x es h in
    rw (other, find_event) (find_event-append_new k es e rest a)

append_event-found :
    (seq : ℕ) (e : LedgerEvent) (es : List LedgerEvent) {k : DedupKey} {old : LedgerEvent}
    → event_dedup_key e.kind ≡ some k
    → find_event k es ≡ some old
    → append_event seq e es ≡ (old.seq, es)
unfolding append_event
append_event-found seq e es key found = rw (append_event, existing_event, key, found)

append_event-new :
    (seq : ℕ) (e : LedgerEvent) (es : List LedgerEvent) {k : DedupKey}
    → event_dedup_key e.kind ≡ some k
    → find_event k es ≡ none
    → append_event seq e es ≡ (seq, es ++ (record e { seq = seq } ∷ []))
unfolding append_event
append_event-new seq e es key new = rw (append_event, existing_event, key, new)

-- Appending an event that has a key, and then an event that has the same key, answers the same
-- number both times, and the second call leaves the log as it is.
pub append_event-replay :
    (seq seq' : ℕ) (e e' : LedgerEvent) (es : List LedgerEvent) {k : DedupKey}
    → event_dedup_key e.kind ≡ some k
    → event_dedup_key e'.kind ≡ some k
    → append_event seq' e' (append_event seq e es).1
      ≡ ((append_event seq e es).0, (append_event seq e es).1)
append_event-replay seq seq' e e' es {k} key key' = elim (Option-cases (find_event k es)) [
  | inl new ↦ rw (append_event-new seq e es key new) (
      append_event-found seq' e' (es ++ (record e { seq = seq } ∷ [])) key' (
        find_event-append_new k es (record e { seq = seq }) new
          (rw (has_dedup_key, key) (==_self k))))
  | inr (old, found) ↦
      rw (append_event-found seq e es key found) (append_event-found seq' e' es key' found)
]
