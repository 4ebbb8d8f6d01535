-- ===== src/Storage/Queries/Answers.antt =====
-- crates/kuatia-storage/src/query.rs and mem_store.rs: what a query of transfers answers.
use kuatia.Prelude.{
  ◌≡◌, refl, inl, inr, ◌↔◌, arith, Bool, true, false, ◌&&◌, Option, none, some, List, length,
  filter, take, drop, ℤ, ◌≤ℤ◌, ◌<ℤ◌, Option-cases, nat_eq, list_eq, not, ltb_ℤ, eqb_ℤ_iff, int_eq,
}
use kuatia.Prelude.Members.{Memᴰ-filter, Memᴰ-sort, Memᴰ-values, values-lookup}
use kuatia.Prelude.Map.{lookup, values, IsMap}
use kuatia.Types.{AccountId, EnvelopeId}
use kuatia.Storage.Records.{EnvelopeRecord, InMemoryStore}
use kuatia.Storage.Queries.{
  TransferQuery, query_transfers, get_transfers_for_account, records_for, is_owner, holds_if,
  in_query, candidates, le_created, u32_max, unwrap_or,
}
use mathlib.Core.List.{Memᴰ}
use kuatia.Storage.Queries.Sorted.{IsSorted, sort-IsSorted, filter-IsSorted}
use kuatia.Storage.Queries.Index.{any-Memᴰ, any_of_member, records_for-Found, records_for-of_Found}

-- What an optional bound demands.
abbrev pub Bounded {ℓ} : {A : Type ℓ} → Option A → (A → Type 0) → Type 0
Bounded none P = Unit
Bounded (some a) P = P a

abbrev pub Involves : InMemoryStore → TransferQuery → EnvelopeId → Type 0
Involves s q tid = Bounded q.account (λ id.
    (accounts : List AccountId) × (owner : AccountId) × (lookup tid s.transfer_accounts
      ≡ some accounts)
    × Memᴰ owner accounts
    × (owner.id ≡ id)
    × Bounded q.sub (λ sub. owner.sub ≡ sub))

abbrev pub IsInQuery : TransferQuery → EnvelopeRecord → Type 0
IsInQuery q r =
    Bounded q.from_ts (λ from. from ≤ℤ r.created_at)
    × Bounded q.to_ts (λ to. r.created_at <ℤ to)
    × Bounded q.book (λ book. r.envelope.book ≡ book)

abbrev pub IsAnswer : InMemoryStore → TransferQuery → EnvelopeRecord → Type 0
IsAnswer s q r =
    (tid : EnvelopeId) × (lookup tid s.transfers ≡ some r) × Involves s q tid × IsInQuery q r

bounded_iff :
    {A : Type 0} (o : Option A) (test : A → Bool) (P : A → Type 0)
    → ((a : A) → (test a ≡ true) ↔ P a)
    → (holds_if o test ≡ true) ↔ Bounded o P
bounded_iff none test P same = (λ _. tt, λ _. refl)
bounded_iff (some a) test P same = same a

and_iff : (a b : Bool) {P Q : Type 0} → (a ≡ true) ↔ P → (b ≡ true) ↔ Q → (a && b ≡ true) ↔ (P × Q)
and_iff true b h k = (λ t. (h.0 refl, k.0 t), λ t. k.1 t.1)
and_iff false b h k = (λ t. absurd (ground arith), λ t. h.1 t.0)

in_query-IsInQuery :
    (q : TransferQuery) (r : EnvelopeRecord) → (in_query q r ≡ true) ↔ IsInQuery q r
in_query-IsInQuery q r =
    let after =
      bounded_iff q.from_ts (λ t. not (ltb_ℤ r.created_at t)) (λ t. t ≤ℤ r.created_at)
        (λ t. ground arith) in
    let before =
      bounded_iff q.to_ts (ltb_ℤ r.created_at) (λ t. r.created_at <ℤ t) (λ t. ground arith) in
    let same = bounded_iff q.book _ (λ b. r.envelope.book ≡ b) (eqb_ℤ_iff r.envelope.book) in
    let all = and_iff _ _ (and_iff _ _ after before) same in
    (
      λ h. let ((lo, hi), here) = all.0 h in (lo, hi, here),
      λ (lo, hi, here). all.1 ((lo, hi), here),
    )

is_owner_iff :
    (id : ℤ) (sub : Option ℤ) (owner : AccountId)
    → (is_owner id sub owner ≡ true) ↔ ((owner.id ≡ id) × Bounded sub (λ s. owner.sub ≡ s))
is_owner_iff id sub owner =
    and_iff _ _ (eqb_ℤ_iff owner.id id)
      (bounded_iff sub _ (λ s. owner.sub ≡ s) (eqb_ℤ_iff owner.sub))

candidates-IsSorted : (s : InMemoryStore) (q : TransferQuery) → IsSorted (candidates s q)
unfolding get_transfers_for_account
candidates-IsSorted s q = elim (Option-cases q.account) [
  | inl everything ↦ rw everything (sort-IsSorted (values s.transfers))
  | inr (id, of_account) ↦
      rw of_account
        (sort-IsSorted (records_for (is_owner id q.sub) s.transfers s.transfer_accounts))
]

abbrev Recorded : InMemoryStore → TransferQuery → EnvelopeRecord → Type 0
Recorded s q r = (tid : EnvelopeId) × (lookup tid s.transfers ≡ some r) × Involves s q tid

candidates-Recorded :
    (s : InMemoryStore) (q : TransferQuery) (r : EnvelopeRecord)
    → IsMap s.transfers
    → IsMap s.transfer_accounts
    → Memᴰ r (candidates s q) ↔ Recorded s q r
unfolding get_transfers_for_account
candidates-Recorded s q r recorded indexed = elim (Option-cases q.account) [
  | inl everything ↦ rw everything (
    λ mem.
        let (tid, found) = Memᴰ-values r s.transfers recorded ((Memᴰ-sort le_created r _).0 mem) in
        (tid, found, tt),
    λ h. (Memᴰ-sort le_created r _).1 (values-lookup h.0 r s.transfers h.1),
  )
  | inr (id, of_account) ↦ rw of_account (
    λ mem.
        let (tid, accounts, at_tid, owned, found) =
          records_for-Found (is_owner id q.sub) s.transfers r s.transfer_accounts indexed
            ((Memᴰ-sort le_created r _).0 mem) in
        let (owner, among, fits) = any-Memᴰ (is_owner id q.sub) accounts owned in
        let (base, sub) = (is_owner_iff id q.sub owner).0 fits in
        (tid, found, (accounts, owner, at_tid, among, base, sub)),
    λ (tid, found, (accounts, owner, at_tid, among, base, sub)). (Memᴰ-sort le_created r _).1 (
        records_for-of_Found (is_owner id q.sub) s.transfers r s.transfer_accounts (
          tid,
          accounts,
          at_tid,
          any_of_member (is_owner id q.sub) owner accounts among
              ((is_owner_iff id q.sub owner).1 (base, sub)),
          found,
        )),
  )
]

-- A query of transfers cuts one page, by its offset and its limit, out of all its answers, which it counts.
-- The answers are exactly the recorded transfers that involve the queried account (and subaccount, where
-- one is given), were created from the lower time bound on and before the upper one, and are in the queried
-- book; they are in the order of their times. An absent bound demands nothing, no offset is 0, and no limit
-- is 2^32 - 1. The condition is that the keys of the two tables of transfers occur once.
pub query_transfers-answers :
    (s : InMemoryStore) (q : TransferQuery)
    → IsMap s.transfers
    → IsMap s.transfer_accounts
    → (all : List EnvelopeRecord) × ((query_transfers s q).items
        ≡ take (unwrap_or q.limit u32_max) (drop (unwrap_or q.offset 0) all))
      × ((query_transfers s q).total ≡ length all)
      × IsSorted all
      × ((r : EnvelopeRecord) → Memᴰ r all ↔ IsAnswer s q r)
unfolding query_transfers
query_transfers-answers s q recorded indexed = (
  filter (in_query q) (candidates s q),
  refl,
  refl,
  filter-IsSorted (in_query q) (candidates s q) (candidates-IsSorted s q),
  λ r.
      let kept = Memᴰ-filter (in_query q) r (candidates s q) in
      let found = candidates-Recorded s q r recorded indexed in
      let inside = in_query-IsInQuery q r in
      (
        λ mem.
            let (among, passes) = kept.0 mem in
            let (tid, at_tid, involved) = found.0 among in (tid, at_tid, involved, inside.0 passes),
        λ (tid, at_tid, involved, fits). kept.1 (found.1 (tid, at_tid, involved), inside.1 fits),
      ),
)
