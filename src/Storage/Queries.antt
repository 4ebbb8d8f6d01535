-- ===== src/Storage/Queries.antt =====
-- crates/kuatia-storage/src/query.rs, and the queries of mem_store.rs and store.rs: the transfers of an
-- account, filters and pages.
pub mod Sorted
pub mod Index
pub mod Answers
pub mod Tests
use kuatia.Prelude.{
  ℕ, ◌+◌, ◌-◌, ◌^◌, Bool, true, false, not, ◌&&◌, ◌||◌, Option, none, some, List, [], ◌∷◌, ◌++◌,
  length, filter, take, drop, ◌==◌, Eq, nat_eq, int_eq, list_eq, ℤ, eqb_ℤ, eqb, leb_ℤ, ltb_ℤ,
  if◌then◌else◌,
}
use kuatia.Prelude.Map.{Map, lookup, insert, values, contains_key}
use kuatia.Prelude.Sort.{sort}
use kuatia.Money.{Cent}
use kuatia.Types.{AccountId, AssetId, BookId, EnvelopeId, Posting, PostingFilter, account_id_eq}
use kuatia.Storage.Records.{EnvelopeRecord, InMemoryStore}
use kuatia.Storage.Tables.{get_postings_by_account}

pub record PostingQuery : Type 0 where
  pub account : ℤ
  pub sub : Option ℤ
  pub asset : Option AssetId
  pub filter : PostingFilter
  pub limit : Option ℕ
  pub offset : Option ℕ

pub record TransferQuery : Type 0 where
  pub account : Option ℤ
  pub sub : Option ℤ
  pub from_ts : Option ℤ
  pub to_ts : Option ℤ
  pub book : Option BookId
  pub limit : Option ℕ
  pub offset : Option ℕ

pub record Page {ℓ} (A : Type ℓ) : Type ℓ where
  pub items : List A
  pub total : ℕ

abbrev pub unwrap_or {ℓ} : {A : Type ℓ} → Option A → A → A
unwrap_or none d = d
unwrap_or (some a) d = a

-- `query.from_ts` and its neighbours: an absent bound keeps everything.
abbrev pub holds_if {ℓ} : {A : Type ℓ} → Option A → (A → Bool) → Bool
holds_if none test = true
holds_if (some a) test = test a

-- The closure of `filter_transfers`.
abbrev pub in_query : TransferQuery → EnvelopeRecord → Bool
in_query query r =
    holds_if query.from_ts (λ from. not (ltb_ℤ r.created_at from))
    && holds_if query.to_ts (λ to. ltb_ℤ r.created_at to)
    && holds_if query.book (λ book. r.envelope.book == book)

abbrev pub filter_transfers : List EnvelopeRecord → TransferQuery → List EnvelopeRecord
filter_transfers records query = filter (in_query query) records

-- `u32::MAX`
abbrev pub u32_max : ℕ
u32_max = 2 ^ 32 - 1

abbrev pub window : Option ℕ → Option ℕ → ℕ × ℕ
window offset limit = (unwrap_or offset 0, unwrap_or limit u32_max)

abbrev pub paginate {ℓ} : {A : Type ℓ} → List A → Option ℕ → Option ℕ → Page A
paginate records offset limit =
    let (skip, count) = window offset limit in
    record { items = take count (drop skip records); total = length records }

unfoldable pub query_postings : InMemoryStore → PostingQuery → Page Posting
query_postings s query =
    paginate (get_postings_by_account s.postings query.account query.sub query.asset query.filter)
      query.offset query.limit

-- The closure `matches` of `get_transfers_for_account`.
abbrev pub is_owner : ℤ → Option ℤ → AccountId → Bool
is_owner id sub owner = eqb_ℤ owner.id id && holds_if sub (λ s. eqb_ℤ owner.sub s)

-- `accounts.iter().any(matches)`
abbrev pub any {ℓ} : {A : Type ℓ} → (A → Bool) → List A → Bool
any test [] = false
any test (x ∷ xs) = test x || any test xs

-- The closure of the `filter_map`: an id without a record is left out.
abbrev pub add_found : Option EnvelopeRecord → List EnvelopeRecord → List EnvelopeRecord
add_found none rest = rest
add_found (some r) rest = r ∷ rest

-- The `filter` and the `filter_map` over the index.
unfoldable pub records_for :
    (AccountId → Bool)
    → Map EnvelopeId EnvelopeRecord
    → Map EnvelopeId (List AccountId)
    → List EnvelopeRecord
records_for test transfers [] = []
records_for test transfers ((tid, accounts) ∷ index) =
    let rest = records_for test transfers index in
    if any test accounts then add_found (lookup tid transfers) rest else rest

-- `sort_by_key(|r| r.created_at)`
abbrev pub le_created : EnvelopeRecord → EnvelopeRecord → Bool
le_created a b = leb_ℤ a.created_at b.created_at

unfoldable pub get_transfers_for_account : InMemoryStore → ℤ → Option ℤ → List EnvelopeRecord
unfolding records_for
get_transfers_for_account s id sub =
    sort le_created (records_for (is_owner id sub) s.transfers s.transfer_accounts)

-- The candidates of `query_transfers`.
abbrev pub candidates : InMemoryStore → TransferQuery → List EnvelopeRecord
candidates s query = elim query.account [
  | some account ↦ get_transfers_for_account s account query.sub
  | none ↦ sort le_created (values s.transfers)
]

unfoldable pub query_transfers : InMemoryStore → TransferQuery → Page EnvelopeRecord
unfolding get_transfers_for_account
query_transfers s query =
    paginate (filter_transfers (candidates s query) query) query.offset query.limit

unfoldable pub get_transfer : InMemoryStore → EnvelopeId → Option EnvelopeRecord
get_transfer s id = lookup id s.transfers

-- The index is written also when the transfer is already there.
unfoldable pub store_transfer : EnvelopeRecord → List AccountId → InMemoryStore → ℕ × InMemoryStore
store_transfer r involved s =
    let tid = r.receipt.transfer_id in
    let indexed = insert tid involved s.transfer_accounts in
    if contains_key tid s.transfers
    then (0, record s { transfer_accounts = indexed })
    else (1, record s { transfers = insert tid r s.transfers; transfer_accounts = indexed })
