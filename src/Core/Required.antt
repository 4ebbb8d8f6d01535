-- ===== src/Core/Required.antt =====
-- crates/kuatia-core/src/validate.rs: what `validate_and_plan` takes and returns, and the state that
-- it reads.
use kuatia.Prelude.{Option, List, map, ◌++◌, Outcome}
use kuatia.Prelude.Bytes.{Bytes}
use kuatia.Prelude.Map.{Map}
use kuatia.Prelude.Sort.{sort, dedup}
use kuatia.Money.{Cent, OverflowError}
use kuatia.Types.{
  AccountId, AssetId, BookId, BalanceKey, PostingId, EnvelopeId, Account, Book, Envelope, Posting,
  le_account, le_key, account_id_eq, balance_key_eq,
}

pub record PlanInput : Type 0 where
  pub envelope : Envelope
  pub consumed_postings : List Posting
  pub accounts : Map AccountId Account
  pub balances : Map BalanceKey Cent
  pub book : Option Book

pub record Plan : Type 0 where
  pub transfer_id : EnvelopeId
  pub postings_to_deactivate : List PostingId
  pub postings_to_create : List Posting

pub data ValidationError : Type 0 where
  empty_transfer : ValidationError
  duplicate_consumed_posting posting_not_found : PostingId → ValidationError
  ownership_violation : PostingId → (expected actual : AccountId) → ValidationError
  account_not_found account_frozen account_closed : AccountId → ValidationError
  conservation_violation : AssetId → (consumed_sum created_sum : Cent) → ValidationError
  overdraft_exceeded : AccountId → AssetId → (projected : Cent) → ValidationError
  account_version_mismatch : AccountId → (expected actual : Bytes) → ValidationError
  negative_posting_on_non_system_account : AccountId → AssetId → (value : Cent) → ValidationError
  book_asset_not_allowed : BookId → AssetId → ValidationError
  book_account_not_allowed : BookId → AccountId → ValidationError
  overflow : ValidationError

abbrev pub Check : Type 0
Check = Outcome ValidationError (Unit {0})

abbrev pub from_overflow : OverflowError → ValidationError
from_overflow _ = overflow

-- The accounts and the balance keys that the postings touch.
pub record PostingKeys : Type 0 where
  pub owners : List AccountId
  pub balances : List BalanceKey

unfoldable pub posting_keys : Envelope → List Posting → PostingKeys
posting_keys e consumed = record {
  owners = dedup (sort le_account (map (λ p. p.owner) e.creates ++ map (λ p. p.owner) consumed));
  balances = dedup (
      sort le_key
        (map (λ p. (p.owner, p.asset)) e.creates ++ map (λ p. (p.owner, p.asset)) consumed));
}

pub record RequiredState : Type 0 where
  pub consumed_postings : List PostingId
  pub accounts : List AccountId
  pub balances : List BalanceKey

unfoldable pub required_state : Envelope → List Posting → RequiredState
unfolding posting_keys
required_state e consumed =
    let required = posting_keys e consumed in
    record {
      consumed_postings = e.consumes;
      accounts =
          dedup (sort le_account (required.owners ++ map (λ s. s.account) e.account_snapshots));
      balances = required.balances;
    }
