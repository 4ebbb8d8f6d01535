-- ===== src/Types/Postings.antt =====
-- crates/kuatia-types/src/posting.rs
use kuatia.Prelude.{Option}
use kuatia.Money.{Cent}
use kuatia.Types.Ids.{AccountId, AssetId, PostingId, ReservationId}

pub data PostingFilter : Type 0 where
  active reserved live every : PostingFilter

pub data PostingState : Type 0 where
  is_active : PostingState
  is_reserved : ReservationId → PostingState
  is_spent is_missing : PostingState

pub record Posting : Type 0 where
  pub id : PostingId
  pub owner : AccountId
  pub asset : AssetId
  pub value : Cent

pub record NewPosting : Type 0 where
  pub owner : AccountId
  pub asset : AssetId
  pub value : Cent
  pub payer : Option AccountId
