-- ===== src/Inflight.antt =====
-- crates/kuatia/src/inflight.rs: the records of holds that are confirmed or voided later.
pub mod Meta
pub mod Projection
pub mod Funders
mod Tests
use kuatia.Prelude.{List}
use kuatia.Money.{Cent}
use kuatia.Types.{AccountId, AssetId, EnvelopeId, Receipt}

pub record InflightLeg : Type 0 where
  pub destination : AccountId
  pub hold : AccountId
  pub funder : AccountId
  pub asset : AssetId
  pub amount : Cent

pub record Authorization : Type 0 where
  pub inflight : EnvelopeId
  pub legs : List InflightLeg

-- `Authorization::receipt`
abbrev pub authorization_receipt : Authorization → Receipt
authorization_receipt a = record { transfer_id = a.inflight }

pub data InflightState : Type 0 where
  held partially_confirmed confirmed voided mixed : InflightState

pub record InflightLegStatus : Type 0 where
  pub destination : AccountId
  pub hold : AccountId
  pub asset : AssetId
  pub authorized : Cent
  pub confirmed_amount : Cent
  pub voided_amount : Cent
  pub held_amount : Cent

pub record InflightStatus : Type 0 where
  pub inflight : EnvelopeId
  pub legs : List InflightLegStatus
  pub state : InflightState
