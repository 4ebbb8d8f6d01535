-- ===== src/Types/Transfers.antt =====
-- crates/kuatia-types/src/transfer.rs. A builder is the transfer that it has built so far.
use kuatia.Prelude.{List, [], ◌∷◌, ◌++◌, Outcome, ok, ◌>>=◌}
use kuatia.Money.{Cent, OverflowError, checked_neg}
use kuatia.Types.Ids.{AccountId, AssetId, BookId, EnvelopeId, default_book}
use kuatia.Types.Accounts.{Metadata}

pub record Receipt : Type 0 where
  pub transfer_id : EnvelopeId

pub record Movement : Type 0 where
  pub from : AccountId
  pub to : AccountId
  pub asset : AssetId
  pub amount : Cent

pub record Transfer : Type 0 where
  pub movements : List Movement
  pub book : BookId
  pub metadata : Metadata

abbrev pub empty_transfer : Transfer
empty_transfer = record { movements = []; book = default_book; metadata = [] }

-- `movement_ref`, which `movement`, `pay` and `pay_ref` call.
abbrev pub movement : AccountId → AccountId → AssetId → Cent → Transfer → Transfer
movement f t a c b = record b {
  movements = b.movements ++ (record { from = f; to = t; asset = a; amount = c } ∷ []);
}

unfoldable pub deposit :
    AccountId → AssetId → Cent → AccountId → Transfer → Outcome OverflowError Transfer
deposit t a c external b = do
  neg ← checked_neg c
  ok (movement external t a c (movement external external a neg b))

abbrev pub withdraw : AccountId → AssetId → Cent → AccountId → Transfer → Transfer
withdraw f a c external b = movement f external a c b
