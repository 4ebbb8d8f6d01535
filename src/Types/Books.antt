-- ===== src/Types/Books.antt =====
-- crates/kuatia-types/src/book.rs
use kuatia.Prelude.{List}
use kuatia.Prelude.Bytes.{Bytes}
use kuatia.Types.Ids.{AccountId, AssetId, BookId}
use kuatia.Types.Accounts.{AccountFlags}

pub record BookPolicy : Type 0 where
  pub allowed_assets : List AssetId
  pub allowed_flags : AccountFlags
  pub allowed_accounts : List AccountId

pub record Book : Type 0 where
  pub id : BookId
  pub name : Bytes
  pub policy : BookPolicy
