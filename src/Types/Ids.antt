-- ===== src/Types/Ids.antt =====
-- crates/kuatia-types/src/ids.rs: identifiers, with the equality and the order that Rust derives.
use kuatia.Prelude.{
  ℕ, ◌≡◌, ◌↔◌, Bool, true, false, [], ◌∷◌, ◌&&◌, arith, Eq, nat_eq, list_eq, ℤ, pos, eqb_ℤ, leb_ℤ,
  eqb_ℤ_iff, int_eq, leb, eqb, if◌then◌else◌, list_beq, list_beq_iff, eqb_iff,
}
use kuatia.Prelude.Bytes.{Bytes}

-- A base account and a subaccount; both are `i64`.
pub record AccountId : Type 0 where
  pub id : ℤ
  pub sub : ℤ

-- `AssetId(u32)`
abbrev pub AssetId : Type 0
AssetId = ℕ

-- `EnvelopeId([u8; 32])`
abbrev pub EnvelopeId : Type 0
EnvelopeId = Bytes

pub record PostingId : Type 0 where
  pub transfer : EnvelopeId
  pub index : ℕ

-- `BookId(i64)`
abbrev pub BookId : Type 0
BookId = ℤ

-- `ReservationId(i64)`
abbrev pub ReservationId : Type 0
ReservationId = ℤ

pub record AccountSnapshotId : Type 0 where
  pub account : AccountId
  pub snapshot_id : Bytes

abbrev pub default_book : BookId
default_book = pos 0

-- `AccountId::new`
abbrev pub main_account : ℤ → AccountId
main_account i = record { id = i; sub = pos 0 }

abbrev pub with_sub : ℤ → ℤ → AccountId
with_sub i s = record { id = i; sub = s }

-- The main account of an id.
abbrev pub base : AccountId → AccountId
base a = record { id = a.id; sub = pos 0 }

abbrev pub is_main : AccountId → Bool
is_main a = eqb_ℤ a.sub (pos 0)

unfoldable pub account_id_beq : AccountId → AccountId → Bool
account_id_beq a b = eqb_ℤ a.id b.id && eqb_ℤ a.sub b.sub

pub account_id_beq_iff : (a b : AccountId) → (account_id_beq a b ≡ true) ↔ (a ≡ b)
unfolding account_id_beq
account_id_beq_iff a b = ground (arith, eqb_ℤ_iff a.id b.id, eqb_ℤ_iff a.sub b.sub)

instance abbrev pub account_id_eq : Eq AccountId
account_id_eq = record { test = account_id_beq; test_iff = account_id_beq_iff }

unfoldable pub posting_id_beq : PostingId → PostingId → Bool
posting_id_beq a b = list_beq a.transfer b.transfer && eqb a.index b.index

pub posting_id_beq_iff : (a b : PostingId) → (posting_id_beq a b ≡ true) ↔ (a ≡ b)
unfolding posting_id_beq
posting_id_beq_iff a b = ground (arith, list_beq_iff a.transfer b.transfer, eqb_iff a.index b.index)

instance abbrev pub posting_id_eq : Eq PostingId
posting_id_eq = record { test = posting_id_beq; test_iff = posting_id_beq_iff }

-- The key of a balance.
abbrev pub BalanceKey : Type 0
BalanceKey = AccountId × AssetId

unfoldable pub balance_key_beq : BalanceKey → BalanceKey → Bool
balance_key_beq a b = account_id_beq a.0 b.0 && eqb a.1 b.1

pub balance_key_beq_iff : (a b : BalanceKey) → (balance_key_beq a b ≡ true) ↔ (a ≡ b)
unfolding balance_key_beq
balance_key_beq_iff (a, x) (b, y) = ground (arith, account_id_beq_iff a b, eqb_iff x y)

instance abbrev pub balance_key_eq : Eq BalanceKey
balance_key_eq = record { test = balance_key_beq; test_iff = balance_key_beq_iff }

-- The derived orders compare field by field.
abbrev pub le_account : AccountId → AccountId → Bool
le_account a b = if eqb_ℤ a.id b.id then leb_ℤ a.sub b.sub else leb_ℤ a.id b.id

abbrev pub le_key : BalanceKey → BalanceKey → Bool
le_key a b = if account_id_beq a.0 b.0 then leb a.1 b.1 else le_account a.0 b.0

abbrev pub le_bytes : Bytes → Bytes → Bool
le_bytes [] ys = true
le_bytes (x ∷ xs) [] = false
le_bytes (x ∷ xs) (y ∷ ys) = if eqb x y then le_bytes xs ys else leb x y

abbrev pub le_posting_id : PostingId → PostingId → Bool
le_posting_id a b =
    if list_beq a.transfer b.transfer then leb a.index b.index else le_bytes a.transfer b.transfer
