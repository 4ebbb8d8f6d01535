-- ===== src/Types/Accounts.antt =====
-- crates/kuatia-types/src/account.rs: accounts and their flags. The flags are a `u32`, and each
-- flag that the ledger reads is one bit, so `contains`, `|=` and `remove` act on one bit.
use kuatia.Prelude.{ℕ, ◌+◌, ◌-◌, ◌/◌, ◌%◌, ◌^◌, Bool, not, [], eqb, if◌then◌else◌}
use kuatia.Prelude.Map.{Map}
use kuatia.Prelude.Bytes.{Bytes}
use Prim.Native.Nat.{bit_and}
use kuatia.Types.Ids.{AccountId, BookId, default_book}

abbrev pub AccountFlags : Type 0
AccountFlags = ℕ

-- The positions of the flags.
abbrev pub frozen : ℕ
frozen = 0

abbrev pub closed : ℕ
closed = 1

abbrev pub inflight : ℕ
inflight = 2

abbrev pub debit_must_not_exceed_credit : ℕ
debit_must_not_exceed_credit = 3

-- `flags.contains(FLAG)`
abbrev pub has_flag : ℕ → AccountFlags → Bool
has_flag k flags = eqb (flags / 2 ^ k % 2) 1

-- `flags |= FLAG`
abbrev pub with_flag : ℕ → AccountFlags → AccountFlags
with_flag k flags = if has_flag k flags then flags else flags + 2 ^ k

-- `flags.remove(FLAG)`
abbrev pub without_flag : ℕ → AccountFlags → AccountFlags
without_flag k flags = if has_flag k flags then flags - 2 ^ k else flags

-- `flags.intersects(other)`
abbrev pub intersects : AccountFlags → AccountFlags → Bool
intersects flags other = not (eqb (bit_and flags other) 0)

-- Keys and values are bytes; a `BTreeMap` lists them in the order of the keys.
abbrev pub Metadata : Type 0
Metadata = Map Bytes Bytes

pub record Account : Type 0 where
  pub id : AccountId
  pub version : ℕ
  pub flags : AccountFlags
  pub book : BookId
  pub metadata : Metadata

-- `Account::new`
abbrev pub new_account : AccountId → Account
new_account i = record { id = i; version = 1; flags = 0; book = default_book; metadata = [] }

-- `Account::debit_must_not_exceed_credit`
abbrev pub new_no_overdraft : AccountId → Account
new_no_overdraft i = record (new_account i) { flags = with_flag debit_must_not_exceed_credit 0 }

abbrev pub forbids_overdraft : Account → Bool
forbids_overdraft a = has_flag debit_must_not_exceed_credit a.flags

abbrev pub is_frozen : Account → Bool
is_frozen a = has_flag frozen a.flags

abbrev pub is_closed : Account → Bool
is_closed a = has_flag closed a.flags
