-- ===== src/Ledger/Saga.antt =====
-- crates/kuatia/src/saga.rs: several transfers, one after the other, and their reversal when one fails.
-- Call number n of the ledger gets sequence number `seq n` and time `now n`.
pub mod Unwinds
mod Tests
use kuatia.Prelude.{
  ℕ, suc, ◌+◌, List, [], ◌∷◌, ◌++◌, ℤ, Outcome, ok, err, panic, ◌>>=◌, map_err, length,
}
use kuatia.Prelude.Bytes.{Bytes}
use kuatia.Money.{Cent}
use kuatia.Types.{AccountId, AssetId, Receipt, Transfer, empty_transfer, movement, deposit}
use kuatia.Storage.{InMemoryStore}
use kuatia.Ledger.Errors.{LedgerError, compensation_failed, from_overflow}
use kuatia.Ledger.Intent.{commit, reverse}

pub record PayInput : Type 0 where
  pub from : AccountId
  pub to : AccountId
  pub asset : AssetId
  pub amount : Cent

pub record DepositInput : Type 0 where
  pub to : AccountId
  pub asset : AssetId
  pub amount : Cent
  pub external : AccountId

-- `Vec::push` adds at the end; the loops below add in front.
abbrev pub reversed {ℓ} : {A : Type ℓ} → List A → List A
reversed [] = []
reversed (x ∷ xs) = reversed xs ++ (x ∷ [])

-- The source's `Movement`.
pub data Leg : Type 0 where
  pay : PayInput → Leg
  deposits : DepositInput → Leg

-- `Movement::build`
unfoldable pub build : Leg → Outcome LedgerError Transfer
build (pay p) = ok (movement p.from p.to p.asset p.amount empty_transfer)
build (deposits d) = map_err from_overflow (deposit d.to d.asset d.amount d.external empty_transfer)

abbrev pub Answers : Type 0
Answers = Outcome LedgerError (List Receipt) × InMemoryStore

-- What follows a reversal: the next one, unless it failed.
abbrev pub after_reverse :
    LedgerError → Outcome LedgerError Receipt × InMemoryStore → (InMemoryStore → Answers) → Answers
after_reverse original (ok r, s) rest = rest s
after_reverse original (err e, s) rest = (err (compensation_failed original e), s)
after_reverse original (panic, s) rest = (panic, s)

-- `movement.build()?` returns at once, with the store as it is.
abbrev pub after_build :
    Outcome LedgerError Transfer → InMemoryStore → (Transfer → Answers) → Answers
after_build (ok t) s rest = rest t
after_build (err e) s rest = (err e, s)
after_build panic s rest = (panic, s)

-- What follows a commit: the next movement, or the unwinding.
abbrev pub after_commit :
    Outcome LedgerError Receipt × InMemoryStore
    → (Receipt → InMemoryStore → Answers)
    → (LedgerError → InMemoryStore → Answers)
    → Answers
after_commit (ok r, s) rest unwind = rest r s
after_commit (err e, s) rest unwind = unwind e s
after_commit (panic, s) rest unwind = (panic, s)

module _ (sha256 : Bytes → Bytes) (seq : ℕ → ℕ) (now : ℕ → ℤ) where
  -- The loop over `receipts.iter().rev()`; the list has the last receipt first.
  unfoldable pub compensate : LedgerError → ℕ → List Receipt → InMemoryStore → Answers
  compensate original n [] s = (err original, s)
  compensate original n (r ∷ rs) s =
      after_reverse original (reverse sha256 (seq n) (now n) r.transfer_id s)
        (compensate original (suc n) rs)

  -- The loop over the movements; `done` are the receipts so far, the last one first.
  unfoldable pub run_loop : ℕ → List Receipt → List Leg → InMemoryStore → Answers
  unfolding build compensate
  run_loop n done [] s = (ok (reversed done), s)
  run_loop n done (m ∷ ms) s = after_build (build m) s (λ t.
      after_commit (commit sha256 (seq n) (now n) t s) (λ r. run_loop (suc n) (r ∷ done) ms)
        (λ e. compensate e (suc n) done))

  unfoldable pub run_movements : List Leg → InMemoryStore → Answers
  unfolding run_loop
  run_movements ms s = run_loop 0 [] ms s
