-- ===== src/Ledger/Saga/Unwinds.antt =====
-- crates/kuatia/src/saga.rs: what a run of movements does, given the plain sequence of commits that its
-- first movements make.
use kuatia.Prelude.{
  ℕ, suc, ◌+◌, ◌-◌, ◌^◌, ◌≡◌, refl, ap, sym, subst, ◌∙◌, arith, Option, none, some, List, [], ◌∷◌,
  ◌++◌, ℤ, ◌-ℤ◌, negsuc, Outcome, ok, err, panic, length,
}
use kuatia.Prelude.Bytes.{Bytes}
use kuatia.Money.{checked_neg, fits}
use kuatia.Types.{Receipt, Transfer, deposit}
use kuatia.Storage.{InMemoryStore}
use kuatia.Ledger.Errors.{LedgerError, ledger_overflow, compensation_failed}
use kuatia.Ledger.Intent.{commit, reverse}
use kuatia.Ledger.Saga.{
  Leg, deposits, DepositInput, build, after_reverse, compensate, run_loop, run_movements, reversed,
  Answers,
}

some-injective {ℓ} : {A : Type ℓ} {a b : A} → some a ≡ some b → a ≡ b
some-injective h = cc

abbrev Committed : Type 0
Committed = Option (List Receipt × InMemoryStore)

abbrev built_ok : Outcome LedgerError Transfer → (Transfer → Committed) → Committed
built_ok (ok t) rest = rest t
built_ok (err e) rest = none
built_ok panic rest = none

abbrev after_ok :
    Outcome LedgerError Receipt × InMemoryStore → (Receipt → InMemoryStore → Committed) → Committed
after_ok (ok r, s) rest = rest r s
after_ok (err e, s) rest = none
after_ok (panic, s) rest = none

-- One movement that commits: its transfer, and the receipt and the store that come after.
built_ok_eq :
    (o : Outcome LedgerError Transfer) (f : Transfer → Committed) (c : List Receipt × InMemoryStore)
    → built_ok o f ≡ some c
    → (t : Transfer) × (o ≡ ok t) × (f t ≡ some c)
built_ok_eq (ok t) f c h = (t, refl, h)
built_ok_eq (err e) f c h = cc
built_ok_eq panic f c h = cc

after_ok_eq :
    (o : Outcome LedgerError Receipt × InMemoryStore) (f : Receipt → InMemoryStore → Committed)
    (c : List Receipt × InMemoryStore)
    → after_ok o f ≡ some c
    → (r : Receipt) × (s : InMemoryStore) × (◌≡◌ {A = Outcome LedgerError Receipt × InMemoryStore} o
        (ok r, s))
      × (f r s ≡ some c)
after_ok_eq (ok r, s) f c h = (r, s, refl, h)
after_ok_eq (err e, s) f c h = cc
after_ok_eq (panic, s) f c h = cc

abbrev with_receipt : Receipt → Committed → Committed
with_receipt r none = none
with_receipt r (some (rs, s)) = some (r ∷ rs, s)

with_receipt_eq :
    (r : Receipt) (o : Committed) (rs : List Receipt) (s : InMemoryStore)
    → with_receipt r o ≡ some (rs, s)
    → (rs' : List Receipt) × (o ≡ some (rs', s)) × (rs ≡ r ∷ rs')
with_receipt_eq r none rs s h = cc
with_receipt_eq r (some (rs', s')) rs s h =
    let same : ◌≡◌ {A = List Receipt × InMemoryStore} (r ∷ rs', s') (rs, s) = some-injective h in
    (
      rs',
      ap (λ (x : InMemoryStore). some (rs', x))
          (ap (λ (c : List Receipt × InMemoryStore). c.1) same),
      sym (ap (λ (c : List Receipt × InMemoryStore). c.0) same),
    )

append-nil {ℓ} : {A : Type ℓ} (xs : List A) → xs ++ [] ≡ xs
append-nil [] = refl
append-nil (x ∷ xs) = ap (λ l. x ∷ l) (append-nil xs)

append_assoc {ℓ} : {A : Type ℓ} (xs ys zs : List A) → (xs ++ ys) ++ zs ≡ xs ++ (ys ++ zs)
append_assoc [] ys zs = refl
append_assoc (x ∷ xs) ys zs = ap (λ l. x ∷ l) (append_assoc xs ys zs)

-- Receipts in the order in which they were made, put on the list of the loop, which has the last one first.
abbrev onto : List Receipt → List Receipt → List Receipt
onto [] done = done
onto (r ∷ rs) done = onto rs (r ∷ done)

reversed-onto : (rs done : List Receipt) → reversed (onto rs done) ≡ reversed done ++ rs
reversed-onto [] done = sym (append-nil (reversed done))
reversed-onto (r ∷ rs) done = reversed-onto rs (r ∷ done) ∙ append_assoc (reversed done) (r ∷ []) rs

module _ (sha256 : Bytes → Bytes) (seq : ℕ → ℕ) (now : ℕ → ℤ) where
  -- Commits one after the other, where all succeed: the receipts in order, and the store.
  unfoldable pub commit_each : ℕ → List Leg → InMemoryStore → Committed
  unfolding build commit
  commit_each n [] s = some ([], s)
  commit_each n (m ∷ ms) s = built_ok (build m) (λ t.
      after_ok (commit sha256 (seq n) (now n) t s)
        (λ r s'. with_receipt r (commit_each (suc n) ms s')))

  -- The reversal of receipts, from the last one to the first: all are reversed and the original error is
  -- answered, or a reversal fails, which ends it with both errors, or one panics.
  pub data Unwinds (original : LedgerError)
      : ℕ → List Receipt → InMemoryStore → Answers → Type 0 where
    all_reversed : (n : ℕ) (s : InMemoryStore) → Unwinds original n [] s (err original, s)
    reversed_last :
        (n : ℕ) (rs : List Receipt) (r r' : Receipt) (s s' : InMemoryStore) (end : Answers)
        → ◌≡◌ {A = Outcome LedgerError Receipt × InMemoryStore}
            (reverse sha256 (seq n) (now n) r.transfer_id s)
            (ok r', s')
        → Unwinds original (suc n) rs s' end
        → Unwinds original n (rs ++ (r ∷ [])) s end
    reversal_fails :
        (n : ℕ) (rs : List Receipt) (r : Receipt) (e : LedgerError) (s s' : InMemoryStore)
        → ◌≡◌ {A = Outcome LedgerError Receipt × InMemoryStore}
            (reverse sha256 (seq n) (now n) r.transfer_id s)
            (err e, s')
        → Unwinds original n (rs ++ (r ∷ [])) s (err (compensation_failed original e), s')
    reversal_panics :
        (n : ℕ) (rs : List Receipt) (r : Receipt) (s s' : InMemoryStore)
        → ◌≡◌ {A = Outcome LedgerError Receipt × InMemoryStore}
            (reverse sha256 (seq n) (now n) r.transfer_id s)
            (panic, s')
        → Unwinds original n (rs ++ (r ∷ [])) s (panic, s')

  -- One reversal, whatever it answers.
  after_reverse-Unwinds :
      (original : LedgerError) (n : ℕ) (rs : List Receipt) (r : Receipt) (s : InMemoryStore)
      (o : Outcome LedgerError Receipt × InMemoryStore) (rest : InMemoryStore → Answers)
      → ◌≡◌ {A = Outcome LedgerError Receipt × InMemoryStore}
          (reverse sha256 (seq n) (now n) r.transfer_id s)
          o
      → ((s' : InMemoryStore) → Unwinds original (suc n) rs s' (rest s'))
      → Unwinds original n (rs ++ (r ∷ [])) s (after_reverse original o rest)
  after_reverse-Unwinds original n rs r s (ok r', s') rest done others =
      reversed_last n rs r r' s s' (rest s') done (others s')
  after_reverse-Unwinds original n rs r s (err e, s') rest failed others =
      reversal_fails n rs r e s s' failed
  after_reverse-Unwinds original n rs r s (panic, s') rest panics others =
      reversal_panics n rs r s s' panics

  compensate-Unwinds :
      (original : LedgerError) (n : ℕ) (done : List Receipt) (s : InMemoryStore)
      → Unwinds original n (reversed done) s (compensate sha256 seq now original n done s)
  unfolding compensate
  compensate-Unwinds original n [] s = all_reversed n s
  compensate-Unwinds original n (r ∷ rs) s =
      after_reverse-Unwinds original n (reversed rs) r s
        (reverse sha256 (seq n) (now n) r.transfer_id s)
        (compensate sha256 seq now original (suc n) rs) refl
        (compensate-Unwinds original (suc n) rs)

  -- A run goes through the movements that commit.
  run_on :
      (ms rest : List Leg) (n : ℕ) (done rs : List Receipt) (s s' : InMemoryStore)
      → commit_each n ms s ≡ some (rs, s')
      → ◌≡◌ {A = Answers}
          (run_loop sha256 seq now n done (ms ++ rest) s)
          (run_loop sha256 seq now (n + length ms) (onto rs done) rest s')
  unfolding commit_each run_loop
  run_on [] rest n done rs s s' h =
      let same : ◌≡◌ {A = List Receipt × InMemoryStore} ([], s) (rs, s') = some-injective h in
      let count : n + 0 ≡ n = omega arith in
      rw count (
        ap
          (λ (c : List Receipt × InMemoryStore). run_loop sha256 seq now n (onto c.0 done) rest c.1)
          same)
  run_on (m ∷ ms) rest n done rs s s' h =
      let (t, made, h1) = built_ok_eq (build m) _ (rs, s') h in
      let (r, s1, done_one, h2) = after_ok_eq (commit sha256 (seq n) (now n) t s) _ (rs, s') h1 in
      let (rs1, h3, whole) = with_receipt_eq r (commit_each (suc n) ms s1) rs s' h2 in
      let count : n + suc (length ms) ≡ suc n + length ms = omega arith in
      rw (made, done_one, count, whole) (run_on ms rest (suc n) (r ∷ done) rs1 s1 s' h3)

-- The three ends of a run whose first movements `ms` commit one after the other, with the receipts `rs`, in
-- that order, and the store s'. If there are no more, the run answers the receipts in order. If the next one
-- is built but its commit fails with an error, the receipts are reversed, from the last one to the first: if
-- each reversal succeeds, the run answers the error; at the first that fails it answers both errors, and
-- reverses no more; at one that panics it panics. If the next one cannot be built, which the source's
-- comment counts as a failure too, its error is answered and the store stays s': nothing is reversed.
pub run_movements-ends :
    (sha256 : Bytes → Bytes) (seq : ℕ → ℕ) (now : ℕ → ℤ) (ms : List Leg) (s s' : InMemoryStore)
    (rs : List Receipt)
    → commit_each sha256 seq now 0 ms s ≡ some (rs, s')
    → (◌≡◌ {A = Answers} (run_movements sha256 seq now ms s) (ok rs, s'))
      × ((m : Leg) (rest : List Leg) (t : Transfer) (e : LedgerError) (s2 : InMemoryStore)
          → build m ≡ ok t
          → ◌≡◌ {A = Outcome LedgerError Receipt × InMemoryStore}
              (commit sha256 (seq (length ms)) (now (length ms)) t s')
              (err e, s2)
          → Unwinds sha256 seq now e
              (suc (length ms))
              rs
              s2
              (run_movements sha256 seq now (ms ++ (m ∷ rest)) s))
      × ((m : Leg) (rest : List Leg) (e : LedgerError)
          → build m ≡ err e
          → ◌≡◌ {A = Answers} (run_movements sha256 seq now (ms ++ (m ∷ rest)) s) (err e, s'))
unfolding run_movements run_loop
run_movements-ends sha256 seq now ms s s' rs h =
    let back : reversed (onto rs []) ≡ rs = reversed-onto rs [] in
    (
      rw (← append-nil ms) (run_on sha256 seq now ms [] 0 [] rs s s' h)
          ∙ ap (λ (l : List Receipt). (ok l, s')) back,
      λ m rest t e s2 made failed.
          let count : 0 + length ms ≡ length ms = omega arith in
          let end =
            run_on sha256 seq now ms (m ∷ rest) 0 [] rs s s' h ∙ (rw (made, count, failed)) in
          subst
            (λ l.
              Unwinds sha256 seq now e (suc (length ms)) l s2
                (run_movements sha256 seq now (ms ++ (m ∷ rest)) s))
            back
            (subst
              (λ (x : Answers).
                Unwinds sha256 seq now e (suc (length ms)) (reversed (onto rs [])) s2 x)
              (sym end) (compensate-Unwinds sha256 seq now e (suc (length ms)) (onto rs []) s2)),
      λ m rest e bad. run_on sha256 seq now ms (m ∷ rest) 0 [] rs s s' h ∙ (rw bad),
    )

-- A run that comes to a deposit of the least amount, -2^63, answers an overflow and reverses none of the
-- movements before it, which have been committed.
pub run_movements-keeps :
    (sha256 : Bytes → Bytes) (seq : ℕ → ℕ) (now : ℕ → ℤ) (ms rest : List Leg) (d : DepositInput)
    (s s' : InMemoryStore) (rs : List Receipt)
    → commit_each sha256 seq now 0 ms s ≡ some (rs, s')
    → d.amount ≡ negsuc (2 ^ 63 - 1)
    → ◌≡◌ {A = Answers}
        (run_movements sha256 seq now (ms ++ (deposits d ∷ rest)) s)
        (err ledger_overflow, s')
unfolding build deposit checked_neg fits ◌-ℤ◌
run_movements-keeps sha256 seq now ms rest d s s' rs h least =
    (run_movements-ends sha256 seq now ms s s' rs h).2 (deposits d) rest ledger_overflow
      (rw least refl)
