-- ===== src/AccountCode/Walk/Ends.antt =====
-- crates/kuatia-types/src/account_code.rs: how many rounds cycle-walking takes.
use kuatia.Prelude.{
  ℕ, zero, suc, ◌+◌, ◌-◌, ◌≤◌, ◌<◌, ◌≡◌, ◌≢◌, refl, sym, ap, ◌∙◌, arith, none, false, leb, eqb,
  if◌then◌else◌, Bool-cases, inl, inr,
}
use kuatia.AccountCode.Pack.{pack_mask}
use kuatia.AccountCode.Walk.{walk, walk_in, walk_out}

-- No n + 1 values below n are all different.
pigeonhole :
    (n : ℕ) (s : ℕ → ℕ) → ((i : ℕ) → i ≤ n → s i < n) → ((i j : ℕ) → i < j → j ≤ n → s i ≢ s j) → ⊥
pigeonhole zero s below apart = omega (arith, below 0 (omega arith))
pigeonhole (suc n) s below apart = pigeonhole n moved moved-below moved-apart
  where
    -- The last value takes the place of the largest one.
    moved : ℕ → ℕ
    moved i = if eqb (s i) n then s (suc n) else s i

    moved-below : (i : ℕ) → i ≤ n → moved i < n
    moved-below i h = ground (arith, below i, below (suc n), apart i (suc n))

    moved-apart : (i j : ℕ) → i < j → j ≤ n → moved i ≢ moved j
    moved-apart i j h k = ground (arith, apart i j, apart i (suc n), apart j (suc n))

module _ (step : ℕ → ℕ) where
  iterate : ℕ → ℕ → ℕ
  iterate zero v = v
  iterate (suc n) v = iterate n (step v)

  iterate_last : (n v : ℕ) → iterate (suc n) v ≡ step (iterate n v)
  unfolding iterate
  iterate_last zero v = refl
  iterate_last (suc n) v = iterate_last n (step v)

  at_count : (n m v : ℕ) → n ≡ m → iterate n v ≡ iterate m v
  at_count n m v e = ap (λ k. iterate k v) e

  -- Every value that a walk without a result passes is above the domain.
  walk-passes : (fuel v n : ℕ) → walk step fuel v ≡ none → n < fuel → pack_mask < iterate (suc n) v
  unfolding iterate
  walk-passes zero v n h k = absurd (omega arith)
  walk-passes (suc fuel) v n h k = elim (Bool-cases (leb (step v) pack_mask)) [
    | inl e ↦ absurd (let stop = walk_in step fuel v e in cc)
    | inr e ↦ later n k e (λ m. walk-passes fuel (step v) m (sym (walk_out step fuel v e) ∙ h))
  ]
    where
      later :
          (n : ℕ)
          → n < suc fuel
          → leb (step v) pack_mask ≡ false
          → ((m : ℕ) → m < fuel → pack_mask < iterate (suc m) (step v))
          → pack_mask < iterate (suc n) v
      later zero k e rest = ground arith
      later (suc n) k e rest = rest n (omega arith)

  module _ (size : ℕ) (inside : (v : ℕ) → v < size → step v < size)
      (injective : (v w : ℕ) → v < size → w < size → step v ≡ step w → v ≡ w) where
    iterate-inside : (n v : ℕ) → v < size → iterate n v < size
    unfolding iterate
    iterate-inside zero v h = h
    iterate-inside (suc n) v h = iterate-inside n (step v) (inside v h)

    -- Two visits of one block come from an earlier return to the start.
    cancel : (i d v : ℕ) → v < size → iterate i v ≡ iterate (i + suc d) v → v ≡ iterate (suc d) v
    unfolding iterate
    cancel zero d v h e = e ∙ at_count (0 + suc d) (suc d) v (omega arith)
    cancel (suc i) d v h e =
        let same : iterate i (step v) ≡ iterate (i + suc d) (step v) =
          e ∙ at_count (suc i + suc d) (suc (i + suc d)) v (omega arith) in
        let back : step v ≡ step (iterate (suc d) v) =
          cancel i d (step v) (inside v h) same ∙ iterate_last (suc d) v in
        injective v (iterate (suc d) v) h (iterate-inside (suc d) v h) back

    pub walk-ne-none : (v : ℕ) → v ≤ pack_mask → v < size → walk step size v ≢ none
    walk-ne-none v low h e = pigeonhole size (λ i. iterate i v) (λ i _. iterate-inside i v h) apart
      where
        apart : (i j : ℕ) → i < j → j ≤ size → iterate i v ≢ iterate j v
        apart i j p q same =
            let gap = j - i - 1 in
            let met : v ≡ iterate (suc gap) v =
              cancel i gap v h (same ∙ at_count j (i + suc gap) v (omega arith)) in
            omega (arith, walk-passes size v gap e (omega arith), met)
