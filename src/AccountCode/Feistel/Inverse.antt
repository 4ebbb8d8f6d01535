-- ===== src/AccountCode/Feistel/Inverse.antt =====
-- crates/kuatia-types/src/account_code.rs: `feistel94` and `feistel94_inv`, one after the other.
use Prim.Native.Nat.{bit_xor}
use kuatia.Prelude.{ℕ, ◌%◌, ◌^◌, ◌<◌, ◌≡◌, refl, arith, List, [], ◌∷◌}
use kuatia.Prelude.Bits.{bit_xor-lt, bit_xor-bit_xor, bit_or_fields}
use kuatia.AccountCode.Feistel.{
  round_word, feistel_loop, feistel_inv_loop, join_halves, feistel94, feistel94_inv, high_half,
  low_half, feistel_rounds, feistel_rounds_rev,
}

module _ (seed : ℕ) where
  round_word-lt : (round half : ℕ) → round_word seed round half < 2 ^ 47
  unfolding round_word
  round_word-lt round half = omega arith

  -- The same word twice gives back the half it was mixed into.
  unmix :
      (round l r : ℕ)
      → l < 2 ^ 47
      → bit_xor (bit_xor l (round_word seed round r) % 2 ^ 47) (round_word seed round r) % 2 ^ 47
        ≡ l
  unmix round l r p =
      let w = round_word seed round r in
      let fits = round_word-lt round r in
      let small = bit_xor-lt 47 l w p fits in
      let same : bit_xor l w % 2 ^ 47 ≡ bit_xor l w = omega (arith, small) in
      rw (same, bit_xor-bit_xor 47 l w p fits) (omega arith)

  abbrev IsHalf : ℕ → Type 0
  IsHalf x = x < 2 ^ 47

  abbrev AreHalves : ℕ × ℕ → Type 0
  AreHalves p = IsHalf p.0 × IsHalf p.1

  feistel_loop-AreHalves :
      (rounds : List ℕ) (l r : ℕ) → IsHalf l → IsHalf r → AreHalves (feistel_loop seed rounds l r)
  unfolding feistel_loop
  feistel_loop-AreHalves [] l r p q = (p, q)
  feistel_loop-AreHalves (round ∷ rest) l r p q =
      feistel_loop-AreHalves rest r (bit_xor l (round_word seed round r) % 2 ^ 47) q (omega arith)

  feistel_inv_loop-AreHalves :
      (rounds : List ℕ) (l r : ℕ)
      → IsHalf l
      → IsHalf r
      → AreHalves (feistel_inv_loop seed rounds l r)
  unfolding feistel_inv_loop
  feistel_inv_loop-AreHalves [] l r p q = (p, q)
  feistel_inv_loop-AreHalves (round ∷ rest) l r p q =
      feistel_inv_loop-AreHalves rest (bit_xor r (round_word seed round l) % 2 ^ 47) l (omega arith)
        p

  abbrev onto : List ℕ → List ℕ → List ℕ
  onto [] done = done
  onto (x ∷ xs) done = onto xs (x ∷ done)

  -- Rounds undone from the last one leave what was to be undone before them.
  undo :
      (rounds done : List ℕ) (l r : ℕ)
      → IsHalf l
      → IsHalf r
      → ◌≡◌ {A = ℕ × ℕ}
          (feistel_inv_loop seed
            (onto rounds done)
            (feistel_loop seed rounds l r).0
            (feistel_loop seed rounds l r).1)
          (feistel_inv_loop seed done l r)
  unfolding feistel_loop feistel_inv_loop
  undo [] done l r p q = refl
  undo (round ∷ rest) done l r p q = rw (
    undo rest (round ∷ done) r (bit_xor l (round_word seed round r) % 2 ^ 47) q (omega arith),
    unmix round l r p,
  )

  redo :
      (rounds done : List ℕ) (l r : ℕ)
      → IsHalf l
      → IsHalf r
      → ◌≡◌ {A = ℕ × ℕ}
          (feistel_loop seed
            (onto rounds done)
            (feistel_inv_loop seed rounds l r).0
            (feistel_inv_loop seed rounds l r).1)
          (feistel_loop seed done l r)
  unfolding feistel_loop feistel_inv_loop
  redo [] done l r p q = refl
  redo (round ∷ rest) done l r p q = rw (
    redo rest (round ∷ done) (bit_xor r (round_word seed round l) % 2 ^ 47) l (omega arith) p,
    unmix round r l q,
  )

join_halves-bound : (p : ℕ × ℕ) → p.0 < 2 ^ 47 → p.1 < 2 ^ 47 → join_halves p < 2 ^ 94
unfolding join_halves
join_halves-bound (l, r) p q = omega (arith, bit_or_fields 47 l r q)

high_half-join_halves : (p : ℕ × ℕ) → p.0 < 2 ^ 47 → p.1 < 2 ^ 47 → high_half (join_halves p) ≡ p.0
unfolding join_halves
high_half-join_halves (l, r) p q = omega (arith, bit_or_fields 47 l r q)

low_half-join_halves : (p : ℕ × ℕ) → p.1 < 2 ^ 47 → low_half (join_halves p) ≡ p.1
unfolding join_halves
low_half-join_halves (l, r) q = omega (arith, bit_or_fields 47 l r q)

join_halves-block :
    (block : ℕ) → block < 2 ^ 94 → join_halves (high_half block, low_half block) ≡ block
unfolding join_halves
join_halves-block block p = omega (arith, bit_or_fields 47 (high_half block) (low_half block))

pub feistel94-bound : (block seed : ℕ) → feistel94 block seed < 2 ^ 94
unfolding feistel94
feistel94-bound block seed =
    let halves =
      feistel_loop-AreHalves seed feistel_rounds (high_half block) (low_half block) (omega arith)
        (omega arith) in
    join_halves-bound _ halves.0 halves.1

pub feistel94_inv-bound : (block seed : ℕ) → feistel94_inv block seed < 2 ^ 94
unfolding feistel94_inv
feistel94_inv-bound block seed =
    let halves =
      feistel_inv_loop-AreHalves seed feistel_rounds_rev (high_half block) (low_half block)
        (omega arith) (omega arith) in
    join_halves-bound _ halves.0 halves.1

pub feistel94_inv-feistel94 :
    (block seed : ℕ) → block < 2 ^ 94 → feistel94_inv (feistel94 block seed) seed ≡ block
unfolding feistel94 feistel94_inv feistel_inv_loop
feistel94_inv-feistel94 block seed p =
    let out = feistel_loop seed feistel_rounds (high_half block) (low_half block) in
    let halves =
      feistel_loop-AreHalves seed feistel_rounds (high_half block) (low_half block) (omega arith)
        (omega arith) in
    rw
      (
        high_half-join_halves out halves.0 halves.1,
        low_half-join_halves out halves.1,
        undo seed feistel_rounds [] (high_half block) (low_half block) (omega arith) (omega arith),
      )
      (join_halves-block block p)

pub feistel94-feistel94_inv :
    (block seed : ℕ) → block < 2 ^ 94 → feistel94 (feistel94_inv block seed) seed ≡ block
unfolding feistel94 feistel94_inv feistel_loop
feistel94-feistel94_inv block seed p =
    let out = feistel_inv_loop seed feistel_rounds_rev (high_half block) (low_half block) in
    let halves =
      feistel_inv_loop-AreHalves seed feistel_rounds_rev (high_half block) (low_half block)
        (omega arith) (omega arith) in
    rw
      (
        high_half-join_halves out halves.0 halves.1,
        low_half-join_halves out halves.1,
        redo seed feistel_rounds_rev [] (high_half block) (low_half block) (omega arith)
            (omega arith),
      )
      (join_halves-block block p)
