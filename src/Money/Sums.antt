-- ===== src/Money/Sums.antt =====
-- crates/kuatia-money/src/lib.rs: the checked operations and the exact ones.
use kuatia.Prelude.{
  ◌≡◌, List, [], ◌∷◌, arith, pos, ◌+ℤ◌, ◌-ℤ◌, int_laws, sum, ok, >>=-eq-ok, true, panic,
}
use kuatia.Money.{Cent, fits, checked_add, checked_sub, checked_neg, checked_sum_from, checked_sum}

pub checked_add-eq : (a b : Cent) {c : Cent} → checked_add a b ≡ ok c → c ≡ a +ℤ b
unfolding checked_add
checked_add-eq a b h = ground arith

pub checked_sub-eq : (a b : Cent) {c : Cent} → checked_sub a b ≡ ok c → c ≡ a -ℤ b
unfolding checked_sub
checked_sub-eq a b h = ground arith

pub checked_neg-eq : (a : Cent) {c : Cent} → checked_neg a ≡ ok c → c ≡ pos 0 -ℤ a
unfolding checked_neg
checked_neg-eq a h = ground arith

-- A result that fits is not refused.
pub checked_add-ok : (a b : Cent) → fits (a +ℤ b) ≡ true → checked_add a b ≡ ok (a +ℤ b)
unfolding checked_add
checked_add-ok a b h = rw h

-- The operations end in an answer or the overflow error, never in a panic.
pub checked_add-ne-panic : (a b : Cent) → checked_add a b ≡ panic → ⊥
unfolding checked_add
checked_add-ne-panic a b h = ground arith

pub checked_sum_from-eq :
    (xs : List Cent) (acc : Cent) {s : Cent} → checked_sum_from acc xs ≡ ok s → s ≡ acc +ℤ sum xs
unfolding checked_sum_from sum
checked_sum_from-eq [] acc {s} h = let e : acc ≡ s = cc in rw (← e) (omega int_laws)
checked_sum_from-eq (x ∷ xs) acc h =
    let (acc', e, rest) = >>=-eq-ok (checked_add acc x) (λ a. checked_sum_from a xs) h in
    rw (checked_sum_from-eq xs acc' rest, checked_add-eq acc x e) (omega int_laws)

-- A checked sum that answers is the exact sum.
pub checked_sum-eq : (xs : List Cent) {s : Cent} → checked_sum xs ≡ ok s → s ≡ sum xs
unfolding checked_sum
checked_sum-eq xs h = rw (checked_sum_from-eq xs (pos 0) h) (omega int_laws)

pub checked_sub-ne-panic : (a b : Cent) → checked_sub a b ≡ panic → ⊥
unfolding checked_sub
checked_sub-ne-panic a b h = ground arith
