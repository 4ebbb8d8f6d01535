-- ===== src/Prelude/Sort.antt =====
-- Rust's stable `sort_by` with a Boolean order, and `dedup`, which drops repeated neighbours.
use kuatia.Prelude.{
  ◌≡◌, refl, Bool, List, [], ◌∷◌, Eq, ◌==◌, ==→eq, if◌then◌else◌, Bool-cases, inl, inr, All, sym,
  subst, ℤ, sum, ◌+ℤ◌, int_laws, map,
}

module _ {ℓ} {A : Type ℓ} where
  -- `x` goes before the first element that it is not above.
  unfoldable pub insert_sorted : (A → A → Bool) → A → List A → List A
  insert_sorted le x [] = x ∷ []
  insert_sorted le x (y ∷ ys) = if le x y then x ∷ y ∷ ys else y ∷ insert_sorted le x ys

  unfoldable pub sort : (A → A → Bool) → List A → List A
  sort le [] = []
  sort le (x ∷ xs) = insert_sorted le x (sort le xs)

  unfoldable pub dedup : ⦃e : Eq A⦄ → List A → List A
  dedup [] = []
  dedup (x ∷ []) = x ∷ []
  dedup (x ∷ y ∷ ys) = if x == y then dedup (y ∷ ys) else x ∷ dedup (y ∷ ys)

module _ {ℓ κ} {A : Type ℓ} (P : A → Type κ) (le : A → A → Bool) where
  pub All-insert_sorted : (x : A) (ys : List A) → P x → All P ys → All P (insert_sorted le x ys)
  unfolding insert_sorted
  All-insert_sorted x [] p ps = (p, tt)
  All-insert_sorted x (y ∷ ys) p ps = elim (Bool-cases (le x y)) [
    | inl e ↦ rw e (p, ps)
    | inr e ↦ rw e (ps.0, All-insert_sorted x ys p ps.1)
  ]

  pub All-of_insert_sorted : (x : A) (ys : List A) → All P (insert_sorted le x ys) → P x × All P ys
  unfolding insert_sorted
  All-of_insert_sorted x [] ps = ps
  All-of_insert_sorted x (y ∷ ys) ps = elim (Bool-cases (le x y)) [
    | inl e ↦ rw e at ps
    | inr e ↦
        let qs : All P (y ∷ insert_sorted le x ys) = rw e at ps in
        let (p, rest) = All-of_insert_sorted x ys qs.1 in (p, (qs.0, rest))
  ]

  pub All-sort : (xs : List A) → All P xs → All P (sort le xs)
  unfolding sort
  All-sort [] ps = tt
  All-sort (x ∷ xs) (p, ps) = All-insert_sorted x (sort le xs) p (All-sort xs ps)

  pub All-of_sort : (xs : List A) → All P (sort le xs) → All P xs
  unfolding sort
  All-of_sort [] ps = tt
  All-of_sort (x ∷ xs) ps =
      let (p, rest) = All-of_insert_sorted x (sort le xs) ps in (p, All-of_sort xs rest)

module _ {ℓ κ} {A : Type ℓ} ⦃e : Eq A⦄ (P : A → Type κ) where
  pub All-of_dedup : (xs : List A) → All P (dedup xs) → All P xs
  unfolding dedup
  All-of_dedup [] ps = tt
  All-of_dedup (x ∷ []) ps = ps
  All-of_dedup (x ∷ y ∷ ys) ps = elim (Bool-cases (x == y)) [
    | inl same ↦
        let rest : All P (y ∷ ys) = All-of_dedup (y ∷ ys) (rw same at ps) in
        (subst P (sym (==→eq x y same)) rest.0, rest)
    | inr other ↦
        let qs : All P (x ∷ dedup (y ∷ ys)) = rw other at ps in (qs.0, All-of_dedup (y ∷ ys) qs.1)
  ]

module _ {ℓ} {A : Type ℓ} (f : A → ℤ) (le : A → A → Bool) where
  sum-insert_sorted :
      (x : A) (ys : List A) → sum (map f (insert_sorted le x ys)) ≡ f x +ℤ sum (map f ys)
  unfolding insert_sorted sum
  sum-insert_sorted x [] = refl
  sum-insert_sorted x (y ∷ ys) = elim (Bool-cases (le x y)) [
    | inl e ↦ rw e
    | inr e ↦ rw (e, sum-insert_sorted x ys) (omega int_laws)
  ]

  -- Sorting keeps every sum.
  pub sum-sort : (xs : List A) → sum (map f (sort le xs)) ≡ sum (map f xs)
  unfolding sort sum
  sum-sort [] = refl
  sum-sort (x ∷ xs) = rw (sum-insert_sorted x (sort le xs), sum-sort xs)
