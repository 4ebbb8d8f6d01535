-- ===== src/Prelude/Distinct.antt =====
-- Lists without repetitions, as the tests `contains` and `==` see them.
use kuatia.Prelude.{
  ◌≡◌, refl, subst, true, false, List, [], ◌∷◌, ◌++◌, arith, Eq, ◌==◌, ==→eq, ==_self, contains,
  if◌then◌else◌, Bool-cases, inl, inr, All,
}

module _ {ℓ} {A : Type ℓ} ⦃e : Eq A⦄ where
  abbrev pub IsDistinct : List A → Type 0
  IsDistinct [] = Unit
  IsDistinct (x ∷ xs) = (contains x xs ≡ false) × IsDistinct xs

  pub contains_none : (x : A) (xs : List A) → All (λ y. (x == y) ≡ false) xs → contains x xs ≡ false
  unfolding contains
  contains_none x [] h = refl
  contains_none x (y ∷ ys) h =
      ground (arith, e.test_iff x y, e.test_iff y x, contains_none x ys h.1)

  pub ne_of_contains :
      (x : A) (xs : List A) → contains x xs ≡ false → All (λ y. (y == x) ≡ false) xs
  unfolding contains
  ne_of_contains x [] h = tt
  ne_of_contains x (y ∷ ys) h = ground (arith, ne_of_contains x ys)

  -- What holds of all elements holds of one that is contained.
  pub All-contains {κ} :
      (P : A → Type κ) (x : A) (xs : List A) → All P xs → contains x xs ≡ true → P x
  unfolding contains
  All-contains P x [] ps h = cc
  All-contains P x (y ∷ ys) ps h = elim (Bool-cases (y == x)) [
    | inl same ↦ subst P (==→eq y x same) ps.0
    | inr other ↦ All-contains P x ys ps.1 (rw other at h)
  ]

  pub contains-append :
      (x : A) (xs ys : List A)
      → contains x (xs ++ ys) ≡ (if contains x xs then true else contains x ys)
  unfolding contains
  contains-append x [] ys = refl
  contains-append x (y ∷ xs) ys = ground (arith, contains-append x xs ys)

  -- Every element is contained.
  pub All-contained_of :
      (xs ys : List A)
      → ((x : A) → contains x xs ≡ true → contains x ys ≡ true)
      → All (λ x. contains x ys ≡ true) xs
  unfolding contains
  All-contained_of [] ys f = tt
  All-contained_of (x ∷ xs) ys f =
      (f x (rw (==_self x)), All-contained_of xs ys (λ z h. f z (later z h)))
    where
      later : (z : A) → contains z xs ≡ true → contains z (x ∷ xs) ≡ true
      later z h = ground arith
