-- ===== src/Prelude/Members.antt =====
-- Membership in filtered and sorted lists and among the values of a map.
use kuatia.Prelude.{
  ◌≡◌, refl, All-imp, ◌⊎◌, inl, inr, ◌↔◌, arith, Bool, true, none, some, List, [], ◌∷◌, filter, Eq,
  sym, subst, contains, ◌==◌, ==→eq, Bool-cases, All, ap, ◌∙◌,
}
use kuatia.Prelude.Map.{Map, lookup, values, IsMap}
use kuatia.Prelude.Sort.{sort, insert_sorted, dedup}
use mathlib.Core.List.{Memᴰ}
use mathlib.Core.List.Memᴰ
use mathlib.Core.Logic.{⊎_elim}

module _ {ℓ} {A : Type ℓ} where
  pub Memᴰ-cons : (a x : A) (xs : List A) → Memᴰ a (x ∷ xs) ↔ ((a ≡ x) ⊎ Memᴰ a xs)
  Memᴰ-cons a x xs = (Memᴰ.cases_cons, ⊎_elim Memᴰ.head Memᴰ.tail)

  pub Memᴰ-filter :
      (test : A → Bool) (a : A) (xs : List A)
      → Memᴰ a (filter test xs) ↔ (Memᴰ a xs × (test a ≡ true))
  Memᴰ-filter test a [] = (λ m. absurd (Memᴰ.not-nil m), λ m. m.0)
  Memᴰ-filter test a (x ∷ xs) =
      ground (arith, Memᴰ-cons a x xs, Memᴰ-cons a x (filter test xs), Memᴰ-filter test a xs)

  pub Memᴰ-insert_sorted :
      (le : A → A → Bool) (a x : A) (xs : List A)
      → Memᴰ a (insert_sorted le x xs) ↔ ((a ≡ x) ⊎ Memᴰ a xs)
  unfolding insert_sorted
  Memᴰ-insert_sorted le a x [] = Memᴰ-cons a x []
  Memᴰ-insert_sorted le a x (y ∷ ys) = ground (
    arith,
    Memᴰ-cons a x (y ∷ ys),
    Memᴰ-cons a y ys,
    Memᴰ-cons a y (insert_sorted le x ys),
    Memᴰ-insert_sorted le a x ys,
  )

  pub Memᴰ-sort : (le : A → A → Bool) (a : A) (xs : List A) → Memᴰ a (sort le xs) ↔ Memᴰ a xs
  unfolding sort
  Memᴰ-sort le a [] = (λ m. m, λ m. m)
  Memᴰ-sort le a (x ∷ xs) =
      ground (arith, Memᴰ-insert_sorted le a x (sort le xs), Memᴰ-cons a x xs, Memᴰ-sort le a xs)

module _ {ℓ κ} {K : Type ℓ} {V : Type κ} ⦃e : Eq K⦄ where
  pub lookup_here : (k : K) (v : V) (m : Map K V) → lookup k ((k, v) ∷ m) ≡ some v
  unfolding lookup
  lookup_here k v m = ground (arith, e.test_iff k k)

  pub lookup_later :
      (k j : K) (v w : V) (m : Map K V)
      → lookup k m ≡ none
      → lookup j m ≡ some w
      → lookup j ((k, v) ∷ m) ≡ some w
  unfolding lookup
  lookup_later k j v w m new found = ground (arith, e.test_iff k j)

  pub lookup_cases :
      (k j : K) (v w : V) (m : Map K V)
      → lookup j ((k, v) ∷ m) ≡ some w
      → (k ≡ j) × (v ≡ w) ⊎ (lookup j m ≡ some w)
  unfolding lookup
  lookup_cases k j v w m h = ground (arith, e.test_iff k j)

  -- A value of a map is found under a key.
  pub Memᴰ-values :
      (v : V) (m : Map K V) → IsMap m → Memᴰ v (values m) → (k : K) × (lookup k m ≡ some v)
  Memᴰ-values v [] u mem = absurd (Memᴰ.not-nil mem)
  Memᴰ-values v ((k, w) ∷ m) u mem = elim (Memᴰ.cases_cons mem) [
    | inl same ↦ (k, lookup_here k w m ∙ ap some (sym same))
    | inr later ↦
        let (j, found) = Memᴰ-values v m u.1 later in (j, lookup_later k j w v m u.0 found)
  ]

  pub values-lookup : (k : K) (v : V) (m : Map K V) → lookup k m ≡ some v → Memᴰ v (values m)
  unfolding lookup
  values-lookup k v [] h = cc
  values-lookup k v ((j, w) ∷ m) h = elim (lookup_cases j k w v m h) [
    | inl (_, same) ↦ Memᴰ.head (sym same)
    | inr later ↦ Memᴰ.tail (values-lookup k v m later)
  ]

module _ {ℓ} {A : Type ℓ} ⦃e : Eq A⦄ where
  pub contains-Memᴰ : (x : A) (xs : List A) → contains x xs ≡ true → Memᴰ x xs
  unfolding contains
  contains-Memᴰ x [] h = cc
  contains-Memᴰ x (y ∷ ys) h = elim (Bool-cases (y == x)) [
    | inl same ↦ Memᴰ.head (sym (==→eq y x same))
    | inr other ↦ Memᴰ.tail (contains-Memᴰ x ys (rw other at h))
  ]

  pub Memᴰ-contains : (x : A) (xs : List A) → Memᴰ x xs → contains x xs ≡ true
  unfolding contains
  Memᴰ-contains x [] m = absurd (Memᴰ.not-nil m)
  Memᴰ-contains x (y ∷ ys) m = elim (Memᴰ.cases_cons m) [
    | inl same ↦ ground (arith, e.test_iff y x)
    | inr later ↦ ground (arith, Memᴰ-contains x ys later)
  ]

  pub Memᴰ-dedup : (x : A) (xs : List A) → Memᴰ x (dedup xs) ↔ Memᴰ x xs
  unfolding dedup
  Memᴰ-dedup x [] = (λ m. m, λ m. m)
  Memᴰ-dedup x (y ∷ []) = (λ m. m, λ m. m)
  Memᴰ-dedup x (y ∷ z ∷ zs) = elim (Bool-cases (y == z)) [
    | inl same ↦
        let yz = ==→eq y z same in
        rw same
          (ground (arith, yz, Memᴰ-cons x y (z ∷ zs), Memᴰ-cons x z zs, Memᴰ-dedup x (z ∷ zs)))
    | inr other ↦ rw other (
        ground
          (arith, Memᴰ-cons x y (z ∷ zs), Memᴰ-cons x y (dedup (z ∷ zs)), Memᴰ-dedup x (z ∷ zs)))
  ]

-- What holds of all elements holds of a member.
pub All-member {ℓ κ} :
    {A : Type ℓ} (P : A → Type κ) (x : A) (xs : List A) → All P xs → Memᴰ x xs → P x
All-member P x [] ps m = absurd (Memᴰ.not-nil m)
All-member P x (y ∷ ys) ps m = elim (Memᴰ.cases_cons m) [
  | inl same ↦ subst P (sym same) ps.0
  | inr later ↦ All-member P x ys ps.1 later
]

pub All-members {ℓ} : {A : Type ℓ} (xs : List A) → All (λ x. Memᴰ x xs) xs
All-members [] = tt
All-members (x ∷ xs) = (Memᴰ.head refl, All-imp xs (λ y m. Memᴰ.tail m) (All-members xs))
