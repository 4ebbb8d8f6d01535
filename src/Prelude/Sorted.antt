-- ===== src/Prelude/Sorted.antt =====
-- Sorted lists rid of repeated neighbours.
use kuatia.Prelude.{
  ◌≡◌, refl, Bool, true, false, List, [], ◌∷◌, Eq, ◌==◌, Bool-cases, inl, inr, All, All-imp, sym,
  ◌∙◌, contains, true-ne-false,
}
use kuatia.Prelude.Sort.{sort, insert_sorted, dedup, All-insert_sorted}
use kuatia.Prelude.Distinct.{IsDistinct}
use kuatia.Prelude.Members.{All-member, contains-Memᴰ, Memᴰ-dedup}
use mathlib.Core.List.Memᴰ

-- A Boolean total order.
pub record IsOrder {ℓ} {A : Type ℓ} (le : A → A → Bool) : Type ℓ where
  pub total_lem : (a b : A) → le a b ≡ false → le b a ≡ true
  pub trans_lem : (a b c : A) → le a b ≡ true → le b c ≡ true → le a c ≡ true
  pub antisym_lem : (a b : A) → le a b ≡ true → le b a ≡ true → a ≡ b

module _ {ℓ} {A : Type ℓ} ⦃e : Eq A⦄ (le : A → A → Bool) (order : IsOrder le) where
  abbrev IsAscending : List A → Type 0
  IsAscending [] = Unit
  IsAscending (x ∷ xs) = All (λ y. le x y ≡ true) xs × IsAscending xs

  insert_sorted-IsAscending :
      (x : A) (xs : List A) → IsAscending xs → IsAscending (insert_sorted le x xs)
  unfolding insert_sorted
  insert_sorted-IsAscending x [] h = (tt, tt)
  insert_sorted-IsAscending x (y ∷ ys) h = elim (Bool-cases (le x y)) [
    | inl below ↦ rw below ((below, All-imp ys (λ z k. order.trans_lem x y z below k) h.0), h)
    | inr above ↦ rw above (
      All-insert_sorted (λ z. le y z ≡ true) le x ys (order.total_lem x y above) h.0,
      insert_sorted-IsAscending x ys h.1,
    )
  ]

  sort-IsAscending : (xs : List A) → IsAscending (sort le xs)
  unfolding sort
  sort-IsAscending [] = tt
  sort-IsAscending (x ∷ xs) = insert_sorted-IsAscending x (sort le xs) (sort-IsAscending xs)

  not_again :
      (x y : A) (ys : List A)
      → (x == y) ≡ false
      → IsAscending (x ∷ y ∷ ys)
      → contains x (dedup (y ∷ ys)) ≡ false
  not_again x y ys other (below, (up, _)) = elim (Bool-cases (contains x (dedup (y ∷ ys)))) [
    | inr no_more ↦ no_more
    | inl again ↦
        let same : x ≡ y =
          elim (Memᴰ.cases_cons
            ((Memᴰ-dedup x (y ∷ ys)).0 (contains-Memᴰ x (dedup (y ∷ ys)) again))) [
              | inl here ↦ here
              | inr later ↦
                  order.antisym_lem x y below.0 (All-member (λ z. le y z ≡ true) x ys up later)
            ] in
        absurd (true-ne-false (sym ((e.test_iff x y).1 same) ∙ other))
  ]

  dedup-IsDistinct : (xs : List A) → IsAscending xs → IsDistinct (dedup xs)
  unfolding dedup contains
  dedup-IsDistinct [] h = tt
  dedup-IsDistinct (x ∷ []) h = (refl, tt)
  dedup-IsDistinct (x ∷ y ∷ ys) h = elim (Bool-cases (x == y)) [
    | inl same ↦ rw same (dedup-IsDistinct (y ∷ ys) h.1)
    | inr other ↦ rw other (not_again x y ys other h, dedup-IsDistinct (y ∷ ys) h.1)
  ]

  pub dedup-sort-IsDistinct : (xs : List A) → IsDistinct (dedup (sort le xs))
  dedup-sort-IsDistinct xs = dedup-IsDistinct (sort le xs) (sort-IsAscending xs)
