-- ===== src/Core/Accumulate/Laws.antt =====
-- The accumulating loop, and sums by key.
use kuatia.Prelude.{
  ◌≡◌, ◌≢◌, panic, List, [], ◌∷◌, Eq, ◌==◌, true, false, pos, ◌+ℤ◌, ◌-ℤ◌, int_laws, if◌then◌else◌,
  Outcome, ok, >>=-eq-ok, All, Bool-cases, inl, inr, arith, ==_self, ==→eq, subst,
}
use kuatia.Prelude.Panics.{>>=-ne-panic}
use kuatia.Prelude.Map.{Map, insert, lookup-insert, IsMap, insert-IsMap, contains_key}
use kuatia.Money.{Cent, OverflowError, checked_add, checked_sub}
use kuatia.Money.Sums.{checked_add-eq, checked_sub-eq}
use kuatia.Core.Accumulate.{get_or_zero, accumulate, amount_of}

module _ {ℓ} {K : Type ℓ} ⦃e : Eq K⦄ where
  get_or_zero-insert :
      (k j : K) (c : Cent) (m : Map K Cent)
      → get_or_zero j (insert k c m) ≡ (if k == j then c else get_or_zero j m)
  unfolding get_or_zero
  get_or_zero-insert k j c m = ground (arith, lookup-insert k j c m)

  -- One round of the loop, seen from a key.
  round_add :
      (j k : K) (v c : Cent) (m : Map K Cent)
      → c ≡ get_or_zero j m +ℤ v
      → get_or_zero k (insert j c m) ≡ get_or_zero k m +ℤ (if j == k then v else pos 0)
  round_add j k v c m h = elim (Bool-cases (j == k)) [
    | inl same ↦ rw (get_or_zero-insert j k c m, same, h, ==→eq j k same)
    | inr other ↦ rw (get_or_zero-insert j k c m, other) (omega int_laws)
  ]

  pub accumulate_add :
      (xs : List (K × Cent)) (k : K) (m : Map K Cent) {m' : Map K Cent}
      → accumulate checked_add xs m ≡ ok m'
      → get_or_zero k m' ≡ get_or_zero k m +ℤ amount_of k xs
  unfolding accumulate amount_of
  accumulate_add [] k m {m'} h = let s : m ≡ m' = cc in rw (← s) (omega int_laws)
  accumulate_add ((j, v) ∷ xs) k m h =
      let (c, added, rest) =
        >>=-eq-ok (checked_add (get_or_zero j m) v) (λ c. accumulate checked_add xs (insert j c m))
          h in
      rw
        (
          accumulate_add xs k (insert j c m) rest,
          round_add j k v c m (checked_add-eq (get_or_zero j m) v added),
        )
        (omega int_laws)

  round_sub :
      (j k : K) (v c : Cent) (m : Map K Cent)
      → c ≡ get_or_zero j m -ℤ v
      → get_or_zero k (insert j c m) ≡ get_or_zero k m -ℤ (if j == k then v else pos 0)
  round_sub j k v c m h = elim (Bool-cases (j == k)) [
    | inl same ↦ rw (get_or_zero-insert j k c m, same, h, ==→eq j k same)
    | inr other ↦ rw (get_or_zero-insert j k c m, other) (omega int_laws)
  ]

  pub accumulate_sub :
      (xs : List (K × Cent)) (k : K) (m : Map K Cent) {m' : Map K Cent}
      → accumulate checked_sub xs m ≡ ok m'
      → get_or_zero k m' ≡ get_or_zero k m -ℤ amount_of k xs
  unfolding accumulate amount_of
  accumulate_sub [] k m {m'} h = let s : m ≡ m' = cc in rw (← s) (omega int_laws)
  accumulate_sub ((j, v) ∷ xs) k m h =
      let (c, added, rest) =
        >>=-eq-ok (checked_sub (get_or_zero j m) v) (λ c. accumulate checked_sub xs (insert j c m))
          h in
      rw
        (
          accumulate_sub xs k (insert j c m) rest,
          round_sub j k v c m (checked_sub-eq (get_or_zero j m) v added),
        )
        (omega int_laws)

  contains_key-insert_self :
      (k : K) (c : Cent) (m : Map K Cent) → contains_key k (insert k c m) ≡ true
  contains_key-insert_self k c m = ground (arith, lookup-insert k k c m, ==_self k)

  contains_key-insert :
      (j k : K) (c : Cent) (m : Map K Cent)
      → contains_key k m ≡ true
      → contains_key k (insert j c m) ≡ true
  contains_key-insert j k c m h = ground (arith, lookup-insert j k c m)

  module _ (op : Cent → Cent → Outcome OverflowError Cent) where
    -- The loop drops no key.
    pub accumulate_keeps :
        (xs : List (K × Cent)) (k : K) (m : Map K Cent) {m' : Map K Cent}
        → accumulate op xs m ≡ ok m'
        → contains_key k m ≡ true
        → contains_key k m' ≡ true
    unfolding accumulate
    accumulate_keeps [] k m {m'} h has = let s : m ≡ m' = cc in rw (← s) has
    accumulate_keeps ((j, v) ∷ xs) k m h has =
        let (c, added, rest) =
          >>=-eq-ok (op (get_or_zero j m) v) (λ c. accumulate op xs (insert j c m)) h in
        accumulate_keeps xs k (insert j c m) rest (contains_key-insert j k c m has)

    -- Every key of the list is in the result.
    pub accumulate_keys :
        (xs : List (K × Cent)) (m : Map K Cent) {m' : Map K Cent}
        → accumulate op xs m ≡ ok m'
        → All (λ x. contains_key x.0 m' ≡ true) xs
    unfolding accumulate
    accumulate_keys [] m h = tt
    accumulate_keys ((j, v) ∷ xs) m h =
        let (c, added, rest) =
          >>=-eq-ok (op (get_or_zero j m) v) (λ c. accumulate op xs (insert j c m)) h in
        (
          accumulate_keeps xs j (insert j c m) rest (contains_key-insert_self j c m),
          accumulate_keys xs (insert j c m) rest,
        )

    pub accumulate-IsMap :
        (xs : List (K × Cent)) (m : Map K Cent) {m' : Map K Cent}
        → accumulate op xs m ≡ ok m'
        → IsMap m
        → IsMap m'
    unfolding accumulate
    accumulate-IsMap [] m {m'} h u = let s : m ≡ m' = cc in subst IsMap s u
    accumulate-IsMap ((j, v) ∷ xs) m h u =
        let (c, added, rest) =
          >>=-eq-ok (op (get_or_zero j m) v) (λ c. accumulate op xs (insert j c m)) h in
        accumulate-IsMap xs (insert j c m) rest (insert-IsMap j c m u)

  -- A key that is not there counts as zero.
  pub get_or_zero_absent :
      (k : K) (m : Map K Cent) → contains_key k m ≡ false → get_or_zero k m ≡ pos 0
  unfolding get_or_zero
  get_or_zero_absent k m h = ground arith

module _ {ℓ κ} {K : Type ℓ} ⦃e : Eq K⦄ (P : K → Type κ)
    (op : Cent → Cent → Outcome OverflowError Cent) where
  All-keys-insert :
      (k : K) (c : Cent) (m : Map K Cent)
      → P k
      → All (λ x. P x.0) m
      → All (λ x. P x.0) (insert k c m)
  unfolding insert
  All-keys-insert k c [] p ps = (p, tt)
  All-keys-insert k c ((j, v) ∷ m) p ps = elim (Bool-cases (j == k)) [
    | inl same ↦ rw same ps
    | inr other ↦ rw other (ps.0, All-keys-insert k c m p ps.1)
  ]

  -- The keys of the result are those of the start and of the list.
  pub accumulate-All :
      (xs : List (K × Cent)) (m : Map K Cent) {m' : Map K Cent}
      → accumulate op xs m ≡ ok m'
      → All (λ x. P x.0) xs
      → All (λ x. P x.0) m
      → All (λ x. P x.0) m'
  unfolding accumulate
  accumulate-All [] m {m'} h ps qs = let s : m ≡ m' = cc in subst (All (λ x. P x.0)) s qs
  accumulate-All ((j, v) ∷ xs) m h ps qs =
      let (c, added, rest) =
        >>=-eq-ok (op (get_or_zero j m) v) (λ c. accumulate op xs (insert j c m)) h in
      accumulate-All xs (insert j c m) rest ps.1 (All-keys-insert j c m ps.0 qs)

module _ {ℓ} {K : Type ℓ} ⦃e : Eq K⦄ (op : Cent → Cent → Outcome OverflowError Cent) where
  pub accumulate-ne-panic :
      ((a b : Cent) → op a b ≢ panic)
      → (xs : List (K × Cent)) (m : Map K Cent) → accumulate op xs m ≢ panic
  unfolding accumulate
  accumulate-ne-panic f [] m = λ p. cc
  accumulate-ne-panic f ((j, v) ∷ xs) m =
      >>=-ne-panic _ _ (f (get_or_zero j m) v) (λ c _. accumulate-ne-panic f xs (insert j c m))
