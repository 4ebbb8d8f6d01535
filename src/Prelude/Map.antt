-- ===== src/Prelude/Map.antt =====
-- Rust's `HashMap`, as an association list with the source's operations. A key occurs once
-- (`IsMap`); the order of iteration, which Rust leaves open, is the order of insertion.
use kuatia.Prelude.{
  ◌≡◌, refl, subst, subst₂, sym, Bool, true, false, Option, none, some, List, [], ◌∷◌, map, arith,
  Eq, ◌==◌, ==→eq, if◌then◌else◌, Bool-cases, inl, inr, All, ℤ, pos, ◌+ℤ◌, int_laws,
}

abbrev pub Map {ℓ κ} : Type ℓ → Type κ → Type (ℓ ⊔ κ)
Map K V = List (K × V)

module _ {ℓ κ} {K : Type ℓ} {V : Type κ} where
  abbrev pub keys : Map K V → List K
  keys m = map (λ e. e.0) m

  abbrev pub values : Map K V → List V
  values m = map (λ e. e.1) m

abbrev pub is_some {ℓ} : {A : Type ℓ} → Option A → Bool
is_some none = false
is_some (some a) = true

module _ {ℓ κ} {K : Type ℓ} {V : Type κ} ⦃e : Eq K⦄ where
  -- `get`
  unfoldable pub lookup : K → Map K V → Option V
  lookup k [] = none
  lookup k ((j, v) ∷ m) = if j == k then some v else lookup k m

  -- `insert`: a new value for a key that is there keeps the key's place.
  unfoldable pub insert : K → V → Map K V → Map K V
  insert k v [] = (k, v) ∷ []
  insert k v ((j, w) ∷ m) = if j == k then (j, v) ∷ m else (j, w) ∷ insert k v m

  -- `remove`
  unfoldable pub remove : K → Map K V → Map K V
  remove k [] = []
  remove k ((j, v) ∷ m) = if j == k then remove k m else (j, v) ∷ remove k m

  -- `contains_key`
  abbrev pub contains_key : K → Map K V → Bool
  contains_key k m = is_some (lookup k m)

  -- Every key occurs once.
  abbrev pub IsMap : Map K V → Type κ
  IsMap [] = Unit
  IsMap ((k, v) ∷ m) = (lookup k m ≡ none) × IsMap m

  pub lookup-insert :
      (k q : K) (v : V) (m : Map K V)
      → lookup q (insert k v m) ≡ (if k == q then some v else lookup q m)
  unfolding insert lookup
  lookup-insert k q v [] = refl
  lookup-insert k q v ((i, w) ∷ rest) =
      ground (arith, e.test_iff i q, e.test_iff i k, e.test_iff k q, lookup-insert k q v rest)

  pub lookup-remove :
      (k j : K) (m : Map K V) → lookup j (remove k m) ≡ (if k == j then none else lookup j m)
  unfolding lookup remove
  lookup-remove k j [] = ground arith
  lookup-remove k j ((i, w) ∷ m) =
      ground (arith, e.test_iff k j, e.test_iff i k, e.test_iff i j, lookup-remove k j m)

  pub insert-IsMap : (k : K) (v : V) (m : Map K V) → IsMap m → IsMap (insert k v m)
  unfolding insert lookup
  insert-IsMap k v [] h = (refl, tt)
  insert-IsMap k v ((i, w) ∷ m) h =
      ground (arith, e.test_iff i k, e.test_iff k i, insert-IsMap k v m h.1, lookup-insert k i v m)

  pub remove-IsMap : (k : K) (m : Map K V) → IsMap m → IsMap (remove k m)
  unfolding remove
  remove-IsMap k [] h = tt
  remove-IsMap k ((i, w) ∷ m) h =
      ground (arith, e.test_iff k i, remove-IsMap k m h.1, lookup-remove k i m)

  -- Removing a key that is not there changes nothing.
  pub remove-none : (k : K) (m : Map K V) → lookup k m ≡ none → remove k m ≡ m
  unfolding remove lookup
  remove-none k [] h = refl
  remove-none k ((i, w) ∷ m) h = ground (arith, remove-none k m)

  -- What is found satisfies what all entries satisfy.
  pub All-lookup {μ} :
      (P : K → V → Type μ) (k : K) (v : V) (m : Map K V)
      → All (λ x. P x.0 x.1) m
      → lookup k m ≡ some v
      → P k v
  unfolding lookup
  All-lookup P k v [] h g = cc
  All-lookup P k v ((i, w) ∷ m) h g = elim (Bool-cases (i == k)) [
    | inl same ↦ subst₂ P (==→eq i k same) (ground arith) h.0
    | inr other ↦ All-lookup P k v m h.1 (rw other at g)
  ]

  -- The sum of a number over all entries.
  unfoldable pub total : (K → V → ℤ) → Map K V → ℤ
  total f [] = pos 0
  total f ((k, v) ∷ m) = f k v +ℤ total f m

  pub total-insert_new :
      (f : K → V → ℤ) (k : K) (v : V) (m : Map K V)
      → lookup k m ≡ none
      → total f (insert k v m) ≡ total f m +ℤ f k v
  unfolding total insert lookup
  total-insert_new f k v [] h = omega int_laws
  total-insert_new f k v ((i, w) ∷ m) h = elim (Bool-cases (i == k)) [
    | inl same ↦ absurd (ground arith)
    | inr other ↦ rw (other, total-insert_new f k v m (rw other at h)) (omega int_laws)
  ]

  pub total-remove :
      (f : K → V → ℤ) (k : K) (v : V) (m : Map K V)
      → IsMap m
      → lookup k m ≡ some v
      → total f (remove k m) +ℤ f k v ≡ total f m
  unfolding total remove lookup
  total-remove f k v [] u h = cc
  total-remove f k v ((i, w) ∷ m) u h = elim (Bool-cases (i == k)) [
    | inl same ↦
        let ik : i ≡ k = ==→eq i k same in
        let wv : w ≡ v = ground arith in
        rw (same, remove-none k m (subst (λ j. lookup j m ≡ none) ik u.0), ik, wv) (omega int_laws)
    | inr other ↦ rw other (rw (← total-remove f k v m u.1 (rw other at h)) (omega int_laws))
  ]

  -- What holds of every key holds of a key that is contained.
  pub All-keys {μ} :
      (P : K → Type μ) (k : K) (m : Map K V) → All P (keys m) → contains_key k m ≡ true → P k
  unfolding lookup
  All-keys P k [] h has = cc
  All-keys P k ((j, v) ∷ m) h has = elim (Bool-cases (j == k)) [
    | inl same ↦ subst P (==→eq j k same) h.0
    | inr other ↦ All-keys P k m h.1 (rw other at has)
  ]

  pub All-insert {μ} :
      (P : V → Type μ) (k : K) (v : V) (m : Map K V)
      → P v
      → All (λ x. P x.1) m
      → All (λ x. P x.1) (insert k v m)
  unfolding insert
  All-insert P k v [] p ps = (p, tt)
  All-insert P k v ((j, w) ∷ m) p ps = elim (Bool-cases (j == k)) [
    | inl same ↦ rw same (p, ps.1)
    | inr other ↦ rw other (ps.0, All-insert P k v m p ps.1)
  ]

  -- What holds of all entries holds after a removal, and none of the entries left has the key.
  pub All-remove {μ} :
      (P : K × V → Type μ) (k : K) (m : Map K V)
      → All P m
      → All (λ x. P x × ((k == x.0) ≡ false)) (remove k m)
  unfolding remove
  All-remove P k [] ps = tt
  All-remove P k ((j, v) ∷ m) ps = elim (Bool-cases (j == k)) [
    | inl same ↦ rw same (All-remove P k m ps.1)
    | inr other ↦
        let apart : (k == j) ≡ false = ground (arith, e.test_iff k j, e.test_iff j k) in
        rw other ((ps.0, apart), All-remove P k m ps.1)
  ]

  pub All-insert_entry {μ} :
      (P : K × V → Type μ) (k : K) (v : V) (m : Map K V) → P (k, v) → All P m → All P (insert k v m)
  unfolding insert
  All-insert_entry P k v [] p ps = (p, tt)
  All-insert_entry P k v ((j, w) ∷ m) p ps = elim (Bool-cases (j == k)) [
    | inl same ↦ rw same (subst (λ i. P (i, v)) (sym (==→eq j k same)) p, ps.1)
    | inr other ↦ rw other (ps.0, All-insert_entry P k v m p ps.1)
  ]

  -- A value that is in a map stays when a new key is inserted.
  pub lookup-insert_new :
      (k j : K) (v w : V) (m : Map K V)
      → lookup k m ≡ none
      → lookup j m ≡ some w
      → lookup j (insert k v m) ≡ some w
  lookup-insert_new k j v w m absent found = ground (arith, e.test_iff k j, lookup-insert k j v m)
