-- ===== src/Prelude/Panics.antt =====
-- When a call does not panic: a rule for each way to join calls.
use kuatia.Prelude.{
  ◌≡◌, ◌≢◌, refl, Bool, true, false, Option, none, some, List, [], ◌∷◌, Outcome, ok, err, panic,
  ◌>>=◌, ◌>>◌, for_each, All, map_err, reject_if, ok_or, or_panic,
}

module _ {ℓ κ μ} {E : Type ℓ} {A : Type κ} {B : Type μ} where
  pub >>=-ne-panic :
      (m : Outcome E A) (f : A → Outcome E B)
      → m ≢ panic
      → ((a : A) → m ≡ ok a → f a ≢ panic)
      → (m >>= f) ≢ panic
  >>=-ne-panic (ok a) f h k = k a refl
  >>=-ne-panic (err e) f h k = λ p. cc
  >>=-ne-panic panic f h k = λ p. h refl

module _ {ℓ κ} {E : Type ℓ} {B : Type κ} where
  pub >>-ne-panic :
      (m : Outcome E (Unit {0})) (k : Outcome E B)
      → m ≢ panic
      → (m ≡ ok tt → k ≢ panic)
      → (m >> k) ≢ panic
  >>-ne-panic (ok tt) k h g = g refl
  >>-ne-panic (err e) k h g = λ p. cc
  >>-ne-panic panic k h g = λ p. h refl

module _ {ℓ κ} {E : Type ℓ} {A : Type κ} where
  pub for_each-ne-panic :
      (xs : List A) (body : A → Outcome E (Unit {0}))
      → All (λ x. body x ≢ panic) xs
      → for_each xs body ≢ panic
  unfolding for_each
  for_each-ne-panic [] body h = λ p. cc
  for_each-ne-panic (x ∷ xs) body h =
      >>-ne-panic (body x) (for_each xs body) h.0 (λ _. for_each-ne-panic xs body h.1)

module _ {ℓ} {E : Type ℓ} where
  pub reject_if-ne-panic : (c : Bool) (e : E) → reject_if c e ≢ panic
  reject_if-ne-panic true e = λ p. cc
  reject_if-ne-panic false e = λ p. cc

  pub ok_or-ne-panic {κ} : {A : Type κ} (o : Option A) (e : E) → ok_or o e ≢ panic
  ok_or-ne-panic none e = λ p. cc
  ok_or-ne-panic (some a) e = λ p. cc

  pub or_panic-ne-panic {κ} :
      {A : Type κ} (o : Option A) {a : A} → o ≡ some a → or_panic {E = E} o ≢ panic
  or_panic-ne-panic none h = λ p. cc
  or_panic-ne-panic (some a) h = λ p. cc

  pub map_err-ne-panic {κ μ} :
      {F : Type κ} {A : Type μ} (f : E → F) (m : Outcome E A) → m ≢ panic → map_err f m ≢ panic
  map_err-ne-panic f (ok a) h = λ p. cc
  map_err-ne-panic f (err e) h = λ p. cc
  map_err-ne-panic f panic h = λ p. h refl
