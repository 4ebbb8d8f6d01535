-- ===== src/Prelude/Results.antt =====
-- What a call of a Rust function can do that returns `Result<A, E>`: return `Ok`, return `Err`,
-- or panic. A chain of `?` is a `do` block, and a loop whose body may return early goes through
-- `for_each`.
use mathlib.Core.Path.{◌≡◌, refl}
use mathlib.Core.Bool.{Bool, true, false}
use mathlib.Core.Option.{Option, none, some}
use mathlib.Core.List.{List, [], ◌∷◌}
use kuatia.Prelude.Lists.{All}

pub data Outcome {ℓ κ} (E : Type ℓ) (A : Type κ) : Type (ℓ ⊔ κ) where
  ok : A → Outcome E A
  err : E → Outcome E A
  panic : Outcome E A

infixl 5 ◌>>=◌ ◌>>◌
abbrev pub ◌>>=◌ {ℓ κ μ} :
    {E : Type ℓ} {A : Type κ} {B : Type μ} → Outcome E A → (A → Outcome E B) → Outcome E B
ok a >>= f = f a
err e >>= f = err e
panic >>= f = panic

abbrev pub ◌>>◌ {ℓ κ} : {E : Type ℓ} {B : Type κ} → Outcome E (Unit {0}) → Outcome E B → Outcome E B
m >> k = m >>= λ _. k

module _ {ℓ} {E : Type ℓ} where
  -- `if c { return Err(e) }`
  abbrev pub reject_if : Bool → E → Outcome E (Unit {0})
  reject_if true e = err e
  reject_if false e = ok tt

  -- `opt.ok_or(e)`
  abbrev pub ok_or {κ} : {A : Type κ} → Option A → E → Outcome E A
  ok_or none e = err e
  ok_or (some a) e = ok a

  -- An index or an `unwrap`: it panics where there is nothing.
  abbrev pub or_panic {κ} : {A : Type κ} → Option A → Outcome E A
  or_panic none = panic
  or_panic (some a) = ok a

  -- `for x in xs { body(x)?; }`
  unfoldable pub for_each {κ} :
      {A : Type κ} → List A → (A → Outcome E (Unit {0})) → Outcome E (Unit {0})
  for_each [] body = ok tt
  for_each (x ∷ xs) body = body x >> for_each xs body

  -- A loop that ends has run its body to the end on each element.
  pub for_each-All {κ} :
      {A : Type κ} (xs : List A) (body : A → Outcome E (Unit {0}))
      → for_each xs body ≡ ok tt
      → All (λ x. body x ≡ ok tt) xs
  unfolding for_each
  for_each-All [] body h = tt
  for_each-All (x ∷ xs) body h = split (body x) refl h (for_each-All xs body)
    where
      split :
          (r : Outcome E (Unit {0}))
          → body x ≡ r
          → (r >> for_each xs body) ≡ ok tt
          → (for_each xs body ≡ ok tt → All (λ y. body y ≡ ok tt) xs)
          → (body x ≡ ok tt) × All (λ y. body y ≡ ok tt) xs
      split (ok tt) e k rest = (e, rest k)
      split (err e') e k rest = cc
      split panic e k rest = cc

-- The error conversion of `?`, by `From`.
abbrev pub map_err {ℓ κ μ} :
    {E : Type ℓ} {F : Type κ} {A : Type μ} → (E → F) → Outcome E A → Outcome F A
map_err f (ok a) = ok a
map_err f (err e) = err (f e)
map_err f panic = panic

module _ {ℓ κ μ} {E : Type ℓ} {A : Type κ} {B : Type μ} where
  -- Inversion of a chain that succeeds.
  pub >>=-eq-ok :
      (call : Outcome E A) (rest : A → Outcome E B) {b : B}
      → (call >>= rest) ≡ ok b
      → (a : A) × (call ≡ ok a) × (rest a ≡ ok b)
  >>=-eq-ok (ok a) rest done = (a, refl, done)
  >>=-eq-ok (err e) rest done = cc
  >>=-eq-ok panic rest done = cc

module _ {ℓ κ μ} {E : Type ℓ} {F : Type κ} {A : Type μ} where
  pub map_err-eq-ok : (f : E → F) (m : Outcome E A) {a : A} → map_err f m ≡ ok a → m ≡ ok a
  map_err-eq-ok f (ok a) h = cc
  map_err-eq-ok f (err e) h = cc
  map_err-eq-ok f panic h = cc

module _ {ℓ κ} {E : Type ℓ} {B : Type κ} where
  pub >>-eq-ok :
      (m : Outcome E (Unit {0})) (k : Outcome E B) {b : B}
      → (m >> k) ≡ ok b
      → (m ≡ ok tt) × (k ≡ ok b)
  >>-eq-ok (ok tt) k h = (refl, h)
  >>-eq-ok (err e) k h = cc
  >>-eq-ok panic k h = cc

module _ {ℓ} {E : Type ℓ} where
  pub reject_if-eq-ok : (c : Bool) (e : E) → reject_if c e ≡ ok tt → c ≡ false
  reject_if-eq-ok true e h = cc
  reject_if-eq-ok false e h = refl

  pub ok_or-eq-ok {κ} : {A : Type κ} (o : Option A) (e : E) {a : A} → ok_or o e ≡ ok a → o ≡ some a
  ok_or-eq-ok none e h = cc
  ok_or-eq-ok (some a) e h = cc

  pub or_panic-eq-ok {κ} :
      {A : Type κ} (o : Option A) {a : A} → or_panic {E = E} o ≡ ok a → o ≡ some a
  or_panic-eq-ok none h = cc
  or_panic-eq-ok (some a) h = cc

pub ok-injective {ℓ κ} :
    {E : Type ℓ} {A : Type κ} {a b : A} → ◌≡◌ {A = Outcome E A} (ok a) (ok b) → a ≡ b
ok-injective h = cc
