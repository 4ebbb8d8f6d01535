-- ===== src/Storage/Projections/Closest.antt =====
-- crates/kuatia-storage/src/mem_store.rs: the closest balance point, compared with the others.
use kuatia.Prelude.{
  ◌≡◌, refl, ◌⊎◌, inl, inr, arith, Bool, true, false, some, List, [], ◌∷◌, filter, ℤ, leb_ℤ, ◌≤ℤ◌,
  if◌then◌else◌, Bool-cases, All, ap, sym, subst, eqb_ℤ_iff,
}
use kuatia.Prelude.Map.{lookup}
use kuatia.Prelude.Members.{Memᴰ-filter}
use kuatia.Types.{AccountId, AssetId, balance_key_eq}
use kuatia.Storage.Projections.{
  BalanceProjection, Projections, points_of, le_point, max_from, max_point,
  get_closest_balance_projection,
}
use mathlib.Core.List.{Memᴰ}

abbrev pub IsBelow : BalanceProjection → BalanceProjection → Type 0
IsBelow p q = le_point p q ≡ true

le_point_refl : (p : BalanceProjection) → IsBelow p p
le_point_refl p = ground (arith, eqb_ℤ_iff p.watermark p.watermark)

le_point_trans : (p q r : BalanceProjection) → IsBelow p q → IsBelow q r → IsBelow p r
le_point_trans p q r h k = ground (
  arith,
  eqb_ℤ_iff p.watermark q.watermark,
  eqb_ℤ_iff q.watermark r.watermark,
  eqb_ℤ_iff p.watermark r.watermark,
)

le_point_total : (p q : BalanceProjection) → le_point p q ≡ false → IsBelow q p
le_point_total p q h =
    ground (arith, eqb_ℤ_iff p.watermark q.watermark, eqb_ℤ_iff q.watermark p.watermark)

abbrev IsTop :
    BalanceProjection → BalanceProjection → List BalanceProjection → BalanceProjection → Type 0
IsTop best p ps m = IsBelow best m × All (λ q. IsBelow q m) (p ∷ ps)

max_from-IsBelow :
    (best : BalanceProjection) (ps : List BalanceProjection)
    → IsBelow best (max_from best ps) × All (λ p. IsBelow p (max_from best ps)) ps
unfolding max_from
max_from-IsBelow best [] = (le_point_refl best, tt)
max_from-IsBelow best (p ∷ ps) = elim (Bool-cases (le_point best p)) [
  | inl up ↦
      let (top, rest) = max_from-IsBelow p ps in
      let above = le_point_trans best p (max_from p ps) up top in
      subst (IsTop best p ps) (sym (ap (λ b. max_from (if b then p else best) ps) up))
        (above, (top, rest))
  | inr down ↦
      let (top, rest) = max_from-IsBelow best ps in
      let above = le_point_trans p best (max_from best ps) (le_point_total best p down) top in
      subst (IsTop best p ps) (sym (ap (λ b. max_from (if b then p else best) ps) down))
        (top, (above, rest))
]

-- The greatest of a list is the first one or one of the others.
max_from_cases :
    (best : BalanceProjection) (ps : List BalanceProjection)
    → (max_from best ps ≡ best) ⊎ Memᴰ (max_from best ps) ps
unfolding max_from
max_from_cases best [] = inl refl
max_from_cases best (p ∷ ps) = elim (Bool-cases (le_point best p)) [
  | inl up ↦
      subst (λ m. (m ≡ best) ⊎ Memᴰ m (p ∷ ps))
        (sym (ap (λ b. max_from (if b then p else best) ps) up))
        (inr
          (elim (max_from_cases p ps) [ inl same ↦ Memᴰ.head same | inr later ↦ Memᴰ.tail later ]))
  | inr down ↦
      subst (λ m. (m ≡ best) ⊎ Memᴰ m (p ∷ ps))
        (sym (ap (λ b. max_from (if b then p else best) ps) down))
        (elim (max_from_cases best ps) [ inl same ↦ inl same | inr later ↦ inr (Memᴰ.tail later) ])
]

max_point-IsNewest :
    (ps : List BalanceProjection) (m : BalanceProjection)
    → max_point ps ≡ some m
    → Memᴰ m ps × All (λ p. IsBelow p m) ps
max_point-IsNewest [] m h = cc
max_point-IsNewest (p ∷ ps) m h =
    let same : max_from p ps ≡ m = ground arith in
    subst (λ x. Memᴰ x (p ∷ ps) × All (λ q. IsBelow q x) (p ∷ ps)) same
      (
        elim (max_from_cases p ps) [ inl first ↦ Memᴰ.head first | inr later ↦ Memᴰ.tail later ],
        max_from-IsBelow p ps,
      )

-- The closest point to a time is one of the points of its account and asset, at or before the time, and
-- none of those is above it in the order of watermarks and then of ids.
pub get_closest-IsNewest :
    (account : AccountId) (asset : AssetId) (as_of : ℤ) (t : Projections) (m : BalanceProjection)
    → get_closest_balance_projection account asset as_of t ≡ some m
    → Memᴰ m (points_of (lookup (account, asset) t))
      × (m.watermark ≤ℤ as_of)
      × All
          (λ p. IsBelow p m)
          (filter (λ p. leb_ℤ p.watermark as_of) (points_of (lookup (account, asset) t)))
unfolding get_closest_balance_projection
get_closest-IsNewest account asset as_of t m h =
    let points = points_of (lookup (account, asset) t) in
    let old : BalanceProjection → Bool = λ p. leb_ℤ p.watermark as_of in
    let (among, newest) = max_point-IsNewest (filter old points) m h in
    let (here, before) = (Memᴰ-filter old m points).0 among in (here, (ground arith), newest)
