-- ===== src/Inflight/Funders/Caps.antt =====
-- crates/kuatia/src/inflight/projection.rs: the loop over the caps of the funders.
use kuatia.Prelude.{
  nat_eq, ◌≡◌, refl, arith, true, false, List, [], ◌∷◌, map, pos, ◌-ℤ◌, ◌+ℤ◌, ◌≤ℤ◌, int_laws,
  eq_of_parts, sum, ltb_ℤ, if◌then◌else◌, ok, All, Bool-cases, inl, inr,
}
use kuatia.Money.{Cent, checked_sub, is_positive, fits}
use kuatia.Types.{AccountId, account_id_eq}
use kuatia.Inflight.Funders.{FunderPayout, i64_max, lift_last, pay_out}

-- Payouts in the order of the caps, at most one for each and within it.
pub data WithinCaps : List (AccountId × Cent) → List FunderPayout → Type 0 where
  cap_done : (fs : List (AccountId × Cent)) → WithinCaps fs []
  cap_skipped :
      (f : AccountId × Cent) (fs : List (AccountId × Cent)) (ps : List FunderPayout)
      → WithinCaps fs ps
      → WithinCaps (f ∷ fs) ps
  cap_paid :
      (f : AccountId × Cent) (fs : List (AccountId × Cent)) (p : FunderPayout)
      (ps : List FunderPayout)
      → p.funder ≡ f.0
      → p.give ≤ℤ f.1
      → WithinCaps fs ps
      → WithinCaps (f ∷ fs) (p ∷ ps)

abbrev pub IsCapSplit : List (AccountId × Cent) → Cent → List FunderPayout → Type 0
IsCapSplit fs remaining ps =
    (sum (map (λ p. p.give) ps) ≡ remaining)
    × All (λ p. is_positive p.give ≡ true) ps
    × WithinCaps fs ps

abbrev pub Splits : List (AccountId × Cent) → Cent → Type 0
Splits fs remaining =
    (ps : List FunderPayout) × (pay_out fs remaining ≡ ok ps) × IsCapSplit fs remaining ps

abbrev pub IsHeld : Cent → Type 0
IsHeld c = (pos 0 ≤ℤ c) × (c ≤ℤ i64_max)

checked_sub_held : (r g : Cent) → IsHeld r → pos 0 ≤ℤ g → g ≤ℤ r → checked_sub r g ≡ ok (r -ℤ g)
unfolding checked_sub fits ◌-ℤ◌
checked_sub_held r g h lo hi = ground arith

zero_of : (r : Cent) → pos 0 ≤ℤ r → is_positive r ≡ false → pos 0 ≡ r
zero_of r h e = eq_of_parts (pos 0) r (ground arith)

nothing_left :
    (fs : List (AccountId × Cent)) (r : Cent) → IsHeld r → is_positive r ≡ false → Splits fs r
unfolding pay_out sum
nothing_left [] r h e = ([], refl, (zero_of r h.0 e, tt, cap_done []))
nothing_left (f ∷ fs) r h e = ([], rw (pay_out, e), (zero_of r h.0 e, tt, cap_done (f ∷ fs)))

nonneg : (g : Cent) → is_positive g ≡ true → pos 0 ≤ℤ g
nonneg g k = ground arith

after_share : (r g : Cent) → IsHeld r → pos 0 ≤ℤ g → g ≤ℤ r → IsHeld (r -ℤ g)
after_share r g h lo hi = (omega (int_laws, hi), omega (int_laws, lo, h.1))

give_and_keep : (r g : Cent) → g +ℤ (r -ℤ g) ≡ r
give_and_keep r g = omega int_laws

abbrev share : AccountId × Cent → Cent → Cent
share f r = if ltb_ℤ f.1 r then f.1 else r

share_bounds : (f : AccountId × Cent) (r : Cent) → (share f r ≤ℤ f.1) × (share f r ≤ℤ r)
share_bounds f r = (ground arith, ground arith)

module _ (f : AccountId × Cent) (fs : List (AccountId × Cent)) (r : Cent) (h : IsHeld r)
    (e : is_positive r ≡ true) where
  -- The funder has no cap left.
  pass : is_positive (share f r) ≡ false → Splits fs r → Splits (f ∷ fs) r
  unfolding pay_out
  pass k (ps, found, (total, each, within)) =
      (ps, rw (pay_out, e, k) found, (total, each, cap_skipped f fs ps within))

  -- The funder gets its share, and the others split the rest.
  pay_share :
      is_positive (share f r) ≡ true
      → (IsHeld (r -ℤ share f r) → Splits fs (r -ℤ share f r))
      → Splits (f ∷ fs) r
  unfolding pay_out sum
  pay_share k rest =
      let g = share f r in
      let bounds = share_bounds f r in
      let lo = nonneg g k in
      let (ps, found, (total, each, within)) = rest (after_share r g h lo bounds.1) in
      let p : FunderPayout = record { funder = f.0; give = g } in
      (
        p ∷ ps,
        rw (pay_out, e, k, checked_sub_held r g h lo bounds.1, found) refl,
        (rw (sum, total) (give_and_keep r g), (k, each), cap_paid f fs p ps refl bounds.0 within),
      )

lifted : (r : Cent) → IsHeld r → (if ltb_ℤ i64_max r then i64_max else r) ≡ r
lifted r h = ground arith

spent : (r : Cent) → is_positive (r -ℤ r) ≡ false
unfolding ◌-ℤ◌
spent r = ground arith

-- A list of funders whose last cap is lifted splits every amount that a hold can have.
pub lift_last-Splits :
    (f : AccountId × Cent) (fs : List (AccountId × Cent)) (r : Cent)
    → IsHeld r
    → Splits (lift_last (f ∷ fs)) r
unfolding lift_last
lift_last-Splits f [] r h = elim (Bool-cases (is_positive r)) [
  | inr e ↦ nothing_left ((f.0, i64_max) ∷ []) r h e
  | inl e ↦
      let whole : share (f.0, i64_max) r ≡ r = lifted r h in
      pay_share (f.0, i64_max) [] r h e (rw whole e)
        (λ left. nothing_left [] (r -ℤ share (f.0, i64_max) r) left (rw whole (spent r)))
]
lift_last-Splits f (g ∷ fs) r h = elim (Bool-cases (is_positive r)) [
  | inr e ↦ nothing_left (f ∷ lift_last (g ∷ fs)) r h e
  | inl e ↦ elim (Bool-cases (is_positive (share f r))) [
    | inr k ↦ pass f (lift_last (g ∷ fs)) r h e k (lift_last-Splits g fs r h)
    | inl k ↦ pay_share f (lift_last (g ∷ fs)) r h e k (lift_last-Splits g fs (r -ℤ share f r))
  ]
]
