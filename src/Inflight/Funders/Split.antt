-- ===== src/Inflight/Funders/Split.antt =====
-- crates/kuatia/src/inflight/projection.rs: the payouts of a voided balance, and the legs.
use kuatia.Prelude.{
  Bool, ◌⊎◌, ◌↔◌, ◌&&◌, ◌==◌, sym, subst, ◌∙◌, nat_eq, eqb_iff, true-ne-false, ◌≡◌, refl, arith,
  true, List, [], ◌∷◌, map, pos, ◌≤ℤ◌, sum, ok, All, Bool-cases, inl, inr,
}
use kuatia.Prelude.Members.{All-member}
use mathlib.Core.List.{Memᴰ}
use kuatia.Money.{Cent, is_positive}
use kuatia.Types.{AccountId, AssetId, account_id_eq}
use kuatia.Inflight.{InflightLeg}
use kuatia.Inflight.Funders.{FunderPayout, i64_max, funder_caps, lift_last, distribute_to_funders}
use kuatia.Inflight.Funders.Caps.{WithinCaps, cap_done, cap_skipped, cap_paid, lift_last-Splits}

caps_cases :
    (f : AccountId × Cent) (fs : List (AccountId × Cent)) (ps : List FunderPayout)
    → WithinCaps (f ∷ fs) ps
    → (ps ≡ [])
      ⊎ (WithinCaps fs ps
          ⊎ ((p : FunderPayout) × (qs : List FunderPayout) × (ps ≡ p ∷ qs)
              × (p.funder ≡ f.0)
              × (p.give ≤ℤ f.1)
              × WithinCaps fs qs))
caps_cases f fs _ (cap_done _) = inl refl
caps_cases f fs _ (cap_skipped _ _ ps w) = inr (inl w)
caps_cases f fs _ (cap_paid _ _ p qs to below w) = inr (inr (p, qs, refl, to, below, w))

no_caps_cases : (ps : List FunderPayout) → WithinCaps [] ps → ps ≡ []
no_caps_cases [] w = refl
no_caps_cases (p ∷ ps) w = elim w [ ]

list_cases {ℓ} : {A : Type ℓ} (xs : List A) → (xs ≡ []) ⊎ ((y : A) × (ys : List A) × (xs ≡ y ∷ ys))
list_cases [] = inl refl
list_cases (y ∷ ys) = inr (y, ys, refl)

cons-ne-nil {ℓ} : {A : Type ℓ} {x : A} {xs : List A} → x ∷ xs ≡ [] → ⊥
cons-ne-nil h = cc

module _ (hold : AccountId) (asset : AssetId) where
  -- A leg that funds the hold in the asset.
  abbrev pub Funds : InflightLeg → Type 0
  Funds l = (l.hold ≡ hold) × (l.asset ≡ asset)

  -- Payouts to the funders of the hold in the asset, in the order of the legs: at most one for each leg, and
  -- no more than the leg's amount, unless no later leg funds the hold in the asset.
  pub data Within : List InflightLeg → List FunderPayout → Type 0 where
    done : (ls : List InflightLeg) → Within ls []
    skipped :
        (l : InflightLeg) (ls : List InflightLeg) (ps : List FunderPayout)
        → Within ls ps
        → Within (l ∷ ls) ps
    paid :
        (l : InflightLeg) (ls : List InflightLeg) (p : FunderPayout) (ps : List FunderPayout)
        → Funds l
        → p.funder ≡ l.funder
        → (p.give ≤ℤ l.amount) ⊎ All (λ later. ¬ Funds later) ls
        → Within ls ps
        → Within (l ∷ ls) (p ∷ ps)

  abbrev pub IsSplit : List InflightLeg → Cent → List FunderPayout → Type 0
  IsSplit legs remaining ps =
      (sum (map (λ p. p.give) ps) ≡ remaining)
      × All (λ p. is_positive p.give ≡ true) ps
      × Within legs ps

  abbrev caps_of : List InflightLeg → List (AccountId × Cent)
  caps_of legs = funder_caps legs hold asset

  abbrev is_funding : InflightLeg → Bool
  is_funding l = (l.hold == hold) && (l.asset == asset)

  is_funding_iff : (l : InflightLeg) → (is_funding l ≡ true) ↔ Funds l
  is_funding_iff l = ground (arith, account_id_eq.test_iff l.hold hold, eqb_iff l.asset asset)

  no_caps : (ls : List InflightLeg) → caps_of ls ≡ [] → All (λ l. ¬ Funds l) ls
  no_caps [] h = tt
  no_caps (l ∷ ls) h = elim (Bool-cases (is_funding l)) [
    | inl funds ↦ absurd (cons-ne-nil (rw funds at h))
    | inr other ↦
        (λ f. true-ne-false (sym ((is_funding_iff l).1 f) ∙ other), no_caps ls (rw other at h))
  ]

  -- Payouts within the caps of legs that start with one that funds the hold.
  paid_first :
      (l : InflightLeg) (ls : List InflightLeg) (ps : List FunderPayout) (cap : Cent)
      (fs : List (AccountId × Cent))
      → Funds l
      → (cap ≡ l.amount) ⊎ All (λ later. ¬ Funds later) ls
      → WithinCaps ((l.funder, cap) ∷ fs) ps
      → ((qs : List FunderPayout) → WithinCaps fs qs → Within ls qs)
      → Within (l ∷ ls) ps
  paid_first l ls ps cap fs funds bound within rest =
      elim (caps_cases (l.funder, cap) fs ps within) [
        | inl none_paid ↦ subst (Within (l ∷ ls)) (sym none_paid) (done (l ∷ ls))
        | inr (inl others) ↦ skipped l ls ps (rest ps others)
        | inr (inr (p, qs, whole, to, below, others)) ↦
            let limit : (p.give ≤ℤ l.amount) ⊎ All (λ later. ¬ Funds later) ls = elim bound [
              | inl same ↦ inl (subst (λ c. p.give ≤ℤ c) same below)
              | inr last_one ↦ inr last_one
            ] in
            subst (Within (l ∷ ls)) (sym whole) (paid l ls p qs funds to limit (rest qs others))
      ]

  caps-Within :
      (legs : List InflightLeg) (ps : List FunderPayout)
      → WithinCaps (lift_last (caps_of legs)) ps
      → Within legs ps
  unfolding lift_last
  caps-Within [] ps within = subst (Within []) (sym (no_caps_cases ps within)) (done [])
  caps-Within (l ∷ ls) ps within = elim (Bool-cases (is_funding l)) [
    | inr other ↦ skipped l ls ps (caps-Within ls ps (rw other at within))
    | inl funding ↦
        let funds = (is_funding_iff l).0 funding in
        let w : WithinCaps (lift_last ((l.funder, l.amount) ∷ caps_of ls)) ps =
          rw funding at within in
        elim (list_cases (caps_of ls)) [
          | inl alone ↦
              paid_first l ls ps i64_max [] funds (inr (no_caps ls alone)) (rw alone at w)
                (λ qs v. subst (Within ls) (sym (no_caps_cases qs v)) (done ls))
          | inr (c, cs, more) ↦
              paid_first l ls ps l.amount (lift_last (c ∷ cs)) funds (inl refl) (rw more at w)
                (λ qs v. caps-Within ls qs (rw more v))
        ]
  ]

-- If a leg of an inflight funds a hold in an asset, then a balance of the hold from 0 to 2^63 - 1 is split
-- without an overflow: the payouts add up to it, each is positive, and they go, in the order of the legs and
-- at most one for each leg, to the funders of legs that fund the hold in the asset, each within the amount of
-- its leg, but for the last such leg, whose payout has no cap.
pub distribute_to_funders-IsSplit :
    (legs : List InflightLeg) (hold : AccountId) (asset : AssetId) (remaining : Cent)
    (l : InflightLeg)
    → Memᴰ l legs
    → Funds hold asset l
    → pos 0 ≤ℤ remaining
    → remaining ≤ℤ i64_max
    → (ps : List FunderPayout) × (distribute_to_funders legs hold asset remaining ≡ ok ps)
      × IsSplit hold asset legs remaining ps
unfolding distribute_to_funders
distribute_to_funders-IsSplit legs hold asset remaining l among funds lo hi =
    elim (list_cases (funder_caps legs hold asset)) [
      | inl nobody ↦ absurd (
          All-member (λ x. ¬ Funds hold asset x) l legs (no_caps hold asset legs nobody) among
            funds)
      | inr (f, fs, caps) ↦
          let (ps, found, (total, each, within)) = lift_last-Splits f fs remaining (lo, hi) in
          (ps, rw caps found, (total, each, caps-Within hold asset legs ps (rw caps within)))
    ]
