-- ===== src/AccountCode/Walk/Inverse.antt =====
-- crates/kuatia-types/src/account_code.rs: walking back along the inverse step.
use kuatia.Prelude.{
  ℕ, zero, suc, ◌+◌, ◌-◌, ◌≤◌, ◌<◌, ◌≡◌, ◌≢◌, sym, ap, ◌∙◌, arith, some, true, false, leb,
  Bool-cases, Option-cases, leb→le, inl, inr, subst,
}
use kuatia.AccountCode.Pack.{pack_mask}
use kuatia.AccountCode.Feistel.{feistel94, feistel94_inv}
use kuatia.AccountCode.Feistel.Inverse.{
  feistel94-bound, feistel94_inv-bound, feistel94_inv-feistel94, feistel94-feistel94_inv,
}
use kuatia.AccountCode.Walk.{walk, walk_in, walk_out, walk_fuel, obfuscate, deobfuscate}
use kuatia.AccountCode.Walk.Ends.{walk-ne-none}

some-injective : {A : Type 0} (a b : A) → some a ≡ some b → a ≡ b
some-injective a b h = cc

walk-zero : (step : ℕ → ℕ) (v p : ℕ) → walk step zero v ≢ some p
unfolding walk
walk-zero step v p h = cc

module _ (step : ℕ → ℕ) where
  -- More fuel does not change a result.
  walk_more : (n d v p : ℕ) → walk step n v ≡ some p → walk step (n + d) v ≡ some p
  walk_more zero d v p h = absurd (walk-zero step v p h)
  walk_more (suc n) d v p h =
      let more : suc n + d ≡ suc (n + d) = omega arith in
      elim (Bool-cases (leb (step v) pack_mask)) [
        | inl e ↦ rw (more, walk_in step (n + d) v e) (sym (walk_in step n v e) ∙ h)
        | inr e ↦
            rw (more, walk_out step (n + d) v e)
              (walk_more n d (step v) p (sym (walk_out step n v e) ∙ h))
      ]

module _ (step back : ℕ → ℕ) (size : ℕ) (inside : (v : ℕ) → v < size → step v < size)
    (undo : (v : ℕ) → v < size → back (step v) ≡ v) where
  -- The way back from a value above the domain first meets that value again.
  back_out :
      (n v p : ℕ)
      → v < size
      → leb v pack_mask ≡ false
      → walk back n v ≡ some p
      → walk back (suc n) (step v) ≡ some p
  back_out n v p h e k =
      walk_out back n (step v) (rw (undo v h) e) ∙ ap (walk back n) (undo v h) ∙ k

  -- The walk stops here.
  retrace_in :
      (fuel n v p y : ℕ)
      → leb (step v) pack_mask ≡ true
      → walk back n (step v) ≡ some p
      → walk step (suc fuel) v ≡ some y
      → walk back (n + fuel) y ≡ some p
  retrace_in fuel n v p y e k r =
      let met : step v ≡ y = some-injective (step v) y (sym (walk_in step fuel v e) ∙ r) in
      walk_more back n fuel y p (subst (λ w. walk back n w ≡ some p) met k)

  retrace :
      (fuel n v p y : ℕ)
      → v < size
      → walk back n (step v) ≡ some p
      → walk step (suc fuel) v ≡ some y
      → walk back (n + fuel) y ≡ some p
  retrace zero n v p y h k r = elim (Bool-cases (leb (step v) pack_mask)) [
    | inl e ↦ retrace_in zero n v p y e k r
    | inr e ↦ absurd (walk-zero step (step v) y (sym (walk_out step zero v e) ∙ r))
  ]
  retrace (suc fuel) n v p y h k r = elim (Bool-cases (leb (step v) pack_mask)) [
    | inl e ↦ retrace_in (suc fuel) n v p y e k r
    | inr e ↦
        let lt = inside v h in
        let on =
          retrace fuel (suc n) (step v) p y lt (back_out n (step v) p lt e k)
            (sym (walk_out step (suc fuel) v e) ∙ r) in
        let same : n + suc fuel ≡ suc n + fuel = omega arith in rw same on
  ]

  walk_back :
      (fuel p y : ℕ)
      → p ≤ pack_mask
      → p < size
      → walk step (suc fuel) p ≡ some y
      → walk back (suc fuel) y ≡ some p
  walk_back fuel p y low h r =
      let home : leb (back (step p)) pack_mask ≡ true = rw (undo p h) (ground arith) in
      let first : walk back 1 (step p) ≡ some p =
        walk_in back 0 (step p) home ∙ ap some (undo p h) in
      let whole : 1 + fuel ≡ suc fuel = omega arith in
      rw (sym whole) (retrace fuel 1 p p y h first r)

walk-bound : (step : ℕ → ℕ) (fuel v y : ℕ) → walk step fuel v ≡ some y → y ≤ pack_mask
walk-bound step zero v y h = absurd (walk-zero step v y h)
walk-bound step (suc fuel) v y h = elim (Bool-cases (leb (step v) pack_mask)) [
  | inl e ↦
      let met : step v ≡ y = some-injective (step v) y (sym (walk_in step fuel v e) ∙ h) in
      subst (λ w. w ≤ pack_mask) met (leb→le (step v) pack_mask e)
  | inr e ↦ walk-bound step fuel (step v) y (sym (walk_out step fuel v e) ∙ h)
]

-- Both ways between a packed value and its image.
abbrev Paired : (ℕ → ℕ) → (ℕ → ℕ) → ℕ → Type 0
Paired step back p =
    (y : ℕ) × (y ≤ pack_mask) × (walk step walk_fuel p ≡ some y) × (walk back walk_fuel y ≡ some p)

module _ (step back : ℕ → ℕ) (inside : (v : ℕ) → v < walk_fuel → step v < walk_fuel)
    (undo : (v : ℕ) → v < walk_fuel → back (step v) ≡ v) where
  walk-Paired : (p : ℕ) → p ≤ pack_mask → Paired step back p
  walk-Paired p low =
      let differ : (v w : ℕ) → v < walk_fuel → w < walk_fuel → step v ≡ step w → v ≡ w =
        λ v w h k e. sym (undo v h) ∙ ap back e ∙ undo w k in
      elim (Option-cases (walk step walk_fuel p)) [
        | inl lost ↦ absurd (walk-ne-none step walk_fuel inside differ p low (omega arith) lost)
        | inr (y, e) ↦
            let home = walk_back step back walk_fuel inside undo (walk_fuel - 1) p y low in
            (y, walk-bound step walk_fuel p y e, e, home (omega arith) e)
      ]

-- Every packed value has an image, and the image leads back to it.
pub deobfuscate-obfuscate :
    (p seed : ℕ)
    → p ≤ pack_mask
    → (y : ℕ) × (y ≤ pack_mask) × (obfuscate p seed ≡ some y) × (deobfuscate y seed ≡ some p)
unfolding obfuscate deobfuscate
deobfuscate-obfuscate p seed =
    walk-Paired (λ v. feistel94 v seed) (λ v. feistel94_inv v seed) (λ v _. feistel94-bound v seed)
      (λ v. feistel94_inv-feistel94 v seed) p

-- The other way round.
pub obfuscate-deobfuscate :
    (y seed : ℕ)
    → y ≤ pack_mask
    → (p : ℕ) × (p ≤ pack_mask) × (deobfuscate y seed ≡ some p) × (obfuscate p seed ≡ some y)
unfolding obfuscate deobfuscate
obfuscate-deobfuscate y seed =
    walk-Paired (λ v. feistel94_inv v seed) (λ v. feistel94 v seed)
      (λ v _. feistel94_inv-bound v seed) (λ v. feistel94-feistel94_inv v seed) y
