-- ===== src/Inflight/Projection/Holds.antt =====
-- crates/kuatia/src/inflight/projection.rs: the groups of an inflight, its holds and its legs.
use kuatia.Prelude.{
  Outcome, Bool-cases, inl, inr, ◌↔◌, ◌==◌, ==→eq, ==_self, nat_eq, leb, filter, subst, All-append,
  All-imp, ◌≡◌, refl, sym, ap, arith, true, false, List, [], ◌∷◌, map, ok, >>=-eq-ok, ok-injective,
  All, eqb_ℤ_iff, eq_of_parts,
}
use kuatia.Prelude.Sort.{sort}
use kuatia.Prelude.Distinct.{IsDistinct}
use kuatia.Prelude.Sorted.{IsOrder, dedup-sort-IsDistinct}
use kuatia.Prelude.Map.{Map}
use kuatia.Prelude.Members.{All-member, Memᴰ-dedup, Memᴰ-sort, Memᴰ-filter, All-members}
use mathlib.Core.List.{Memᴰ}
use mathlib.Core.List.Memᴰ
use kuatia.Money.{Cent}
use kuatia.Types.{
  AssetId, BalanceKey, balance_key_eq, AccountId, EnvelopeId, account_id_eq, account_id_beq_iff,
  le_account,
}
use kuatia.Ledger.{LedgerError}
use kuatia.Inflight.{InflightLeg, InflightLegStatus}
use kuatia.Inflight.Projection.{
  HoldGroup, Settled, line_of, lines_of, assets_of, holds_of, destination_of, groups_from,
  group_holds,
}

le_account_total : (a b : AccountId) → le_account a b ≡ false → le_account b a ≡ true
le_account_total a b h = ground (arith, eqb_ℤ_iff a.id b.id, eqb_ℤ_iff b.id a.id)

le_account_trans :
    (a b c : AccountId) → le_account a b ≡ true → le_account b c ≡ true → le_account a c ≡ true
le_account_trans a b c h k =
    ground (arith, eqb_ℤ_iff a.id b.id, eqb_ℤ_iff b.id c.id, eqb_ℤ_iff a.id c.id)

le_account_antisym : (a b : AccountId) → le_account a b ≡ true → le_account b a ≡ true → a ≡ b
le_account_antisym a b h k = ground (
  arith,
  account_id_beq_iff a b,
  eqb_ℤ_iff a.id b.id,
  eqb_ℤ_iff b.id a.id,
  eqb_ℤ_iff a.sub b.sub,
  eq_of_parts a.id b.id,
  eq_of_parts a.sub b.sub,
)

account-IsOrder : IsOrder le_account
account-IsOrder = record {
  total_lem = le_account_total;
  trans_lem = le_account_trans;
  antisym_lem = le_account_antisym;
}

-- The leg that a destination is taken from.
abbrev pub LeadsTo : List InflightLeg → AccountId → AccountId → Type 0
LeadsTo legs hold destination =
    (x : InflightLeg) × Memᴰ x legs × (x.hold ≡ hold) × (x.destination ≡ destination)

destination_of-LeadsTo :
    (legs : List InflightLeg) (hold : AccountId) (inflight : EnvelopeId) {d : AccountId}
    → destination_of legs hold inflight ≡ ok d
    → LeadsTo legs hold d
unfolding destination_of
destination_of-LeadsTo [] hold inflight h = cc
destination_of-LeadsTo (l ∷ ls) hold inflight {d} h = elim (Bool-cases (l.hold == hold)) [
  | inl same ↦
      let first : ◌≡◌ {A = Outcome LedgerError AccountId} (ok l.destination) (ok d) =
        rw (destination_of, same) at h in
      (l, Memᴰ.head refl, ==→eq l.hold hold same, ok-injective first)
  | inr other ↦
      let later : destination_of ls hold inflight ≡ ok d = rw (destination_of, other) at h in
      let (x, m, named, to) = destination_of-LeadsTo ls hold inflight later in
      (x, Memᴰ.tail m, named, to)
]

groups_from-holds :
    (legs : List InflightLeg) (inflight : EnvelopeId) (holds : List AccountId) {gs : List HoldGroup}
    → groups_from legs inflight holds ≡ ok gs
    → (map (λ g. g.hold) gs ≡ holds)
      × All (λ g. (g.assets ≡ assets_of legs g.hold) × LeadsTo legs g.hold g.destination) gs
unfolding groups_from
groups_from-holds legs inflight [] {gs} h =
    let same : [] ≡ gs = ok-injective h in rw (← same) (refl, tt)
groups_from-holds legs inflight (hold ∷ holds) {gs} h =
    let (destination, found, r1) = >>=-eq-ok (destination_of legs hold inflight) _ h in
    let (rest, others, r2) = >>=-eq-ok (groups_from legs inflight holds) _ r1 in
    let same = ok-injective r2 in
    let (named, assets) = groups_from-holds legs inflight holds others in
    rw (← same)
      (ap (λ l. hold ∷ l) named, ((refl, destination_of-LeadsTo legs hold inflight found), assets))

-- The groups are the holds of the legs, each once, with the assets that the legs have for it and the
-- destination of one of them.
pub group_holds-groups :
    (legs : List InflightLeg) (inflight : EnvelopeId) {gs : List HoldGroup}
    → group_holds legs inflight ≡ ok gs
    → (map (λ g. g.hold) gs ≡ holds_of legs)
      × IsDistinct (map (λ g. g.hold) gs)
      × All (λ g. (g.assets ≡ assets_of legs g.hold) × LeadsTo legs g.hold g.destination) gs
unfolding group_holds
group_holds-groups legs inflight h =
    let (named, assets) = groups_from-holds legs inflight (holds_of legs) h in
    (
      named,
      rw named (dedup-sort-IsDistinct le_account account-IsOrder (map (λ l. l.hold) legs)),
      assets,
    )

module _ (authorized : Map BalanceKey Cent) (b : Settled) (balances : Map BalanceKey Cent) where
  -- The group and the asset that a line is for.
  abbrev pub IsLineOf : List HoldGroup → InflightLegStatus → Type 0
  IsLineOf gs l =
      (g : HoldGroup) × Memᴰ g gs
      × (g.hold ≡ l.hold)
      × (g.destination ≡ l.destination)
      × Memᴰ l.asset g.assets

  lines_from :
      (g : HoldGroup) (gs : List HoldGroup) (assets : List AssetId)
      → All (λ a. Memᴰ a g.assets) assets
      → Memᴰ g gs
      → All (IsLineOf gs) (map (line_of authorized b balances g) assets)
  unfolding line_of
  lines_from g gs [] among here = tt
  lines_from g gs (a ∷ assets) (m, among) here =
      ((g, here, refl, refl, m), lines_from g gs assets among here)

  pub lines_of-IsLineOf :
      (gs : List HoldGroup) → All (IsLineOf gs) (lines_of authorized b balances gs)
  unfolding lines_of
  lines_of-IsLineOf [] = tt
  lines_of-IsLineOf (g ∷ gs) =
      All-append (IsLineOf (g ∷ gs)) (map (line_of authorized b balances g) g.assets)
        (lines_of authorized b balances gs)
        (lines_from g (g ∷ gs) g.assets (All-members g.assets) (Memᴰ.head refl))
        (All-imp (lines_of authorized b balances gs)
          (λ l (q, m, same, to, among). (q, Memᴰ.tail m, same, to, among)) (lines_of-IsLineOf gs))

  -- Every asset of every group has a line.
  pub lines_of_complete :
      (gs : List HoldGroup) (g : HoldGroup) (asset : AssetId)
      → Memᴰ g gs
      → Memᴰ asset g.assets
      → (l : InflightLegStatus) × Memᴰ l (lines_of authorized b balances gs)
        × (l.hold ≡ g.hold)
        × (l.asset ≡ asset)
  unfolding lines_of line_of
  lines_of_complete [] g asset m among = absurd (Memᴰ.not-nil m)
  lines_of_complete (q ∷ gs) g asset m among = elim (Memᴰ.cases_cons m) [
    | inl same ↦
        let here : Memᴰ asset q.assets =
          subst (λ (x : HoldGroup). Memᴰ asset x.assets) same among in
        let l = line_of authorized b balances q asset in
        (
          l,
          Memᴰ.append_left (lines_of authorized b balances gs)
              (Memᴰ.map (line_of authorized b balances q) here),
          ap (λ (x : HoldGroup). x.hold) (sym same),
          refl,
        )
    | inr later ↦
        let (l, there, held_by, of_asset) = lines_of_complete gs g asset later among in
        (
          l,
          Memᴰ.append_right (map (line_of authorized b balances q) q.assets) there,
          held_by,
          of_asset,
        )
  ]

pub asset-leg :
    (legs : List InflightLeg) (hold : AccountId) (asset : AssetId)
    → Memᴰ asset (assets_of legs hold)
      ↔ ((x : InflightLeg) × Memᴰ x legs × (x.hold ≡ hold) × (x.asset ≡ asset))
asset-leg legs hold asset =
    let own = filter (λ l. l.hold == hold) legs in
    let assets = map (λ l. l.asset) own in
    let flat = Memᴰ-dedup asset (sort leb assets) in
    let unsorted = Memᴰ-sort leb asset assets in
    (
      λ m.
          let (x, among, same) = Memᴰ.of_map (λ l. l.asset) own (unsorted.0 (flat.0 m)) in
          let (there, mine) = (Memᴰ-filter (λ l. l.hold == hold) x legs).0 among in
          (x, there, ==→eq x.hold hold mine, same),
      λ (x, there, mine, same). flat.1 (
          unsorted.1 (
            subst (λ a. Memᴰ a assets) same
              (Memᴰ.map (λ l. l.asset)
                ((Memᴰ-filter (λ l. l.hold == hold) x legs).1 (there, rw mine (==_self hold)))))),
    )

-- Every leg has a group.
pub group_of :
    (legs : List InflightLeg) (inflight : EnvelopeId) {gs : List HoldGroup} (x : InflightLeg)
    → group_holds legs inflight ≡ ok gs
    → Memᴰ x legs
    → (g : HoldGroup) × Memᴰ g gs × (g.hold ≡ x.hold) × Memᴰ x.asset g.assets
group_of legs inflight {gs} x h m =
    let (named, _, facts) = group_holds-groups legs inflight h in
    let holds = map (λ l. l.hold) legs in
    let among : Memᴰ x.hold (holds_of legs) =
      (Memᴰ-dedup x.hold (sort le_account holds)).1
        ((Memᴰ-sort le_account x.hold holds).1 (Memᴰ.map (λ (l : InflightLeg). l.hold) m)) in
    let (g, there, same) =
      Memᴰ.of_map (λ (q : HoldGroup). q.hold) gs (subst (Memᴰ x.hold) (sym named) among) in
    let its_assets = (All-member _ g gs facts there).0 in
    (
      g,
      there,
      same,
      subst (Memᴰ x.asset) (sym its_assets)
          ((asset-leg legs g.hold x.asset).1 (x, m, sym same, refl)),
    )
