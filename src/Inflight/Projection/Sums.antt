-- ===== src/Inflight/Projection/Sums.antt =====
-- crates/kuatia/src/inflight/projection.rs: what the loops of a status add up, as sums over lists.
use kuatia.Prelude.{
  ◌≡◌, refl, ap, ◌∙◌, arith, Bool, true, false, not, ◌&&◌, Option, List, [], ◌∷◌, map, ◌==◌, nat_eq,
  ℤ, pos, ◌+ℤ◌, int_laws, if◌then◌else◌, Bool-cases, inl, inr, contains, ==→eq, subst,
  true-ne-false,
}
use kuatia.Prelude.Bytes.{Bytes}
use kuatia.Prelude.Map.{Map, insert, lookup-insert}
use kuatia.Prelude.Distinct.{IsDistinct}
use kuatia.Types.{
  AccountId, AssetId, BalanceKey, NewPosting, account_id_eq, balance_key_eq, balance_key_beq,
}
use kuatia.Core.Accumulate.{amount_of}
use kuatia.Storage.{EnvelopeRecord}
use kuatia.Inflight.{InflightLeg}
use kuatia.Inflight.Meta.{InflightMeta, read_meta}
use kuatia.Inflight.Projection.{HoldGroup, leg_entry, settled_entries, index_history, records_of}
use kuatia.Inflight.Projection.Lines.{amount_of-append, record_entries, group_entries}

-- The sum of a number over the elements that pass a test.
unfoldable pub sum_if {ℓ} : {A : Type ℓ} → (A → Bool) → (A → ℤ) → List A → ℤ
sum_if test value [] = pos 0
sum_if test value (x ∷ xs) = (if test x then value x else pos 0) +ℤ sum_if test value xs

-- The authorized amount of a hold in an asset.
abbrev pub authorized_for : AccountId → AssetId → List InflightLeg → ℤ
authorized_for hold asset legs =
    sum_if (λ x. (x.hold == hold) && (x.asset == asset)) (λ x. x.amount) legs

-- What a transfer creates in an asset for others than the hold.
abbrev pub leaves : AccountId → AssetId → EnvelopeRecord → ℤ
leaves hold asset r =
    sum_if (λ p. not (p.owner == hold) && (p.asset == asset)) (λ p. p.value) r.envelope.creates

-- The history that is given for a hold: the last one, if there are several.
abbrev pub history_of :
    AccountId → List (AccountId × List EnvelopeRecord) → List EnvelopeRecord → List EnvelopeRecord
history_of hold [] found = found
history_of hold ((other, records) ∷ rest) found =
    history_of hold rest (if other == hold then records else found)

-- What leaves a hold in the transfers of its history whose payload counts.
abbrev pub settled_for :
    (Bytes → Option InflightMeta)
    → (Option InflightMeta → Bool)
    → AccountId
    → AssetId
    → List EnvelopeRecord
    → ℤ
settled_for from_reader counts hold asset records =
    sum_if (λ r. counts (read_meta from_reader r.envelope.metadata)) (leaves hold asset) records

pub leg_entries-amount :
    (hold : AccountId) (asset : AssetId) (legs : List InflightLeg)
    → amount_of (hold, asset) (map leg_entry legs) ≡ authorized_for hold asset legs
unfolding amount_of sum_if balance_key_beq
leg_entries-amount hold asset [] = refl
leg_entries-amount hold asset (l ∷ ls) = rw (leg_entries-amount hold asset ls)

settled_entries-amount :
    (h : AccountId) (hold : AccountId) (asset : AssetId) (ps : List NewPosting)
    → amount_of (hold, asset) (settled_entries h ps) ≡ (
        if h == hold
        then sum_if (λ p. not (p.owner == h) && (p.asset == asset)) (λ p. p.value) ps
        else pos 0)
unfolding amount_of sum_if balance_key_beq
settled_entries-amount h hold asset [] = ground arith
settled_entries-amount h hold asset (p ∷ ps) =
    let rest = settled_entries-amount h hold asset ps in
    elim (Bool-cases (p.owner == h)) [
      | inl back ↦ elim (Bool-cases (h == hold)) [
        | inl mine ↦ rw (back, mine) ((rw mine at rest) ∙ omega int_laws)
        | inr other ↦ rw (back, other) (rw other at rest)
      ]
      | inr away ↦ elim (Bool-cases (h == hold)) [
        | inl mine ↦
            rw (away, mine)
              (ap (λ x. (if p.asset == asset then p.value else pos 0) +ℤ x) (rw mine at rest))
        | inr other ↦ rw (away, other) (ap (λ x. pos 0 +ℤ x) (rw other at rest) ∙ omega int_laws)
      ]
    ]

records_of-insert :
    (hold other : AccountId) (records : List EnvelopeRecord)
    (m : Map AccountId (List EnvelopeRecord))
    → records_of hold (insert other records m)
      ≡ (if other == hold then records else records_of hold m)
records_of-insert hold other records m = elim (Bool-cases (other == hold)) [
  | inl same ↦ rw (records_of, lookup-insert other hold records m, same)
  | inr differs ↦ rw (records_of, lookup-insert other hold records m, differs)
]

pub records_of-history :
    (hold : AccountId) (hs : List (AccountId × List EnvelopeRecord))
    (m : Map AccountId (List EnvelopeRecord))
    → records_of hold (index_history hs m) ≡ history_of hold hs (records_of hold m)
unfolding index_history
records_of-history hold [] m = refl
records_of-history hold ((other, records) ∷ rest) m =
    records_of-history hold rest (insert other records m)
    ∙ ap (history_of hold rest) (records_of-insert hold other records m)

group_part :
    (from_reader : Bytes → Option InflightMeta) (counts : Option InflightMeta → Bool)
    (h hold : AccountId) (asset : AssetId) (rs : List EnvelopeRecord)
    → amount_of (hold, asset) (record_entries from_reader counts h rs)
      ≡ (if h == hold then settled_for from_reader counts h asset rs else pos 0)
unfolding record_entries amount_of sum_if
group_part from_reader counts h hold asset [] = ground arith
group_part from_reader counts h hold asset (r ∷ rs) =
    let rest = group_part from_reader counts h hold asset rs in
    let here = settled_entries-amount h hold asset r.envelope.creates in
    let key : BalanceKey = (hold, asset) in
    elim (Bool-cases (counts (read_meta from_reader r.envelope.metadata))) [
      | inr skipped ↦ elim (Bool-cases (h == hold)) [
        | inl mine ↦ rw (skipped, mine) ((rw mine at rest) ∙ omega int_laws)
        | inr other ↦ rw (skipped, other) (rw other at rest)
      ]
      | inl counted ↦
          let both =
            amount_of-append key (settled_entries h r.envelope.creates)
              (record_entries from_reader counts h rs) in
          elim (Bool-cases (h == hold)) [
            | inl mine ↦ rw (counted, mine) (both ∙ rw (here, rest, mine))
            | inr other ↦ rw (counted, other) (both ∙ rw (here, rest, other) (omega int_laws))
          ]
    ]

module _ (from_reader : Bytes → Option InflightMeta) (counts : Option InflightMeta → Bool)
    (history : Map AccountId (List EnvelopeRecord)) (hold : AccountId) (asset : AssetId) where
  groups_without :
      (gs : List HoldGroup)
      → contains hold (map (λ g. g.hold) gs) ≡ false
      → amount_of (hold, asset) (group_entries from_reader counts history gs) ≡ pos 0
  unfolding group_entries contains amount_of
  groups_without [] h = refl
  groups_without (g ∷ gs) h = elim (Bool-cases (g.hold == hold)) [
    | inl same ↦ absurd (true-ne-false (rw same at h))
    | inr other ↦
        let rs = records_of g.hold history in
        amount_of-append (hold, asset) (record_entries from_reader counts g.hold rs)
          (group_entries from_reader counts history gs)
        ∙ rw
            (
              group_part from_reader counts g.hold hold asset rs,
              other,
              groups_without gs (rw other at h),
            )
            (omega int_laws)
  ]

  pub groups_with :
      (gs : List HoldGroup)
      → IsDistinct (map (λ g. g.hold) gs)
      → contains hold (map (λ g. g.hold) gs) ≡ true
      → amount_of (hold, asset) (group_entries from_reader counts history gs)
        ≡ settled_for from_reader counts hold asset (records_of hold history)
  unfolding group_entries contains
  groups_with [] d h = cc
  groups_with (g ∷ gs) (apart, d) h =
      let rs = records_of g.hold history in
      let both =
        amount_of-append (hold, asset) (record_entries from_reader counts g.hold rs)
          (group_entries from_reader counts history gs) in
      elim (Bool-cases (g.hold == hold)) [
        | inl same ↦
            let here : g.hold ≡ hold = ==→eq g.hold hold same in
            let none_later =
              groups_without gs
                (subst (λ x. contains x (map (λ q. q.hold) gs) ≡ false) here apart) in
            both
            ∙ rw (group_part from_reader counts g.hold hold asset rs, same, none_later)
                (ap (λ x. settled_for from_reader counts x asset (records_of x history) +ℤ pos 0)
                    here
                  ∙ omega int_laws)
        | inr other ↦
            both
            ∙ rw
                (
                  group_part from_reader counts g.hold hold asset rs,
                  other,
                  groups_with gs d (rw other at h),
                )
                (omega int_laws)
      ]
