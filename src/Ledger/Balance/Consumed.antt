-- ===== src/Ledger/Balance/Consumed.antt =====
-- crates/kuatia/src/ledger/balance.rs: the loop that gathers the consumed ids.
use kuatia.Prelude.{
  ◌↔◌, ==→eq, contains, subst, ◌≡◌, refl, inl, inr, arith, ◌∙◌, List, [], ◌∷◌, ◌==◌, nat_eq,
  Bool-cases, true, false, true-ne-false, sym,
}
use kuatia.Prelude.Distinct.{IsDistinct}
use kuatia.Prelude.Members.{contains-Memᴰ, Memᴰ-contains}
use mathlib.Core.List.{Memᴰ}
use mathlib.Core.List.Memᴰ
use kuatia.Types.{PostingId, account_id_eq, posting_id_eq}
use kuatia.Storage.{EnvelopeRecord}
use kuatia.Ledger.Balance.{unseen, all_consumes}

-- The ids that are consumed, each once.
abbrev pub IsConsumedOnce : List EnvelopeRecord → List PostingId → Type 0
IsConsumedOnce rs ids =
    IsDistinct ids
    × ((id : PostingId)
        → Memᴰ id ids ↔ ((r : EnvelopeRecord) × Memᴰ r rs × Memᴰ id r.envelope.consumes))

unseen-Memᴰ :
    (id : PostingId) (seen ids : List PostingId)
    → Memᴰ id (unseen seen ids) ↔ (Memᴰ id ids × (contains id seen ≡ false))
unfolding unseen contains
unseen-Memᴰ id seen [] = (λ m. absurd (Memᴰ.not-nil m), λ m. m.0)
unseen-Memᴰ id seen (i ∷ ids) = elim (Bool-cases (contains i seen)) [
  | inl old ↦
      let same : id ≡ i → contains id seen ≡ true = λ e. rw e old in
      rw old (
        λ m. let (later, new) = (unseen-Memᴰ id seen ids).0 m in (Memᴰ.tail later, new),
        λ (m, new). elim (Memᴰ.cases_cons m) [
          | inl e ↦ absurd (true-ne-false (sym (same e) ∙ new))
          | inr later ↦ (unseen-Memᴰ id seen ids).1 (later, new)
        ],
      )
  | inr fresh ↦ rw fresh (
    λ m. elim (Memᴰ.cases_cons m) [
      | inl e ↦ (Memᴰ.head e, rw e fresh)
      | inr later ↦
          let (there, new) = (unseen-Memᴰ id (i ∷ seen) ids).0 later in
          (Memᴰ.tail there, ground arith)
    ],
    λ (m, new). elim (Bool-cases (i == id)) [
      | inl e ↦ Memᴰ.head (sym (==→eq i id e))
      | inr other ↦ elim (Memᴰ.cases_cons m) [
        | inl e ↦ Memᴰ.head e
        | inr later ↦ Memᴰ.tail ((unseen-Memᴰ id (i ∷ seen) ids).1 (later, rw other new))
      ]
    ],
  )
]

unseen-IsDistinct : (seen ids : List PostingId) → IsDistinct (unseen seen ids)
unfolding unseen
unseen-IsDistinct seen [] = tt
unseen-IsDistinct seen (i ∷ ids) = elim (Bool-cases (contains i seen)) [
  | inl old ↦ rw old (unseen-IsDistinct seen ids)
  | inr fresh ↦ rw fresh (not_again, unseen-IsDistinct (i ∷ seen) ids)
]
  where
    not_again : contains i (unseen (i ∷ seen) ids) ≡ false
    not_again = elim (Bool-cases (contains i (unseen (i ∷ seen) ids))) [
      | inr no_more ↦ no_more
      | inl again ↦
          let (_, new) =
            (unseen-Memᴰ i (i ∷ seen) ids).0 (contains-Memᴰ i (unseen (i ∷ seen) ids) again) in
          let here : contains i (i ∷ seen) ≡ true = Memᴰ-contains i (i ∷ seen) (Memᴰ.head refl) in
          absurd (true-ne-false (sym here ∙ new))
    ]

all_consumes-Memᴰ :
    (id : PostingId) (rs : List EnvelopeRecord)
    → Memᴰ id (all_consumes rs) ↔ ((r : EnvelopeRecord) × Memᴰ r rs × Memᴰ id r.envelope.consumes)
all_consumes-Memᴰ id [] = (λ m. absurd (Memᴰ.not-nil m), λ (r, m, _). absurd (Memᴰ.not-nil m))
all_consumes-Memᴰ id (r ∷ rs) = (
  λ m. elim (Memᴰ.append_cases r.envelope.consumes m) [
    | inl here ↦ (r, Memᴰ.head refl, here)
    | inr later ↦
        let (q, there, among) = (all_consumes-Memᴰ id rs).0 later in (q, Memᴰ.tail there, among)
  ],
  λ (q, m, among). elim (Memᴰ.cases_cons m) [
    | inl same ↦
        Memᴰ.append_left (all_consumes rs)
          (subst (λ (x : EnvelopeRecord). Memᴰ id x.envelope.consumes) same among)
    | inr later ↦
        Memᴰ.append_right r.envelope.consumes ((all_consumes-Memᴰ id rs).1 (q, later, among))
  ],
)

pub unseen-IsConsumedOnce :
    (rs : List EnvelopeRecord) → IsConsumedOnce rs (unseen [] (all_consumes rs))
unfolding contains
unseen-IsConsumedOnce rs = (
  unseen-IsDistinct [] (all_consumes rs),
  λ id.
      let kept = unseen-Memᴰ id [] (all_consumes rs) in
      let among = all_consumes-Memᴰ id rs in
      (λ m. among.0 (kept.0 m).0, λ m. kept.1 (among.1 m, refl)),
)
