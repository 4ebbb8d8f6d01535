-- ===== src/Storage/Queries/Index.antt =====
-- crates/kuatia-storage/src/mem_store.rs: the records that the index of the accounts leads to.
use kuatia.Prelude.{
  ◌≡◌, refl, ◌⊎◌, inl, inr, ◌↔◌, arith, Bool, true, false, Option, none, some, List, [], ◌∷◌,
  if◌then◌else◌, Bool-cases, nat_eq, list_eq, sym, ap, ◌∙◌, int_eq,
}
use kuatia.Prelude.Members.{lookup_here, lookup_later, lookup_cases}
use kuatia.Prelude.Map.{Map, lookup, IsMap}
use kuatia.Types.{AccountId, EnvelopeId}
use kuatia.Storage.Records.{EnvelopeRecord}
use kuatia.Storage.Queries.{records_for, any, add_found}
use mathlib.Core.List.{Memᴰ}
use mathlib.Core.List.Memᴰ

pub any-Memᴰ :
    (test : AccountId → Bool) (xs : List AccountId)
    → any test xs ≡ true
    → (x : AccountId) × Memᴰ x xs × (test x ≡ true)
any-Memᴰ test [] h = cc
any-Memᴰ test (x ∷ xs) h = elim (Bool-cases (test x)) [
  | inl yes_ ↦ (x, Memᴰ.head refl, yes_)
  | inr no_ ↦ let (y, later, found) = any-Memᴰ test xs (rw no_ at h) in (y, Memᴰ.tail later, found)
]

pub any_of_member :
    (test : AccountId → Bool) (x : AccountId) (xs : List AccountId)
    → Memᴰ x xs
    → test x ≡ true
    → any test xs ≡ true
any_of_member test x [] mem h = absurd (Memᴰ.not-nil mem)
any_of_member test x (y ∷ ys) mem h = elim (Memᴰ.cases_cons mem) [
  | inl same ↦ ground arith
  | inr later ↦ ground (arith, any_of_member test x ys later h)
]

Memᴰ-add_found :
    (r : EnvelopeRecord) (owned : Bool) (o : Option EnvelopeRecord) (rest : List EnvelopeRecord)
    → Memᴰ r (if owned then add_found o rest else rest)
      ↔ ((owned ≡ true) × (o ≡ some r) ⊎ Memᴰ r rest)
Memᴰ-add_found r false o rest = ground arith
Memᴰ-add_found r true none rest = ground arith
Memᴰ-add_found r true (some found) rest = (
  λ mem. elim (Memᴰ.cases_cons mem) [
    | inl same ↦ inl (refl, ap some (sym same))
    | inr later ↦ inr later
  ],
  λ cases. elim cases [ inl (_, same) ↦ Memᴰ.head (ground arith) | inr later ↦ Memᴰ.tail later ],
)

module _ (test : AccountId → Bool) (transfers : Map EnvelopeId EnvelopeRecord) where
  abbrev pub Found : EnvelopeRecord → Map EnvelopeId (List AccountId) → Type 0
  Found r index =
      (tid : EnvelopeId) × (accounts : List AccountId) × (lookup tid index ≡ some accounts)
      × (any test accounts ≡ true)
      × (lookup tid transfers ≡ some r)

  records_for_cons :
      (r : EnvelopeRecord) (tid : EnvelopeId) (accounts : List AccountId)
      (index : Map EnvelopeId (List AccountId))
      → Memᴰ r (records_for test transfers ((tid, accounts) ∷ index)) ↔ (
          (any test accounts ≡ true) × (lookup tid transfers ≡ some r)
          ⊎ Memᴰ r (records_for test transfers index))
  unfolding records_for
  records_for_cons r tid accounts index =
      Memᴰ-add_found r (any test accounts) (lookup tid transfers) (records_for test transfers index)

  pub records_for-Found :
      (r : EnvelopeRecord) (index : Map EnvelopeId (List AccountId))
      → IsMap index
      → Memᴰ r (records_for test transfers index)
      → Found r index
  unfolding records_for
  records_for-Found r [] u mem = absurd (Memᴰ.not-nil mem)
  records_for-Found r ((tid, accounts) ∷ index) u mem =
      elim ((records_for_cons r tid accounts index).0 mem) [
        | inl (owned, recorded) ↦ (tid, accounts, lookup_here tid accounts index, owned, recorded)
        | inr later ↦
            let (t, accs, at_t, owned, recorded) = records_for-Found r index u.1 later in
            (t, accs, lookup_later tid t accounts accs index u.0 at_t, owned, recorded)
      ]

  pub records_for-of_Found :
      (r : EnvelopeRecord) (index : Map EnvelopeId (List AccountId))
      → Found r index
      → Memᴰ r (records_for test transfers index)
  unfolding lookup
  records_for-of_Found r [] (t, accs, at_t, owned, recorded) = cc
  records_for-of_Found r ((tid, accounts) ∷ index) (t, accs, at_t, owned, recorded) =
      (records_for_cons r tid accounts index).1
        (elim (lookup_cases tid t accounts accs index at_t) [
          | inl (same, both) ↦
              inl (ap (any test) both ∙ owned, ap (λ k. lookup k transfers) same ∙ recorded)
          | inr later ↦ inr (records_for-of_Found r index (t, accs, later, owned, recorded))
        ])
