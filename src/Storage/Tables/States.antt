-- ===== src/Storage/Tables/States.antt =====
-- What each operation on the posting tables does to the state of every posting.
use kuatia.Prelude.{
  ℕ, ◌≡◌, refl, ◌∙◌, ap, Option, none, some, List, [], ◌∷◌, map, arith, ◌==◌, int_eq, int_eq,
  eqb_ℤ_iff, contains, if◌then◌else◌, Option-cases, inl, inr,
}
use kuatia.Prelude.Map.{lookup, All-lookup, lookup-insert, lookup-remove}
use kuatia.Types.{
  PostingId, ReservationId, Posting, PostingState, is_active, is_reserved, is_spent, is_missing,
  posting_id_eq, posting_id_beq_iff,
}
use kuatia.Storage.Records.{PostingTables}
use kuatia.Storage.Tables.Valid.{
  IsValid, absent_of, reserve_one-IsValid, release_one-IsValid, deactivate_one-IsValid,
  insert_one-IsValid,
}
use kuatia.Storage.Tables.{
  posting_state, for_ids, reserve_one, reserve_postings, release_one, release_postings,
  deactivate_one, deactivate_postings, insert_one, insert_postings,
}

-- active → reserved, and nothing else.
abbrev pub after_reserve : ReservationId → PostingState → PostingState
after_reserve r is_active = is_reserved r
after_reserve r (is_reserved s) = is_reserved s
after_reserve r is_spent = is_spent
after_reserve r is_missing = is_missing

posting_state-reserve_one :
    (r : ReservationId) (id q : PostingId) (t : PostingTables)
    → posting_state (reserve_one r id t).0 q
      ≡ (if id == q then after_reserve r (posting_state t q) else posting_state t q)
unfolding posting_state reserve_one
posting_state-reserve_one r id q t = elim (Option-cases (lookup id t.active)) [
  | inl absent ↦ ground (arith, posting_id_beq_iff id q)
  | inr (p, found) ↦ ground (
    arith,
    posting_id_beq_iff id q,
    lookup-remove id q t.active,
    lookup-insert id q (p, r) t.reserved,
  )
]

-- reserved by `r` → active, and nothing else.
abbrev pub after_release : ReservationId → PostingState → PostingState
after_release r is_active = is_active
after_release r (is_reserved s) = if s == r then is_active else is_reserved s
after_release r is_spent = is_spent
after_release r is_missing = is_missing

-- active → spent with no reservation, and reserved by `r` → spent with the reservation `r`.
abbrev pub after_deactivate : Option ReservationId → PostingState → PostingState
after_deactivate none is_active = is_spent
after_deactivate none (is_reserved s) = is_reserved s
after_deactivate (some r) is_active = is_active
after_deactivate (some r) (is_reserved s) = if s == r then is_spent else is_reserved s
after_deactivate o is_spent = is_spent
after_deactivate o is_missing = is_missing

posting_state-release_one :
    (r : ReservationId) (id q : PostingId) (t : PostingTables)
    → posting_state (release_one r id t).0 q
      ≡ (if id == q then after_release r (posting_state t q) else posting_state t q)
unfolding posting_state release_one
posting_state-release_one r id q t = elim (Option-cases (lookup id t.reserved)) [
  | inl absent ↦ ground (arith, posting_id_beq_iff id q)
  | inr ((p, s), found) ↦ ground (
    arith,
    posting_id_beq_iff id q,
    eqb_ℤ_iff s r,
    lookup-remove id q t.reserved,
    lookup-insert id q p t.active,
  )
]

-- missing → active, and nothing else.
abbrev pub after_insert : PostingState → PostingState
after_insert is_active = is_active
after_insert (is_reserved s) = is_reserved s
after_insert is_spent = is_spent
after_insert is_missing = is_active

module _ (t : PostingTables) (v : IsValid t) where
  -- What an active, and what a reserved posting means for the other tables.
  active_facts :
      (id : PostingId) {p : Posting}
      → lookup id t.active ≡ some p
      → (lookup id t.immutable ≡ some p) × (lookup id t.reserved ≡ none)
  active_facts id {p} e = (
    All-lookup (λ k q. lookup k t.immutable ≡ some q) id p t.active v.active_known e,
    All-lookup (λ k q. lookup k t.reserved ≡ none) id p t.active v.disjoint e,
  )

  reserved_facts :
      (id : PostingId) {p : Posting} {s : ReservationId}
      → lookup id t.reserved ≡ some (p, s)
      → (lookup id t.immutable ≡ some p) × (lookup id t.active ≡ none)
  reserved_facts id {p} {s} e = (
    All-lookup (λ k q. lookup k t.immutable ≡ some q.0) id (p, s) t.reserved v.reserved_known e,
    elim (Option-cases (lookup id t.active)) [
      | inl absent ↦ absent
      | inr (q, found) ↦ let none_reserved = (active_facts id found).1 in absurd (ground arith)
    ],
  )

  posting_state-deactivate_one :
      (o : Option ReservationId) (id q : PostingId)
      → posting_state (deactivate_one o id t).0 q
        ≡ (if id == q then after_deactivate o (posting_state t q) else posting_state t q)
  unfolding posting_state deactivate_one
  posting_state-deactivate_one none id q = elim (Option-cases (lookup id t.active)) [
    | inl absent ↦ ground (arith, posting_id_beq_iff id q)
    | inr (p, found) ↦
        let facts = active_facts id found in
        ground (arith, posting_id_beq_iff id q, lookup-remove id q t.active)
  ]
  posting_state-deactivate_one (some r) id q = elim (Option-cases (lookup id t.reserved)) [
    | inl absent ↦ ground (arith, posting_id_beq_iff id q)
    | inr ((p, s), found) ↦
        let facts = reserved_facts id found in
        ground (arith, posting_id_beq_iff id q, eqb_ℤ_iff s r, lookup-remove id q t.reserved)
  ]

  posting_state-insert_one :
      (p : Posting) (q : PostingId)
      → posting_state (insert_one p t).0 q
        ≡ (if p.id == q then after_insert (posting_state t q) else posting_state t q)
  unfolding posting_state insert_one
  posting_state-insert_one p q = elim (Option-cases (lookup p.id t.immutable)) [
    | inl absent ↦
        let facts = absent_of p.id t v absent in
        let inactive = not_active p.id absent in
        ground (
          arith,
          posting_id_beq_iff p.id q,
          lookup-insert p.id q p t.immutable,
          lookup-insert p.id q p t.active,
        )
    | inr (r, found) ↦ ground (arith, posting_id_beq_iff p.id q)
  ]
    where
      not_active : (id : PostingId) → lookup id t.immutable ≡ none → lookup id t.active ≡ none
      not_active id absent = elim (Option-cases (lookup id t.active)) [
        | inl e ↦ e
        | inr (r, found) ↦ let facts = active_facts id found in absurd (ground arith)
      ]

-- A loop applies the change of one round to each posting that it names.
module _ {A : Type 0} (body : A → PostingTables → PostingTables × ℕ) (id_of : A → PostingId)
    (change : PostingState → PostingState)
    (keeps : (x : A) (t : PostingTables) → IsValid t → IsValid (body x t).0)
    (round : (x : A) (t : PostingTables) (q : PostingId)
      → IsValid t
      → posting_state (body x t).0 q
        ≡ (if id_of x == q then change (posting_state t q) else posting_state t q))
    (again : (s : PostingState) → change (change s) ≡ change s) where
  posting_state-for_ids :
      (xs : List A) (t : PostingTables) (q : PostingId)
      → IsValid t
      → posting_state (for_ids body xs t).0 q
        ≡ (if contains q (map id_of xs) then change (posting_state t q) else posting_state t q)
  unfolding for_ids contains
  posting_state-for_ids [] t q v = refl
  posting_state-for_ids (x ∷ xs) t q v = ground (
    arith,
    posting_state-for_ids xs (body x t).0 q (keeps x t v),
    round x t q v,
    again (posting_state t q),
  )

map_self : {A : Type 0} (xs : List A) → map (λ x. x) xs ≡ xs
map_self [] = refl
map_self (x ∷ xs) = ap (λ l. x ∷ l) (map_self xs)

after_reserve_twice :
    (r : ReservationId) (s : PostingState) → after_reserve r (after_reserve r s) ≡ after_reserve r s
after_reserve_twice r is_active = refl
after_reserve_twice r (is_reserved s) = refl
after_reserve_twice r is_spent = refl
after_reserve_twice r is_missing = refl

after_release_twice :
    (r : ReservationId) (s : PostingState) → after_release r (after_release r s) ≡ after_release r s
after_release_twice r is_active = refl
after_release_twice r (is_reserved s) = ground arith
after_release_twice r is_spent = refl
after_release_twice r is_missing = refl

after_deactivate_twice :
    (o : Option ReservationId) (s : PostingState)
    → after_deactivate o (after_deactivate o s) ≡ after_deactivate o s
after_deactivate_twice none is_active = refl
after_deactivate_twice none (is_reserved s) = refl
after_deactivate_twice (some r) is_active = refl
after_deactivate_twice (some r) (is_reserved s) = ground arith
after_deactivate_twice none is_spent = refl
after_deactivate_twice none is_missing = refl
after_deactivate_twice (some r) is_spent = refl
after_deactivate_twice (some r) is_missing = refl

after_insert_twice : (s : PostingState) → after_insert (after_insert s) ≡ after_insert s
after_insert_twice is_active = refl
after_insert_twice (is_reserved s) = refl
after_insert_twice is_spent = refl
after_insert_twice is_missing = refl

module _ (ids : List PostingId) (t : PostingTables) (q : PostingId) (v : IsValid t) where
  -- Reserving makes the named postings that are active reserved, under the given reservation, and
  -- changes the state of no other posting; so of two reservations of a posting one wins.
  pub posting_state-reserve_postings :
      (r : ReservationId)
      → posting_state (reserve_postings ids r t).0 q
        ≡ (if contains q ids then after_reserve r (posting_state t q) else posting_state t q)
  unfolding reserve_postings
  posting_state-reserve_postings r =
      posting_state-for_ids (reserve_one r) (λ id. id) (after_reserve r) (reserve_one-IsValid r)
        (λ id t q _. posting_state-reserve_one r id q t) (after_reserve_twice r) ids t q v
      ∙ ap (λ l. if contains q l then after_reserve r (posting_state t q) else posting_state t q)
          (map_self ids)

  -- Releasing makes the named postings that the given reservation holds active again, and changes the
  -- state of no other posting.
  pub posting_state-release_postings :
      (r : ReservationId)
      → posting_state (release_postings ids r t).0 q
        ≡ (if contains q ids then after_release r (posting_state t q) else posting_state t q)
  unfolding release_postings
  posting_state-release_postings r =
      posting_state-for_ids (release_one r) (λ id. id) (after_release r) (release_one-IsValid r)
        (λ id t q _. posting_state-release_one r id q t) (after_release_twice r) ids t q v
      ∙ ap (λ l. if contains q l then after_release r (posting_state t q) else posting_state t q)
          (map_self ids)

  -- Deactivating spends the named postings that are active (with no reservation) or that the given
  -- reservation holds, and changes the state of no other posting.
  pub posting_state-deactivate_postings :
      (o : Option ReservationId)
      → posting_state (deactivate_postings ids o t).0 q
        ≡ (if contains q ids then after_deactivate o (posting_state t q) else posting_state t q)
  unfolding deactivate_postings
  posting_state-deactivate_postings o =
      posting_state-for_ids (deactivate_one o) (λ id. id) (after_deactivate o)
        (deactivate_one-IsValid o) (λ id t q w. posting_state-deactivate_one t w o id q)
        (after_deactivate_twice o) ids t q v
      ∙ ap (λ l. if contains q l then after_deactivate o (posting_state t q) else posting_state t q)
          (map_self ids)

-- Inserting makes the postings whose ids are missing active, and changes the state of no other
-- posting: a spent or reserved one stays so.
pub posting_state-insert_postings :
    (ps : List Posting) (t : PostingTables) (q : PostingId)
    → IsValid t
    → posting_state (insert_postings ps t).0 q ≡ (
        if contains q (map (λ p. p.id) ps)
        then after_insert (posting_state t q)
        else posting_state t q)
unfolding insert_postings
posting_state-insert_postings ps t q v =
    posting_state-for_ids insert_one (λ p. p.id) after_insert insert_one-IsValid
      (λ p t q w. posting_state-insert_one t w p q) after_insert_twice ps t q v
