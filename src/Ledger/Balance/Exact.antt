-- ===== src/Ledger/Balance/Exact.antt =====
-- crates/kuatia/src/ledger/balance.rs: the delta of a list of transfers.
use kuatia.Prelude.{
  ◌+◌, ◌≡◌, refl, inl, inr, arith, ◌∙◌, ◌&&◌, List, [], ◌∷◌, ◌++◌, map, filter, length,
  length-append, ◌==◌, nat_eq, pos, ◌+ℤ◌, ◌-ℤ◌, int_laws, sum, sum-append, Bool-cases, ok, map_err,
  map_err-eq-ok, ok-injective, ap, sym, >>=-eq-ok,
}
use kuatia.Money.{Cent, checked_add, checked_sub, cent_zero}
use kuatia.Money.Sums.{checked_add-eq, checked_sub-eq}
use kuatia.Types.{AccountId, AssetId, NewPosting, Posting, PostingId, account_id_eq, posting_id_eq}
use kuatia.Storage.{EnvelopeRecord, InMemoryStore}
use kuatia.Storage.Tables.{get_postings}
use kuatia.Ledger.Errors.{store_error, from_overflow}
use kuatia.Ledger.Balance.{
  Delta, add_created, add_records, sub_consumed, unseen, all_consumes, take_off, fold_account_delta,
}
use kuatia.Ledger.Balance.Consumed.{IsConsumedOnce, unseen-IsConsumedOnce}

abbrev pub all_creates : List EnvelopeRecord → List NewPosting
all_creates [] = []
all_creates (r ∷ rs) = r.envelope.creates ++ all_creates rs

add_zero : (v : Cent) → v ≡ v +ℤ pos 0
add_zero v = omega int_laws

sub_zero : (v : Cent) → v ≡ v -ℤ pos 0
sub_zero v = omega int_laws

module _ (account : AccountId) (asset : AssetId) where
  abbrev pub new_own : List NewPosting → List Cent
  new_own nps = map (λ p. p.value) (filter (λ p. (p.owner == account) && (p.asset == asset)) nps)

  abbrev pub own : List Posting → List Cent
  own ps = map (λ p. p.value) (filter (λ p. (p.owner == account) && (p.asset == asset)) ps)

  new_own-append : (xs ys : List NewPosting) → new_own (xs ++ ys) ≡ new_own xs ++ new_own ys
  new_own-append [] ys = refl
  new_own-append (x ∷ xs) ys = elim (Bool-cases ((x.owner == account) && (x.asset == asset))) [
    | inl mine ↦ rw mine (ap (λ l. x.value ∷ l) (new_own-append xs ys))
    | inr other ↦ rw other (new_own-append xs ys)
  ]

  add_created-eq :
      (nps : List NewPosting) (d : Delta) {d' : Delta}
      → add_created account asset nps d ≡ ok d'
      → (d'.0 ≡ d.0 +ℤ sum (new_own nps)) × (d'.1 ≡ d.1 + length (new_own nps))
  unfolding add_created sum
  add_created-eq [] (v, n) {d'} h =
      let same : ◌≡◌ {A = Delta} (v, n) d' = ok-injective h in
      (sym (ap (λ d. d.0) same) ∙ add_zero v, sym (ap (λ d. d.1) same) ∙ omega arith)
  add_created-eq (np ∷ nps) (v, n) {d'} h =
      elim (Bool-cases ((np.owner == account) && (np.asset == asset))) [
        | inl mine ↦
            let (w, added, rest) =
              >>=-eq-ok (checked_add v np.value) _ (rw (add_created, mine) at h) in
            let (value, count) = add_created-eq nps (w, n + 1) rest in
            let first = checked_add-eq v np.value added in
            rw mine (value ∙ rw first (omega int_laws), count ∙ omega arith)
        | inr other ↦ rw other (add_created-eq nps (v, n) (rw (add_created, other) at h))
      ]

  add_records-eq :
      (rs : List EnvelopeRecord) (d : Delta) {d' : Delta}
      → add_records account asset rs d ≡ ok d'
      → (d'.0 ≡ d.0 +ℤ sum (new_own (all_creates rs)))
        × (d'.1 ≡ d.1 + length (new_own (all_creates rs)))
  unfolding add_records sum
  add_records-eq [] d {d'} h =
      let same : ◌≡◌ {A = Delta} d d' = ok-injective h in
      (sym (ap (λ x. x.0) same) ∙ add_zero d.0, sym (ap (λ x. x.1) same) ∙ omega arith)
  add_records-eq (r ∷ rs) d h =
      let (mid, here, rest) = >>=-eq-ok (add_created account asset r.envelope.creates d) _ h in
      let (value, count) = add_created-eq r.envelope.creates d here in
      let (value', count') = add_records-eq rs mid rest in
      let first = new_own r.envelope.creates in
      let later = new_own (all_creates rs) in
      rw (new_own-append r.envelope.creates (all_creates rs)) (
        value' ∙ rw (value, sum-append first later) (omega int_laws),
        count' ∙ rw (count, length-append first later) (omega arith),
      )

  sub_consumed-eq :
      (ps : List Posting) (d : Delta) {d' : Delta}
      → sub_consumed account asset ps d ≡ ok d'
      → (d'.0 ≡ d.0 -ℤ sum (own ps)) × (d'.1 ≡ d.1 + length (own ps))
  unfolding sub_consumed sum
  sub_consumed-eq [] (v, n) {d'} h =
      let same : ◌≡◌ {A = Delta} (v, n) d' = ok-injective h in
      (sym (ap (λ d. d.0) same) ∙ sub_zero v, sym (ap (λ d. d.1) same) ∙ omega arith)
  sub_consumed-eq (p ∷ ps) (v, n) {d'} h =
      elim (Bool-cases ((p.owner == account) && (p.asset == asset))) [
        | inl mine ↦
            let (w, taken, rest) =
              >>=-eq-ok (checked_sub v p.value) _ (rw (sub_consumed, mine) at h) in
            let (value, count) = sub_consumed-eq ps (w, n + 1) rest in
            let first = checked_sub-eq v p.value taken in
            rw mine (value ∙ rw first (omega int_laws), count ∙ omega arith)
        | inr other ↦ rw other (sub_consumed-eq ps (v, n) (rw (sub_consumed, other) at h))
      ]

take_off-eq :
    (s : InMemoryStore) (account : AccountId) (asset : AssetId) (ids : List PostingId) (c : Delta)
    {d : Delta}
    → take_off s account asset ids c ≡ ok d
    → (ps : List Posting) × (get_postings s.postings ids ≡ ok ps)
      × (d.0 ≡ c.0 -ℤ sum (own account asset ps))
      × (d.1 ≡ c.1 + length (own account asset ps))
unfolding take_off get_postings sum
take_off-eq s account asset [] c {d} h =
    let same : ◌≡◌ {A = Delta} c d = ok-injective h in
    ([], refl, sym (ap (λ x. x.0) same) ∙ sub_zero c.0, sym (ap (λ x. x.1) same) ∙ omega arith)
take_off-eq s account asset (id ∷ ids) c h =
    let (ps, found, rest) =
      >>=-eq-ok (map_err store_error (get_postings s.postings (id ∷ ids))) _ h in
    let (value, count) = sub_consumed-eq account asset ps c (map_err-eq-ok from_overflow _ rest) in
    (ps, map_err-eq-ok store_error _ found, value, count)

-- What a list of transfers adds to a balance: the values of the postings of the account and asset that they
-- create, less those that they consume; and the number of these postings. The consumed ones are looked up,
-- in the record of all postings, by a list of ids that has each id that a transfer of the list consumes, no
-- other, and each once, also where several of the transfers consume it.
pub fold_account_delta-IsExact :
    (s : InMemoryStore) (account : AccountId) (asset : AssetId) (rs : List EnvelopeRecord)
    (d : Delta)
    → fold_account_delta s account asset rs ≡ ok d
    → (ids : List PostingId) × (ps : List Posting) × IsConsumedOnce rs ids
      × (get_postings s.postings ids ≡ ok ps)
      × (d.0 ≡ sum (new_own account asset (all_creates rs)) -ℤ sum (own account asset ps))
      × (d.1 ≡ length (new_own account asset (all_creates rs)) + length (own account asset ps))
unfolding fold_account_delta sum
fold_account_delta-IsExact s account asset rs d h =
    let (created, all_added, rest) =
      >>=-eq-ok (map_err from_overflow (add_records account asset rs (cent_zero, 0))) _ h in
    let (value, count) =
      add_records-eq account asset rs (cent_zero, 0) (map_err-eq-ok from_overflow _ all_added) in
    let ids = unseen [] (all_consumes rs) in
    let (ps, found, taken, less) = take_off-eq s account asset ids created rest in
    (
      ids,
      ps,
      unseen-IsConsumedOnce rs,
      found,
      taken ∙ rw value (omega int_laws),
      less ∙ rw count (omega arith),
    )
