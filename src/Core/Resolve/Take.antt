-- ===== src/Core/Resolve/Take.antt =====
-- The loop that takes postings until a debit is covered.
use kuatia.Prelude.{
  ◌≡◌, sym, ap, true, false, List, [], ◌∷◌, map, arith, ℤ, ◌+ℤ◌, ◌≤ℤ◌, leb_ℤ, int_laws, sum,
  if◌then◌else◌, ok, >>=-eq-ok, ok-injective, Bool-cases, inl, inr, ◌⊎◌,
}
use kuatia.Money.{Cent, checked_add}
use kuatia.Money.Sums.{checked_add-eq}
use kuatia.Types.{Posting, NewPosting, account_id_eq, balance_key_eq}
use kuatia.Core.Resolve.{take_postings}

abbrev pub values_of : List Posting → ℤ
values_of ps = sum (map (λ p. p.value) ps)

abbrev pub new_values_of : List NewPosting → ℤ
new_values_of ps = sum (map (λ p. p.value) ps)

-- How a round of the loop ends: with the debit covered, or with the rest of the loop.
unfoldable pub Ends : Cent → Cent → List Posting → List Posting → Cent → Type 0
Ends amount c ps taken end =
    (leb_ℤ amount c ≡ true) × (taken ≡ []) × (end ≡ c)
    ⊎ (leb_ℤ amount c ≡ false) × (take_postings amount c ps ≡ ok (taken, end))

pub record Round (amount acc : Cent) (p : Posting) (ps : List Posting) (r : List Posting × Cent)
    : Type 0 where
  pub c : Cent
  pub end : Cent
  pub taken : List Posting
  pub exact : c ≡ acc +ℤ p.value
  pub first : r.0 ≡ p ∷ taken
  pub second : r.1 ≡ end
  pub ends : Ends amount c ps taken end

pub take_postings-Round :
    (amount acc : Cent) (p : Posting) (ps : List Posting) (r : List Posting × Cent)
    → take_postings amount acc (p ∷ ps) ≡ ok r
    → Round amount acc p ps r
unfolding take_postings Ends
take_postings-Round amount acc p ps r h =
    let (c', added, r1) = >>=-eq-ok (checked_add acc p.value) _ h in
    let ((taken', end'), more, r2) =
      >>=-eq-ok (if leb_ℤ amount c' then ok ([], c') else take_postings amount c' ps) _ r1 in
    let whole : ◌≡◌ {A = List Posting × Cent} (p ∷ taken', end') r = ok-injective r2 in
    record {
      c = c';
      end = end';
      taken = taken';
      exact = checked_add-eq acc p.value added;
      first = sym (ap (λ x. x.0) whole);
      second = sym (ap (λ x. x.1) whole);
      ends = elim (Bool-cases (leb_ℤ amount c')) [
        | inl enough ↦
            let stopped : ◌≡◌ {A = List Posting × Cent} ([], c') (taken', end') =
              ok-injective (rw enough at more) in
            inl (enough, sym (ap (λ x. x.0) stopped), sym (ap (λ x. x.1) stopped))
        | inr short ↦ inr (short, rw short at more)
      ];
    }

pub take_postings-sum :
    (amount acc : Cent) (ps : List Posting) (r : List Posting × Cent)
    → take_postings amount acc ps ≡ ok r
    → r.1 ≡ acc +ℤ values_of r.0
unfolding take_postings sum Ends
take_postings-sum amount acc [] r h =
    let e : ◌≡◌ {A = List Posting × Cent} ([], acc) r = ok-injective h in
    rw (← ap (λ x. x.0) e, ← ap (λ x. x.1) e) (omega int_laws)
take_postings-sum amount acc (p ∷ ps) r h =
    let round = take_postings-Round amount acc p ps r h in
    rw (round.first, round.second)
      (elim (round.ends) [
        | inl (enough, none_more, stop) ↦ rw (none_more, stop, round.exact) (omega int_laws)
        | inr (short, more) ↦
            rw (take_postings-sum amount round.c ps (round.taken, round.end) more, round.exact)
              (omega int_laws)
      ])

pub le_of : (a b : ℤ) → leb_ℤ a b ≡ true → a ≤ℤ b
le_of a b k = ground arith

pub take_postings-enough :
    (amount acc : Cent) (ps : List Posting) (r : List Posting × Cent)
    → amount ≤ℤ acc +ℤ values_of ps
    → take_postings amount acc ps ≡ ok r
    → amount ≤ℤ r.1
unfolding take_postings sum Ends
take_postings-enough amount acc [] r e h =
    let s : ◌≡◌ {A = List Posting × Cent} ([], acc) r = ok-injective h in
    rw (← ap (λ x. x.1) s) (omega int_laws)
take_postings-enough amount acc (p ∷ ps) r e h =
    let round = take_postings-Round amount acc p ps r h in
    rw (round.second) (elim (round.ends) [
      | inl (enough, none_more, stop) ↦ rw stop (le_of amount round.c enough)
      | inr (short, more) ↦
          take_postings-enough amount round.c ps (round.taken, round.end)
            (rw (round.exact) (omega int_laws)) more
    ])
