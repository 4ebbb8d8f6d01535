-- ===== src/Ledger/Commit/Prepared.antt =====
-- What validation has established of a request by the time that the store gets it.
use kuatia.Prelude.{
  ◌≡◌, refl, sym, ◌∙◌, ap, subst, ◌≤◌, ◌^◌, true, none, some, [], map, arith, ℤ, sum, length, ok,
  map_err, >>=-eq-ok, map_err-eq-ok, ok-injective, All, Option-cases, inl, inr, nat_eq, list_eq,
}
use kuatia.Prelude.Bytes.{Bytes}
use kuatia.Prelude.Map.{lookup, contains_key}
use kuatia.Prelude.Distinct.{IsDistinct}
use kuatia.Types.{AssetId, Envelope, posting_id_eq}
use kuatia.Types.Select.{postings_at, asset_value}
use kuatia.Core.Hash.{envelope_id}
use kuatia.Core.Required.{PlanInput, Plan, required_state}
use kuatia.Storage.Accounts.{get_accounts}
use kuatia.Core.Validate.{validate_and_plan, index_postings, number_postings, build_plan}
use kuatia.Core.Validate.Inversion.{validate-Passed}
use kuatia.Core.Validate.Access.{validate-IsDistinct}
use kuatia.Core.Validate.Conservation.{validate-conserves}
use kuatia.Storage.{InMemoryStore}
use kuatia.Storage.Tables.Valid.{IsValid}
use kuatia.Storage.Commit.{CommitRequest}
use kuatia.Storage.Commit.Effect.{IsFresh}
use kuatia.Ledger.Errors.{validation_error, store_error}
use kuatia.Ledger.Commit.{
  LoadedState, load_balances, load_book, load, load_consumed, plan_of, request_of, prepare,
  missing_balance,
}
use kuatia.Ledger.Commit.Loaded.{
  number_postings-IsFresh, IsRecorded, get_postings-All, index_postings-All, same_postings,
  load_consumed-eq, amount_of-sum,
}

-- A request that the ledger has prepared from a plan.
pub record Prepared (sha256 : Bytes → Bytes) (s : InMemoryStore) (e : Envelope)
    (req : CommitRequest) : Type 0 where
  pub input : PlanInput
  pub plan : Plan
  pub same_envelope : input.envelope ≡ e
  pub consumed_known : All (λ p. lookup p.id s.postings.immutable ≡ some p) input.consumed_postings
  pub planned : validate_and_plan sha256 input ≡ ok plan
  pub requested : req.transfer_id ≡ plan.transfer_id
  pub consumes : req.consume ≡ plan.postings_to_deactivate
  pub creates : req.create ≡ plan.postings_to_create

load-consumed :
    (s : InMemoryStore) (e : Envelope) {loaded : LoadedState}
    → IsValid s.postings
    → load s e ≡ ok loaded
    → All (λ p. lookup p.id s.postings.immutable ≡ some p) loaded.consumed_postings
unfolding load
load-consumed s e {loaded} v h =
    let (ps, h1, r1) = >>=-eq-ok (load_consumed s e) _ h in
    let (accounts, h2, r2) =
      >>=-eq-ok (map_err store_error (get_accounts s.accounts (required_state e ps).accounts)) _
        r1 in
    let (balances, h3, r3) = >>=-eq-ok (load_balances s (required_state e ps).balances []) _ r2 in
    let (book, h4, r4) = >>=-eq-ok (load_book s e.book) _ r3 in
    let same : ps ≡ loaded.consumed_postings = ap (λ x. x.consumed_postings) (ok-injective r4) in
    rw (← same) (get_postings-All s.postings e.consumes v (load_consumed-eq s e h1))

-- The input of validation.
abbrev plan_input : Envelope → LoadedState → PlanInput
plan_input e loaded = record {
  envelope = e;
  consumed_postings = loaded.consumed_postings;
  accounts = loaded.accounts;
  balances = loaded.balances;
  book = loaded.book;
}

plan_of-validated :
    (sha256 : Bytes → Bytes) (e : Envelope) (loaded : LoadedState) {plan : Plan}
    → plan_of sha256 e loaded ≡ ok plan
    → validate_and_plan sha256 (plan_input e loaded) ≡ ok plan
unfolding plan_of
plan_of-validated sha256 e loaded h =
    elim (Option-cases
      (missing_balance (required_state e loaded.consumed_postings).balances loaded.balances)) [
        | inl complete ↦ map_err-eq-ok validation_error _ (rw (plan_of, complete) at h)
        | inr (key, gap) ↦ absurd (ground arith)
      ]

pub prepare-Prepared :
    (sha256 : Bytes → Bytes) (s : InMemoryStore) (e : Envelope) (now : ℤ) {req : CommitRequest}
    → IsValid s.postings
    → prepare sha256 s e now ≡ ok req
    → Prepared sha256 s e req
unfolding prepare request_of
prepare-Prepared sha256 s e now {req} v h =
    let (loaded, h1, r1) = >>=-eq-ok (load s e) _ h in
    let (plan', h2, r2) = >>=-eq-ok (plan_of sha256 e loaded) _ r1 in
    let same : request_of now e loaded plan' ≡ req = ok-injective r2 in
    record {
      input = plan_input e loaded;
      plan = plan';
      same_envelope = refl;
      consumed_known = load-consumed s e v h1;
      planned = plan_of-validated sha256 e loaded h2;
      requested = sym (ap (λ x. x.transfer_id) same);
      consumes = sym (ap (λ x. x.consume) same);
      creates = sym (ap (λ x. x.create) same);
    }

-- The numbered postings of a plan.
pub plan-creates :
    (sha256 : Bytes → Bytes) (input : PlanInput) {plan : Plan}
    → validate_and_plan sha256 input ≡ ok plan
    → (plan.transfer_id ≡ envelope_id sha256 input.envelope)
      × (plan.postings_to_create
          ≡ number_postings (envelope_id sha256 input.envelope) 0 input.envelope.creates)
unfolding build_plan
plan-creates sha256 input h =
    let p = validate-Passed sha256 input h in
    (ap (λ x. x.transfer_id) (p.planned), ap (λ x. x.postings_to_create) (p.planned))

module _ (sha256 : Bytes → Bytes) (s : InMemoryStore) (e : Envelope) (req : CommitRequest)
    (v : IsValid s.postings) (recorded : IsRecorded s) (p : Prepared sha256 s e req) where
  pub fresh :
      lookup (envelope_id sha256 e) s.transfers ≡ none
      → length e.creates ≤ 2 ^ 16
      → IsFresh s.postings req.create
  fresh absent bound =
      let numbered = (plan-creates sha256 p.input p.planned).1 in
      let eqs : req.create ≡ number_postings (envelope_id sha256 e) 0 e.creates =
        p.creates
        ∙ numbered
        ∙ ap (λ x. number_postings (envelope_id sha256 x) 0 x.creates) p.same_envelope in
      subst (IsFresh s.postings) (sym eqs)
        (number_postings-IsFresh s (envelope_id sha256 e) e.creates recorded absent bound)

  -- In every asset, a prepared request consumes what it creates.
  pub request-conserves :
      (a : AssetId)
      → All (λ id. contains_key id s.postings.active ≡ true) req.consume
      → sum (map (asset_value a) (postings_at s.postings.active req.consume))
        ≡ sum (map (asset_value a) req.create)
  request-conserves a were_active =
      let (planned, distinct, supplied) = validate-IsDistinct sha256 p.input p.planned in
      let by_id = index_postings [] p.input.consumed_postings in
      let entries =
        index_postings-All s.postings p.input.consumed_postings [] p.consumed_known tt in
      let conserved = validate-conserves sha256 p.input a p.planned in
      let active_plan : All (λ id. contains_key id s.postings.active ≡ true)
          p.plan.postings_to_deactivate =
        subst (All (λ id. contains_key id s.postings.active ≡ true)) p.consumes were_active in
      let same =
        same_postings s.postings by_id p.plan.postings_to_deactivate v entries supplied
          active_plan in
      rw
        (
          p.consumes,
          p.creates,
          ← same,
          ← amount_of-sum a p.plan.postings_to_create,
          ← amount_of-sum a (postings_at by_id p.plan.postings_to_deactivate),
        )
        conserved

  pub consumes-IsDistinct : IsDistinct req.consume
  consumes-IsDistinct =
      subst IsDistinct (sym p.consumes) (validate-IsDistinct sha256 p.input p.planned).1
