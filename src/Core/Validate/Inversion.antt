-- ===== src/Core/Validate/Inversion.antt =====
-- `validate_and_plan`, check by check.
use kuatia.Prelude.{
  ◌≡◌, false, ◌&&◌, List, [], sym, ok-injective, ok, >>=-eq-ok, >>-eq-ok, for_each, is_empty,
  reject_if-eq-ok,
}
use kuatia.Prelude.Bytes.{Bytes}
use kuatia.Types.{Posting}
use kuatia.Core.Required.{PlanInput, Plan, posting_keys, empty_transfer}
use kuatia.Core.Validate.{
  check_duplicates, index_postings, check_exists, check_account, check_snapshot, consumed_of,
  check_conservation, check_negative, check_overdraft, check_book, build_plan, validate_and_plan,
}

pub record Passed (sha256 : Bytes → Bytes) (input : PlanInput) (plan : Plan) : Type 0 where
  pub consumed : List Posting
  pub nonempty : (is_empty input.envelope.consumes && is_empty input.envelope.creates) ≡ false
  pub distinct : check_duplicates [] input.envelope.consumes ≡ ok tt
  pub exist :
      check_exists (index_postings [] input.consumed_postings) input.envelope.consumes ≡ ok tt
  pub accounts :
      for_each
        (posting_keys input.envelope input.consumed_postings).owners
        (check_account input.accounts)
      ≡ ok tt
  pub snapshots :
      for_each input.envelope.account_snapshots (check_snapshot sha256 input.accounts) ≡ ok tt
  pub found :
      consumed_of (index_postings [] input.consumed_postings) input.envelope.consumes ≡ ok consumed
  pub booked :
      check_book sha256 input consumed (posting_keys input.envelope input.consumed_postings).owners
      ≡ ok tt
  pub conserved : check_conservation consumed input.envelope.creates ≡ ok tt
  pub negatives : for_each input.envelope.creates (check_negative input.accounts) ≡ ok tt
  pub floors : check_overdraft input.accounts input.balances consumed input.envelope.creates ≡ ok tt
  pub planned : plan ≡ build_plan sha256 input.envelope

pub validate-Passed :
    (sha256 : Bytes → Bytes) (input : PlanInput) {plan : Plan}
    → validate_and_plan sha256 input ≡ ok plan
    → Passed sha256 input plan
unfolding validate_and_plan
validate-Passed sha256 input h =
    let e = input.envelope in
    let by_id = index_postings [] input.consumed_postings in
    let owners = (posting_keys e input.consumed_postings).owners in
    let (h1, r1) = >>-eq-ok _ _ h in
    let (h2, r2) = >>-eq-ok _ _ r1 in
    let (h3, r3) = >>-eq-ok _ _ r2 in
    let (h4, r4) = >>-eq-ok _ _ r3 in
    let (h5, r5) = >>-eq-ok _ _ r4 in
    let (consumed, h6, r6) = >>=-eq-ok _ _ r5 in
    let (h7, r7) = >>-eq-ok _ _ r6 in
    let (h8, r8) = >>-eq-ok _ _ r7 in
    let (h9, r9) = >>-eq-ok _ _ r8 in
    let (h10, r10) = >>-eq-ok _ _ r9 in
    record {
      consumed = consumed;
      nonempty = reject_if-eq-ok _ empty_transfer h1;
      distinct = h2;
      exist = h3;
      accounts = h4;
      snapshots = h5;
      found = h6;
      booked = h7;
      conserved = h8;
      negatives = h9;
      floors = h10;
      planned = sym (ok-injective r10);
    }
