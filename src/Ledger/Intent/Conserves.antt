-- ===== src/Ledger/Intent/Conserves.antt =====
-- crates/kuatia/src/ledger/commit.rs: commits of transfers, reversals, the invariants of the store
-- and the live values.
use kuatia.Prelude.{
  ℕ, ◌*◌, ◌^◌, ◌≤◌, ◌≡◌, refl, sym, ap, arith, some, List, [], ◌∷◌, map, length, ℤ, Outcome, ok,
  err, panic, map_err, map_err-eq-ok, ok_or, >>=-eq-ok, ok-injective, Option-cases, inl, inr,
  nat_eq, list_eq,
}
use kuatia.Prelude.Bytes.{Bytes}
use kuatia.Prelude.Map.{lookup}
use kuatia.Types.{
  AssetId, Envelope, EnvelopeId, Posting, PostingId, Transfer, referenced_accounts,
  set_account_snapshots, posting_id_eq,
}
use kuatia.Core.Resolve.{draft_movements, resolve_envelope}
use kuatia.Core.Resolve.Size.{resolve_envelope-size}
use kuatia.Storage.{EnvelopeRecord, InMemoryStore, PostingTables, not_found}
use kuatia.Storage.Tables.{get_postings}
use kuatia.Storage.Commit.Value.{live_value}
use kuatia.Ledger.Errors.{LedgerError, store_error, from_overflow, from_resolve}
use kuatia.Ledger.Commit.{load_consumed, resolve_snapshots, commit_envelope}
use kuatia.Ledger.Commit.Conserves.{IsSound, commit_envelope-conserves}
use kuatia.Ledger.Intent.{
  load_debits, resolve, commit_resolved, commit, reverse_envelope, reverse, give_back, created_ids,
}

-- What a call keeps.
abbrev pub Conserves : InMemoryStore → InMemoryStore → Type 0
Conserves s s' = IsSound s' × ((a : AssetId) → live_value a s'.postings ≡ live_value a s.postings)

module _ (sha256 : Bytes → Bytes) (seq : ℕ) (now : ℤ) (s : InMemoryStore) (sound : IsSound s) where
  commit_resolved-Conserves :
      (o : Outcome LedgerError Envelope)
      → ((e : Envelope) → o ≡ ok e → length e.creates ≤ 2 ^ 16)
      → Conserves s (commit_resolved sha256 seq now s o).1
  commit_resolved-Conserves (err x) h = (sound, λ a. refl)
  commit_resolved-Conserves panic h = (sound, λ a. refl)
  commit_resolved-Conserves (ok e) h =
      let each : (a : AssetId)
          → IsSound (commit_envelope sha256 seq now e s).1
            × (live_value a (commit_envelope sha256 seq now e s).1.postings
                ≡ live_value a s.postings) =
        λ a. commit_envelope-conserves sha256 seq now e s a sound (h e refl) in
      ((each 0).0, λ a. (each a).1)

  resolve-size :
      (t : Transfer) (e : Envelope)
      → resolve sha256 s t ≡ ok e
      → length e.creates ≤ 2 * length t.movements
  unfolding resolve
  resolve-size t e h =
      let (draft, h1, r1) = >>=-eq-ok (map_err from_overflow (draft_movements t)) _ h in
      let (l, h2, r2) =
        >>=-eq-ok (load_debits s draft.debits (record { available = []; accounts = [] })) _ r1 in
      let (e0, h3, r3) =
        >>=-eq-ok (map_err from_resolve (resolve_envelope t draft l.available l.accounts)) _ r2 in
      let (snaps, h4, r4) = >>=-eq-ok (resolve_snapshots sha256 s (referenced_accounts e0)) _ r3 in
      let whole : set_account_snapshots snaps e0 ≡ e = ok-injective r4 in
      rw (← whole) (
        resolve_envelope-size t draft l.available l.accounts e0
          (map_err-eq-ok from_overflow (draft_movements t) h1)
          (map_err-eq-ok from_resolve (resolve_envelope t draft l.available l.accounts) h3))

  pub commit-Conserves :
      (t : Transfer) → length t.movements ≤ 2 ^ 15 → Conserves s (commit sha256 seq now t s).1
  unfolding commit
  commit-Conserves t h =
      commit_resolved-Conserves (resolve sha256 s t) (λ e k. omega (arith, resolve-size t e k))

length-get_postings :
    (t : PostingTables) (ids : List PostingId) (ps : List Posting)
    → get_postings t ids ≡ ok ps
    → length ps ≡ length ids
unfolding get_postings
length-get_postings t [] ps h = let s : [] ≡ ps = ok-injective h in rw (← s) refl
length-get_postings t (id ∷ ids) ps h =
    let (p, h1, r1) = >>=-eq-ok (ok_or (lookup id t.immutable) not_found) _ h in
    let (rest, h2, r2) = >>=-eq-ok (get_postings t ids) _ r1 in
    let whole : p ∷ rest ≡ ps = ok-injective r2 in
    rw (← whole) (omega (arith, length-get_postings t ids rest h2))

length-give_back : (ps : List Posting) → length (map give_back ps) ≡ length ps
length-give_back [] = refl
length-give_back (p ∷ ps) = omega (arith, length-give_back ps)

pub load_consumed-get_postings :
    (s : InMemoryStore) (ids : List PostingId) (e : Envelope) (ps : List Posting)
    → e.consumes ≡ ids
    → load_consumed s e ≡ ok ps
    → get_postings s.postings e.consumes ≡ ok ps
unfolding get_postings
load_consumed-get_postings s [] e ps same h =
    let none_left : [] ≡ ps = ok-injective (rw same at h) in rw (same, ← none_left) refl
load_consumed-get_postings s (id ∷ ids) e ps same h =
    rw same (map_err-eq-ok store_error (get_postings s.postings (id ∷ ids)) (rw same at h))

-- What a reversal consumes and creates.
pub reverse_envelope_fields :
    (s : InMemoryStore) (r : EnvelopeRecord) (e : Envelope)
    → reverse_envelope s r ≡ ok e
    → (ps : List Posting) × (get_postings s.postings r.envelope.consumes ≡ ok ps)
      × (e.creates ≡ map give_back ps)
      × (e.consumes ≡ created_ids r.receipt.transfer_id 0 r.envelope.creates)
unfolding reverse_envelope
reverse_envelope_fields s r e h =
    let (ps, h1, r1) = >>=-eq-ok (load_consumed s r.envelope) _ h in
    let whole : ◌≡◌ {A = Envelope}
        (record {
          consumes = created_ids r.receipt.transfer_id 0 r.envelope.creates;
          creates = map give_back ps;
          account_snapshots = [];
          book = r.envelope.book;
          metadata = r.envelope.metadata;
        })
        e =
      ok-injective r1 in
    (
      ps,
      load_consumed-get_postings s r.envelope.consumes r.envelope ps refl h1,
      ap (λ x. x.creates) (sym whole),
      ap (λ x. x.consumes) (sym whole),
    )

reverse_envelope-size :
    (s : InMemoryStore) (r : EnvelopeRecord) (e : Envelope)
    → reverse_envelope s r ≡ ok e
    → length e.creates ≡ length r.envelope.consumes
reverse_envelope-size s r e h =
    let (ps, found, creates, _) = reverse_envelope_fields s r e h in
    rw (creates, length-give_back ps, length-get_postings s.postings r.envelope.consumes ps found)

-- The transfer, if the store has it, consumed no more postings than an envelope can create.
abbrev pub IsReversible : EnvelopeId → InMemoryStore → Type 0
IsReversible id s =
    (r : EnvelopeRecord) → lookup id s.transfers ≡ some r → length r.envelope.consumes ≤ 2 ^ 16

pub reverse-Conserves :
    (sha256 : Bytes → Bytes) (seq : ℕ) (now : ℤ) (id : EnvelopeId) (s : InMemoryStore)
    → IsSound s
    → IsReversible id s
    → Conserves s (reverse sha256 seq now id s).1
unfolding reverse
reverse-Conserves sha256 seq now id s sound small = elim (Option-cases (lookup id s.transfers)) [
  | inl absent ↦ rw (reverse, absent) (sound, λ a. refl)
  | inr (r, found) ↦
      rw (reverse, found)
        (commit_resolved-Conserves sha256 seq now s sound (reverse_envelope s r)
          (λ e h. rw (reverse_envelope-size s r e h) (small r found)))
]
