-- ===== src/Ledger/Commit/Conserves.antt =====
-- crates/kuatia/src/ledger/commit.rs: a commit of the ledger, the invariants of the store and the
-- live values.
use kuatia.Prelude.{
  ℕ, ◌≡◌, ◌⊎◌, refl, sym, ◌∙◌, ap, subst, ◌≤◌, ◌^◌, true, none, List, [], ◌∷◌, map, arith, ℤ, ◌+ℤ◌,
  ◌-ℤ◌, int_laws, length, ==_self, is_empty, Outcome, ok, err, panic, >>=-eq-ok, ok-injective, All,
  All-imp, Bool-cases, Option-cases, inl, inr, nat_eq, list_eq,
}
use kuatia.Prelude.Bytes.{Bytes}
use kuatia.Prelude.Map.{lookup, insert, contains_key, lookup-insert, All-insert_entry}
use kuatia.Prelude.Sort.{sort, dedup}
use kuatia.Types.{
  AssetId, PostingId, EnvelopeId, Envelope, Posting, posting_id_eq, le_account, account_id_eq,
  set_account_snapshots,
}
use kuatia.Core.Hash.{envelope_id}
use kuatia.Storage.{PostingTables, InMemoryStore}
use kuatia.Storage.Tables.Valid.{IsValid}
use kuatia.Storage.Commit.{
  CommitRequest, CommitOutcome, committed, create_one, create_all, apply_commit, guards,
}
use kuatia.Storage.Commit as Store
use kuatia.Storage.Commit.Guards.{commit_envelope-cases, guards-All}
use kuatia.Storage.Commit.Effect.{IsFresh, commit_envelope-IsValid}
use kuatia.Storage.Commit.Value.{live_value, commit_envelope-value}
use kuatia.Ledger.Errors.{LedgerError}
use kuatia.Ledger.Commit.{
  prepare, pin_snapshots, apply_request, commit_pinned, commit_envelope, resolve_snapshots,
}
use kuatia.Ledger.Commit.Loaded.{number_postings-transfer, IsRecorded}
use kuatia.Ledger.Commit.Prepared.{
  Prepared, prepare-Prepared, plan-creates, fresh, request-conserves, consumes-IsDistinct,
}

-- The store after a commit: it is as it was, or a prepared request for a transfer that it did not have
-- went through its own commit.
abbrev Result : (Bytes → Bytes) → Envelope → InMemoryStore → InMemoryStore → Type 0
Result sha256 envelope s s' =
    (s' ≡ s)
    ⊎ ((e : Envelope) × (req : CommitRequest) × (seq : ℕ) × (e.creates ≡ envelope.creates)
        × (lookup (envelope_id sha256 e) s.transfers ≡ none)
        × Prepared sha256 s e req
        × (s' ≡ (Store.commit_envelope seq req s).1))

module _ (sha256 : Bytes → Bytes) (seq : ℕ) (now : ℤ) (envelope : Envelope) (s : InMemoryStore)
    (v : IsValid s.postings) where
  applied :
      (e : Envelope)
      → e.creates ≡ envelope.creates
      → lookup (envelope_id sha256 e) s.transfers ≡ none
      → (o : Outcome LedgerError CommitRequest) → prepare sha256 s e now ≡ o
      → Result sha256 envelope s (apply_request sha256 seq s o).1
  applied e same absent (err x) h = inl refl
  applied e same absent panic h = inl refl
  applied e same absent (ok req) h =
      inr (e, req, seq, same, absent, prepare-Prepared sha256 s e now v h, refl)

  pinned :
      (o : Outcome LedgerError Envelope)
      → ((e : Envelope) → o ≡ ok e → e.creates ≡ envelope.creates)
      → Result sha256 envelope s (commit_pinned sha256 seq now s o).1
  pinned (err x) h = inl refl
  pinned panic h = inl refl
  pinned (ok e) h = elim (Option-cases (lookup (envelope_id sha256 e) s.transfers)) [
    | inr (old, found) ↦ rw (commit_pinned, found) (inl refl)
    | inl absent ↦
        rw (commit_pinned, absent) (applied e (h e refl) absent (prepare sha256 s e now) refl)
  ]

pin_snapshots-creates :
    (sha256 : Bytes → Bytes) (s : InMemoryStore) (envelope e : Envelope)
    → pin_snapshots sha256 s envelope ≡ ok e
    → e.creates ≡ envelope.creates
pin_snapshots-creates sha256 s envelope e h =
    elim (Bool-cases (is_empty envelope.account_snapshots)) [
      | inl none_pinned ↦
          let (snaps, h1, r1) =
            >>=-eq-ok
              (resolve_snapshots sha256 s
                (dedup (sort le_account (map (λ p. p.owner) envelope.creates))))
              _ (rw none_pinned at h) in
          let same : set_account_snapshots snaps envelope ≡ e = ok-injective r1 in rw (← same) refl
      | inr has ↦ let same : envelope ≡ e = ok-injective (rw has at h) in rw (← same) refl
    ]

module _ (P : PostingId × Posting → Type 0) where
  create_one-immutable :
      (p : Posting) (t : PostingTables)
      → P (p.id, p)
      → All P t.immutable
      → All P (create_one p t).immutable
  unfolding create_one
  create_one-immutable p t h k = elim (Bool-cases (contains_key p.id t.immutable)) [
    | inl old ↦ rw old k
    | inr new ↦ rw new (All-insert_entry P p.id p t.immutable h k)
  ]

  create_all-immutable :
      (ps : List Posting) (t : PostingTables)
      → All (λ p. P (p.id, p)) ps
      → All P t.immutable
      → All P (create_all ps t).immutable
  unfolding create_all
  create_all-immutable [] t h k = k
  create_all-immutable (p ∷ ps) t h k =
      create_all-immutable ps (create_one p t) h.1 (create_one-immutable p t h.0 k)

-- A commit of the store keeps every posting recorded, where what it creates carries its transfer's id.
store-IsRecorded :
    (seq : ℕ) (req : CommitRequest) (s : InMemoryStore)
    → IsRecorded s
    → All (λ p. p.id.transfer ≡ req.transfer_id) req.create
    → IsRecorded (Store.commit_envelope seq req s).1
unfolding apply_commit
store-IsRecorded seq req s r h = elim (commit_envelope-cases seq req s) [
  | inl (same, other) ↦ rw same r
  | inr (new, passed, result) ↦ rw result (
      create_all-immutable
        (λ x.
          contains_key x.0.transfer (insert req.transfer_id req.envelope_record s.transfers) ≡ true)
        req.create _ (All-imp _ (λ p k. rw k (recorded req.transfer_id)) h)
        (All-imp _ (λ x k. later x.0.transfer k) r))
]
  where
    recorded : (t : EnvelopeId) → contains_key t (insert t req.envelope_record s.transfers) ≡ true
    recorded t = rw (lookup-insert t t req.envelope_record s.transfers, ==_self t)

    later :
        (t : EnvelopeId)
        → contains_key t s.transfers ≡ true
        → contains_key t (insert req.transfer_id req.envelope_record s.transfers) ≡ true
    later t k = ground (arith, lookup-insert req.transfer_id t req.envelope_record s.transfers)

-- The invariant of the whole store.
abbrev pub IsSound : InMemoryStore → Type 0
IsSound s = IsValid s.postings × IsRecorded s

store-conserves :
    (sha256 : Bytes → Bytes) (seq : ℕ) (e : Envelope) (req : CommitRequest) (s : InMemoryStore)
    (a : AssetId)
    → IsSound s
    → Prepared sha256 s e req
    → IsFresh s.postings req.create
    → live_value a (Store.commit_envelope seq req s).1.postings ≡ live_value a s.postings
store-conserves sha256 seq e req s a (v, r) p f = elim (commit_envelope-cases seq req s) [
  | inl (same, other) ↦ rw same
  | inr (new, passed, result) ↦
      let (opened, were_active, floors) = guards-All s req passed in
      let distinct = consumes-IsDistinct sha256 s e req v r p in
      let balanced = request-conserves sha256 s e req v r p a were_active in
      cancel _ _ _ _ balanced
        (commit_envelope-value seq req s a v distinct f (ap (λ x. x.0) result))
]
  where
    undo : (x n : ℤ) → x ≡ x +ℤ n -ℤ n
    undo x n = omega int_laws

    cancel : (x y m n : ℤ) → m ≡ n → x +ℤ m ≡ y +ℤ n → x ≡ y
    cancel x y m n h k = undo x n ∙ ap (λ z. z -ℤ n) (ap (λ z. x +ℤ z) (sym h) ∙ k) ∙ sym (undo y n)

-- A commit of an envelope that creates at most 65,536 postings, whatever it answers, keeps the store sound
-- (the posting tables agree with each other, and every posting belongs to a transfer that the store has),
-- and the live value of every asset is the same before and after it.
pub commit_envelope-conserves :
    (sha256 : Bytes → Bytes) (seq : ℕ) (now : ℤ) (envelope : Envelope) (s : InMemoryStore)
    (a : AssetId)
    → IsSound s
    → length envelope.creates ≤ 2 ^ 16
    → IsSound (commit_envelope sha256 seq now envelope s).1
      × (live_value a (commit_envelope sha256 seq now envelope s).1.postings
          ≡ live_value a s.postings)
unfolding commit_envelope
commit_envelope-conserves sha256 seq now envelope s a (v, r) bound =
    elim (pinned sha256 seq now envelope s v (pin_snapshots sha256 s envelope)
      (pin_snapshots-creates sha256 s envelope)) [
        | inl same ↦ rw same ((v, r), refl)
        | inr (e, req, n, creates, absent, p, result) ↦
            let f : IsFresh s.postings req.create =
              fresh sha256 s e req v r p absent
                (subst (λ l. length l ≤ 2 ^ 16) (sym creates) bound) in
            let (tid, made) = plan-creates sha256 p.input p.planned in
            let transfers : All (λ q. q.id.transfer ≡ req.transfer_id) req.create =
              rw (p.requested, p.creates, tid, made)
                (number_postings-transfer (envelope_id sha256 p.input.envelope) 0
                  p.input.envelope.creates) in
            rw result (
              (commit_envelope-IsValid n req s v f, store-IsRecorded n req s r transfers),
              store-conserves sha256 n e req s a (v, r) p f,
            )
      ]
