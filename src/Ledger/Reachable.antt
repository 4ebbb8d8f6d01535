-- ===== src/Ledger/Reachable.antt =====
-- Every store that the ledger can reach from an empty one, by calls that run one after the other.
use kuatia.Prelude.{
  ℕ, ◌≡◌, refl, ◌∙◌, ◌≤◌, ◌^◌, [], ℤ, pos, int_laws, length, Outcome, ok, err, panic, Bool-cases,
  Option-cases, inl, inr, eqb,
}
use kuatia.Prelude.Bytes.{Bytes}
use kuatia.Prelude.Map.{total}
use kuatia.Types.{
  AccountId, AccountFlags, Account, AssetId, Book, Envelope, EnvelopeId, Transfer, is_closed,
  with_flag, without_flag, frozen, closed,
}
use kuatia.Storage.{
  StoreError, InMemoryStore, LedgerEventKind, account_frozen, account_unfrozen, account_closed,
}
use kuatia.Storage.Accounts.{get_account, next_version}
use kuatia.Storage.Accounts as Store
use kuatia.Storage.Commit.Value.{live_value}
use kuatia.Ledger.Commit.{commit_envelope}
use kuatia.Ledger.Commit.Conserves.{IsSound, commit_envelope-conserves}
use kuatia.Ledger.Intent.{commit, reverse}
use kuatia.Ledger.Intent.Conserves.{IsReversible, commit-Conserves, reverse-Conserves}
use kuatia.Ledger.Lifecycle.{
  transition, transition_from, create_account, freeze, unfreeze, close, has_live_postings,
}
use kuatia.Ledger.Queries.{create_book}

-- `InMemoryStore::new`
abbrev pub empty_store : InMemoryStore
empty_store = record {
  postings = record { immutable = []; active = []; reserved = [] };
  accounts = [];
  transfers = [];
  transfer_accounts = [];
  events = [];
  books = [];
}

-- One call of the ledger.
pub data Step (sha256 : Bytes → Bytes) (s : InMemoryStore) : InMemoryStore → Type 0 where
  commits :
      (seq : ℕ) (now : ℤ) (e : Envelope)
      → length e.creates ≤ 2 ^ 16
      → Step sha256 s (commit_envelope sha256 seq now e s).1
  intends :
      (seq : ℕ) (now : ℤ) (t : Transfer)
      → length t.movements ≤ 2 ^ 15
      → Step sha256 s (commit sha256 seq now t s).1
  reverses :
      (seq : ℕ) (now : ℤ) (id : EnvelopeId)
      → IsReversible id s
      → Step sha256 s (reverse sha256 seq now id s).1
  opens : (seq : ℕ) (now : ℤ) (a : Account) → Step sha256 s (create_account seq now a s).1
  freezes : (seq : ℕ) (now : ℤ) (id : AccountId) → Step sha256 s (freeze seq now id s).1
  unfreezes : (seq : ℕ) (now : ℤ) (id : AccountId) → Step sha256 s (unfreeze seq now id s).1
  closes : (seq : ℕ) (now : ℤ) (id : AccountId) → Step sha256 s (close seq now id s).1
  books : (b : Book) → Step sha256 s (create_book b s).1

pub data Reachable (sha256 : Bytes → Bytes) : InMemoryStore → Type 0 where
  start : Reachable sha256 empty_store
  next : (s s' : InMemoryStore) → Reachable sha256 s → Step sha256 s s' → Reachable sha256 s'

-- The call moves no value.
abbrev KeepsMoney : InMemoryStore → InMemoryStore → Type 0
KeepsMoney s s' = (s'.postings ≡ s.postings) × (s'.transfers ≡ s.transfers)

module _ (seq : ℕ) (now : ℤ) (mutate : AccountFlags → AccountFlags)
    (make_event : AccountId → ℕ → LedgerEventKind) (id : AccountId) (s : InMemoryStore) where
  transition_from-KeepsMoney :
      (o : Outcome StoreError Account)
      → KeepsMoney s (transition_from seq now mutate make_event id s o).1
  transition_from-KeepsMoney (err e) = (refl, refl)
  transition_from-KeepsMoney panic = (refl, refl)
  transition_from-KeepsMoney (ok current) = elim (Bool-cases (is_closed current)) [
    | inl shut ↦ rw (transition_from, shut) (refl, refl)
    | inr still_open ↦ elim (Option-cases (next_version current.version)) [
      | inl full ↦ rw (transition_from, still_open, full) (refl, refl)
      | inr (v, room) ↦ rw (transition_from, still_open, room) (refl, refl)
    ]
  ]

  transition-KeepsMoney : KeepsMoney s (transition seq now mutate make_event id s).1
  unfolding transition
  transition-KeepsMoney = transition_from-KeepsMoney (get_account s.accounts id)

create_account-KeepsMoney :
    (seq : ℕ) (now : ℤ) (a : Account) (s : InMemoryStore)
    → KeepsMoney s (create_account seq now a s).1
unfolding create_account
create_account-KeepsMoney seq now a s =
    elim (Bool-cases (eqb (Store.create_account a s.accounts).1 0)) [
      | inl old ↦ rw (create_account, old) (refl, refl)
      | inr new ↦ rw (create_account, new) (refl, refl)
    ]

close-KeepsMoney :
    (seq : ℕ) (now : ℤ) (id : AccountId) (s : InMemoryStore) → KeepsMoney s (close seq now id s).1
unfolding close
close-KeepsMoney seq now id s = elim (Bool-cases (has_live_postings id s)) [
  | inl some_live ↦ rw (close, some_live) (refl, refl)
  | inr drained ↦
      rw (close, drained)
        (transition-KeepsMoney seq now (λ flags. without_flag frozen (with_flag closed flags))
          account_closed id s)
]

-- What a reachable store satisfies.
abbrev IsBalanced : AssetId → InMemoryStore → Type 0
IsBalanced a s = IsSound s × (live_value a s.postings ≡ pos 0)

keep : (a : AssetId) (s s' : InMemoryStore) → KeepsMoney s s' → IsBalanced a s → IsBalanced a s'
keep a s s' (p, t) b = rw (p, t) b

step-IsBalanced :
    (sha256 : Bytes → Bytes) (a : AssetId) (s s' : InMemoryStore)
    → Step sha256 s s'
    → IsBalanced a s
    → IsBalanced a s'
unfolding freeze unfreeze create_book
step-IsBalanced sha256 a s s' (commits seq now e bound) (sound, zero) =
    let (sound', same) = commit_envelope-conserves sha256 seq now e s a sound bound in
    (sound', same ∙ zero)
step-IsBalanced sha256 a s s' (intends seq now t bound) (sound, zero) =
    let (sound', same) = commit-Conserves sha256 seq now s sound t bound in (sound', same a ∙ zero)
step-IsBalanced sha256 a s s' (reverses seq now id small) (sound, zero) =
    let (sound', same) = reverse-Conserves sha256 seq now id s sound small in
    (sound', same a ∙ zero)
step-IsBalanced sha256 a s s' (opens seq now x) b =
    keep a s (create_account seq now x s).1 (create_account-KeepsMoney seq now x s) b
step-IsBalanced sha256 a s s' (freezes seq now id) b =
    keep a s (freeze seq now id s).1
      (transition-KeepsMoney seq now (with_flag frozen) account_frozen id s) b
step-IsBalanced sha256 a s s' (unfreezes seq now id) b =
    keep a s (unfreeze seq now id s).1
      (transition-KeepsMoney seq now (without_flag frozen) account_unfrozen id s) b
step-IsBalanced sha256 a s s' (closes seq now id) b =
    keep a s (close seq now id s).1 (close-KeepsMoney seq now id s) b
step-IsBalanced sha256 a s s' (books book) b = keep a s (create_book book s).1 (refl, refl) b

-- In every store that the ledger reaches from an empty one, by commits of envelopes that create at most
-- 65,536 postings each, by commits of transfers with at most 32,768 movements each, by reversals of
-- transfers that consumed at most 65,536 postings each, and by creating, freezing, unfreezing and closing
-- accounts and creating books, the posting tables agree with each other, every posting belongs to a
-- transfer that the store has, and the live value of every asset is zero.
pub Reachable-IsBalanced :
    (sha256 : Bytes → Bytes) (a : AssetId) (s : InMemoryStore)
    → Reachable sha256 s
    → IsSound s × (live_value a s.postings ≡ pos 0)
unfolding live_value total
Reachable-IsBalanced sha256 a s start = (
  (
    record {
      immutable_map = tt;
      active_map = tt;
      reserved_map = tt;
      named = tt;
      active_known = tt;
      reserved_known = tt;
      disjoint = tt;
    },
    tt,
  ),
  omega int_laws,
)
Reachable-IsBalanced sha256 a s (next s0 s' r step) =
    step-IsBalanced sha256 a s0 s step (Reachable-IsBalanced sha256 a s0 r)
