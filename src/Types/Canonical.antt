-- ===== src/Types/Canonical.antt =====
-- crates/kuatia-types/src/canonical.rs: the bytes that are hashed. The names are those of the
-- `ToBytes` implementations.
use kuatia.Prelude.{ℕ, ◌%◌, ◌^◌, List, [], ◌∷◌, ◌++◌, length}
use kuatia.Prelude.Bytes.{Bytes, be_bytes, to_word}
use kuatia.Money.{Cent}
use kuatia.Types.Ids.{AccountId, AccountSnapshotId, PostingId}
use kuatia.Types.Accounts.{Account}
use kuatia.Types.Postings.{NewPosting}
use kuatia.Types.Envelopes.{Envelope}

abbrev pub canonical_version : ℕ
canonical_version = 5

-- `write_u32` of a length, which `as u32` cuts to 32 bits.
abbrev pub write_u32 : ℕ → Bytes
write_u32 v = be_bytes 4 (v % 2 ^ 32)

abbrev pub cent_bytes : Cent → Bytes
cent_bytes c = be_bytes 16 (to_word 128 c)

abbrev pub account_id_bytes : AccountId → Bytes
account_id_bytes a = be_bytes 8 (to_word 64 a.id) ++ be_bytes 8 (to_word 64 a.sub)

abbrev pub snapshot_bytes : AccountSnapshotId → Bytes
snapshot_bytes s = account_id_bytes s.account ++ s.snapshot_id

abbrev pub posting_id_bytes : PostingId → Bytes
posting_id_bytes p = p.transfer ++ be_bytes 2 p.index

-- The payer is not part of the bytes.
abbrev pub new_posting_bytes : NewPosting → Bytes
new_posting_bytes p = account_id_bytes p.owner ++ (be_bytes 4 p.asset ++ cent_bytes p.value)

-- `for x in xs { buf.extend(x.to_bytes()) }`
unfoldable pub concat_bytes {ℓ} : {A : Type ℓ} → (A → Bytes) → List A → Bytes
concat_bytes f [] = []
concat_bytes f (x ∷ xs) = f x ++ concat_bytes f xs

abbrev pub entry_bytes : Bytes × Bytes → Bytes
entry_bytes (key, value) = write_u32 (length key) ++ (key ++ (write_u32 (length value) ++ value))

unfoldable pub envelope_bytes : Envelope → Bytes
unfolding concat_bytes
envelope_bytes e =
    canonical_version
    ∷ (write_u32 (length e.consumes)
        ++ (concat_bytes posting_id_bytes e.consumes
            ++ (write_u32 (length e.creates)
                ++ (concat_bytes new_posting_bytes e.creates
                    ++ (write_u32 (length e.account_snapshots)
                        ++ (concat_bytes snapshot_bytes e.account_snapshots
                            ++ (be_bytes 8 (to_word 64 e.book)
                                ++ (write_u32 (length e.metadata)
                                    ++ concat_bytes entry_bytes e.metadata))))))))

unfoldable pub account_bytes : Account → Bytes
unfolding concat_bytes
account_bytes a =
    canonical_version
    ∷ (account_id_bytes a.id
        ++ (be_bytes 8 a.version
            ++ (be_bytes 4 a.flags
                ++ (be_bytes 8 (to_word 64 a.book)
                    ++ (write_u32 (length a.metadata) ++ concat_bytes entry_bytes a.metadata)))))
