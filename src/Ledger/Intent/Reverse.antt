-- ===== src/Ledger/Intent/Reverse.antt =====
-- crates/kuatia/src/ledger/commit.rs: a reversal beside the transfer that it reverses.
use kuatia.Prelude.{ℕ, suc, ◌+◌, ◌≡◌, refl, ap, ◌∙◌, arith, List, [], ◌∷◌, map, ok}
use kuatia.Money.{Cent}
use kuatia.Types.{AccountId, AssetId, Envelope, EnvelopeId, NewPosting, Posting}
use kuatia.Core.Validate.{number_postings}
use kuatia.Storage.{EnvelopeRecord, InMemoryStore}
use kuatia.Storage.Tables.{get_postings}
use kuatia.Ledger.Intent.{created_ids, give_back, reverse_envelope}
use kuatia.Ledger.Intent.Conserves.{reverse_envelope_fields}

created_ids-number_postings :
    (tid : EnvelopeId) (i : ℕ) (ps : List NewPosting)
    → created_ids tid i ps ≡ map (λ p. p.id) (number_postings tid i ps)
unfolding created_ids number_postings
created_ids-number_postings tid i [] = refl
created_ids-number_postings tid i (p ∷ ps) =
    let next : i + 1 ≡ suc i = omega arith in rw (next, created_ids-number_postings tid (suc i) ps)

-- Who holds how much of what.
abbrev pub Holding : Type 0
Holding = AccountId × (AssetId × Cent)

abbrev pub holding : Posting → Holding
holding p = (p.owner, (p.asset, p.value))

abbrev pub new_holding : NewPosting → Holding
new_holding p = (p.owner, (p.asset, p.value))

holdings-give_back : (ps : List Posting) → map new_holding (map give_back ps) ≡ map holding ps
holdings-give_back [] = refl
holdings-give_back (p ∷ ps) = ap (λ l. holding p ∷ l) (holdings-give_back ps)

-- The envelope that reverses a recorded transfer consumes exactly the postings that the transfer created,
-- under the ids that validation gave them and in their order, and creates for each posting that the
-- transfer consumed one of the same owner, asset and value, in the same order.
pub reverse_envelope-mirrors :
    (s : InMemoryStore) (r : EnvelopeRecord) (e : Envelope)
    → reverse_envelope s r ≡ ok e
    → (ps : List Posting) × (get_postings s.postings r.envelope.consumes ≡ ok ps)
      × (map new_holding e.creates ≡ map holding ps)
      × (e.consumes ≡ map (λ p. p.id) (number_postings r.receipt.transfer_id 0 r.envelope.creates))
reverse_envelope-mirrors s r e h =
    let (ps, found, creates, consumes) = reverse_envelope_fields s r e h in
    (
      ps,
      found,
      rw creates (holdings-give_back ps),
      consumes ∙ created_ids-number_postings r.receipt.transfer_id 0 r.envelope.creates,
    )
