-- ===== src/Storage/Commit/Touched.antt =====
-- crates/kuatia-storage/src/mem_store.rs: the assets that a commit moves, and those that the floor
-- is tested in.
use kuatia.Prelude.{
  ◌++◌, ◌⊎◌, Option-cases, leb, ==_self, ◌≡◌, refl, subst, true, some, List, [], ◌∷◌, map, filter,
  Bool-cases, inl, inr, contains, ◌==◌, int_eq, nat_eq,
}
use kuatia.Prelude.Map.{Map, lookup}
use kuatia.Prelude.Sort.{sort, dedup}
use kuatia.Prelude.Members.{Memᴰ-filter, Memᴰ-sort, Memᴰ-dedup, Memᴰ-contains}
use mathlib.Core.List.{Memᴰ}
use mathlib.Core.List.Memᴰ
use kuatia.Types.{AccountId, AssetId, PostingId, Posting, posting_id_eq, account_id_eq}
use kuatia.Storage.Records.{PostingTables}
use kuatia.Storage.Commit.{CommitRequest, touched_assets, consumed_assets}

-- A commit creates a posting of the account in the asset, or consumes an active one.
abbrev pub Moves : CommitRequest → PostingTables → AccountId → AssetId → Type 0
Moves req t aid asset =
    ((p : Posting) × Memᴰ p req.create × (p.owner ≡ aid) × (p.asset ≡ asset))
    ⊎ ((id : PostingId) × (p : Posting) × Memᴰ id req.consume
        × (lookup id t.active ≡ some p)
        × (p.owner ≡ aid)
        × (p.asset ≡ asset))

created-touched :
    (p : Posting) (aid : AccountId) (ps : List Posting)
    → Memᴰ p ps
    → p.owner ≡ aid
    → Memᴰ p.asset (map (λ q. q.asset) (filter (λ q. q.owner == aid) ps))
created-touched p aid ps m mine =
    Memᴰ.map (λ q. q.asset) ((Memᴰ-filter (λ q. q.owner == aid) p ps).1 (m, rw mine (==_self aid)))

consumed-touched :
    (active : Map PostingId Posting) (aid : AccountId) (id : PostingId) (p : Posting)
    (ids : List PostingId)
    → Memᴰ id ids
    → lookup id active ≡ some p
    → p.owner ≡ aid
    → Memᴰ p.asset (consumed_assets active aid ids)
consumed-touched active aid id p [] m found mine = absurd (Memᴰ.not-nil m)
consumed-touched active aid id p (i ∷ ids) m found mine = elim (Memᴰ.cases_cons m) [
  | inl same ↦
      let own : (p.owner == aid) ≡ true = rw mine (==_self aid) in
      let at_i : lookup i active ≡ some p = subst (λ k. lookup k active ≡ some p) same found in
      rw (consumed_assets, at_i, own) (Memᴰ.head refl)
  | inr later ↦
      let rest = consumed-touched active aid id p ids later found mine in
      elim (Option-cases (lookup i active)) [
        | inl gone ↦ rw (consumed_assets, gone) rest
        | inr (q, there) ↦ elim (Bool-cases (q.owner == aid)) [
          | inl own ↦ rw (consumed_assets, there, own) (Memᴰ.tail rest)
          | inr other ↦ rw (consumed_assets, there, other) rest
        ]
      ]
]

pub Moves-touched :
    (req : CommitRequest) (t : PostingTables) (aid : AccountId) (asset : AssetId)
    → Moves req t aid asset
    → contains asset (touched_assets t.active req aid) ≡ true
unfolding touched_assets
Moves-touched req t aid asset moves =
    let made = map (λ q. q.asset) (filter (λ q. q.owner == aid) req.create) in
    let taken = consumed_assets t.active aid req.consume in
    let among : Memᴰ asset (made ++ taken) = elim moves [
      | inl (p, m, mine, same) ↦
          Memᴰ.append_left taken
            (subst (λ x. Memᴰ x made) same (created-touched p aid req.create m mine))
      | inr (id, p, m, found, mine, same) ↦ Memᴰ.append_right made (
          subst (λ x. Memᴰ x taken) same
            (consumed-touched t.active aid id p req.consume m found mine))
    ] in
    let sorted = sort leb (made ++ taken) in
    Memᴰ-contains asset (dedup sorted)
      ((Memᴰ-dedup asset sorted).1 ((Memᴰ-sort leb asset (made ++ taken)).1 among))
