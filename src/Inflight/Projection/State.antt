-- ===== src/Inflight/Projection/State.antt =====
-- crates/kuatia/src/inflight/projection.rs: the state of an inflight, as the amounts of its lines tell it.
use kuatia.Prelude.{
  ◌≡◌, refl, ◌⊎◌, inl, inr, arith, Bool, true, false, List, [], ◌∷◌, ◌≤ℤ◌, ◌<ℤ◌, pos, All, ◌||◌,
}
use kuatia.Money.{Cent, is_positive}
use kuatia.Inflight.{
  InflightLegStatus, InflightState, held, partially_confirmed, confirmed, voided, mixed,
}
use kuatia.Inflight.Projection.{any_of, state_of, overall_state}
use mathlib.Core.List.{Memᴰ}

-- Some line has more than nothing of an amount.
abbrev pub Somewhere : (InflightLegStatus → Cent) → List InflightLegStatus → Type 0
Somewhere amount lines = (l : InflightLegStatus) × Memᴰ l lines × (pos 0 <ℤ amount l)

-- No line has.
abbrev pub Nowhere : (InflightLegStatus → Cent) → List InflightLegStatus → Type 0
Nowhere amount lines = All (λ l. amount l ≤ℤ pos 0) lines

-- What each state says of the lines.
abbrev pub IsState : List InflightLegStatus → InflightState → Type 0
IsState lines held =
    Somewhere (λ l. l.held_amount) lines
    × Nowhere (λ l. l.confirmed_amount) lines
    × Nowhere (λ l. l.voided_amount) lines
IsState lines partially_confirmed =
    Somewhere (λ l. l.held_amount) lines
    × (Somewhere (λ l. l.confirmed_amount) lines ⊎ Somewhere (λ l. l.voided_amount) lines)
IsState lines confirmed = Nowhere (λ l. l.held_amount) lines × Nowhere (λ l. l.voided_amount) lines
IsState lines voided =
    Nowhere (λ l. l.held_amount) lines
    × Nowhere (λ l. l.confirmed_amount) lines
    × Somewhere (λ l. l.voided_amount) lines
IsState lines mixed =
    Nowhere (λ l. l.held_amount) lines
    × Somewhere (λ l. l.confirmed_amount) lines
    × Somewhere (λ l. l.voided_amount) lines

abbrev Known : Bool → (InflightLegStatus → Cent) → List InflightLegStatus → Type 0
Known true amount lines = Somewhere amount lines
Known false amount lines = Nowhere amount lines

Known-cons :
    (b c : Bool) (amount : InflightLegStatus → Cent) (l : InflightLegStatus)
    (ls : List InflightLegStatus)
    → is_positive (amount l) ≡ b
    → Known c amount ls
    → Known (b || c) amount (l ∷ ls)
Known-cons true c amount l ls h k = (l, Memᴰ.head refl, ground arith)
Known-cons false true amount l ls h (m, among, more) = (m, Memᴰ.tail among, more)
Known-cons false false amount l ls h k = (ground arith, k)

any_of-Known :
    (amount : InflightLegStatus → Cent) (lines : List InflightLegStatus)
    → Known (any_of (λ l. is_positive (amount l)) lines) amount lines
any_of-Known amount [] = tt
any_of-Known amount (l ∷ ls) =
    Known-cons (is_positive (amount l)) (any_of (λ x. is_positive (amount x)) ls) amount l ls refl
      (any_of-Known amount ls)

state_of-IsState :
    (h c v : Bool) (lines : List InflightLegStatus)
    → Known h (λ l. l.held_amount) lines
    → Known c (λ l. l.confirmed_amount) lines
    → Known v (λ l. l.voided_amount) lines
    → IsState lines (state_of h c v)
state_of-IsState true true v lines kh kc kv = (kh, inl kc)
state_of-IsState true false true lines kh kc kv = (kh, inr kv)
state_of-IsState true false false lines kh kc kv = (kh, kc, kv)
state_of-IsState false true true lines kh kc kv = (kh, kc, kv)
state_of-IsState false true false lines kh kc kv = (kh, kv)
state_of-IsState false false true lines kh kc kv = (kh, kc, kv)
state_of-IsState false false false lines kh kc kv = (kh, kv)

pub overall_state-IsState : (lines : List InflightLegStatus) → IsState lines (overall_state lines)
unfolding overall_state
overall_state-IsState lines =
    state_of-IsState _ _ _ lines (any_of-Known (λ l. l.held_amount) lines)
      (any_of-Known (λ l. l.confirmed_amount) lines) (any_of-Known (λ l. l.voided_amount) lines)
