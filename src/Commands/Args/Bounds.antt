-- ===== src/Commands/Args/Bounds.antt =====
-- Ranges, times and stream ids stay within their bounds: src/commands.rs, `range_bounds`, `expiry_at`
-- and `range_end`.
use postino.Prelude.{
  ℕ, ◌+◌, ◌*◌, ◌≤◌, ◌<◌, ◌≡◌, ◌↔◌, Bool, true, false, Option, none, some, arith, if◌then◌else◌, ltb,
}
use postino.Prelude.Int.{ℤ, pos, negsuc, ◌+ℤ◌, ◌≤ℤ◌, ltb_ℤ, i64_limit}
use postino.Commands.Args.{range_bounds, expiry_at, before}
use postino.Id.{EntryId, after, zero_id, IsWord, ◌≺◌}

-- An index that may count from the end, as one from the start.
abbrev pub from_start : ℕ → ℤ → ℤ
from_start len x = if ltb_ℤ x (pos 0) then pos len +ℤ x else x

-- The indexes of a range.
abbrev pub Within : Option (ℕ × ℕ) → ℕ → Type 0
Within none i = ⊥
Within (some (a, b)) i = (a ≤ i) × (i ≤ b)

-- The range holds exactly the indexes of the list that lie between its two ends, each counted from
-- the start or from the end.
pub range_bounds-Within :
    (start stop : ℤ) (len i : ℕ)
    → Within (range_bounds start stop len) i
      ↔ ((i < len) × (from_start len start ≤ℤ pos i) × (pos i ≤ℤ from_start len stop))
unfolding range_bounds
range_bounds-Within (pos a) (pos b) len i = (λ w. ground arith, λ h. ground arith)
range_bounds-Within (pos a) (negsuc b) len i = (λ w. ground arith, λ h. ground arith)
range_bounds-Within (negsuc a) (pos b) len i = (λ w. ground arith, λ h. ground arith)
range_bounds-Within (negsuc a) (negsuc b) len i = (λ w. ground arith, λ h. ground arith)

-- A positive amount of time, from a clock that an `i64` holds, gives the exact time of expiry where
-- an `i64` holds it, and nothing where none does.
pub expiry_at-exact :
    (now n unit : ℕ) (absolute : Bool)
    → now < i64_limit
    → let at = n * unit + (if absolute then 0 else now) in
      expiry_at now (pos n) unit absolute ≡ (if ltb at i64_limit then some at else none)
unfolding expiry_at
expiry_at-exact now n unit true h = ground arith
expiry_at-exact now n unit false h = ground arith

-- The id below another, if there is one, is the greatest: the id after it is the other. Only the id
-- zero has none below it.
pub before-after :
    (id : EntryId)
    → IsWord id
    → (before id ≡ none ↔ id ≡ zero_id)
      × ((p : EntryId) → before id ≡ some p → IsWord p × (p ≺ id) × (after p ≡ some id))
unfolding before after
before-after id w =
    ((λ e. ground arith, λ e. ground arith), λ p e. (ground arith, ground arith, ground arith))
