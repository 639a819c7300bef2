-- ===== src/Id.antt =====
-- src/id.rs: entry ids, their successors, and their text.
pub mod Laws
pub mod RoundTrip
mod Tests
use Prim.Native.Nat.Ordering.{lt, eq, gt}
use postino.Prelude.{
  ℕ, ◌+◌, ◌<◌, ◌-◌, ◌^◌, compare, Ordering, ◌≡◌, Bool, Option, none, some, [], ◌∷◌, ◌++◌, arith,
  if◌then◌else◌, ltb,
}
use postino.Prelude.Order.{Order, IsOrder, and_then}
use postino.Prelude.Text.{Text, codes, Result, ok, err, u64_size, split_once, parse_u64, to_text}

-- `struct Id`, with its derived order.
pub record EntryId : Type 0 where
  pub ms : ℕ
  pub seq : ℕ

abbrev pub zero_id : EntryId
zero_id = record { ms = 0; seq = 0 }

abbrev pub max_id : EntryId
max_id = record { ms = u64_size - 1; seq = u64_size - 1 }

abbrev pub cmp_id : EntryId → EntryId → Ordering
cmp_id a b = and_then (compare a.ms b.ms) (compare a.seq b.seq)

pub cmp_id-IsOrder : IsOrder cmp_id
cmp_id-IsOrder = ground arith

instance abbrev pub id_order : Order EntryId
id_order = record { cmp = cmp_id; laws = cmp_id-IsOrder }

-- `u64::checked_add`
abbrev pub checked_add : ℕ → ℕ → Option ℕ
checked_add a b = if ltb (a + b) u64_size then some (a + b) else none

carry : EntryId → Option ℕ → Option EntryId
carry id (some seq) = some (record { ms = id.ms; seq = seq })
carry id none = elim (checked_add id.ms 1) [
  | some ms ↦ some (record { ms = ms; seq = 0 })
  | none ↦ none
]

unfoldable pub after : EntryId → Option EntryId
unfolding carry
after id = carry id (checked_add id.seq 1)

unfoldable pub next_after : EntryId → ℕ → Option EntryId
next_after last now_ms =
    if ltb last.ms now_ms then some (record { ms = now_ms; seq = 0 }) else after last

-- `Display`
unfoldable pub display : EntryId → Text
display id = to_text id.ms ++ b'-' ∷ to_text id.seq

both : Text → Option ℕ → Option ℕ → Result EntryId
both s (some ms) (some seq) = ok (record { ms = ms; seq = seq })
both s _ _ = err (codes "invalid id: " ++ s)

halves : Text → Option (Text × Text) → Text × Text
halves s (some (ms, seq)) = (ms, seq)
halves s none = (s, codes "0")

-- `FromStr`
unfoldable pub from_str : Text → Result EntryId
unfolding both halves
from_str s = let (ms, seq) = halves s (split_once b'-' s) in both s (parse_u64 ms) (parse_u64 seq)

-- Both parts are machine words.
abbrev pub IsWord : EntryId → Type 0
IsWord id = (id.ms < u64_size) × (id.seq < u64_size)

-- The order on ids as a relation.
infix 50 ◌≺◌
abbrev pub ◌≺◌ : EntryId → EntryId → Type 0
a ≺ b = cmp_id a b ≡ lt
