-- ===== src/Id/Tests.antt =====
-- Runs of src/id.rs, among them those of its own tests.
use postino.Prelude.{◌≡◌, ◌≢◌, ◌↔◌, ◌≤◌, refl, none, some, arith}
use Prim.Native.Nat.Ordering.{lt}
use postino.Prelude.Text.{codes, ok, err, split_once, parse_u64, to_text}
use postino.Id.{EntryId, max_id, next_after, after, display, from_str, IsWord, ◌≺◌, cmp_id}
use postino.Id.Laws.{next_after-least, next_after-none}
use postino.Id.RoundTrip.{from_str-display}

abbrev first : EntryId
first = record { ms = 1000; seq = 1 }

abbrev second : EntryId
second = record { ms = 1000; seq = 2 }

back : next_after first 900 ≡ some second
unfolding next_after after
back = refl

shown : display second ≡ codes "1000-2"
unfolding display to_text
shown = refl

bad : from_str (codes "abc") ≡ err (codes "invalid id: abc")
unfolding from_str split_once parse_u64
bad = refl

first-IsWord : IsWord first
first-IsWord = (omega arith, omega arith)

max_id-IsWord : IsWord max_id
max_id-IsWord = (omega arith, omega arith)

next_after-least_example :
    IsWord second
    × (first ≺ second)
    × (900 ≤ second.ms)
    × ((id : EntryId) → IsWord id → first ≺ id → 900 ≤ id.ms → cmp_id id second ≢ lt)
next_after-least_example =
    next_after-least first 900 {next = second} first-IsWord (omega arith) back

next_after-none_example : (next_after max_id 900 ≡ none) ↔ (max_id ≡ max_id)
next_after-none_example = next_after-none max_id 900 max_id-IsWord (omega arith)

from_str-display_example : from_str (display second) ≡ ok second
from_str-display_example = from_str-display second (omega arith, omega arith)
