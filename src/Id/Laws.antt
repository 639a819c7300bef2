-- ===== src/Id/Laws.antt =====
-- The successors of an id: src/id.rs, `after` and `next_after`.
use Prim.Native.Nat.Ordering.{lt}
use postino.Prelude.{ℕ, ◌<◌, ◌≤◌, ◌≡◌, ◌≢◌, ◌↔◌, none, some, arith}
use postino.Prelude.Text.{u64_size}
use postino.Id.{EntryId, max_id, cmp_id, after, next_after, IsWord, ◌≺◌}

-- For a last id and a clock that are machine words, the next id, if there is one, is again a pair of
-- machine words, it is above `last`, its time is not before the
-- clock's, and no id above `last` whose time is not before the clock's is below it.
pub next_after-least :
    (last : EntryId) (now_ms : ℕ) {next : EntryId}
    → IsWord last
    → now_ms < u64_size
    → next_after last now_ms ≡ some next
    → IsWord next
      × (last ≺ next)
      × (now_ms ≤ next.ms)
      × ((id : EntryId) → IsWord id → last ≺ id → now_ms ≤ id.ms → cmp_id id next ≢ lt)
unfolding next_after after
next_after-least last now_ms w h e =
    (ground arith, ground arith, ground arith, λ id v l m. ground arith)

-- For a last id and a clock that are machine words, there is no next id exactly when `last` is the
-- largest id.
pub next_after-none :
    (last : EntryId) (now_ms : ℕ)
    → IsWord last
    → now_ms < u64_size
    → (next_after last now_ms ≡ none) ↔ (last ≡ max_id)
unfolding next_after after
next_after-none last now_ms w h = (λ e. ground arith, λ e. ground arith)
