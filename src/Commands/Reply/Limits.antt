-- ===== src/Commands/Reply/Limits.antt =====
-- A collected reply carries at most what one response may: src/commands.rs, `collect_within`.
use postino.Prelude.{
  ℕ, ◌+◌, ◌≤◌, ◌≡◌, List, [], ◌∷◌, arith, if◌then◌else◌, ltb, Bool-cases, inl, inr,
}
use postino.Prelude.Text.{ok, err}
use postino.Commands.Reply.{
  Reply, array, replies, sizes, size, within_reply, too_large, collect_loop, collect_within,
  max_reply_bytes,
}

collect_loop-replies :
    (bytes : ℕ) (items : List Reply)
    → bytes ≤ max_reply_bytes
    → collect_loop bytes items ≡ (
        if ltb max_reply_bytes (bytes + sizes (replies items))
        then err too_large
        else ok (replies items))
unfolding collect_loop within_reply size
collect_loop-replies bytes [] h = ground arith
collect_loop-replies bytes (item ∷ items) h =
    elim (Bool-cases (ltb max_reply_bytes (bytes + size item))) [
      | inl over ↦ rw over (ground arith)
      | inr fits ↦
          rw (fits, collect_loop-replies (bytes + size item) items (ground arith)) (ground arith)
    ]

-- Collecting gives all of the items where together they are no larger than one response may be, and
-- the refusal where they are larger.
pub collect_within-replies :
    (items : List Reply)
    → collect_within items ≡ (
        if ltb max_reply_bytes (sizes (replies items))
        then err too_large
        else ok (array (replies items)))
unfolding collect_within
collect_within-replies items = rw (collect_loop-replies 0 items (omega arith)) (ground arith)
