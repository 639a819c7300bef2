-- ===== src/Store/Tracking/Agrees.antt =====
-- What the sets and counts of an inbox and the due indexes say of the messages: src/store.rs, the
-- fields of `Agent` and of `Due`.
use postino.Prelude.{
  ℕ, zero, suc, ◌+◌, ◌≡◌, Bool, true, false, ◌&&◌, Option, none, some, ◌==◌, if◌then◌else◌,
  is_some_and,
}
use postino.Prelude.Order.{key_eq, text_order, pair_order, nat_order}
use postino.Prelude.Map.{Map, get, IsSorted}
use postino.Prelude.Map.Length.{has_key}
use postino.Prelude.Map.Count.{bit, count}
use postino.Prelude.Text.{Text}
use postino.Id.{EntryId, id_order}
use postino.Store.Messages.{
  State, queued, leased, acked, dead, expired, is_pending, Message, Agent, Due,
}
use postino.Store.Tracking.{settled_at}

abbrev pub Messages : Type 0
Messages = Map EntryId Message

abbrev pub is_queued : State → Bool
is_queued queued = true
is_queued _ = false

abbrev pub is_leased : State → Bool
is_leased leased = true
is_leased _ = false

abbrev pub is_dead : State → Bool
is_dead dead = true
is_dead _ = false

abbrev pub is_done : State → Bool
is_done acked = true
is_done expired = true
is_done _ = false

abbrev pub is_over : State → Bool
is_over queued = false
is_over leased = false
is_over _ = true

-- A message to `a` whose state passes a test.
abbrev pub held : Text → (State → Bool) → Message → Bool
held a test m = key_eq m.to a && test m.state

abbrev pub sent : Text → Text → Message → Bool
sent a from m = held a is_pending m && key_eq m.from from

abbrev pub positive : ℕ → Option ℕ
positive zero = none
positive (suc n) = some (suc n)

-- The sets, the counts and the senders of an inbox are those of the messages to it.
pub record InboxAgrees (ms : Messages) (a : Text) (r : Agent) : Type 0 where
  pub queued_sorted : IsSorted r.queued
  pub settled_sorted : IsSorted r.settled
  pub senders_sorted : IsSorted r.senders
  pub queued_ids : (id : EntryId) → has_key id r.queued ≡ is_some_and (get id ms) (held a is_queued)
  pub settled_ids : (id : EntryId) → has_key id r.settled ≡ is_some_and (get id ms) (held a is_over)
  pub count_queued : r.counts.queued ≡ count (held a is_queued) ms
  pub count_leased : r.counts.leased ≡ count (held a is_leased) ms
  pub count_dead : r.counts.dead ≡ count (held a is_dead) ms
  pub count_settled : r.counts.settled ≡ count (held a is_done) ms
  pub count_sent : (from : Text) → get from r.senders ≡ positive (count (sent a from) ms)

abbrev pub lease_ends : ℕ → Message → Bool
lease_ends t m = is_leased m.state && is_some_and m.lease λ l. l.until == t

abbrev pub expires_at : ℕ → Message → Bool
expires_at t m = is_pending m.state && (m.expires == t)

abbrev pub settles_at : ℕ → Message → Bool
settles_at t m = is_over m.state && (settled_at m == t)

-- The due indexes hold the messages by the times in them.
pub record DueAgrees (ms : Messages) (due : Due) : Type 0 where
  pub leases_sorted : IsSorted due.leases
  pub expiry_sorted : IsSorted due.expiry
  pub settled_sorted : IsSorted due.settled
  pub leases :
      (t : ℕ) (id : EntryId) → has_key (t, id) due.leases ≡ is_some_and (get id ms) (lease_ends t)
  pub expiry :
      (t : ℕ) (id : EntryId) → has_key (t, id) due.expiry ≡ is_some_and (get id ms) (expires_at t)
  pub settled :
      (t : ℕ) (id : EntryId) → has_key (t, id) due.settled ≡ is_some_and (get id ms) (settles_at t)

-- `ms'` has `m` besides the messages of `ms`, which does not have its id.
pub record Adds (m : Message) (ms ms' : Messages) : Type 0 where
  pub new : get m.id ms ≡ none
  pub gets : (id : EntryId) → get id ms' ≡ (if key_eq id m.id then some m else get id ms)
  pub counts : (test : Message → Bool) → count test ms' ≡ count test ms + bit (test m)
