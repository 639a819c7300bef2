-- ===== src/Store/Reads.antt =====
-- src/store.rs: what `Store` answers about its inboxes, broadcasts, sessions and rooms.
pub mod Inboxes
pub mod Falling
use postino.Prelude.{
  ℕ, ◌+◌, Bool, true, false, not, ◌&&◌, Option, none, some, List, [], ◌∷◌, length, ltb, leb,
  if◌then◌else◌,
}
use postino.Prelude.Order.{key_eq, text_order, pair_order}
use postino.Prelude.Map.{Map, keys, get, insert}
use postino.Prelude.Ranges.{range_after}
use postino.Prelude.Text.{Text}
use postino.Id.{EntryId, id_order, max_id, next_after}
use postino.Store.Messages.{Message, Broadcast, Counts, no_counts, Ids, Times, Agent}
use postino.Store.Rooms.{Post, Room, is_open, Member}
use postino.Store.Effects.{Store, Session}

-- `Store::next_id`
unfoldable pub next_id : ℕ → Store → EntryId
next_id now s = elim (next_after s.last_id now) [ some id ↦ id | none ↦ max_id ]

-- The values that a list of ids has in a map.
unfoldable pub found : Ids → Map EntryId Message → List Message
found [] ms = []
found ((id, _) ∷ ids) ms = elim (get id ms) [ none ↦ found ids ms | some m ↦ m ∷ found ids ms ]

unfoldable pub broadcasts_where : (Broadcast → Bool) → Map EntryId Broadcast → List Broadcast
broadcasts_where test [] = []
broadcasts_where test ((_, b) ∷ bs) =
    if test b then b ∷ broadcasts_where test bs else broadcasts_where test bs

unfoldable pub sessions_where : (Session → Bool) → Map Text Session → List Session
sessions_where test [] = []
sessions_where test ((_, v) ∷ vs) =
    if test v then v ∷ sessions_where test vs else sessions_where test vs

-- `*online.entry(agent).or_insert(0) += 1`, for each session.
unfoldable pub tally : List Session → Map Text ℕ → Map Text ℕ
tally [] m = m
tally (v ∷ vs) m =
    tally vs (insert v.agent ((elim (get v.agent m) [ none ↦ 0 | some n ↦ n ]) + 1) m)

unfoldable pub add_members : Map Text Member → Map Text (Unit {0}) → Map Text (Unit {0})
add_members [] s = s
add_members ((name, _) ∷ ms) s = add_members ms (insert name tt s)

unfoldable pub members_of : Map Text Room → Map Text (Unit {0}) → Map Text (Unit {0})
unfolding add_members is_open
members_of [] s = s
members_of ((_, r) ∷ rs) s = members_of rs (if is_open r then add_members r.members s else s)

-- `take_while(|(at, _)| *at <= now).map(|(_, id)| *id)`
unfoldable pub due_by : ℕ → Times → List EntryId
due_by now [] = []
due_by now (((at, id), _) ∷ ts) = if leb at now then id ∷ due_by now ts else []

module _ (s : Store) where
  unfoldable pub message_by_key : Text → Text → Text → Option Message
  message_by_key to from key = elim (get (to, (from, key)) s.msg_keys) [
    | none ↦ none
    | some id ↦ get id s.messages.map
  ]

  unfoldable pub broadcast_by_key : Text → Text → Option Broadcast
  broadcast_by_key from key = elim (get (from, key) s.bc_keys) [
    | none ↦ none
    | some id ↦ get id s.broadcasts
  ]

  unfoldable pub post_by_key : Text → Text → Text → Option Post
  post_by_key room from key = elim (get (room, (from, key)) s.post_keys) [
    | none ↦ none
    | some id ↦ elim (get room s.rooms.map) [ none ↦ none | some r ↦ get id r.posts ]
  ]

  unfoldable pub room_members : Map Text (Unit {0})
  unfolding members_of
  room_members = members_of s.rooms.map []

  unfoldable pub inbox_messages : Text → List Message
  unfolding found
  inbox_messages a = elim (get a s.agents) [ none ↦ [] | some r ↦ found r.inbox s.messages.map ]

  unfoldable pub counts : Text → Counts
  counts a = elim (get a s.agents) [
    | none ↦ no_counts
    | some r ↦ record (r.counts) { settled = r.counts.settled + r.counts.dead }
  ]

  unfoldable pub queued : Text → List EntryId
  queued a = elim (get a s.agents) [ none ↦ [] | some r ↦ keys r.queued ]

  unfoldable pub settled : Text → List EntryId
  settled a = elim (get a s.agents) [ none ↦ [] | some r ↦ keys r.settled ]

  unfoldable pub pending_from : Text → Text → ℕ
  pending_from a sender = elim (get a s.agents) [
    | none ↦ 0
    | some r ↦ elim (get sender r.senders) [ none ↦ 0 | some n ↦ n ]
  ]

  unfoldable pub leases_due : ℕ → List EntryId
  unfolding due_by
  leases_due now = due_by now s.due.leases

  unfoldable pub expired_due : ℕ → List EntryId
  unfolding due_by
  expired_due now = due_by now s.due.expiry

  unfoldable pub settled_before : ℕ → List EntryId
  unfolding due_by
  settled_before at = due_by at s.due.settled

  unfoldable pub live_sessions : Text → ℕ → ℕ
  unfolding sessions_where
  live_sessions a now =
      length (sessions_where (λ v. key_eq v.agent a && ltb now v.expires) s.sessions)

  unfoldable pub online_counts : ℕ → Map Text ℕ
  unfolding tally sessions_where
  online_counts now = tally (sessions_where (λ v. ltb now v.expires) s.sessions) []

  unfoldable pub unseen_broadcasts : Text → ℕ
  unfolding broadcasts_where
  unseen_broadcasts a =
      let cursor : Option EntryId = elim (get a s.agents) [ none ↦ none | some r ↦ r.cursor ] in
      length (broadcasts_where (λ b. not (key_eq b.from a)) (range_after cursor s.broadcasts))
