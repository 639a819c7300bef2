-- ===== src/Store/Changes.antt =====
-- src/store.rs, `Store::apply`: what an effect does to one agent, message, room or index.
use postino.Prelude.{
  ℕ, ◌+◌, ◌%◌, ◌^◌, Bool, false, Option, none, some, List, [], ◌∷◌, if◌then◌else◌,
}
use postino.Prelude.Order.{Order, key_lt, text_order, pair_order}
use postino.Prelude.Map.{Map, get, insert, remove}
use postino.Prelude.Text.{Text}
use postino.Id.{EntryId, id_order}
use postino.Captured.{change}
use postino.Store.Messages
use postino.Store.Messages.{
  State, queued, leased, is_pending, Lease, Message, Broadcast, Agent, no_due, Ids,
}
use postino.Store.Rooms.{Status, Ask, Post, Room, is_open_question, is_opened}
use postino.Store.Tracking.{Tracked, track}

-- `Ord::max`
abbrev pub max {ℓ} : {K : Type ℓ} ⦃o : Order K⦄ → K → K → K
max a b = if key_lt b a then a else b

-- An insertion under an idempotency key, if there is one.
abbrev pub note_key :
    {K : Type 0} ⦃o : Order K⦄ → Option K → EntryId → Map K EntryId → Map K EntryId
note_key none id m = m
note_key (some k) id m = insert k id m

abbrev pub drop_key : {K : Type 0} ⦃o : Order K⦄ → Option K → Map K EntryId → Map K EntryId
drop_key none m = m
drop_key (some k) m = remove k m

-- `retain`
unfoldable pub retain : {K V : Type 0} → (K → V → Bool) → Map K V → Map K V
retain test [] = []
retain test ((k, v) ∷ m) = if test k v then (k, v) ∷ retain test m else retain test m

unfoldable pub message_key : Message → Option (Text × (Text × Text))
message_key m = elim m.key [ none ↦ none | some k ↦ some (m.to, (m.from, k)) ]

unfoldable pub broadcast_key : Broadcast → Option (Text × Text)
broadcast_key b = elim b.key [ none ↦ none | some k ↦ some (b.from, k) ]

unfoldable pub post_key : Text → Post → Option (Text × (Text × Text))
post_key room p = elim p.key [ none ↦ none | some k ↦ some (room, (p.from, k)) ]

-- `entry(name).or_insert_with(|| Agent::new(name, at))`
unfoldable pub enter : Text → ℕ → Map Text Agent → Map Text Agent
unfolding Messages.new
enter name at agents = elim (get name agents) [
  | some _ ↦ agents
  | none ↦ insert name (Messages.new name at) agents
]

unfoldable pub receive : EntryId → Agent → Agent
receive id a = record a { inbox = insert id tt a.inbox }

unfoldable pub discard : EntryId → Agent → Agent
discard id a = record a { inbox = remove id a.inbox }

-- `Effect::Message`: the old contribution goes, and the addressee is entered.
unfoldable pub replaced : Message → Tracked → Map EntryId Message → Tracked
unfolding track
replaced m t ms = elim (get m.id ms) [ none ↦ t | some old ↦ track false old t ]

unfoldable pub addressed : Message → Tracked → Tracked
unfolding enter receive change
addressed m t = record t { agents = change m.to (receive m.id) (enter m.to m.created t.agents) }

unfoldable pub leased_to : Text → Text → ℕ → ℕ → Message → Message
leased_to consumer token at until m = record m {
  state = leased;
  deliveries = (m.deliveries + 1) % 2 ^ 32;
  settled = none;
  lease = some (record { consumer = consumer; token = token; at = at; until = until });
}

unfoldable pub settled_as : State → ℕ → Message → Message
unfolding is_pending
settled_as state at m = record m {
  state = state;
  settled = if is_pending state then none else some at;
}

-- The questions of a room that are open.
unfoldable pub open_ids : Map EntryId Post → Ids
unfolding is_open_question
open_ids [] = []
open_ids ((_, p) ∷ ps) = if is_open_question p then insert p.id tt (open_ids ps) else open_ids ps

unfoldable pub note_posts :
    Text
    → Map EntryId Post
    → Map (Text × (Text × Text)) EntryId
    → Map (Text × (Text × Text)) EntryId
unfolding post_key
note_posts room [] m = m
note_posts room ((_, p) ∷ ps) m = note_posts room ps (note_key (post_key room p) p.id m)

unfoldable pub add_post : Post → Room → Room
unfolding is_open_question
add_post p r = record r {
  open_ = if is_open_question p then insert p.id tt r.open_ else r.open_;
  posts = insert p.id p r.posts;
}

unfoldable pub answer_with : Status → ℕ → Ask → Ask
unfolding is_opened
answer_with status at a = record a {
  status = status;
  closed = if is_opened status then none else some at;
}

-- `Effect::Question`, where the post is there and asks something.
unfoldable pub ask_post : EntryId → Status → ℕ → Room → Room
unfolding answer_with is_opened
ask_post id status at r = elim (get id r.posts) [
  | none ↦ r
  | some p ↦ elim p.ask [
    | none ↦ r
    | some a ↦ record r {
      posts = insert id (record p { ask = some (answer_with status at a) }) r.posts;
      open_ = if is_opened status then insert id tt r.open_ else remove id r.open_;
    }
  ]
]

unfoldable pub drop_post : EntryId → Room → Room
drop_post id r = record r { open_ = remove id r.open_; posts = remove id r.posts }

unfoldable pub drop_all_posts : List EntryId → Room → Room
unfolding drop_post
drop_all_posts [] r = r
drop_all_posts (id ∷ ids) r = drop_all_posts ids (drop_post id r)

-- The keys that go with them.
unfoldable pub drop_post_keys :
    Text
    → List EntryId
    → Room
    → Map (Text × (Text × Text)) EntryId
    → Map (Text × (Text × Text)) EntryId
unfolding drop_post post_key
drop_post_keys room [] r m = m
drop_post_keys room (id ∷ ids) r m =
    drop_post_keys room ids (drop_post id r)
      (elim (get id r.posts) [ none ↦ m | some p ↦ drop_key (post_key room p) m ])

unfoldable pub put_or_take : {V : Type 0} → Text → Option V → Map Text V → Map Text V
put_or_take k none m = remove k m
put_or_take k (some v) m = insert k v m
