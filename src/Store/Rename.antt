-- ===== src/Store/Rename.antt =====
-- src/store.rs, `rename`, `retrack` and `reindex`; and `Store::apply` over all effects.
pub mod Rebuild
pub mod Taking
pub mod Preserved
pub mod Unique
use postino.Prelude.{ℕ, Bool, true, false, Option, none, some, List, [], ◌∷◌, if◌then◌else◌, map}
use postino.Prelude.Order.{key_eq, text_order, pair_order}
use postino.Prelude.Map.{Map, get, insert, remove, collect}
use postino.Prelude.Text.{Text}
use postino.Id.{EntryId, id_order}
use postino.Captured.{change, each, values_mut}
use postino.Store.Messages.{Message, Broadcast, Agent, Ids, no_due}
use postino.Store.Rooms.{Role, owner, Member, Ask, Post, Entry, Room, is_owner_role}
use postino.Store.Tracking.{Tracked, track_all, cleared}
use postino.Store.Effects.{
  Effect, agent, message, lease, settle, drop, broadcast, drop_broadcasts, cursor, rename, forget,
  room, member, room_cursor, post, question, drop_posts, topic, close, board, drop_room, db, Store,
  Outside, tracked, with_tracked,
}
use postino.Store.Apply.{
  alter, remove_messages, apply_message, apply_broadcast, remove_broadcasts, apply_cursor,
  forget_agent, apply_room, alter_room, apply_post, apply_drop_posts, apply_drop_room, run_commands,
}
use postino.Store.Changes.{
  max, note_key, message_key, broadcast_key, note_posts, enter, leased_to, settled_as, ask_post,
  put_or_take,
}

-- `agent.inbox.extend(ids)`
unfoldable pub extend : Ids → Ids → Ids
extend [] s = s
extend ((id, u) ∷ ids) s = extend ids (insert id u s)

-- `retrack`: every inbox and the due indexes cleared, and every message tracked again.
unfoldable pub retrack : Store → Store
unfolding track_all cleared
retrack s =
    with_tracked s
      (track_all s.messages.map (record { agents = each cleared s.agents; due = no_due }))

unfoldable pub message_keys :
    Map EntryId Message → Map (Text × (Text × Text)) EntryId → Map (Text × (Text × Text)) EntryId
unfolding message_key
message_keys [] m = m
message_keys ((_, p) ∷ ps) m = message_keys ps (note_key (message_key p) p.id m)

unfoldable pub broadcast_keys :
    Map EntryId Broadcast → Map (Text × Text) EntryId → Map (Text × Text) EntryId
unfolding broadcast_key
broadcast_keys [] m = m
broadcast_keys ((_, b) ∷ bs) m = broadcast_keys bs (note_key (broadcast_key b) b.id m)

unfoldable pub room_keys :
    Map Text Room → Map (Text × (Text × Text)) EntryId → Map (Text × (Text × Text)) EntryId
unfolding note_posts
room_keys [] m = m
room_keys ((_, r) ∷ rs) m = room_keys rs (note_posts r.name r.posts m)

unfoldable pub reindex : Store → Store
unfolding message_keys broadcast_keys room_keys
reindex s = record s {
  msg_keys = message_keys s.messages.map [];
  bc_keys = broadcast_keys s.broadcasts [];
  post_keys = room_keys s.rooms.map [];
}

-- `max` of two cursors, of which `none` is the least.
unfoldable pub later : Option EntryId → Option EntryId → Option EntryId
later none c = c
later (some a) none = some a
later (some a) (some b) = some (max a b)

-- The renamed member takes the place, the rank and the reading of one of that name.
unfoldable pub merge_member : Member → Option Member → Member
unfolding later is_owner_role
merge_member m none = m
merge_member m (some e) = record m {
  role = if is_owner_role e.role then owner else m.role;
  cursor = later m.cursor e.cursor;
}

module _ (from to : Text) where
  abbrev pub renamed : Text → Text
  renamed name = if key_eq name from then to else name

  unfoldable pub rename_message : Message → Message
  rename_message m = record m { to = renamed m.to; from = renamed m.from }

  unfoldable pub rename_post : Post → Post
  rename_post p = record p {
    from = renamed p.from;
    ask = elim p.ask [ none ↦ none | some a ↦ some (record a { to = map renamed a.to }) ];
  }

  unfoldable pub rename_member : Map Text Member → Map Text Member
  unfolding merge_member
  rename_member members = elim (get from members) [
    | none ↦ members
    | some m ↦
        let rest = remove from members in insert to (merge_member m (get to rest)) (remove to rest)
  ]

  unfoldable pub rename_room : Room → Room
  unfolding rename_post rename_member
  rename_room r = record r {
    created_by = renamed r.created_by;
    members = rename_member r.members;
    posts = each rename_post r.posts;
    board = each (λ e. record e { by = renamed e.by }) r.board;
  }

  -- The agents after one has taken the other's name and its inbox.
  unfoldable pub take_over : Agent → Map Text Agent → Map Text Agent
  unfolding extend
  take_over a agents =
      let rest = remove from agents in
      let inbox : Ids = elim (get to rest) [ none ↦ a.inbox | some e ↦ extend e.inbox a.inbox ] in
      insert to (record a { inbox = inbox; name = to }) (remove to rest)

module _ (out : Outside) where
  unfoldable pub rename_agent : Text → Text → Store → Store
  unfolding take_over rename_message rename_room values_mut reindex retrack
  rename_agent from to s = elim (get from s.agents) [
    | none ↦ s
    | some a ↦ retrack (
        reindex (record s {
          agents = take_over from to a s.agents;
          messages = values_mut out.message (rename_message from to) s.messages;
          broadcasts = each (λ b. record b { from = renamed from to b.from }) s.broadcasts;
          sessions = each (λ v. record v { agent = renamed from to v.agent }) s.sessions;
          rooms = values_mut out.room (rename_room from to) s.rooms;
        }))
  ]

  -- `Store::apply`
  unfoldable pub apply : Effect → Store → Store
  unfolding enter apply_message alter leased_to settled_as remove_messages apply_broadcast
      remove_broadcasts apply_cursor rename_agent forget_agent apply_room alter_room put_or_take
      change apply_post ask_post apply_drop_posts apply_drop_room run_commands
  apply (agent name at) s = record s { agents = enter name at s.agents }
  apply (message m) s = apply_message out m s
  apply (lease id consumer token at until) s = alter out id (leased_to consumer token at until) s
  apply (settle id state at) s = alter out id (settled_as state at) s
  apply (drop ids) s = remove_messages out ids s
  apply (broadcast b) s = apply_broadcast b s
  apply (drop_broadcasts ids) s = remove_broadcasts ids s
  apply (cursor name id) s = apply_cursor name id s
  apply (rename from to) s = rename_agent from to s
  apply (forget name) s = forget_agent out name s
  apply (room r) s = apply_room out r s
  apply (member name who m) s =
      alter_room out name (λ r. record r { members = put_or_take who m r.members }) s
  apply (room_cursor name who id) s =
      alter_room out name
        (λ r. record r { members = change who (λ m. record m { cursor = some id }) r.members }) s
  apply (post name p) s = apply_post out name p s
  apply (question name id status at) s = alter_room out name (ask_post id status at) s
  apply (drop_posts name ids) s = apply_drop_posts out name ids s
  apply (topic name text) s = alter_room out name (λ r. record r { topic = text }) s
  apply (close name at) s = alter_room out name (λ r. record r { closed = at }) s
  apply (board name k e) s =
      alter_room out name (λ r. record r { board = put_or_take k e r.board }) s
  apply (drop_room name) s = apply_drop_room out name s
  apply (db at commands) s = run_commands out at commands s
