-- ===== src/Store/Apply.antt =====
-- src/store.rs, `Store::apply`: what each effect does to the state. `remove_message`, `rename`,
-- `retrack` and `reindex` are the methods it calls.
pub mod Invariant
pub mod Kept
pub mod Forgetting
use postino.Db.{Db}
use postino.Commands.Dispatch
use postino.Commands.Exec.{replaying}
use postino.Store.Changes.{
  max, note_key, drop_key, retain, message_key, broadcast_key, post_key, discard, replaced,
  addressed, open_ids, note_posts, add_post, drop_all_posts, drop_post_keys,
}
use postino.Prelude.{
  ℕ, ◌+◌, ◌%◌, ◌^◌, Bool, true, false, not, Option, none, some, List, [], ◌∷◌, if◌then◌else◌,
}
use postino.Prelude.Order.{Order, key_eq, key_lt, text_order, pair_order}
use postino.Prelude.Map.{Map, keys, get, insert, remove}
use postino.Prelude.Map.Length.{has_key}
use postino.Prelude.Text.{Text}
use postino.Id.{EntryId, id_order}
use postino.Captured.{Captured, change, each, last_of, get_mut, put, take_key, values_mut}
use postino.Store.Messages
use postino.Store.Messages.{
  State, queued, leased, is_pending, Lease, Message, Broadcast, Agent, no_due, Ids,
}
use postino.Store.Rooms.{
  Role, owner, Member, Status, Ask, Post, Entry, Room, is_open_question, is_opened, is_owner_role,
}
use postino.Store.Tracking.{Tracked, track, track_all, cleared}
use postino.Store.Effects.{Store, Outside, tracked, with_tracked}

unfoldable pub apply_broadcast : Broadcast → Store → Store
unfolding broadcast_key
apply_broadcast b s = record s {
  last_id = max s.last_id b.id;
  bc_keys = note_key (broadcast_key b) b.id s.bc_keys;
  broadcasts = insert b.id b s.broadcasts;
}

unfoldable pub remove_broadcasts : List EntryId → Store → Store
unfolding broadcast_key
remove_broadcasts [] s = s
remove_broadcasts (id ∷ ids) s = remove_broadcasts ids (record s {
  broadcasts = remove id s.broadcasts;
  bc_keys = elim (get id s.broadcasts) [
    | none ↦ s.bc_keys
    | some b ↦ drop_key (broadcast_key b) s.bc_keys
  ];
})

unfoldable pub apply_cursor : Text → EntryId → Store → Store
unfolding change
apply_cursor name id s = record s {
  agents = change name (λ a. record a { cursor = some id }) s.agents;
}

module _ (out : Outside) where
  -- A change of one message, which is taken from the indexes first and added again after.
  unfoldable pub alter : EntryId → (Message → Message) → Store → Store
  unfolding track get_mut
  alter id f s =
      let s' : Store = record s { messages = get_mut out.message id f s.messages } in
      elim (get id s.messages.map) [
        | none ↦ s'
        | some m ↦ with_tracked s' (track true (f m) (track false m (tracked s)))
      ]

  unfoldable pub remove_message : EntryId → Store → Store
  unfolding track take_key change discard message_key
  remove_message id s =
      let (messages, held) = take_key out.message id s.messages in
      elim held [
        | none ↦ record s { messages = messages }
        | some m ↦
            let t = track false m (tracked s) in
            record s {
              messages = messages;
              due = t.due;
              agents = change m.to (discard id) t.agents;
              msg_keys = drop_key (message_key m) s.msg_keys;
            }
      ]

  unfoldable pub remove_messages : List EntryId → Store → Store
  unfolding remove_message
  remove_messages [] s = s
  remove_messages (id ∷ ids) s = remove_messages ids (remove_message id s)

  unfoldable pub apply_message : Message → Store → Store
  unfolding replaced addressed track put message_key
  apply_message m s =
      let t = track true m (addressed m (replaced m (tracked s) s.messages.map)) in
      record s {
        last_id = max s.last_id m.id;
        agents = t.agents;
        due = t.due;
        msg_keys = note_key (message_key m) m.id s.msg_keys;
        messages = put out.message m.id m s.messages;
      }

  unfoldable pub forget_agent : Text → Store → Store
  unfolding remove_messages retain values_mut
  forget_agent name s =
      let s' : Store = elim (get name s.agents) [
        | none ↦ s
        | some r ↦ remove_messages (keys r.inbox) (record s { agents = remove name s.agents })
      ] in
      record s' {
        sessions = retain (λ _ v. not (key_eq v.agent name)) s'.sessions;
        rooms = values_mut out.room (λ r. record r { members = remove name r.members }) s'.rooms;
      }

  unfoldable pub apply_room : Room → Store → Store
  unfolding note_posts open_ids put last_of
  apply_room r s = record s {
    last_id = elim (last_of (keys r.posts)) [ none ↦ s.last_id | some id ↦ max s.last_id id ];
    post_keys = note_posts r.name r.posts s.post_keys;
    rooms = put out.room r.name (record r { open_ = open_ids r.posts }) s.rooms;
  }

  -- A change of a room, if it is there.
  unfoldable pub alter_room : Text → (Room → Room) → Store → Store
  unfolding get_mut
  alter_room name f s = record s { rooms = get_mut out.room name f s.rooms }

  unfoldable pub apply_post : Text → Post → Store → Store
  unfolding alter_room add_post post_key
  apply_post name p s =
      let s' = alter_room name (add_post p) s in
      if has_key name s.rooms.map
      then record s' {
        last_id = max s.last_id p.id;
        post_keys = note_key (post_key name p) p.id s.post_keys;
      }
      else s'

  unfoldable pub apply_drop_posts : Text → List EntryId → Store → Store
  unfolding alter_room drop_all_posts drop_post_keys
  apply_drop_posts name ids s =
      let s' = alter_room name (drop_all_posts ids) s in
      record s' {
        post_keys = elim (get name s.rooms.map) [
          | none ↦ s.post_keys
          | some r ↦ drop_post_keys name ids r s.post_keys
        ];
      }

  unfoldable pub apply_drop_room : Text → Store → Store
  unfolding take_key retain
  apply_drop_room name s = record s {
    rooms = (take_key out.room name s.rooms).0;
    post_keys = retain (λ k _. not (key_eq k.0 name)) s.post_keys;
  }

  -- `Db::exec` of a command when it is replayed: the table of commands, and what is not in it.
  unfoldable pub run_command : ℕ → List Text → Db → Db
  unfolding Dispatch.run
  run_command at argv d = elim (Dispatch.run out.keys (replaying at) argv d) [
    | none ↦ out.other at argv d
    | some (_, d') ↦ d'
  ]

  unfoldable pub run_commands : ℕ → List (List Text) → Store → Store
  unfolding run_command
  run_commands at [] s = s
  run_commands at (argv ∷ rest) s =
      run_commands at rest (record s { db = run_command at argv s.db })
