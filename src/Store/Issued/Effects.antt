-- ===== src/Store/Issued/Effects.antt =====
-- src/store.rs, `Store::apply`: no effect brings a later id than `last_id`.
use postino.Prelude.Order.{text_order}
use postino.Prelude.Map.{IsSorted}
use postino.Id.{id_order}
use postino.Captured.{get_mut, take_key, preserve}
use postino.Store.Effects.{
  Effect, agent, message, lease, settle, drop, broadcast, drop_broadcasts, cursor, rename, forget,
  room, member, room_cursor, post, question, drop_posts, topic, close, board, drop_room, db, Store,
  Outside,
}
use postino.Store.Apply.{
  apply_broadcast, apply_cursor, alter_room, apply_drop_posts, apply_drop_room,
}
use postino.Store.Changes.{max, drop_all_posts}
use postino.Store.Rename.{apply}
use postino.Store.Issued.{IsIssued, max_le, Within-max, Within-insert, Posted-max, Posted-remove}
use postino.Store.Issued.Posts.{drop_all_posts-Within, ask_post-Within}
use postino.Store.Issued.Kept.{
  remove_broadcasts-IsIssued, remove_messages-IsIssued, alter-IsIssued, alter_room-IsIssued,
  apply_message-IsIssued, apply_room-IsIssued, apply_post-IsIssued, forget_agent-IsIssued,
  rename_agent-IsIssued, run_commands-IsIssued,
}

module _ (out : Outside) where
  -- The posts of a room that comes as a whole are in order.
  abbrev pub IsOrdered : Effect → Type 0
  IsOrdered (room r) = IsSorted r.posts
  IsOrdered _ = Unit

  -- No effect brings a message, a broadcast or a post with an id after `last_id`, where the posts of
  -- a room that comes as a whole are in order.
  pub apply-IsIssued :
      (e : Effect) (s : Store) → IsOrdered e → IsIssued s → IsIssued (apply out e s)
  unfolding apply apply_broadcast apply_cursor apply_drop_posts apply_drop_room take_key preserve
      alter_room get_mut
  apply-IsIssued (message m) s o v = apply_message-IsIssued out m s v
  apply-IsIssued (lease id consumer token at until) s o v = alter-IsIssued out id _ s v
  apply-IsIssued (settle id state at) s o v = alter-IsIssued out id _ s v
  apply-IsIssued (drop ids) s o v = remove_messages-IsIssued out ids s v
  apply-IsIssued (broadcast b) s o v = record {
    messages = Within-max s.last_id s.messages.map v.messages b.id;
    broadcasts =
        Within-insert (max s.last_id b.id) s.broadcasts
          (Within-max s.last_id s.broadcasts v.broadcasts b.id) b.id b (max_le s.last_id b.id);
    posts = Posted-max s.last_id s.rooms.map v.posts b.id;
  }
  apply-IsIssued (drop_broadcasts ids) s o v = remove_broadcasts-IsIssued ids s v
  apply-IsIssued (rename from to) s o v = rename_agent-IsIssued out from to s v
  apply-IsIssued (forget name) s o v = forget_agent-IsIssued out name s v
  apply-IsIssued (room r) s o v = apply_room-IsIssued out r s o v
  apply-IsIssued (post name p) s o v = apply_post-IsIssued out name p s v
  apply-IsIssued (db at commands) s o v = run_commands-IsIssued out at commands s v
  apply-IsIssued (agent name at) s o v = record {
    messages = v.messages;
    broadcasts = v.broadcasts;
    posts = v.posts;
  }
  apply-IsIssued (cursor name id) s o v = record {
    messages = v.messages;
    broadcasts = v.broadcasts;
    posts = v.posts;
  }
  apply-IsIssued (member name who m) s o v = alter_room-IsIssued out name _ s (λ r h. h) v
  apply-IsIssued (room_cursor name who id) s o v = alter_room-IsIssued out name _ s (λ r h. h) v
  apply-IsIssued (question name id status at) s o v =
      alter_room-IsIssued out name _ s (ask_post-Within id status at s.last_id) v
  apply-IsIssued (drop_posts name ids) s o v =
      let w =
        alter_room-IsIssued out name (drop_all_posts ids) s (drop_all_posts-Within ids s.last_id)
          v in
      record { messages = w.messages; broadcasts = w.broadcasts; posts = w.posts }
  apply-IsIssued (topic name text) s o v = alter_room-IsIssued out name _ s (λ r h. h) v
  apply-IsIssued (close name at) s o v = alter_room-IsIssued out name _ s (λ r h. h) v
  apply-IsIssued (board name k e) s o v = alter_room-IsIssued out name _ s (λ r h. h) v
  apply-IsIssued (drop_room name) s o v = record {
    messages = v.messages;
    broadcasts = v.broadcasts;
    posts = Posted-remove s.last_id s.rooms.map v.posts name;
  }
