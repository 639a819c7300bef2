-- ===== src/Store/Issued/Kept.antt =====
-- src/store.rs, the parts of `Store::apply` that bring ids or take them away, with `last_id`.
use postino.Prelude.{ℕ, sym, subst, Bool-cases, Option-cases, inl, inr, List, [], ◌∷◌, arith}
use postino.Prelude.Order.{text_order}
use postino.Prelude.Map.{keys, get, remove, IsSorted}
use postino.Prelude.Map.Length.{has_key}
use postino.Prelude.Text.{Text}
use postino.Id.{EntryId, id_order}
use postino.Captured.{last_of, values_mut, get_mut, put, take_key, preserve, capture_step}
use postino.Captured.Maps.{change_absent}
use postino.Store.Messages.{Message}
use postino.Store.Rooms.{Room, Post}
use postino.Store.Effects.{Store, Outside}
use postino.Store.Apply.{
  alter, remove_message, remove_messages, apply_message, remove_broadcasts, forget_agent,
  apply_room, alter_room, apply_post, run_commands, run_command,
}
use postino.Store.Changes.{max, add_post}
use postino.Store.Rename.{rename_agent, rename_room, retrack, reindex}
use postino.Store.Issued.{
  Within, Posted, IsIssued, max_le, Within-max, Within-insert, Within-remove, Within-each,
  Within-change, Posted-max, Posted-each, Posted-change, Posted-insert,
}
use postino.Store.Issued.Posts.{
  last_of-Within, last_of-nil, add_post-Within, rename_room-Within, le_max',
}

pub remove_broadcasts-IsIssued :
    (ids : List EntryId) (s : Store) → IsIssued s → IsIssued (remove_broadcasts ids s)
unfolding remove_broadcasts
remove_broadcasts-IsIssued [] s v = v
remove_broadcasts-IsIssued (id ∷ ids) s v = remove_broadcasts-IsIssued ids _ (record {
  messages = v.messages;
  broadcasts = Within-remove s.last_id s.broadcasts v.broadcasts id;
  posts = v.posts;
})

module _ (out : Outside) where
  remove_message-IsIssued :
      (id : EntryId) (s : Store) → IsIssued s → IsIssued (remove_message out id s)
  unfolding remove_message take_key preserve
  remove_message-IsIssued id s v = elim (Option-cases (get id s.messages.map)) [
    | inl e ↦
        rw (e, remove_message)
          (record {
            messages = Within-remove s.last_id s.messages.map v.messages id;
            broadcasts = v.broadcasts;
            posts = v.posts;
          })
    | inr (m, e) ↦
        rw (e, remove_message)
          (record {
            messages = Within-remove s.last_id s.messages.map v.messages id;
            broadcasts = v.broadcasts;
            posts = v.posts;
          })
  ]

  pub remove_messages-IsIssued :
      (ids : List EntryId) (s : Store) → IsIssued s → IsIssued (remove_messages out ids s)
  unfolding remove_messages
  remove_messages-IsIssued [] s v = v
  remove_messages-IsIssued (id ∷ ids) s v =
      remove_messages-IsIssued ids (remove_message out id s) (remove_message-IsIssued id s v)

  pub alter-IsIssued :
      (id : EntryId) (f : Message → Message) (s : Store) → IsIssued s → IsIssued (alter out id f s)
  unfolding alter get_mut preserve
  alter-IsIssued id f s v = elim (Option-cases (get id s.messages.map)) [
    | inl e ↦
        rw (e, alter)
          (record {
            messages = Within-change s.last_id s.messages.map v.messages id f;
            broadcasts = v.broadcasts;
            posts = v.posts;
          })
    | inr (m, e) ↦
        rw (e, alter)
          (record {
            messages = Within-change s.last_id s.messages.map v.messages id f;
            broadcasts = v.broadcasts;
            posts = v.posts;
          })
  ]

  pub alter_room-IsIssued :
      (name : Text) (f : Room → Room) (s : Store)
      → ((r : Room) → Within s.last_id r.posts → Within s.last_id (f r).posts)
      → IsIssued s
      → IsIssued (alter_room out name f s)
  unfolding alter_room get_mut preserve
  alter_room-IsIssued name f s keep v = record {
    messages = v.messages;
    broadcasts = v.broadcasts;
    posts = Posted-change s.last_id s.rooms.map v.posts name f keep;
  }

  pub apply_message-IsIssued :
      (m : Message) (s : Store) → IsIssued s → IsIssued (apply_message out m s)
  unfolding apply_message put preserve
  apply_message-IsIssued m s v = record {
    messages =
        Within-insert (max s.last_id m.id) s.messages.map
          (Within-max s.last_id s.messages.map v.messages m.id) m.id m (max_le s.last_id m.id);
    broadcasts = Within-max s.last_id s.broadcasts v.broadcasts m.id;
    posts = Posted-max s.last_id s.rooms.map v.posts m.id;
  }

  pub apply_room-IsIssued :
      (r : Room) (s : Store) → IsSorted r.posts → IsIssued s → IsIssued (apply_room out r s)
  unfolding apply_room put preserve
  apply_room-IsIssued r s sorted v = elim (Option-cases (last_of (keys r.posts))) [
    | inl e ↦
        rw (e, apply_room)
          (record {
            messages = v.messages;
            broadcasts = v.broadcasts;
            posts =
                Posted-insert s.last_id s.rooms.map v.posts r.name _
                  (last_of-nil r.posts s.last_id e);
          })
    | inr (b, e) ↦
        rw (e, apply_room)
          (record {
            messages = Within-max s.last_id s.messages.map v.messages b;
            broadcasts = Within-max s.last_id s.broadcasts v.broadcasts b;
            posts =
                Posted-insert (max s.last_id b) s.rooms.map
                  (Posted-max s.last_id s.rooms.map v.posts b) r.name _
                  (λ id p h. le_max' s.last_id b id (last_of-Within r.posts b sorted e id p h));
          })
  ]

  pub apply_post-IsIssued :
      (name : Text) (p : Post) (s : Store) → IsIssued s → IsIssued (apply_post out name p s)
  unfolding apply_post alter_room get_mut preserve
  apply_post-IsIssued name p s v = elim (Bool-cases (has_key name s.rooms.map)) [
    | inr e ↦
        rw (e, apply_post)
          (record {
            messages = v.messages;
            broadcasts = v.broadcasts;
            posts =
                subst (Posted s.last_id)
                  (sym (change_absent name (add_post p) s.rooms.map (ground (arith, e)))) v.posts;
          })
    | inl e ↦
        rw (e, apply_post)
          (record {
            messages = Within-max s.last_id s.messages.map v.messages p.id;
            broadcasts = Within-max s.last_id s.broadcasts v.broadcasts p.id;
            posts =
                Posted-change (max s.last_id p.id) s.rooms.map
                  (Posted-max s.last_id s.rooms.map v.posts p.id) name (add_post p)
                  (add_post-Within p (max s.last_id p.id) (max_le s.last_id p.id));
          })
  ]

  pub forget_agent-IsIssued :
      (name : Text) (s : Store) → IsIssued s → IsIssued (forget_agent out name s)
  unfolding forget_agent values_mut capture_step
  forget_agent-IsIssued name s v = elim (Option-cases (get name s.agents)) [
    | inl e ↦
        rw (e, forget_agent)
          (record {
            messages = v.messages;
            broadcasts = v.broadcasts;
            posts = Posted-each s.last_id s.rooms.map v.posts _ (λ r h. h);
          })
    | inr (r, e) ↦
        let w =
          remove_messages-IsIssued (keys r.inbox) (record s { agents = remove name s.agents })
            (record { messages = v.messages; broadcasts = v.broadcasts; posts = v.posts }) in
        rw (e, forget_agent)
          (record {
            messages = w.messages;
            broadcasts = w.broadcasts;
            posts = Posted-each _ _ w.posts _ (λ r h. h);
          })
  ]

  pub rename_agent-IsIssued :
      (from to : Text) (s : Store) → IsIssued s → IsIssued (rename_agent out from to s)
  unfolding rename_agent retrack reindex values_mut capture_step
  rename_agent-IsIssued from to s v = elim (Option-cases (get from s.agents)) [
    | inl e ↦ rw (e, rename_agent) v
    | inr (a, e) ↦
        rw (e, rename_agent)
          (record {
            messages = Within-each s.last_id s.messages.map v.messages _;
            broadcasts = Within-each s.last_id s.broadcasts v.broadcasts _;
            posts =
                Posted-each s.last_id s.rooms.map v.posts (rename_room from to)
                  (rename_room-Within from to s.last_id);
          })
  ]

  pub run_commands-IsIssued :
      (at : ℕ) (commands : List (List Text)) (s : Store)
      → IsIssued s
      → IsIssued (run_commands out at commands s)
  unfolding run_commands
  run_commands-IsIssued at [] s v = v
  run_commands-IsIssued at (argv ∷ rest) s v =
      run_commands-IsIssued at rest (record s { db = run_command out at argv s.db })
        (record { messages = v.messages; broadcasts = v.broadcasts; posts = v.posts })
