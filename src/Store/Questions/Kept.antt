-- ===== src/Store/Questions/Kept.antt =====
-- src/store.rs, `Store::apply`: whatever the effect, each room keeps the ids of its open questions.
use postino.Prelude.{
  ℕ, ◌≡◌, refl, sym, subst, ◌∙◌, Bool-cases, Option-cases, inl, inr, true, some, List, [], ◌∷◌,
  arith,
}
use postino.Prelude.Order.{key_lt, text_order}
use postino.Prelude.Map.{keys, get, remove}
use postino.Prelude.Map.Length.{has_key}
use postino.Prelude.Text.{Text}
use postino.Id.{EntryId, id_order}
use postino.Captured.{values_mut, get_mut, put, take_key, preserve, capture_step}
use postino.Captured.Each.{Each, Each-insert, Each-remove, Each-each, Each-change}
use postino.Store.Messages.{Message}
use postino.Store.Rooms.{Room, Post}
use postino.Store.Effects.{
  Effect, agent, message, lease, settle, drop, broadcast, drop_broadcasts, cursor, rename, forget,
  room, member, room_cursor, post, question, drop_posts, topic, close, board, drop_room, db, Store,
  Outside,
}
use postino.Store.Apply.{
  alter, remove_message, remove_messages, apply_message, apply_broadcast, remove_broadcasts,
  apply_cursor, forget_agent, apply_room, alter_room, apply_post, apply_drop_posts, apply_drop_room,
  run_commands, run_command,
}
use postino.Store.Changes.{add_post, drop_all_posts, open_ids}
use postino.Store.Rename.{apply, rename_agent, rename_room, retrack, reindex}
use postino.Store.Issued.{IsIssued}
use postino.Store.Issued.Next.{new-Within}
use postino.Store.Questions.{
  IsAsked, IsKeyed, open_ids-IsAsked, add_post-IsAsked, ask_post-IsAsked, drop_all_posts-IsAsked,
  rename_room-IsAsked,
}

abbrev pub AllAsked : Store → Type 0
AllAsked s = Each IsAsked s.rooms.map

-- A room that comes as a whole has its posts in order under their ids, and a post comes with an id
-- that is new.
abbrev pub Fits : Effect → Store → Type 0
Fits (room r) s = IsKeyed r.posts
Fits (post name p) s = key_lt s.last_id p.id ≡ true
Fits _ s = Unit

module _ (out : Outside) where
  rooms-remove_message :
      (id : EntryId) (s : Store) → (remove_message out id s).rooms.map ≡ s.rooms.map
  unfolding remove_message
  rooms-remove_message id s = ground arith

  rooms-remove_messages :
      (ids : List EntryId) (s : Store) → (remove_messages out ids s).rooms.map ≡ s.rooms.map
  unfolding remove_messages
  rooms-remove_messages [] s = refl
  rooms-remove_messages (id ∷ ids) s =
      rooms-remove_messages ids (remove_message out id s) ∙ rooms-remove_message id s

  rooms-alter :
      (id : EntryId) (f : Message → Message) (s : Store)
      → (alter out id f s).rooms.map ≡ s.rooms.map
  unfolding alter
  rooms-alter id f s = ground (arith)

  alter_room-AllAsked :
      (name : Text) (f : Room → Room) (s : Store)
      → ((r : Room) → get name s.rooms.map ≡ some r → IsAsked r → IsAsked (f r))
      → AllAsked s
      → AllAsked (alter_room out name f s)
  unfolding alter_room get_mut preserve
  alter_room-AllAsked name f s keep v = Each-change IsAsked s.rooms.map v name f keep

  apply_post-AllAsked :
      (name : Text) (p : Post) (s : Store)
      → key_lt s.last_id p.id ≡ true
      → IsIssued s
      → AllAsked s
      → AllAsked (apply_post out name p s)
  unfolding apply_post
  apply_post-AllAsked name p s later i v =
      let w =
        alter_room-AllAsked name (add_post p) s
          (λ r e. add_post-IsAsked p r (new-Within r.posts s.last_id p.id (i.posts name r e) later))
          v in
      elim (Bool-cases (has_key name s.rooms.map)) [
        | inl e ↦ rw (e, apply_post) w
        | inr e ↦ rw (e, apply_post) w
      ]

  forget_agent-AllAsked :
      (name : Text) (s : Store) → AllAsked s → AllAsked (forget_agent out name s)
  unfolding forget_agent values_mut capture_step
  forget_agent-AllAsked name s v = elim (Option-cases (get name s.agents)) [
    | inl e ↦ rw (e, forget_agent) (Each-each IsAsked s.rooms.map v _ (λ r h. h))
    | inr (r, e) ↦
        rw (e, forget_agent)
          (Each-each IsAsked _
            (subst (Each IsAsked)
              (sym
                (rooms-remove_messages (keys r.inbox) (record s { agents = remove name s.agents })))
              v)
            _ (λ r h. h))
  ]

  rename_agent-AllAsked :
      (from to : Text) (s : Store) → AllAsked s → AllAsked (rename_agent out from to s)
  unfolding rename_agent retrack reindex values_mut capture_step
  rename_agent-AllAsked from to s v = elim (Option-cases (get from s.agents)) [
    | inl e ↦ rw (e, rename_agent) v
    | inr (a, e) ↦
        rw (e, rename_agent)
          (Each-each IsAsked s.rooms.map v (rename_room from to) (rename_room-IsAsked from to))
  ]

  apply_room-AllAsked :
      (r : Room) (s : Store) → IsKeyed r.posts → AllAsked s → AllAsked (apply_room out r s)
  unfolding apply_room put preserve
  apply_room-AllAsked r s k v =
      Each-insert IsAsked s.rooms.map v r.name (record r { open_ = open_ids r.posts })
        (open_ids-IsAsked r.posts k)

  run_commands-AllAsked :
      (at : ℕ) (commands : List (List Text)) (s : Store)
      → AllAsked s
      → AllAsked (run_commands out at commands s)
  unfolding run_commands
  run_commands-AllAsked at [] s v = v
  run_commands-AllAsked at (argv ∷ rest) s v =
      run_commands-AllAsked at rest (record s { db = run_command out at argv s.db }) v

  remove_broadcasts-AllAsked :
      (ids : List EntryId) (s : Store) → AllAsked s → AllAsked (remove_broadcasts ids s)
  unfolding remove_broadcasts
  remove_broadcasts-AllAsked [] s v = v
  remove_broadcasts-AllAsked (id ∷ ids) s v = remove_broadcasts-AllAsked ids _ v

  -- Whatever the effect, the ids that each room keeps of its open questions stay those of its posts
  -- that are open questions, where no message, broadcast or post has an id after `last_id`, a room
  -- that comes as a whole has its posts in order under their ids, and a post comes with an id after
  -- `last_id`.
  pub apply-AllAsked :
      (e : Effect) (s : Store) → Fits e s → IsIssued s → AllAsked s → AllAsked (apply out e s)
  unfolding apply apply_message apply_broadcast apply_cursor apply_drop_posts apply_drop_room
      take_key put preserve
  apply-AllAsked (message m) s f i v = v
  apply-AllAsked (lease id consumer token at until) s f i v =
      subst (Each IsAsked) (sym (rooms-alter id _ s)) v
  apply-AllAsked (settle id state at) s f i v = subst (Each IsAsked) (sym (rooms-alter id _ s)) v
  apply-AllAsked (drop ids) s f i v = subst (Each IsAsked) (sym (rooms-remove_messages ids s)) v
  apply-AllAsked (broadcast b) s f i v = v
  apply-AllAsked (drop_broadcasts ids) s f i v = remove_broadcasts-AllAsked ids s v
  apply-AllAsked (rename from to) s f i v = rename_agent-AllAsked from to s v
  apply-AllAsked (forget name) s f i v = forget_agent-AllAsked name s v
  apply-AllAsked (room r) s f i v = apply_room-AllAsked r s f v
  apply-AllAsked (post name p) s f i v = apply_post-AllAsked name p s f i v
  apply-AllAsked (db at commands) s f i v = run_commands-AllAsked at commands s v
  apply-AllAsked (agent name at) s f i v = v
  apply-AllAsked (cursor name id) s f i v = v
  apply-AllAsked (member name who m) s f i v = alter_room-AllAsked name _ s (λ r e h. h) v
  apply-AllAsked (room_cursor name who id) s f i v = alter_room-AllAsked name _ s (λ r e h. h) v
  apply-AllAsked (question name id status at) s f i v =
      alter_room-AllAsked name _ s (λ r e. ask_post-IsAsked id status at r) v
  apply-AllAsked (drop_posts name ids) s f i v =
      alter_room-AllAsked name (drop_all_posts ids) s (λ r e. drop_all_posts-IsAsked ids r) v
  apply-AllAsked (topic name text) s f i v = alter_room-AllAsked name _ s (λ r e h. h) v
  apply-AllAsked (close name at) s f i v = alter_room-AllAsked name _ s (λ r e h. h) v
  apply-AllAsked (board name k e) s f i v = alter_room-AllAsked name _ s (λ r e h. h) v
  apply-AllAsked (drop_room name) s f i v = Each-remove IsAsked s.rooms.map v name
