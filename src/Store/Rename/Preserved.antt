-- ===== src/Store/Rename/Preserved.antt =====
-- src/store.rs, `Store::apply`: whatever the effect, the inboxes and the due indexes stay in step with
-- the messages, so that rebuilding them changes nothing.
use postino.Prelude.{
  ℕ, ◌≡◌, refl, subst, ◌∙◌, Bool-cases, Option-cases, inl, inr, some, List, [], ◌∷◌, arith,
}
use postino.Prelude.Order.{text_order, cmp_text-IsOrder}
use postino.Prelude.Map.{Map, get}
use postino.Prelude.Map.Length.{has_key}
use postino.Prelude.Text.{Text}
use postino.Id.{EntryId, id_order}
use postino.Captured.{each, values_mut, change}
use postino.Captured.Maps.{each-IsSorted, each-cases, get-change}
use postino.Store.Messages.{Agent, no_due}
use postino.Store.Tracking.{track_all, cleared}
use postino.Store.Tracking.Homes.{homed, keep-InboxAgrees}
use postino.Store.Rooms.{Post}
use postino.Store.Effects.{
  Effect, agent, message, lease, settle, drop, broadcast, drop_broadcasts, cursor, rename, forget,
  room, member, room_cursor, post, question, drop_posts, topic, close, board, drop_room, db, Store,
  Outside,
}
use postino.Store.Apply.{
  alter_room, apply_broadcast, remove_broadcasts, apply_cursor, apply_room, apply_post,
  apply_drop_posts, apply_drop_room, run_commands,
}
use postino.Store.Changes.{leased_to, settled_as}
use postino.Store.Apply.Invariant.{IsTracked, InStep, enter-InStep, touch-Tracks}
use postino.Store.Apply.Kept.{apply_message-IsTracked, alter-IsTracked}
use postino.Store.Apply.Forgetting.{drop-IsTracked, forget_agent-IsTracked}
use postino.Store.Rename.{retrack, reindex, rename_agent, apply, rename_message, take_over}
use postino.Store.Rename.Rebuild.{rebuilt-Tracks, homed-rebuilt}
use postino.Store.Rename.Taking.{take_over-IsSorted, rename_message-id, rename_message-Housed}

homed-cursor :
    (name : Text) (c : EntryId) (agents : Map Text Agent) (a : Text) (id : EntryId)
    → homed (change name (λ r. record r { cursor = some c }) agents) a id ≡ homed agents a id
homed-cursor name c agents a id = ground (
  arith,
  get-change name a (λ r. record r { cursor = some c }) agents,
  cmp_text-IsOrder.eq_of_cmp a name,
)

apply_cursor-IsTracked :
    (name : Text) (id : EntryId) (s : Store) → IsTracked s → IsTracked (apply_cursor name id s)
unfolding apply_cursor
apply_cursor-IsTracked name id s v = record {
  tracks =
      touch-Tracks name (λ r. record r { cursor = some id })
        (λ a r. keep-InboxAgrees r r.name (some id) r.inbox) v.tracks;
  housed = λ j m h. homed-cursor name id s.agents m.to j ∙ v.housed j m h;
}

remove_broadcasts-IsTracked :
    (ids : List EntryId) (s : Store) → IsTracked s → IsTracked (remove_broadcasts ids s)
unfolding remove_broadcasts
remove_broadcasts-IsTracked [] s v = v
remove_broadcasts-IsTracked (id ∷ ids) s v = remove_broadcasts-IsTracked ids _ v

renamed-IsTracked :
    (from to : Text) (a : Agent) (s : Store)
    → get from s.agents ≡ some a
    → IsTracked s
    → InStep (each (rename_message from to) s.messages.map) (
        track_all
          (each (rename_message from to) s.messages.map)
          (record { agents = each cleared (take_over from to a s.agents); due = no_due }))
renamed-IsTracked from to a s e v =
    let f = rename_message from to in
    let ms = each f s.messages.map in
    let agents = take_over from to a s.agents in
    record {
      tracks =
          rebuilt-Tracks ms agents (each-IsSorted f s.messages.map v.tracks.sorted)
            (λ id m h.
              let (x, g, p) = each-cases id f s.messages.map m h in
              subst (λ y. y.id ≡ id) p (rename_message-id from to x ∙ v.tracks.ids id x g))
            (take_over-IsSorted from to a s.agents v.tracks.agents_sorted);
      housed = λ id m h.
          homed-rebuilt ms agents m.to id
          ∙ rename_message-Housed from to a s.agents s.messages.map e v.housed id m h;
    }

module _ (out : Outside) where
  rename_agent-IsTracked :
      (from to : Text) (s : Store) → IsTracked s → IsTracked (rename_agent out from to s)
  unfolding rename_agent retrack reindex values_mut
  rename_agent-IsTracked from to s v = elim (Option-cases (get from s.agents)) [
    | inl e ↦ rw (e, rename_agent) v
    | inr (a, e) ↦ rw (e, rename_agent) (renamed-IsTracked from to a s e v)
  ]

  run_commands-IsTracked :
      (at : ℕ) (commands : List (List Text)) (s : Store)
      → IsTracked s
      → IsTracked (run_commands out at commands s)
  unfolding run_commands
  run_commands-IsTracked at [] s v = v
  run_commands-IsTracked at (argv ∷ rest) s v = run_commands-IsTracked at rest _ v

  apply_post-IsTracked :
      (name : Text) (p : Post) (s : Store) → IsTracked s → IsTracked (apply_post out name p s)
  unfolding apply_post alter_room
  apply_post-IsTracked name p s v = elim (Bool-cases (has_key name s.rooms.map)) [
    | inl e ↦ rw (e, apply_post) v
    | inr e ↦ rw (e, apply_post) v
  ]

  -- Whatever the effect, the queued and handled ids, the counts and the senders of each inbox and
  -- the due indexes stay those of the messages, and each message stays in the inbox of an agent
  -- that is there.
  pub apply-IsTracked : (e : Effect) (s : Store) → IsTracked s → IsTracked (apply out e s)
  unfolding apply alter_room apply_broadcast apply_room apply_drop_posts apply_drop_room leased_to
      settled_as
  apply-IsTracked (agent name at) s v = enter-InStep name at v
  apply-IsTracked (message m) s v = apply_message-IsTracked out m s v
  apply-IsTracked (lease id consumer token at until) s v =
      alter-IsTracked out id (leased_to consumer token at until) s (λ m. (refl, refl)) v
  apply-IsTracked (settle id state at) s v =
      alter-IsTracked out id (settled_as state at) s (λ m. (refl, refl)) v
  apply-IsTracked (drop ids) s v = drop-IsTracked out ids s v
  apply-IsTracked (broadcast b) s v = v
  apply-IsTracked (drop_broadcasts ids) s v = remove_broadcasts-IsTracked ids s v
  apply-IsTracked (cursor name id) s v = apply_cursor-IsTracked name id s v
  apply-IsTracked (rename from to) s v = rename_agent-IsTracked from to s v
  apply-IsTracked (forget name) s v = forget_agent-IsTracked out name s v
  apply-IsTracked (post name p) s v = apply_post-IsTracked name p s v
  apply-IsTracked (db at commands) s v = run_commands-IsTracked at commands s v
  apply-IsTracked (room r) s v = v
  apply-IsTracked (member name who m) s v = v
  apply-IsTracked (room_cursor name who id) s v = v
  apply-IsTracked (question name id status at) s v = v
  apply-IsTracked (drop_posts name ids) s v = v
  apply-IsTracked (topic name text) s v = v
  apply-IsTracked (close name at) s v = v
  apply-IsTracked (board name k e) s v = v
  apply-IsTracked (drop_room name) s v = v
