-- ===== src/Store/Apply/Kept.antt =====
-- src/store.rs, `Store::apply`: the effects on messages keep the inboxes and the due indexes in step.
use postino.Prelude.{
  ◌≡◌, subst, ◌∙◌, Option-cases, inl, inr, true, false, none, some, List, [], ◌∷◌, arith,
  if◌then◌else◌, any, ◌||◌,
}
use postino.Prelude.Order.{key_eq, text_order}
use postino.Prelude.Map.{get, remove, get-remove}
use postino.Prelude.Text.{Text}
use postino.Id.{EntryId, id_order, cmp_id-IsOrder}
use postino.Captured.{get_mut, put, take_key, preserve}
use postino.Captured.Maps.{change_absent, change_present, insert-remove, remove_absent}
use postino.Store.Messages.{Message}
use postino.Store.Tracking.{track}
use postino.Store.Tracking.Steps.{Tracks}
use postino.Store.Tracking.Homes.{homed, homed-track, homed-discard, received, keep-InboxAgrees}
use postino.Store.Effects.{Store, Outside, tracked}
use postino.Store.Apply.{alter, remove_message, remove_messages, apply_message}
use postino.Store.Changes.{discard, replaced, addressed}
use postino.Store.Apply.Invariant.{
  InStep, IsTracked, touch-Tracks, go_Tracks, replaced-InStep, addressed-InStep, come_InStep,
  again_InStep,
}
open cmp_id-IsOrder use {eq_of_cmp, cmp_refl}

module _ (out : Outside) where
  pub apply_message-IsTracked :
      (m : Message) (s : Store) → IsTracked s → IsTracked (apply_message out m s)
  unfolding apply_message put preserve addressed
  apply_message-IsTracked m s v =
      let ms = s.messages.map in
      let w = replaced-InStep m v in
      subst (λ n. InStep n (track true m (addressed m (replaced m (tracked s) ms))))
        (insert-remove m.id m ms v.tracks.sorted)
        (come_InStep m (addressed-InStep m w)
          (ground (arith, get-remove m.id m.id ms, cmp_refl m.id))
          (received m.to m.created m.id (replaced m (tracked s) ms).agents))

  -- A change that leaves a message its id and its addressee.
  pub alter-IsTracked :
      (id : EntryId) (f : Message → Message) (s : Store)
      → ((m : Message) → ((f m).id ≡ m.id) × ((f m).to ≡ m.to))
      → IsTracked s
      → IsTracked (alter out id f s)
  unfolding alter get_mut preserve
  alter-IsTracked id f s same v = elim (Option-cases (get id s.messages.map)) [
    | inl e ↦ rw (e, alter, change_absent id f s.messages.map e) v
    | inr (m, e) ↦
        rw (e, alter, change_present id f s.messages.map m e)
          (again_InStep v id m (f m) e ((same m).0 ∙ v.tracks.ids id m e) (same m).1)
  ]

  pub remove_message-Tracks :
      (id : EntryId) (s : Store)
      → Tracks s.messages.map (tracked s)
      → let s' = remove_message out id s in Tracks s'.messages.map (tracked s')
  unfolding remove_message take_key preserve
  remove_message-Tracks id s v = elim (Option-cases (get id s.messages.map)) [
    | inl e ↦ rw (e, remove_message, remove_absent id s.messages.map e) v
    | inr (m, e) ↦
        rw (e, remove_message)
          (touch-Tracks m.to (discard id)
            (λ a r. keep-InboxAgrees r r.name r.cursor (remove id r.inbox)) (go_Tracks v id m e))
  ]

  -- The other ids stay in their inboxes.
  pub homed-remove_message :
      (id : EntryId) (s : Store) (a : Text) (j : EntryId)
      → key_eq j id ≡ false
      → homed s.agents a j ≡ true
      → homed (remove_message out id s).agents a j ≡ true
  unfolding remove_message take_key preserve
  homed-remove_message id s a j o h = elim (Option-cases (get id s.messages.map)) [
    | inl e ↦ rw (e, remove_message) h
    | inr (m, e) ↦
        rw (e, remove_message)
          (homed-discard m.to id (track false m (tracked s)).agents a j o
            (homed-track false m (tracked s) a j ∙ h))
  ]

  pub get-remove_message :
      (id j : EntryId) (s : Store)
      → get j (remove_message out id s).messages.map
        ≡ (if key_eq j id then none else get j s.messages.map)
  unfolding remove_message take_key preserve
  get-remove_message id j s = elim (Option-cases (get id s.messages.map)) [
    | inl e ↦ rw (e, remove_message) (get-remove id j s.messages.map)
    | inr (m, e) ↦ rw (e, remove_message) (get-remove id j s.messages.map)
  ]

  -- While the ids of a list are still to be removed, only their messages may be in no inbox.
  abbrev pub LeftOver : List EntryId → Store → Type 0
  LeftOver ids s =
      (id : EntryId) (m : Message)
      → get id s.messages.map ≡ some m
      → (homed s.agents m.to id || any (key_eq id) ids) ≡ true

  pub remove_messages-IsTracked :
      (ids : List EntryId) (s : Store)
      → Tracks s.messages.map (tracked s)
      → LeftOver ids s
      → IsTracked (remove_messages out ids s)
  unfolding remove_messages
  remove_messages-IsTracked [] s v h = record {
    tracks = v;
    housed = λ id m e. ground (arith, h id m e);
  }
  remove_messages-IsTracked (id ∷ ids) s v h =
      remove_messages-IsTracked ids (remove_message out id s) (remove_message-Tracks id s v)
        (λ j m e.
          ground (arith, h j m, e, get-remove_message id j s, homed-remove_message id s m.to j))
