-- ===== src/Store/Loading/Back.antt =====
-- src/store.rs, `Store::from_snapshot`: each part of a store, once a snapshot of it is read.
use postino.Prelude.{
  ◌≡◌, ◌≢◌, true, none, refl, sym, subst, ap, ◌∙◌, some, List, [], ◌∷◌, arith, map,
}
use postino.Prelude.Order.{key_le, text_order}
use postino.Prelude.Map.{get, insert, IsSorted}
use postino.Prelude.Text.{Text}
use postino.Id.{EntryId, id_order, cmp_id-IsOrder}
use postino.Captured
use postino.Captured.Maps.{collect_self, IsSorted-IsDistinct}
use postino.Db
use postino.Store.Messages.{Message, Broadcast, Agent}
use postino.Store.Rooms.{Room}
use postino.Store.Effects.{message, broadcast, room, Store, Outside, empty}
use postino.Store.Apply.{apply_message, apply_broadcast, apply_room}
use postino.Store.Apply.Invariant.{IsTracked}
use postino.Store.Rename.{apply}
use postino.Store.Loading.Agents.{saved_of, saved_of-messages, saved_of-add_agents}
use postino.Store.Issued.{IsIssued}
use postino.Store.Loading.Ids.{
  last_id-apply_all, last_id-message, last_id-broadcast, last_id-room, last_id-add_agents,
}
use postino.Store.Loading.Parts.{with_keys, with_keys-map, each_same, part-same, part-with_keys}
use postino.Store.Changes.{open_ids}
use postino.Captured.{each}
use postino.Store.Loading.{
  Saved, read_back, SnapshotOwned, values, add_agents, apply_all, from_snapshot, saved, sorted_keys,
  read_room,
}
open cmp_id-IsOrder use {eq_of_cmp, cmp_refl}

-- The other maps of a store are in order, and each agent, broadcast and room is under
-- its own name or id.
pub record IsKept (s : Store) : Type 0 where
  pub broadcasts_sorted : IsSorted s.broadcasts
  pub broadcast_ids : (id : EntryId) (b : Broadcast) → get id s.broadcasts ≡ some b → b.id ≡ id
  pub rooms_sorted : IsSorted s.rooms.map
  pub room_names : (name : Text) (r : Room) → get name s.rooms.map ≡ some r → r.name ≡ name
  pub keys_sorted : IsSorted s.db.keys
  pub agent_names : (name : Text) (r : Agent) → get name s.agents ≡ some r → r.name ≡ name

-- A room with the ids of its open questions found again in its posts.
abbrev pub reopened : Room → Room
reopened r = record r { open_ = open_ids r.posts }

-- What comes back of a store: the parts that are written, and for each room its open questions.
pub record AreBack (s restored : Store) : Type 0 where
  pub last_id : restored.last_id ≡ s.last_id
  pub messages : restored.messages.map ≡ s.messages.map
  pub broadcasts : restored.broadcasts ≡ s.broadcasts
  pub rooms : restored.rooms.map ≡ each reopened s.rooms.map
  pub keys : restored.db.keys ≡ s.db.keys
  pub agents : (name : Text) → saved_of name restored.agents ≡ saved_of name s.agents

-- Reading the agents back touches nothing else.
agents-same :
    (rest : List Saved) (s : Store)
    → ((add_agents rest s).messages.map ≡ s.messages.map)
      × ((add_agents rest s).broadcasts ≡ s.broadcasts)
      × ((add_agents rest s).rooms.map ≡ s.rooms.map)
unfolding add_agents
agents-same [] s = (refl, refl, refl)
agents-same (a ∷ rest) s =
    agents-same rest (record s { agents = insert a.name (read_back a) s.agents })

-- All that a snapshot of the store reads back as.
unfoldable pub whole : Store → SnapshotOwned
whole s = record {
  last_id = s.last_id;
  agents = map saved (values s.agents);
  messages = values s.messages.map;
  broadcasts = values s.broadcasts;
  rooms = map read_room (values s.rooms.map);
  keys = sorted_keys s.db.keys;
}

-- A message that is housed is to an agent that is there.
saved_of-housed :
    (s : Store)
    → IsTracked s
    → (id : EntryId) (m : Message) → get id s.messages.map ≡ some m
    → saved_of m.to s.agents ≢ none
saved_of-housed s v id m e gone = absurd (ground (arith, v.housed id m e))

rooms-read_back : (rs : List Room) → map room (map read_room rs) ≡ map (λ r. room (read_room r)) rs
rooms-read_back [] = refl
rooms-read_back (r ∷ rs) = ap (λ es. room (read_room r) ∷ es) (rooms-read_back rs)

-- The state after the agents, then after the messages, then after the broadcasts of the snapshot.
abbrev with_agents : Store → Store
with_agents s = add_agents (map saved (values s.agents)) (record empty { last_id = s.last_id })

abbrev with_messages : Outside → Store → Store
with_messages out s = apply_all out (map message (values s.messages.map)) (with_agents s)

abbrev with_broadcasts : Outside → Store → Store
with_broadcasts out s = apply_all out (map broadcast (values s.broadcasts)) (with_messages out s)

abbrev with_rooms : Outside → Store → Store
with_rooms out s =
    apply_all out (map room (map read_room (values s.rooms.map))) (with_broadcasts out s)

module _ (out : Outside) (s : Store) (v : IsTracked s) (k : IsKept s) where
  messages-with_rooms : (with_rooms out s).messages.map ≡ s.messages.map
  unfolding apply apply_message apply_broadcast apply_room Captured.put Captured.preserve
  messages-with_rooms =
      let ms = s.messages.map in
      part-same out (λ t. t.messages.map) room (λ r t. refl) (map read_room (values s.rooms.map))
        (with_broadcasts out s)
      ∙ part-same out (λ t. t.messages.map) broadcast (λ b t. refl) (values s.broadcasts)
          (with_messages out s)
      ∙ part-with_keys out (λ t. t.messages.map) message (λ m. m.id) (λ m. m) (λ m t. refl)
          (values ms) (with_agents s)
      ∙ ap (with_keys (λ m. m.id) (λ m. m) (values ms))
          (agents-same (map saved (values s.agents)) _).0
      ∙ with_keys-map (λ m. m.id) (λ m. m) ms v.tracks.sorted v.tracks.ids
      ∙ each_same ms

  broadcasts-with_rooms : (with_rooms out s).broadcasts ≡ s.broadcasts
  unfolding apply apply_message apply_broadcast apply_room
  broadcasts-with_rooms =
      let bs = s.broadcasts in
      part-same out (λ t. t.broadcasts) room (λ r t. refl) (map read_room (values s.rooms.map))
        (with_broadcasts out s)
      ∙ part-with_keys out (λ t. t.broadcasts) broadcast (λ b. b.id) (λ b. b) (λ b t. refl)
          (values bs) (with_messages out s)
      ∙ ap (with_keys (λ b. b.id) (λ b. b) (values bs)) (
          part-same out (λ t. t.broadcasts) message (λ m t. refl) (values s.messages.map)
            (with_agents s)
          ∙ (agents-same (map saved (values s.agents)) _).1)
      ∙ with_keys-map (λ b. b.id) (λ b. b) bs k.broadcasts_sorted k.broadcast_ids
      ∙ each_same bs

  rooms-with_rooms : (with_rooms out s).rooms.map ≡ each reopened s.rooms.map
  unfolding apply apply_message apply_broadcast apply_room Captured.put Captured.preserve read_room
  rooms-with_rooms =
      let rs = s.rooms.map in
      ap (λ es. (apply_all out es (with_broadcasts out s)).rooms.map) (rooms-read_back (values rs))
      ∙ part-with_keys out (λ t. t.rooms.map) (λ r. room (read_room r)) (λ r. r.name) reopened
          (λ r t. refl) (values rs) (with_broadcasts out s)
      ∙ ap (with_keys (λ r. r.name) reopened (values rs)) (
          part-same out (λ t. t.rooms.map) broadcast (λ b t. refl) (values s.broadcasts)
            (with_messages out s)
          ∙ part-same out (λ t. t.rooms.map) message (λ m t. refl) (values s.messages.map)
              (with_agents s)
          ∙ (agents-same (map saved (values s.agents)) _).2)
      ∙ with_keys-map (λ r. r.name) reopened rs k.rooms_sorted k.room_names

  agents-with_rooms : (a : Text) → saved_of a (with_rooms out s).agents ≡ saved_of a s.agents
  unfolding apply apply_broadcast apply_room
  agents-with_rooms a =
      let there : (name : Text) → saved_of name (with_agents s).agents ≡ saved_of name s.agents =
        λ name. saved_of-add_agents s.agents _ name refl v.tracks.agents_sorted k.agent_names in
      ap (saved_of a) (
        part-same out (λ t. t.agents) room (λ r t. refl) (map read_room (values s.rooms.map))
          (with_broadcasts out s)
        ∙ part-same out (λ t. t.agents) broadcast (λ b t. refl) (values s.broadcasts)
            (with_messages out s))
      ∙ saved_of-messages out s.messages.map (with_agents s) a
          (IsSorted-IsDistinct s.messages.map v.tracks.sorted)
          (λ id m e gone. saved_of-housed s v id m e (sym (there m.to) ∙ gone))
      ∙ there a

  last_id-with_rooms : IsIssued s → (with_rooms out s).last_id ≡ s.last_id
  last_id-with_rooms i =
      let ms = s.messages.map in
      let bs = s.broadcasts in
      let rs = s.rooms.map in
      ap (λ es. (apply_all out es (with_broadcasts out s)).last_id) (rooms-read_back (values rs))
      ∙ last_id-apply_all out (λ r. room (read_room r)) s.last_id rs (with_broadcasts out s)
          (IsSorted-IsDistinct rs k.rooms_sorted)
          (λ a r h t. last_id-room out s.last_id r t (i.posts a r h))
          (last_id-apply_all out broadcast s.last_id bs (with_messages out s)
            (IsSorted-IsDistinct bs k.broadcasts_sorted)
            (λ j b h t. last_id-broadcast out s.last_id b t (
              subst (λ n. key_le n s.last_id ≡ true) (sym (k.broadcast_ids j b h))
                (i.broadcasts j b h)))
            (last_id-apply_all out message s.last_id ms (with_agents s)
              (IsSorted-IsDistinct ms v.tracks.sorted)
              (λ j m h t. last_id-message out s.last_id m t (
                subst (λ n. key_le n s.last_id ≡ true) (sym (v.tracks.ids j m h))
                  (i.messages j m h)))
              (last_id-add_agents (map saved (values s.agents)) _)))

  -- What the store holds of each part, once all of a snapshot is read.
  pub parts-from_snapshot : IsIssued s → AreBack s (from_snapshot out (whole s))
  unfolding from_snapshot sorted_keys Db.load Db.reindex_deadlines whole
  parts-from_snapshot i = record {
    last_id = last_id-with_rooms i;
    messages = messages-with_rooms;
    broadcasts = broadcasts-with_rooms;
    rooms = rooms-with_rooms;
    keys = collect_self s.db.keys k.keys_sorted;
    agents = agents-with_rooms;
  }
