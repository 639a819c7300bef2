-- ===== src/Store/Loading.antt =====
-- src/store.rs: snapshots of the store, the captures of one while it changes, and the store that a
-- snapshot and a journal give back.
pub mod Parts
pub mod Agents
pub mod Ids
pub mod Back
pub mod Recovery
use postino.Prelude.{
  ℕ, Bool, true, false, ◌&&◌, Option, none, some, List, [], ◌∷◌, ◌++◌, map, if◌then◌else◌,
}
use postino.Prelude.Order.{text_order}
use postino.Prelude.Map.{Map, insert, collect}
use postino.Prelude.Text.{Text, Result, ok, err, codes}
use postino.Id.{EntryId, id_order}
use postino.Captured
use postino.Db
use postino.Db.{Db}
use postino.Db.Value
use postino.Db.Captures.{Bytes, Budget}
use postino.Store.Messages.{Message, Broadcast, Agent, no_counts}
use postino.Store.Rooms.{Room}
use postino.Store.Effects.{Effect, message, broadcast, room, Store, Outside, empty}
use postino.Store.Rename.{apply}

-- What is written of an agent; the rest is rebuilt from the messages.
pub record Saved : Type 0 where
  pub name : Text
  pub created : ℕ
  pub last_seen : ℕ
  pub cursor : Option EntryId

unfoldable pub saved : Agent → Saved
saved a = record { name = a.name; created = a.created; last_seen = a.last_seen; cursor = a.cursor }

unfoldable pub read_back : Saved → Agent
read_back a = record {
  name = a.name;
  created = a.created;
  last_seen = a.last_seen;
  cursor = a.cursor;
  inbox = [];
  queued = [];
  settled = [];
  counts = no_counts;
  senders = [];
}

-- `SnapshotRef`; the three last parts are left out where they are captured a run at a time.
pub record Snapshot : Type 0 where
  pub last_id : EntryId
  pub agents : List Saved
  pub broadcasts : List Broadcast
  pub rooms : Option (List Room)
  pub messages : Option (List Message)
  pub keys : Option (Map Text Value.Entry)

-- `SnapshotOwned`, without the version and the journal line, which `from_snapshot` does not read.
pub record SnapshotOwned : Type 0 where
  pub last_id : EntryId
  pub agents : List Saved
  pub messages : List Message
  pub broadcasts : List Broadcast
  pub rooms : List Room
  pub keys : Map Text Value.Entry

abbrev pub values {ℓ κ} : {K : Type ℓ} {V : Type κ} → Map K V → List V
values [] = []
values ((_, v) ∷ m) = v ∷ values m

unfoldable pub head : Store → Snapshot
unfolding saved
head s = record {
  last_id = s.last_id;
  agents = map saved (values s.agents);
  broadcasts = values s.broadcasts;
  rooms = none;
  messages = none;
  keys = none;
}

unfoldable pub snapshot : Store → Snapshot
unfolding head
snapshot s = record (head s) {
  rooms = some (values s.rooms.map);
  messages = some (values s.messages.map);
  keys = some s.db.keys;
}

-- `sorted_keys`: the pairs of a snapshot's keys, in whatever order, put together.
unfoldable pub sorted_keys : List (Text × Value.Entry) → Map Text Value.Entry
sorted_keys pairs = collect pairs []

-- A room as it is read back; the ids of its open questions are not written.
unfoldable pub read_room : Room → Room
read_room r = record r { open_ = [] }

-- What a snapshot reads back as. One without messages is refused; rooms and keys that are left out
-- are none.
unfoldable pub owned : Snapshot → Option SnapshotOwned
unfolding read_room sorted_keys
owned written = elim written.messages [
  | none ↦ none
  | some messages ↦ some (record {
    last_id = written.last_id;
    agents = written.agents;
    messages = messages;
    broadcasts = written.broadcasts;
    rooms = elim written.rooms [ none ↦ [] | some rooms ↦ map read_room rooms ];
    keys = elim written.keys [ none ↦ [] | some keys ↦ sorted_keys keys ];
  })
]

unfoldable pub add_agents : List Saved → Store → Store
unfolding read_back
add_agents [] s = s
add_agents (a ∷ rest) s =
    add_agents rest (record s { agents = insert a.name (read_back a) s.agents })

module _ (out : Outside) where
  -- One effect after another, as a journal is replayed.
  unfoldable pub apply_all : List Effect → Store → Store
  apply_all [] s = s
  apply_all (e ∷ es) s = apply_all es (apply out e s)

  unfoldable pub from_snapshot : SnapshotOwned → Store
  unfolding add_agents apply_all
  from_snapshot snap =
      let s = add_agents snap.agents (record empty { last_id = snap.last_id }) in
      let s = apply_all (map message snap.messages) s in
      let s = apply_all (map broadcast snap.broadcasts) s in
      let s = apply_all (map room snap.rooms) s in record s { db = Db.load snap.keys }

  unfoldable pub begin_capture : Bytes → Store → Store × ℕ
  unfolding Captured.begin_capture Db.begin_capture
  begin_capture head s =
      let (db, number) = Db.begin_capture out.keys (codes "],\"keys\":{") s.db in
      (
        record s {
          rooms = Captured.begin_capture out.room (head ++ codes ",\"rooms\":[") s.rooms;
          messages = Captured.begin_capture out.message (codes "],\"messages\":[") s.messages;
          db = db;
        },
        number,
      )

  -- A run goes on to the next part only where the one before it is written.
  unfoldable pub capture_step : Budget → Store → Store × Bool
  unfolding Captured.capture_step Db.capture_step
  capture_step budget s =
      let (rooms, over) = Captured.capture_step out.room budget s.rooms in
      let (messages, over') = Captured.capture_step out.message budget s.messages in
      let (db, over'') = Db.capture_step out.keys budget s.db in
      if over
      then (if over'
          then (record s { rooms = rooms; messages = messages; db = db }, over'')
          else (record s { rooms = rooms; messages = messages }, false))
      else (record s { rooms = rooms }, false)

  unfoldable pub drain_capture : Store → Store × Result (List Bytes)
  unfolding Captured.drain_capture Db.drain_capture
  drain_capture s =
      let (rooms, r) = Captured.drain_capture out.room s.rooms in
      let (messages, m) = Captured.drain_capture out.message s.messages in
      let (db, k) = Db.drain_capture out.keys s.db in
      let s' : Store = record s { rooms = rooms } in
      elim r [
        | err e ↦ (s', err e)
        | ok (parts, over) ↦
            if over
            then (elim m [
              | err e ↦ (record s' { messages = messages }, err e)
              | ok (more, over') ↦
                  if over'
                  then (record s' { messages = messages; db = db }, ok (parts ++ (more ++ k)))
                  else (record s' { messages = messages }, ok (parts ++ more))
            ])
            else (s', ok parts)
      ]

  unfoldable pub end_capture : Store → Store × Result (List Bytes)
  unfolding Captured.end_capture Db.end_capture
  end_capture s =
      let (rooms, r) = Captured.end_capture out.room s.rooms in
      let (messages, m) = Captured.end_capture out.message s.messages in
      let (db, k) = Db.end_capture out.keys s.db in
      elim r [
        | err e ↦ (record s { rooms = rooms }, err e)
        | ok parts ↦ elim m [
          | err e ↦ (record s { rooms = rooms; messages = messages }, err e)
          | ok more ↦ (
            record s { rooms = rooms; messages = messages; db = db },
            elim k [ err e ↦ err e | ok rest ↦ ok (parts ++ (more ++ rest)) ],
          )
        ]
      ]

unfoldable pub capturing : Store → Bool
unfolding Db.capturing
capturing s = Db.capturing s.db

unfoldable pub abandon_capture : Store → Store
unfolding Captured.abandon_capture Db.abandon_capture
abandon_capture s = record s {
  rooms = Captured.abandon_capture {V = Room} s.rooms;
  messages = Captured.abandon_capture {V = Message} s.messages;
  db = Db.abandon_capture s.db;
}
