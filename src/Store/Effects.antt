-- ===== src/Store/Effects.antt =====
-- src/store.rs: the state of the broker, and the effects that change it and go to the journal.
use postino.Prelude.{ℕ, Option, List, []}
use postino.Prelude.Map.{Map}
use postino.Prelude.Text.{Text}
use postino.Id.{EntryId, zero_id}
use postino.Db
use postino.Db.{Db}
use postino.Db.Captures.{Bytes, Json}
use postino.Captured.{Captured, nothing}
use postino.Store.Messages.{State, Message, Broadcast, Agent, Due, no_due}
use postino.Store.Rooms.{Member, Status, Post, Entry, Room}
use postino.Store.Tracking.{Tracked}

pub record Session : Type 0 where
  pub agent : Text
  pub client : Text
  pub started : ℕ
  pub expires : ℕ
  pub pid : Option ℕ
  pub host : Option Text

pub data Effect : Type 0 where
  agent : Text → ℕ → Effect
  message : Message → Effect
  lease : EntryId → Text → Text → ℕ → ℕ → Effect
  settle : EntryId → State → ℕ → Effect
  drop : List EntryId → Effect
  broadcast : Broadcast → Effect
  drop_broadcasts : List EntryId → Effect
  cursor : Text → EntryId → Effect
  rename : Text → Text → Effect
  forget : Text → Effect
  room : Room → Effect
  member : Text → Text → Option Member → Effect
  room_cursor : Text → Text → EntryId → Effect
  post : Text → Post → Effect
  question : Text → EntryId → Status → ℕ → Effect
  drop_posts : Text → List EntryId → Effect
  topic : Text → Text → Effect
  close : Text → Option ℕ → Effect
  board : Text → Text → Option Entry → Effect
  drop_room : Text → Effect
  db : ℕ → List (List Text) → Effect

pub record Store : Type 0 where
  pub last_id : EntryId
  pub messages : Captured EntryId Message
  pub agents : Map Text Agent
  pub broadcasts : Map EntryId Broadcast
  pub sessions : Map Text Session
  pub rooms : Captured Text Room
  pub db : Db
  pub msg_keys : Map (Text × (Text × Text)) EntryId
  pub bc_keys : Map (Text × Text) EntryId
  pub post_keys : Map (Text × (Text × Text)) EntryId
  pub due : Due

-- `Store::default`
abbrev pub empty : Store
empty = record {
  last_id = zero_id;
  messages = nothing;
  agents = [];
  broadcasts = [];
  sessions = [];
  rooms = nothing;
  db = Db.empty;
  msg_keys = [];
  bc_keys = [];
  post_keys = [];
  due = no_due;
}

-- What `serde_json` writes, and what a command that is not in the table of the modelled ones does to
-- the keyspace when it is replayed at a time.
pub record Outside : Type 0 where
  pub room : Room → Option Bytes
  pub message : Message → Option Bytes
  pub keys : Json
  pub other : ℕ → List Text → Db → Db

abbrev pub tracked : Store → Tracked
tracked s = record { agents = s.agents; due = s.due }

abbrev pub with_tracked : Store → Tracked → Store
with_tracked s t = record s { agents = t.agents; due = t.due }
