-- ===== src/Store/Messages.antt =====
-- src/store.rs: messages, and what is kept of each agent.
use postino.Prelude.{ℕ, ◌+◌, Bool, true, false, Option, none, []}
use postino.Prelude.Order.{text_order, pair_order, nat_order}
use postino.Prelude.Map.{Map}
use postino.Prelude.Text.{Text}
use postino.Id.{EntryId}

pub data State : Type 0 where
  queued leased acked dead expired : State

unfoldable pub is_pending : State → Bool
is_pending queued = true
is_pending leased = true
is_pending _ = false

pub record Lease : Type 0 where
  pub consumer : Text
  pub token : Text
  pub at : ℕ
  pub until : ℕ

pub record Message : Type 0 where
  pub id : EntryId
  pub from : Text
  pub to : Text
  pub body : Text
  pub created : ℕ
  pub expires : ℕ
  pub thread : EntryId
  pub reply_to : Option EntryId
  pub key : Option Text
  pub state : State
  pub deliveries : ℕ
  pub lease : Option Lease
  pub settled : Option ℕ

pub record Broadcast : Type 0 where
  pub id : EntryId
  pub from : Text
  pub body : Text
  pub created : ℕ
  pub expires : ℕ
  pub key : Option Text

pub record Counts : Type 0 where
  pub queued : ℕ
  pub leased : ℕ
  pub dead : ℕ
  pub settled : ℕ

-- `Counts::default`
abbrev pub no_counts : Counts
no_counts = record { queued = 0; leased = 0; dead = 0; settled = 0 }

unfoldable pub pending : Counts → ℕ
pending c = c.queued + c.leased

-- `BTreeSet<Id>`
abbrev pub Ids : Type 0
Ids = Map EntryId (Unit {0})

pub record Agent : Type 0 where
  pub name : Text
  pub created : ℕ
  pub last_seen : ℕ
  pub cursor : Option EntryId
  pub inbox : Ids
  pub queued : Ids
  pub settled : Ids
  pub counts : Counts
  pub senders : Map Text ℕ

-- `Agent::new`
unfoldable pub new : Text → ℕ → Agent
new name at = record {
  name = name;
  created = at;
  last_seen = at;
  cursor = none;
  inbox = [];
  queued = [];
  settled = [];
  counts = no_counts;
  senders = [];
}

-- `BTreeSet<(u64, Id)>`
abbrev pub Times : Type 0
Times = Map (ℕ × EntryId) (Unit {0})

-- `Due`, the messages by when they fall due.
pub record Due : Type 0 where
  pub leases : Times
  pub expiry : Times
  pub settled : Times

abbrev pub no_due : Due
no_due = record { leases = []; expiry = []; settled = [] }
