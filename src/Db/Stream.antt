-- ===== src/Db/Stream.antt =====
-- src/db.rs, `Stream`: an append-only log of entries with consumer groups, and its trimming.
pub mod Trim
mod Tests
use Prim.Native.Nat.{zero, suc}
use postino.Prelude.{ℕ, ◌-◌, ◌≡◌, Bool, Option, none, some, List, [], ◌∷◌, if◌then◌else◌, length}
use postino.Prelude.Order.{key_lt}
use postino.Prelude.Map.{Map}
use postino.Prelude.Text.{Text}
use postino.Id.{EntryId, id_order}

pub record Pending : Type 0 where
  pub consumer : Text
  pub delivered : ℕ
  pub count : ℕ

pub record Consumer : Type 0 where
  pub seen : ℕ
  pub active : Option ℕ

pub record Group : Type 0 where
  pub last_delivered : EntryId
  pub read : ℕ
  pub pending : Map EntryId Pending
  pub consumers : Map Text Consumer

abbrev pub Fields : Type 0
Fields = List (Text × Text)

pub record Stream : Type 0 where
  pub entries : Map EntryId Fields
  pub last_id : EntryId
  pub added : ℕ
  pub max_deleted : EntryId
  pub groups : Map Text Group

abbrev pub max_of : EntryId → EntryId → EntryId
max_of a b = if key_lt a b then b else a

popped : Stream → Map EntryId Fields → Stream
popped s [] = s
popped s ((id, _) ∷ rest) = record s { entries = rest; max_deleted = max_of s.max_deleted id }

pop_times : ℕ → Stream → Stream
unfolding popped
pop_times zero s = s
pop_times (suc n) s = pop_times n (popped s s.entries)

unfoldable pub drop_oldest : ℕ → Stream → Stream × ℕ
unfolding pop_times
drop_oldest count s = (pop_times count s, count)

unfoldable pub trim_to : ℕ → Stream → Stream × ℕ
unfolding drop_oldest
trim_to keep s = drop_oldest (length s.entries - keep) s

-- `entries.range(..min).count()`
unfoldable pub count_before : EntryId → Map EntryId Fields → ℕ
count_before min [] = 0
count_before min ((id, _) ∷ m) = if key_lt id min then suc (count_before min m) else 0

unfoldable pub trim_before : EntryId → Stream → Stream × ℕ
unfolding drop_oldest count_before
trim_before min s = drop_oldest (count_before min s.entries) s
