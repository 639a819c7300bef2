-- ===== src/Db.antt =====
-- src/db.rs: the in-memory keyspace. Freeing a large value on another thread changes nothing that
-- can be observed, and is left out.
pub mod ZSet
pub mod Stream
pub mod Value
pub mod Captures
pub mod Snapshot
pub mod Expiry
pub mod Scan
pub mod Reads
mod Tests
use postino.Prelude.{
  ℕ, zero, suc, ◌+◌, ◌*◌, ◌≡◌, Bool, true, false, not, ◌&&◌, Option, none, some, List, [], ◌∷◌,
  ◌++◌, length, ltb, leb, ◌==◌, if◌then◌else◌, is_some_and, map,
}
use postino.Prelude.Order.{key_le, key_lt, text_order, pair_order, nat_order}
use postino.Prelude.Map.{Map, get, insert, remove}
use postino.Prelude.Text.{Text, Result, ok, err, codes}
use Value.{Entry, expired, is_empty_collection}
use Captures.{Bytes, Json, Capture, Budget, save, advance}

abbrev pub expire_batch : ℕ
expire_batch = 1000

-- `BinaryHeap<Reverse<(u64, String)>>`: the deadlines, soonest first.
abbrev pub Deadline : Type 0
Deadline = ℕ × Text

pub record Db : Type 0 where
  pub keys : Map Text Entry
  pub deadlines : List Deadline
  pub capture : Option Capture
  pub captures : ℕ

abbrev pub empty : Db
empty = record { keys = []; deadlines = []; capture = none; captures = 0 }

unfoldable pub heap_push : Deadline → List Deadline → List Deadline
heap_push d [] = d ∷ []
heap_push d (x ∷ xs) = if key_le d x then d ∷ x ∷ xs else x ∷ heap_push d xs

unfoldable pub deadlines_of : Map Text Entry → List Deadline
deadlines_of [] = []
deadlines_of ((k, e) ∷ m) = elim e.expires [
  | none ↦ deadlines_of m
  | some at ↦ heap_push (at, k) (deadlines_of m)
]

unfoldable pub reindex_deadlines : Db → Db
unfolding deadlines_of heap_push
reindex_deadlines db = record db { deadlines = deadlines_of db.keys }

unfoldable pub load : Map Text Entry → Db
unfolding reindex_deadlines
load keys = reindex_deadlines (record empty { keys = keys })

-- `Db::get`: a live key.
unfoldable pub read : Text → ℕ → Db → Option Entry
read k now db = elim (get k db.keys) [
  | none ↦ none
  | some e ↦ if expired e now then none else some e
]

unfoldable pub exists : Text → ℕ → Db → Bool
unfolding read
exists k now db = is_some_and (read k now db) λ _. true

unfoldable pub live_keys : ℕ → Map Text Entry → Map Text Entry
live_keys now [] = []
live_keys now ((k, e) ∷ m) = if expired e now then live_keys now m else (k, e) ∷ live_keys now m

-- `Db::len`
unfoldable pub count_live : ℕ → Db → ℕ
unfolding live_keys
count_live now db = length (live_keys now db.keys)

unfoldable pub is_empty : ℕ → Db → Bool
unfolding live_keys
is_empty now db = elim (live_keys now db.keys) [ [] ↦ true | _ ∷ _ ↦ false ]

unfoldable pub capturing : Db → Bool
capturing db = is_some_and db.capture λ _. true

unfoldable pub capture_number : Db → Option ℕ
capture_number db = elim db.capture [ none ↦ none | some c ↦ some c.number ]

unfoldable pub abandon_capture : Db → Db
abandon_capture db = record db { capture = none }

unfoldable pub deadline : Text → ℕ → Db → Db
unfolding heap_push reindex_deadlines
deadline k at db =
    let db' : Db = record db { deadlines = heap_push (at, k) db.deadlines } in
    if ltb (2 * length db'.keys + 1024) (length db'.deadlines) then reindex_deadlines db' else db'

unfoldable pub expiry_due : ℕ → Db → Bool
expiry_due now db = elim db.deadlines [ [] ↦ false | d ∷ _ ↦ leb d.0 now ]

-- The tests of `expire_keys`: whether there is another round, and whether its deadline is the key's.
abbrev pub more_due : ℕ → ℕ → List Text → ℕ → Bool
more_due now visited gone at =
    ltb (length gone) expire_batch && ltb visited (4 * expire_batch) && leb at now

abbrev pub expires_at : Text → ℕ → Map Text Entry → Bool
expires_at k at m = is_some_and (get k m) λ e. is_some_and e.expires λ t. t == at

module _ (json : Json) where
  unfoldable pub preserve : Text → Db → Db
  unfolding save
  preserve k db = elim db.capture [
    | none ↦ db
    | some c ↦ record db { capture = some (save json k db.keys c) }
  ]

  unfoldable pub put : Text → Entry → Db → Db
  unfolding preserve
  put k e db = let db' = preserve k db in record db' { keys = insert k e db'.keys }

  unfoldable pub replace : Text → Entry → Db → Db × Option Entry
  unfolding preserve
  replace k e db =
      let db' = preserve k db in
      elim (get k db'.keys) [
        | some _ ↦ (record db' { keys = insert k e db'.keys }, none)
        | none ↦ (db', some e)
      ]

  unfoldable pub take_key : Text → Db → Db × Option Entry
  unfolding preserve
  take_key k db =
      let db' = preserve k db in (record db' { keys = remove k db'.keys }, get k db'.keys)

  unfoldable pub capture_step : Budget → Db → Db × Bool
  unfolding advance
  capture_step budget db = elim db.capture [
    | none ↦ (db, true)
    | some c ↦ let c' = advance json budget db.keys c in (record db { capture = some c' }, c'.done)
  ]

  unfoldable pub clear : Db → Db
  unfolding capture_step
  clear db = record ((capture_step none db).0) { keys = [] }

  unfoldable pub begin_capture : Bytes → Db → Db × ℕ
  begin_capture out db = (
    record db {
      captures = db.captures + 1;
      capture = some (record {
        number = db.captures + 1;
        parts = [];
        filled = 0;
        out = out;
        cursor = none;
        early = [];
        done = false;
        written = 0;
        broken = false;
      });
    },
    db.captures + 1,
  )

  unfoldable pub drain_capture : Db → Db × List Bytes
  drain_capture db = elim db.capture [
    | none ↦ (db, [])
    | some c ↦ (record db { capture = some (record c { parts = [] }) }, c.parts)
  ]

  unfoldable pub end_capture : Db → Db × Result (List Bytes)
  unfolding capture_step
  end_capture db =
      let db' = (capture_step none db).0 in
      elim db'.capture [
        | none ↦ (db', err (codes "no snapshot is being taken"))
        | some c ↦ (
          record db' { capture = none },
          if c.broken
              then err (codes "a key could not be serialized")
              else ok (c.parts ++ (c.out ++ b'}' ∷ []) ∷ []),
        )
      ]

  -- `get_mut`, and what its caller does with the entry it is given.
  unfoldable pub get_mut : Text → ℕ → (Entry → Entry) → Db → Db
  unfolding preserve
  get_mut k now change db =
      let db' = preserve k db in
      elim (get k db'.keys) [
        | none ↦ db'
        | some e ↦ record db' {
          keys = if expired e now then remove k db'.keys else insert k (change e) db'.keys;
        }
      ]

  -- `Db::remove` and `Db::delete`, which answers whether there was such an entry.
  unfoldable pub remove_live : Text → ℕ → Db → Db × Option Entry
  unfolding take_key
  remove_live k now db =
      let (db', held) = take_key k db in
      elim held [ none ↦ (db', none) | some e ↦ (db', if expired e now then none else some e) ]

  unfoldable pub delete : Text → ℕ → Db → Db × Bool
  unfolding remove_live
  delete k now db = let (db', held) = remove_live k now db in (db', is_some_and held λ _. true)

  unfoldable pub prune : Text → Db → Db
  unfolding take_key
  prune k db =
      if is_some_and (get k db.keys) (λ e. is_empty_collection e.value)
      then (take_key k db).0
      else db

  -- The rounds of `expire_keys`, one for each deadline taken from the heap.
  unfoldable pub expire_loop : ℕ → ℕ → List Deadline → List Text → Db → Db × List Text
  unfolding take_key
  expire_loop now visited [] gone db = (record db { deadlines = [] }, gone)
  expire_loop now visited ((at, k) ∷ ds) gone db =
      let taken = (take_key k db).0 in
      let hit = expire_loop now (visited + 1) ds (gone ++ k ∷ []) taken in
      let miss = expire_loop now (visited + 1) ds gone db in
      if more_due now visited gone at
      then (if expires_at k at db.keys then hit else miss)
      else (record db { deadlines = (at, k) ∷ ds }, gone)

  unfoldable pub expire_keys : ℕ → Db → Db × List Text
  unfolding expire_loop
  expire_keys now db = expire_loop now 0 db.deadlines [] db
