-- ===== src/Db/Tests.antt =====
-- Runs of src/db.rs, `Db`: keys past their time, and a snapshot under change.
use postino.Prelude.{
  concat, map, ℕ, ◌≡◌, ◌≤◌, refl, concat, map, none, some, Option, List, [], ◌∷◌, length, any,
  if◌then◌else◌, arith,
}
use postino.Prelude.Order.{text_order, key_eq}
use postino.Prelude.Map.{get, collect, IsSorted, IsDistinct}
use postino.Prelude.Text.{Text, codes}
use postino.Db.Value.{string, Entry}
use postino.Db.Captures.{Json}
use postino.Db.Captures.Output.{Pairs, members}
use postino.Db.{Db, begin_capture, end_capture, expire_keys, expire_batch, read}
use postino.Prelude.Search.{starts_with}
use postino.Db.Scan.{
  with_prefixes, run_of, skip_while, take_while, before_start, filter, wanted, with_prefixes-filter,
}
use postino.Db.Expiry.{expire_keys-read}
use postino.Db.Snapshot.Changes.{Op, puts, steps, deletes, drains, run_ops}
use postino.Db.Snapshot.{Ends, snapshot-origin}

-- A serializer that writes the key and a digit.
abbrev json : Json
json = record { key = λ k. some k; entry = λ _. some (codes "1") }

abbrev entry : Option ℕ → Entry
entry expires = record { value = string (codes "v"); expires = expires }

abbrev db : Db
db = record {
  keys = (codes "a", entry none) ∷ (codes "b", entry (some 10)) ∷ (codes "c", entry (some 30)) ∷ [];
  deadlines = (10, codes "b") ∷ (30, codes "c") ∷ [];
  capture = none;
  captures = 0;
}

-- A key written over, one deleted after a step of the pass, and one added.
abbrev changes : List Op
changes =
    puts (codes "c") (entry none)
    ∷ steps (some 1)
    ∷ deletes (codes "b") 5
    ∷ drains
    ∷ puts (codes "d") (entry none)
    ∷ []

db-IsSorted : IsSorted db.keys
db-IsSorted = ground arith

snapshot-origin_example :
    let (db', drained) = run_ops json changes (begin_capture json (codes "{") db).0 in
    (ws : Pairs) × IsDistinct ws
    × (collect ws [] ≡ db.keys)
    × Ends (codes "{") drained (members json ws) (end_capture json db').1
snapshot-origin_example = snapshot-origin json (codes "{") db changes db-IsSorted

expire_keys-read_example :
    let (db', gone) = expire_keys json 20 db in
    ((k : Text) → read k 20 db' ≡ read k 20 db)
    × (length gone ≤ expire_batch)
    × ((k : Text) → get k db'.keys ≡ (if any (key_eq k) gone then none else get k db.keys))
expire_keys-read_example = expire_keys-read json 20 db

scanned :
    with_prefixes (codes "b" ∷ codes "c" ∷ []) (some (codes "b")) db
    ≡ (codes "c", entry (some 30)) ∷ []
unfolding with_prefixes run_of skip_while take_while before_start starts_with
scanned = refl

with_prefixes-filter_example :
    with_prefixes (codes "b" ∷ codes "c" ∷ []) (some (codes "b")) db
    ≡ concat (
        map
          (λ prefix. filter (wanted prefix (some (codes "b"))) db.keys)
          (codes "b" ∷ codes "c" ∷ []))
with_prefixes-filter_example =
    with_prefixes-filter (codes "b" ∷ codes "c" ∷ []) (some (codes "b")) db db-IsSorted
