-- ===== src/Commands/Tests.antt =====
-- Runs of src/commands.rs.
use postino.Prelude.{
  ◌+◌, ◌*◌, ◌≤◌, ◌<◌, ◌≡◌, ◌↔◌, ◌⊎◌, refl, true, false, ◌||◌, ◌&&◌, none, some, List, [], ◌∷◌,
  length, any, is_some_and, ltb, arith, if◌then◌else◌,
}
use postino.Prelude.Order.{text_order, key_eq}
use postino.Prelude.Map.{get, IsSorted}
use postino.Prelude.Text.{Text, ok, err, codes, utf8_len}
use postino.Prelude.Int.{pos, negsuc, ◌≤ℤ◌, i64_limit, parse_i64, int_text}
use postino.Id.{EntryId, after, zero_id, IsWord, ◌≺◌}
use postino.Db.{Db, read}
use postino.Db.Value.{string, Entry, lasting, expired}
use postino.Db.Captures.{Json}
use postino.Db.Reads.{alive}
use postino.Scope.{everything}
use postino.Commands.Names.{split_words, find_spec, key_table, name_of, writes, key_args, is_flush}
use postino.Commands.Names.Laws.{writes-key_args}
use postino.Commands.Args.{range_bounds, expiry_at, before, not_int}
use postino.Commands.Args.Bounds.{
  Within, from_start, range_bounds-Within, expiry_at-exact, before-after,
}
use postino.Commands.Reply.{
  Reply, bulk, array, replies, sizes, max_reply_bytes, too_large, collect_within, ok_reply,
  int_reply,
}
use postino.Commands.Reply.Limits.{collect_within-replies}
use postino.Commands.Exec.{dedup, Ctx, Method, exec, start}
use postino.Commands.Exec.Refusals.{Same}
use postino.Commands.Exec.Typed.{typed_ref}
use postino.Commands.Strings.{get_command, store_string, incr, incr_command}
use postino.Commands.Strings.Laws.{store_string-read}
use postino.Commands.Strings.Bounds.{length-store_string}
use postino.Commands.Strings.Counting.{incr-read}
use postino.Commands.Keyspace.{rename}
use postino.Commands.Keyspace.Laws.{rename-read}
use postino.Commands.Hashes.{Hash}
use postino.Commands.Lists.{push_all, pop_loop}
use postino.Commands.Lists.Laws.{pop_loop-push_all, reversed}
use postino.Glob.{new, matches}
use postino.Prelude.Search.{starts_with}
use postino.Scope.{scope, search_prefixes, search_loop, sorted, put_in_order, last, can_read}
use postino.Commands.Walk.{list_keys}
use postino.Commands.Walk.Listing.{list_keys-lists}
use postino.Commands.Dispatch.{dispatch, readers, writers, select}
use postino.Commands.Dispatch.Refusals.{exec-IsRefused, IsRefused}
use postino.Commands.Dispatch.Reading.{dispatch-reading}

abbrev json : Json
json = record { key = λ k. some k; entry = λ _. some (codes "1") }

abbrev ctx : Ctx
ctx = record {
  now = 1000;
  replay = false;
  blocking = false;
  access = record { admin = false; scope = everything };
  max_keys = 10;
  max_elements = 10;
  events = true;
}

abbrev db : Db
db = record {
  keys =
      (codes "a", lasting (string (codes "x")))
      ∷ (codes "b", record { value = string (codes "7"); expires = some 2000 })
      ∷ [];
  deadlines = (2000, codes "b") ∷ [];
  capture = none;
  captures = 0;
}

writes-key_args_example :
    let argv = codes "mset" ∷ codes "k" ∷ codes "v" ∷ [] in
    writes argv
    ≡ (is_flush (name_of argv) || is_some_and (key_args argv) (λ keys. any (λ k. k.1) keys))
writes-key_args_example = writes-key_args (codes "mset" ∷ codes "k" ∷ codes "v" ∷ [])

range_bounds-Within_example :
    Within (range_bounds (negsuc 2) (pos 9) 5) 3
    ↔ ((3 < 5) × (from_start 5 (negsuc 2) ≤ℤ pos 3) × (pos 3 ≤ℤ from_start 5 (pos 9)))
range_bounds-Within_example = range_bounds-Within (negsuc 2) (pos 9) 5 3

expiry_at-exact_example :
    let at = 30 * 1000 + (if false then 0 else 1000) in
    expiry_at 1000 (pos 30) 1000 false ≡ (if ltb at i64_limit then some at else none)
expiry_at-exact_example = expiry_at-exact 1000 30 1000 false (ground arith)

abbrev id : EntryId
id = record { ms = 5; seq = 0 }

before-after_example :
    (before id ≡ none ↔ id ≡ zero_id)
    × ((p : EntryId) → before id ≡ some p → IsWord p × (p ≺ id) × (after p ≡ some id))
before-after_example = before-after id (ground arith, ground arith)

abbrev items : List Reply
items = bulk (codes "x") ∷ int_reply 3 ∷ []

collect_within-replies_example : collect_within items ≡ (
    if ltb max_reply_bytes (sizes (replies items))
    then err too_large
    else ok (array (replies items)))
collect_within-replies_example = collect_within-replies items

abbrev letters : List Text
letters = codes "a" ∷ codes "b" ∷ codes "a" ∷ []

pop_loop-push_all_example :
    pop_loop false (length letters) (push_all false letters (codes "z" ∷ []))
    ≡ (reversed letters, codes "z" ∷ [])
pop_loop-push_all_example = pop_loop-push_all false letters (codes "z" ∷ [])

abbrev pairs : List (Text × Text)
pairs = (codes "f", codes "1") ∷ (codes "g", codes "2") ∷ []

abbrev small : Hash
small = (codes "f", codes "0") ∷ []

stored : (store_string json ctx (codes "a") (codes "y") none (start db)).0 ≡ ok tt
unfolding store_string utf8_len get
stored = refl

store_string-read_example :
    let e : Entry = record { value = string (codes "y"); expires = none } in
    read (codes "a") 1000 (store_string json ctx (codes "a") (codes "y") none (start db)).1.db
    ≡ (if key_eq (codes "a") (codes "a") then alive 1000 (some e) else read (codes "a") 1000 db)
store_string-read_example =
    store_string-read json ctx (codes "a") (codes "y") none (start db) (codes "a") stored

abbrev renaming : List Text
renaming = codes "RENAME" ∷ codes "b" ∷ codes "c" ∷ []

abbrev seven : Entry
seven = record { value = string (codes "7"); expires = some 2000 }

there : read (codes "b") 1000 db ≡ some seven
unfolding read get expired
there = refl

rename-read_example :
    ((rename json ctx renaming false (start db)).0 ≡ ok ok_reply)
    × ((j : Text)
        → read j 1000 (rename json ctx renaming false (start db)).1.db ≡ (
            if key_eq j (codes "c")
            then some seven
            else if key_eq j (codes "b")
            then none
            else read j 1000 db))
rename-read_example = rename-read json ctx renaming (start db) seven refl refl there

seven_text : seven.value ≡ string (int_text (pos 7))
unfolding int_text
seven_text = refl

-- INCR of a key that holds no number.
abbrev counting : List Text
counting = codes "INCR" ∷ codes "a" ∷ []

abbrev counts : Method Reply
counts = incr_command json ctx counting (codes "INCR")

chosen : dispatch json ctx (codes "INCR") counting ≡ some counts
unfolding dispatch readers writers select split_words
chosen = refl

failed : (counts (start db)).0 ≡ err not_int
unfolding incr_command typed_ref get parse_i64 read expired
failed = refl

exec-IsRefused_example : IsRefused db not_int (exec counts db)
exec-IsRefused_example =
    exec-IsRefused json ctx (codes "INCR") counting counts db not_int chosen failed

abbrev asking : List Text
asking = codes "get" ∷ codes "a" ∷ []

abbrev gets_it : Method Reply
gets_it = get_command json ctx asking

asked : dispatch json ctx (name_of asking) asking ≡ some gets_it
unfolding dispatch readers writers select split_words name_of utf8_len
asked = refl

denied : writes asking ≡ false
unfolding writes find_spec key_table split_words name_of utf8_len
denied = refl

dispatch-reading_example : Same (start db) (gets_it (start db)).1
dispatch-reading_example = dispatch-reading json ctx asking gets_it refl asked denied (start db)

whole : (list_keys (scope (codes "a*" ∷ []) [] []) 1000 (new (codes "?")) db).1 ≡ none
unfolding list_keys scope new search_prefixes search_loop sorted put_in_order last starts_with
    expired
whole = refl

list_keys-lists_example :
    let s = scope (codes "a*" ∷ []) [] [] in
    any (key_eq (codes "a")) (list_keys s 1000 (new (codes "?")) db).0 ≡ (
      is_some_and (read (codes "a") 1000 db) (λ _. true)
      && (can_read (codes "a") s && matches (new (codes "?")) (codes "a")))
list_keys-lists_example =
    list_keys-lists (codes "a*" ∷ []) [] [] 1000 (codes "?") db (codes "a") (ground arith) whole

incr-read_example :
    ((incr json ctx (codes "b") (pos 5) (start db)).0 ≡ ok (Reply.int (pos 12)))
    × ((j : Text)
        → read j 1000 (incr json ctx (codes "b") (pos 5) (start db)).1.db ≡ (
            if key_eq j (codes "b")
            then some (record { value = string (int_text (pos 12)); expires = some 2000 })
            else read j 1000 db))
incr-read_example =
    incr-read json ctx (codes "b") (start db) seven there (pos 7) (pos 5) (pos 12) refl seven_text
      refl

db-IsSorted : IsSorted db.keys
db-IsSorted = ground arith

stored_new : (store_string json ctx (codes "d") (codes "y") none (start db)).0 ≡ ok tt
unfolding store_string utf8_len get sorted put_in_order dedup
stored_new = refl

length-store_string_example :
    let after = length (store_string json ctx (codes "d") (codes "y") none (start db)).1.db.keys in
    (after ≤ length db.keys) ⊎ (after ≤ 10)
length-store_string_example =
    length-store_string json ctx (codes "d") (codes "y") none (start db) db-IsSorted (ground arith)
      refl stored_new
