-- ===== src/Lib.antt =====
-- Verification of postino, a message broker and in-memory data store.
--
-- The program keeps a keyspace (src/db.rs) of typed values with expiry times, streams and sorted
-- sets among them, writes snapshots of it while it goes on changing, names stream entries by ids
-- (src/id.rs), selects keys and topics by glob patterns (src/glob.rs), and lets a client reach what
-- the patterns of its scope allow (src/scope.rs). A command (src/commands.rs) names its keys, is
-- let through by the client's scope, and then runs on the keyspace with its clock and limits. The
-- store (src/store.rs) holds the keyspace with the agents, their messages, the broadcasts and the
-- rooms; every change of it is an effect, which also goes to the journal, and it keeps indexes of the
-- messages beside them. Its messages and rooms are maps (src/capture.rs) that a snapshot writes out
-- while they change. The journal, the broker and the HTTP interface stand on these. This library
-- models these files, of src/commands.rs what Commands lists below, and of src/util.rs
-- what Util lists.
--
-- Which file models which part:
--   Prelude        shared helpers: orders, maps, ranges of keys, text, results, signed integers, the
--                  bits of a word
--   Id             src/id.rs, `Id`, here `EntryId`: `next_after`, `after`, `Display` and `FromStr`
--   Db             src/db.rs, `Db`: each method that reads or changes the keyspace. `Db::get` is
--                  `read`, `insert` is `put`, `take` is `take_key`, `len` is `count_live` and
--                  `remove` is `remove_live`. A method that changes `self` is a function from a
--                  `Db` to a `Db` with its result
--   Db/Value       src/db.rs, `Value` and `Entry`
--   Db/ZSet        src/db.rs, `ZSet`: its two indexes, `insert`, `remove`, `len` and `rank`
--   Db/Stream      src/db.rs, `Stream`: `trim_to`, `trim_before` and `drop_oldest`
--   Db/Captures    src/db.rs, `Capture`: the text of a snapshot in progress, in parts. `save` is the
--                  body of `Db::preserve` and `advance` that of `Db::capture_step`
--   Db/Snapshot    the methods of `Db` in any order while a capture is in progress
--   Db/Expiry      `Db::expire_keys`
--   Db/Scan        `Db::with_prefixes`
--   Db/Reads       what can be read after a change to the keyspace
--   Glob/Atoms     src/glob.rs, `Atom`, `atoms` and `class`
--   Glob/Matching  what a list of atoms matches, as a relation; this is the specification
--   Glob/Automaton src/glob.rs, `Automaton`: a state is a row of words, one bit for each atom
--   Glob/Prefix    src/db.rs, `literal_prefix`
--   Glob           src/glob.rs, `Glob`: `new`, `client`, `matches` and `classify`
--   Scope          src/scope.rs, `Scope`: what it allows. `Scope::new` is `scope` and `Scope::all`
--                  is `everything`
--   Scope/Search   `Scope::search_prefixes`
--   Scope/Listing  a scope's search with `Db::with_prefixes`
--   Scope/Access   src/scope.rs, `Access::permit` and the texts of its refusals
--   Commands/Names src/commands.rs, `COMMANDS`, `key_spec`, `key_args`, `writes` and `grows`
--   Commands/Args  numbers, times, ranges and ids among the arguments
--   Commands/Reply `Reply`, `Outcome` and `collect_within`
--   Commands/Exec  `Exec` and `Db::exec`: a method is a function from the state to its result and
--                  the state after it, which is kept where the result is an error too.
--                  Exec/Typed is the macro `typed!`: a caller's change to what `$get_mut` finds is an
--                  argument. Exec/Refusals has the rules for methods that fail without a trace
--   Commands/Strings, Keyspace, Hashes, Lists, Sets
--                  one method for each command, with the lines of `Exec::dispatch` or the method it
--                  calls; a loop over a collection is a function of that collection
--   Commands/Walk  `walk`, with the closure as an argument, and KEYS and DBSIZE
--   Commands/Dispatch
--                  the table from names to methods. MSET and MSETNX are modelled but not in it
--   Captured       src/capture.rs, `Captured<K, V>`: `insert` is `put` and `remove` is `take_key`. `save`
--                  is the body of `preserve` and `advance` that of `capture_step`. A caller's change
--                  to what `get_mut` or `values_mut` lends is an argument. Captured/Maps and
--                  Captured/Each have what such changes do to a map
--   Store/Messages, Rooms, Limits
--                  src/store.rs, the data, and what is asked of a room. `Room::open` is `open_`, and
--                  the status `Open` is `opened`
--   Store/Tracking `track`, and what its sets and counts say of the messages
--   Store/Effects  `Store`, `Session` and `Effect`
--   Store/Changes  what an effect does to one agent, message or room, or to an index
--   Store/Apply    the effects one by one, and `remove_message`
--   Store/Rename   `rename`, `reindex` and `retrack`, and `Store::apply` as the function `apply`
--   Store/Reads    what is asked of the store
--   Store/Loading  `snapshot`, the captures, and `from_snapshot`. `owned` is what serde reads
--                  back of a snapshot, with its defaults; the fields it skips come back empty
--   Store/Issued   `last_id` and `next_id`
--   Store/Questions
--                  the open questions of the rooms
--   Util           src/util.rs, `to_hex` and `from_hex`, and in Util/Checks `valid_name`, `valid_key`
--                  and `iso8601`, of which nothing is stated yet
--
-- How values are modelled. A `BTreeMap` or a `BTreeSet` is an association list in the order of its
-- keys; `HashMap` and `HashSet` are modelled by it too, since nothing here depends on their order.
-- The heap of deadlines is a list with the soonest first. Text is a list of code points. A word is a
-- number below 2 ^ 64 and a shift drops what leaves it. A float is its sign and its other 63 bits,
-- which is what `f64::total_cmp` compares. What `serde_json` writes for a key and for an entry, or
-- its failure, is the parameter `Json`, and what `{:?}` writes is the parameter `debug`. An `i64` is
-- an integer over the native numbers, `checked` where the source checks, and `as u64` and `as i64`
-- wrap. An `Exec` borrows its keyspace and its arguments: here it holds the first, and a method takes
-- the second.
--
-- The record `Outside` holds, for the store, what `serde_json` writes for a room, a message, a key and
-- an entry of the keyspace, and `other`, what a command that is not in the table of Commands/Dispatch
-- does to the keyspace when an effect replays it: only a part of the commands is modelled, and nothing
-- that is stated of the store depends on the rest. The counts of what is held in memory are plain
-- numbers, since they do not reach the size of a word; the count of deliveries wraps at 2 ^ 32.
--
-- Bounds and fuel. `atoms` and `class` run on fuel, the length of the pattern that is left; each
-- round takes at least one character, so that it is enough. All other loops are structural. The
-- budget `usize::MAX` of a capture is `none`, since no buffer gets that long. The size of a part is
-- that of a build that is not for tests.
--
-- Left out: freeing large values on another thread, which changes nothing that can be observed; the
-- serde implementations; `message_json`, `post_json` and `broadcast_json`, the shapes of answers to
-- clients; `footprint`, `by_score` and `format_float`, which only read; of the
-- commands SCAN, those that block, that draw at random, and those on floats, sorted
-- sets and streams, with LSET, LINSERT, LMOVE and the algebra of sets; and the rest of the program,
-- most of which is I/O.
pub mod Prelude
pub mod Id
pub mod Db
pub mod Glob
pub mod Scope
pub mod Util
pub mod Commands
pub mod Captured
pub mod Store
