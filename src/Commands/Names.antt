-- ===== src/Commands/Names.antt =====
-- src/commands.rs: the names of the commands, which of their arguments are keys, and which commands
-- may change the keyspace.
pub mod Laws
use Prim.Native.Nat.{zero, suc}
use postino.Prelude.{
  ℕ, ◌+◌, ◌-◌, ◌/◌, Bool, true, false, ◌&&◌, ◌||◌, Option, none, some, List, [], ◌∷◌, ◌++◌, length,
  ltb, leb, ◌==◌, if◌then◌else◌, any, map, is_some_and, get_elem?, drop,
}
use postino.Prelude.Order.{key_eq, text_order}
use postino.Prelude.Text.{Text, codes, utf8_len}
use Prim.Native.String.{String}

-- The words of a line.
unfoldable pub split_words : Text → Text → List Text
split_words word [] = word ∷ []
split_words word (c ∷ s) =
    let next = word ∷ split_words [] s in
    let same = split_words (word ++ c ∷ []) s in if c == b' ' then next else same

abbrev pub words : String → List Text
unfolding split_words
words s = split_words [] (codes s)

-- `matches!(text, "A" | "B")`
abbrev pub among : Text → List Text → Bool
among t ts = any (key_eq t) ts

-- `to_ascii_uppercase`
unfoldable pub upper : Text → Text
upper [] = []
upper (c ∷ s) = (if leb b'a' c && leb c b'z' then c - 32 else c) ∷ upper s

-- `to_ascii_lowercase`
unfoldable pub lower : Text → Text
lower [] = []
lower (c ∷ s) = (if leb b'A' c && leb c b'Z' then c + 32 else c) ∷ lower s

-- `COMMANDS`
unfoldable pub commands : List Text
commands =
    words "APPEND BLMOVE BLPOP BRPOP BZPOPMAX BZPOPMIN COMMAND DBSIZE DECR DECRBY DEL"
    ++ words "DELIFEQ ECHO EXISTS EXPIRE EXPIREAT EXPIRETIME FLUSHALL FLUSHDB GET GETDEL GETEX"
    ++ words "GETSET HDEL HEXISTS HGET HGETALL HINCRBY HINCRBYFLOAT HKEYS HLEN HMGET HMSET"
    ++ words "HSET HSETNX HVALS INCR INCRBY INCRBYFLOAT INFO KEYS LINDEX LINSERT LLEN LMOVE"
    ++ words "LPOP LPUSH LPUSHX LRANGE LREM LSET LTRIM MGET MSET MSETNX PERSIST PEXPIRE"
    ++ words "PEXPIREAT PEXPIRETIME PING PSETEX PTTL PUBLISH PUBSUB RENAME RENAMENX RPOP"
    ++ words "RPOPLPUSH RPUSH RPUSHX SADD SCAN SCARD SDIFF SET SETEX SETNX SINTER SISMEMBER"
    ++ words "SMEMBERS SMISMEMBER SMOVE SPOP SRANDMEMBER SREM STRLEN SUNION TIME TTL TYPE"
    ++ words "UNLINK XACK XADD XAUTOCLAIM XCLAIM XDEL XGROUP XINFO XLEN XPENDING XRANGE XREAD"
    ++ words "XREADGROUP XREVRANGE XTRIM ZADD ZCARD ZCOUNT ZINCRBY ZMSCORE ZPOPMAX ZPOPMIN"
    ++ words "ZRANGE ZRANGEBYSCORE ZRANK ZREM ZREMRANGEBYRANK ZREMRANGEBYSCORE ZREVRANGE"
    ++ words "ZREVRANGEBYSCORE ZREVRANK ZSCORE"

pub data Keys : Type 0 where
  no_keys : Keys
  first every : Bool → Keys
  pairs two all_but_last : Keys
  streams : ℕ → Bool → Keys
  second : Bool → Keys

-- The patterns of `key_spec`, in its order.
unfoldable pub key_table : List (List Text × Keys)
key_table =
    (words "COMMAND DBSIZE ECHO FLUSHALL FLUSHDB INFO KEYS PING PUBLISH PUBSUB SCAN TIME", no_keys)
    ∷ (words "EXISTS MGET SDIFF SINTER SUNION", every false)
    ∷ (words "DEL UNLINK", every true)
    ∷ (words "MSET MSETNX", pairs)
    ∷ (words "BLMOVE LMOVE RENAME RENAMENX RPOPLPUSH SMOVE", two)
    ∷ (words "BLPOP BRPOP BZPOPMAX BZPOPMIN", all_but_last)
    ∷ (words "XREAD", streams 1 false)
    ∷ (words "XREADGROUP", streams 4 true)
    ∷ (words "XGROUP", second true)
    ∷ (words "XINFO", second false)
    ∷ (
      words "EXPIRETIME GET HEXISTS HGET HGETALL HKEYS HLEN HMGET HVALS LINDEX LLEN LRANGE"
          ++ words
              "PEXPIRETIME PTTL SCARD SISMEMBER SMEMBERS SMISMEMBER SRANDMEMBER STRLEN TTL TYPE"
          ++ words "XLEN XPENDING XRANGE XREVRANGE ZCARD ZCOUNT ZMSCORE ZRANGE ZRANGEBYSCORE ZRANK"
          ++ words "ZREVRANGE ZREVRANGEBYSCORE ZREVRANK ZSCORE",
      first false,
    )
    ∷ (
      words "APPEND DECR DECRBY DELIFEQ EXPIRE EXPIREAT GETDEL GETEX GETSET HDEL HINCRBY"
          ++ words
              "HINCRBYFLOAT HMSET HSET HSETNX INCR INCRBY INCRBYFLOAT LINSERT LPOP LPUSH LPUSHX"
          ++ words "LREM LSET LTRIM PERSIST PEXPIRE PEXPIREAT PSETEX RPOP RPUSH RPUSHX SADD SET"
          ++ words "SETEX SETNX SPOP SREM XACK XADD XAUTOCLAIM XCLAIM XDEL XTRIM ZADD ZINCRBY"
          ++ words "ZPOPMAX ZPOPMIN ZREM ZREMRANGEBYRANK ZREMRANGEBYSCORE",
      first true,
    )
    ∷ []

unfoldable pub find_spec : Text → List (List Text × Keys) → Option Keys
find_spec name [] = none
find_spec name ((names, spec) ∷ table) =
    if among name names then some spec else find_spec name table

unfoldable pub key_spec : Text → Option Keys
unfolding find_spec
key_spec name = find_spec name key_table

unfoldable pub first_word : List Text → Text
first_word [] = []
first_word (word ∷ _) = word

-- `Name::of`, as the text of the name.
unfoldable pub name_of : List Text → Text
unfolding upper first_word
name_of argv = let word = first_word argv in if leb (utf8_len word) 24 then upper word else []

-- `n` numbers from `i` on, by steps of `s`.
unfoldable pub counted : ℕ → ℕ → ℕ → List ℕ
counted i s zero = []
counted i s (suc n) = i ∷ counted (i + s) s n

-- The loop of `stream_keys`, at argument `i`, before the arguments that are left.
unfoldable pub stream_loop : ℕ → List Text → ℕ × ℕ
stream_loop i [] = (0, 0)
stream_loop i (word ∷ []) = if key_eq (upper word) (codes "STREAMS") then (i + 1, i + 1) else (0, 0)
stream_loop i (word ∷ value ∷ rest) =
    let past_value = stream_loop (i + 2) rest in
    let past_word = stream_loop (i + 1) (value ∷ rest) in
    let name = upper word in
    if among name (words "COUNT BLOCK")
    then past_value
    else if key_eq name (codes "NOACK")
    then past_word
    else if key_eq name (codes "STREAMS")
    then (i + 1, i + 1 + suc (length rest) / 2)
    else (0, 0)

-- The first of the keys, and the argument after the last.
unfoldable pub stream_keys : List Text → ℕ → ℕ × ℕ
unfolding stream_loop
stream_keys argv from = stream_loop from (drop from argv)

abbrev pub filter_below : ℕ → List ℕ → List ℕ
filter_below len [] = []
filter_below len (i ∷ is) = if ltb i len then i ∷ filter_below len is else filter_below len is

-- The arguments of a range that there are.
unfoldable pub keys_in : ℕ → Bool → ℕ × ℕ → List (ℕ × Bool)
unfolding counted
keys_in len write (a, b) = map (λ i. (i, write)) (filter_below len (counted a 1 (b - a)))

unfoldable pub args_of : Keys → List Text → List (ℕ × Bool)
unfolding keys_in stream_keys
args_of no_keys argv = []
args_of (first write) argv = keys_in (length argv) write (1, 2)
args_of (every write) argv = keys_in (length argv) write (1, length argv)
args_of pairs argv = map (λ i. (i, true)) (counted 1 2 (length argv / 2))
args_of two argv = keys_in (length argv) true (1, 3)
args_of all_but_last argv =
    let end = length argv - 1 in keys_in (length argv) true (1, if ltb end 1 then 1 else end)
args_of (streams from write) argv = keys_in (length argv) write (stream_keys argv from)
args_of (second write) argv = keys_in (length argv) write (2, 3)

unfoldable pub key_args : List Text → Option (List (ℕ × Bool))
unfolding args_of key_spec name_of
key_args argv = elim (key_spec (name_of argv)) [
  | none ↦ none
  | some spec ↦ some (args_of spec argv)
]

-- The last part of `writes`.
unfoldable pub spec_writes : Keys → List Text → Bool
unfolding stream_keys
spec_writes no_keys argv = false
spec_writes (first write) argv = write && ltb 1 (length argv)
spec_writes (every write) argv = write && ltb 1 (length argv)
spec_writes pairs argv = ltb 1 (length argv)
spec_writes two argv = ltb 1 (length argv)
spec_writes all_but_last argv = ltb 2 (length argv)
spec_writes (streams from write) argv =
    let (start, end) = stream_keys argv from in write && (ltb start (length argv) && ltb start end)
spec_writes (second write) argv = write && ltb 2 (length argv)

abbrev pub is_flush : Text → Bool
is_flush name = among name (words "FLUSHALL FLUSHDB")

unfoldable pub writes : List Text → Bool
unfolding spec_writes key_spec name_of
writes argv =
    if is_flush (name_of argv)
    then true
    else elim (key_spec (name_of argv)) [ none ↦ false | some spec ↦ spec_writes spec argv ]

-- The commands that `grows` names.
unfoldable pub growing : List Text
growing =
    words "APPEND DECR DECRBY GETSET HINCRBY HINCRBYFLOAT HMSET HSET HSETNX INCR INCRBY"
    ++ words "INCRBYFLOAT LINSERT LPUSH LPUSHX LSET MSET MSETNX PSETEX RPUSH RPUSHX SADD SET"
    ++ words "SETEX SETNX XADD XREADGROUP ZADD ZINCRBY"

unfoldable pub grows : List Text → Bool
unfolding name_of upper
grows argv =
    let name = name_of argv in
    if among name growing
    then true
    else if key_eq name (codes "XGROUP")
    then is_some_and (get_elem? argv 1)
        (λ sub. among (upper sub) (words "CREATE CREATECONSUMER SETID"))
    else false
