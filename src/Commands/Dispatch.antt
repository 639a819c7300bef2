-- ===== src/Commands/Dispatch.antt =====
-- src/commands.rs, `Exec::dispatch` and `Db::exec`: from a command's name to its method. MSET and
-- MSETNX, whose method takes what `{:?}` writes, stand apart.
pub mod Refusals
pub mod Reading
use postino.Prelude.{ℕ, Option, none, some, List, [], ◌∷◌, ◌++◌, Bool, if◌then◌else◌, length}
use postino.Prelude.Order.{text_order, key_eq}
use postino.Prelude.Text.{Text, codes}
use postino.Db.{Db}
use postino.Db.Captures.{Json}
use postino.Commands.Names.{among, words, name_of}
use postino.Commands.Reply.{Reply, Outcome, simple, bulk}
use postino.Commands.Exec.{Ctx, Method, pure, raise, exec, exactly, arg, wrong_args, ◌>>=◌, ◌>>◌}
use postino.Commands.Strings
use postino.Commands.Strings.Setting
use postino.Commands.Strings.Many
use postino.Commands.Keyspace
use postino.Commands.Hashes
use postino.Commands.Lists
use postino.Commands.Sets
use postino.Commands.Walk

abbrev pub Table : Type 0
Table = List (List Text × Method Reply)

unfoldable pub select : Text → Table → Option (Method Reply)
select name [] = none
select name ((names, method) ∷ table) = if among name names then some method else select name table

unfoldable pub ping : List Text → Method Reply
unfolding pure raise wrong_args
ping (_ ∷ []) = pure (simple (codes "PONG"))
ping (_ ∷ a ∷ []) = pure (bulk a)
ping _ = raise (wrong_args (codes "ping"))

module _ (json : Json) (ctx : Ctx) (name : Text) (argv : List Text) where
  unfoldable pub echo : Method Reply
  unfolding exactly pure ◌>>=◌
  echo = do exactly argv 2; pure (bulk (arg argv 1))

  -- The commands that only read.
  unfoldable pub readers : Table
  readers =
      (words "PING", ping argv)
      ∷ (words "ECHO", echo)
      ∷ (words "KEYS", Walk.keys json ctx argv)
      ∷ (words "DBSIZE", Walk.dbsize json ctx argv)
      ∷ (words "EXISTS", Keyspace.exists_command json ctx argv)
      ∷ (words "TYPE", Keyspace.type_command json ctx argv)
      ∷ (words "TTL PTTL EXPIRETIME PEXPIRETIME", Keyspace.ttl json ctx argv name)
      ∷ (words "GET", Strings.get_command json ctx argv)
      ∷ (words "MGET", Many.mget json ctx argv)
      ∷ (words "STRLEN", Strings.strlen json ctx argv)
      ∷ (words "HGET", Hashes.hget json ctx argv)
      ∷ (words "HMGET", Hashes.hmget json ctx argv)
      ∷ (words "HGETALL", Hashes.hgetall json ctx argv)
      ∷ (words "HEXISTS", Hashes.hexists json ctx argv)
      ∷ (words "HLEN", Hashes.hlen json ctx argv)
      ∷ (words "HKEYS HVALS", Hashes.hkeys json ctx argv name)
      ∷ (words "LLEN", Lists.llen json ctx argv)
      ∷ (words "LRANGE", Lists.lrange json ctx argv)
      ∷ (words "LINDEX", Lists.lindex json ctx argv)
      ∷ (words "SMEMBERS", Sets.smembers json ctx argv)
      ∷ (words "SISMEMBER", Sets.sismember json ctx argv)
      ∷ (words "SMISMEMBER", Sets.smismember json ctx argv)
      ∷ (words "SCARD", Sets.scard json ctx argv)
      ∷ []

  -- The commands that may change a key.
  unfoldable pub writers : Table
  writers =
      (words "DEL UNLINK", Keyspace.del json ctx argv)
      ∷ (words "EXPIRE PEXPIRE EXPIREAT PEXPIREAT", Keyspace.expire json ctx argv name)
      ∷ (words "PERSIST", Keyspace.persist json ctx argv)
      ∷ (words "RENAME RENAMENX", Keyspace.rename json ctx argv (key_eq name (codes "RENAMENX")))
      ∷ (words "SET", Setting.set json ctx argv)
      ∷ (words "SETNX", Strings.setnx json ctx argv)
      ∷ (words "SETEX PSETEX", Strings.setex json ctx argv name)
      ∷ (words "GETSET", Strings.getset json ctx argv)
      ∷ (words "GETDEL", Strings.getdel json ctx argv)
      ∷ (words "GETEX", Setting.getex json ctx argv)
      ∷ (words "APPEND", Strings.append json ctx argv)
      ∷ (words "INCR DECR INCRBY DECRBY", Strings.incr_command json ctx argv name)
      ∷ (words "DELIFEQ", Strings.delifeq json ctx argv)
      ∷ (words "HSET HMSET", Hashes.hset json ctx argv name)
      ∷ (words "HSETNX", Hashes.hsetnx json ctx argv)
      ∷ (words "HDEL", Hashes.hdel json ctx argv)
      ∷ (words "HINCRBY", Hashes.hincrby json ctx argv)
      ∷ (words "LPUSH RPUSH LPUSHX RPUSHX", Lists.lpush json ctx argv name)
      ∷ (words "LPOP RPOP", Lists.lpop json ctx argv name)
      ∷ (words "LREM", Lists.lrem json ctx argv)
      ∷ (words "LTRIM", Lists.ltrim json ctx argv)
      ∷ (words "SADD", Sets.sadd json ctx argv)
      ∷ (words "SREM", Sets.srem json ctx argv)
      ∷ (words "FLUSHDB FLUSHALL", Keyspace.flush json ctx argv)
      ∷ []

  unfoldable pub dispatch : Option (Method Reply)
  unfolding readers writers select
  dispatch = select name (readers ++ writers)

-- `Db::exec` of a command whose name is among these.
unfoldable pub run : Json → Ctx → List Text → Db → Option (Outcome × Db)
unfolding dispatch name_of exec raise
run json ctx [] db = some (exec (raise (codes "ERR empty command")) db)
run json ctx (word ∷ rest) db = elim (dispatch json ctx (name_of (word ∷ rest)) (word ∷ rest)) [
  | none ↦ none
  | some method ↦ some (exec method db)
]
