-- ===== src/Commands/Strings.antt =====
-- src/commands.rs: the commands on strings that are no number with a fraction.
pub mod Options
pub mod Setting
pub mod Many
pub mod Refusals
pub mod Laws
pub mod Counting
pub mod Bounds
use postino.Prelude.{
  ℕ, ◌+◌, ◌*◌, ◌^◌, ◌%◌, Bool, true, false, not, ◌&&◌, ◌||◌, Option, none, some, List, [], ◌∷◌,
  ◌++◌, length, ltb, ◌==◌, if◌then◌else◌, is_some_and, any, map, drop,
}
use postino.Prelude.Order.{key_eq, text_order}
use postino.Prelude.Text.{Text, Result, ok, err, codes, utf8_len}
use postino.Prelude.Search.{starts_with}
use postino.Prelude.Results.{is_ok}
use postino.Prelude.Int.{ℤ, pos, ◌+ℤ◌, neg, leb_ℤ, checked, int_text}
use postino.Db.{Db, read, exists, put, replace, deadline, take_key, get_mut}
use postino.Db.Value.{Entry, string}
use postino.Db.Captures.{Json}
use postino.Commands.Names.{lower, among}
use postino.Commands.Args.{int, not_int, expiry_at}
use postino.Commands.Reply.{
  Reply, Replies, end, more, simple, bulk, nil, array, ok_reply, int_reply, bool_reply,
  within_reply,
}
use postino.Commands.Exec.{
  Exec, Ctx, Method, pure, raise, lift, gets, change, ◌>>=◌, ◌>>◌, either, demand, wrong_args, arg,
  arity, exactly, touch, admit_all, admit,
}
use postino.Commands.Exec.Typed.{
  wrong_type, syntax, string_kind, require, typed_ref, look, made, found,
}
use Options.{SetOptions, no_options, set_options, conflicts, is_plain, getex_options, invalid_time}

abbrev pub max_string : ℕ
max_string = 16 * 2 ^ 20

abbrev pub too_long_string : Text
too_long_string = codes "ERR string exceeds maximum allowed size (16 MiB)"

-- `map_or(Reply::Nil, Reply::Bulk)`
abbrev pub bulk_or_nil : Option Text → Reply
bulk_or_nil none = nil
bulk_or_nil (some s) = bulk s

abbrev pub len_of : Option Text → ℕ
len_of none = 0
len_of (some s) = utf8_len s

-- The values of MGET and HMGET, within what a reply may hold.
unfoldable pub gather : (Text → Option Text) → ℕ → List Text → Result Replies
unfolding within_reply
gather lookup bytes [] = ok end
gather lookup bytes (t ∷ ts) = elim (lookup t) [
  | none ↦ elim (gather lookup bytes ts) [ ok rs ↦ ok (more nil rs) | err e ↦ err e ]
  | some s ↦ elim (within_reply (bytes + utf8_len s)) [
    | err e ↦ err e
    | ok _ ↦ elim (gather lookup (bytes + utf8_len s) ts) [
      | ok rs ↦ ok (more (bulk s) rs)
      | err e ↦ err e
    ]
  ]
]

-- `chunks(2)`
unfoldable pub pairs_of : List Text → List (Text × Text)
pairs_of [] = []
pairs_of (k ∷ []) = []
pairs_of (k ∷ v ∷ ts) = (k, v) ∷ pairs_of ts

-- A string that is a number, or 0 where there is none.
abbrev number : Option Text → Result ℤ
number none = ok (pos 0)
number (some s) = int s

module _ (json : Json) (ctx : Ctx) where
  -- A key already held needs no room.
  unfoldable pub place : Text → Entry → Method (Unit {0})
  unfolding change replace either admit put pure ◌>>=◌
  place key entry = do
    unplaced ← change (replace json key entry)
    either unplaced (pure tt) λ entry. do admit ctx key; change λ db. (put json key entry db, tt)

  abbrev pub set_deadline : Text → Option ℕ → Method (Unit {0})
  set_deadline key expires = either expires (pure tt) λ at. change λ db. (deadline key at db, tt)

  unfoldable pub store_string : Text → Text → Option ℕ → Method (Unit {0})
  unfolding place demand touch either change pure deadline ◌>>=◌
  store_string key value expires = do
    demand (not (ltb max_string (utf8_len value))) too_long_string
    place key (record { value = string value; expires = expires })
    set_deadline key expires
    touch ctx key (codes "set")

  abbrev pub expires_of : Option Entry → Option ℕ
  expires_of none = none
  expires_of (some e) = e.expires

  unfoldable pub write_string_keep_ttl : Text → Text → Method (Unit {0})
  unfolding gets read admit change put ◌>>=◌
  write_string_keep_ttl key value = do
    expires ← gets (λ x. expires_of (read key ctx.now x.db))
    admit ctx key
    change λ db. (put json key (record { value = string value; expires = expires }) db, tt)

  unfoldable pub incr : Text → ℤ → Method Reply
  unfolding look lift int require write_string_keep_ttl touch pure ◌>>=◌
  incr key by = do
    held ← look string_kind ctx key
    current ← lift (number held)
    next ← require (checked (current +ℤ by)) (codes "ERR increment or decrement would overflow")
    write_string_keep_ttl key (int_text next)
    touch ctx key (codes "incrby")
    pure (Reply.int next)

  -- `db.get_mut` of a live key: what was there, and whether anything was.
  unfoldable pub edit : Text → (Entry → Entry) → Method (Option Entry)
  unfolding change get_mut read
  edit key f = change λ db. (get_mut json key ctx.now f db, read key ctx.now db)

  -- `db.take`
  unfoldable pub drop_key : Text → Method (Unit {0})
  unfolding change take_key
  drop_key key = change λ db. ((take_key json key db).0, tt)

  module _ (argv : List Text) where
    unfoldable pub get_command : Method Reply
    unfolding exactly look pure ◌>>=◌
    get_command = do
      exactly argv 2
      held ← look string_kind ctx (arg argv 1)
      pure (bulk_or_nil held)

    unfoldable pub strlen : Method Reply
    unfolding exactly look pure ◌>>=◌
    strlen = do
      exactly argv 2
      held ← look string_kind ctx (arg argv 1)
      pure (int_reply (len_of held))

    unfoldable pub setnx : Method Reply
    unfolding exactly gets exists store_string pure ◌>>=◌
    setnx = do
      exactly argv 3
      there ← gets (λ x. exists (arg argv 1) ctx.now x.db)
      if there
          then pure (int_reply 0)
          else (do store_string (arg argv 1) (arg argv 2) none; pure (int_reply 1))

    unfoldable pub setex : Text → Method Reply
    unfolding exactly lift int demand require expiry_at store_string pure lower ◌>>=◌
    setex name = do
      exactly argv 4
      amount ← lift (int (arg argv 2))
      demand (not (leb_ℤ amount (pos 0))) (invalid_time (lower name))
      let unit = if key_eq name (codes "SETEX") then 1000 else 1
      expires ← require (expiry_at ctx.now amount unit false) (invalid_time (lower name))
      store_string (arg argv 1) (arg argv 3) (some expires)
      pure ok_reply

    unfoldable pub getset : Method Reply
    unfolding exactly look store_string pure ◌>>=◌
    getset = do
      exactly argv 3
      old ← look string_kind ctx (arg argv 1)
      store_string (arg argv 1) (arg argv 2) none
      pure (bulk_or_nil old)

    unfoldable pub getdel : Method Reply
    unfolding exactly look either drop_key touch pure ◌>>=◌
    getdel = do
      exactly argv 2
      old ← look string_kind ctx (arg argv 1)
      either old (pure tt) λ _. do drop_key (arg argv 1); touch ctx (arg argv 1) (codes "del")
      pure (bulk_or_nil old)

    unfoldable pub delifeq : Method Reply
    unfolding exactly look drop_key touch pure ◌>>=◌
    delifeq = do
      exactly argv 3
      held ← look string_kind ctx (arg argv 1)
      let matches = is_some_and held (key_eq (arg argv 2))
      if matches then (do drop_key (arg argv 1); touch ctx (arg argv 1) (codes "del")) else pure tt
      pure (bool_reply matches)

    unfoldable pub append : Method Reply
    unfolding exactly look demand made touch pure ◌>>=◌
    append = do
      exactly argv 3
      held ← look string_kind ctx (arg argv 1)
      demand (not (ltb max_string (len_of held + utf8_len (arg argv 2)))) too_long_string
      len ←
          made string_kind ctx (arg argv 1) json λ s. (s ++ arg argv 2, utf8_len (s ++ arg argv 2))
      touch ctx (arg argv 1) (codes "append")
      pure (int_reply len)

    -- `INCR`, `DECR`, `INCRBY` and `DECRBY`
    unfoldable pub incr_command : Text → Method Reply
    unfolding exactly lift int require incr starts_with pure ◌>>=◌
    incr_command name = do
      by ←
          (if among name (codes "INCR" ∷ codes "DECR" ∷ [])
            then exactly argv 2 >> pure (pos 1)
            else exactly argv 3 >> lift (int (arg argv 2)))
      by ← (if starts_with (codes "D") name then require (checked (neg by)) not_int else pure by)
      incr (arg argv 1) by
