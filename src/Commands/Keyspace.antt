-- ===== src/Commands/Keyspace.antt =====
-- src/commands.rs: the commands on keys of any kind: DEL, EXISTS, TYPE, EXPIRE and its kin, PERSIST,
-- RENAME and FLUSHDB.
pub mod Refusals
pub mod Laws
use postino.Prelude.{
  ℕ, ◌+◌, ◌-◌, ◌/◌, ◌^◌, Bool, true, false, not, ◌&&◌, ◌||◌, Option, none, some, List, [], ◌∷◌,
  ◌++◌, length, ltb, leb, drop, if◌then◌else◌, is_some_and,
}
use postino.Prelude.Order.{key_eq, text_order}
use postino.Prelude.Text.{Text, Result, ok, err, codes}
use postino.Prelude.Results.{guard}
use postino.Prelude.Int.{
  ℤ, pos, negsuc, minus, above, below, ◌+ℤ◌, times, leb_ℤ, ltb_ℤ, checked, i64_limit,
}
use postino.Db.{Db, read, exists, put, deadline, delete, remove_live, clear, get_mut}
use postino.Db.Value.{Entry, type_name}
use postino.Db.Captures.{Json}
use postino.Commands.Names.{lower, upper}
use postino.Commands.Args.{int}
use postino.Commands.Reply.{Reply, simple, ok_reply, int_reply}
use postino.Commands.Exec.{
  Exec, Ctx, Method, pure, raise, lift, gets, modify, change, ◌>>=◌, ◌>>◌, either, demand, arg,
  arity, exactly, touch,
}
use postino.Commands.Exec.Typed.{require}
use postino.Commands.Strings.{edit}
use postino.Commands.Strings.Options.{invalid_time}

-- `n as i64` and `z as u64`
abbrev as_i64 : ℕ → ℤ
as_i64 n = if ltb n i64_limit then pos n else minus n (2 ^ 64)

abbrev as_u64 : ℤ → ℕ
as_u64 (pos n) = n
as_u64 (negsuc n) = 2 ^ 64 - 1 - n

-- `i64::try_from(n).unwrap_or(i64::MAX)`
abbrev to_i64_or_max : ℕ → ℤ
to_i64_or_max n = pos (if ltb n i64_limit then n else i64_limit - 1)

-- `NX`, `XX`, `GT` and `LT`
pub record Flags : Type 0 where
  pub nx : Bool
  pub xx : Bool
  pub gt : Bool
  pub lt : Bool

abbrev set_flag : Text → Flags → Option Flags
set_flag word o =
    if key_eq word (codes "NX")
    then some (record o { nx = true })
    else if key_eq word (codes "XX")
    then some (record o { xx = true })
    else if key_eq word (codes "GT")
    then some (record o { gt = true })
    else if key_eq word (codes "LT")
    then some (record o { lt = true })
    else none

unfoldable pub expire_flags : List Text → Flags → Result Flags
unfolding upper
expire_flags [] o = ok o
expire_flags (w ∷ ws) o = elim (set_flag (upper w) o) [
  | none ↦ err (codes "ERR Unsupported option " ++ w)
  | some o' ↦ expire_flags ws o'
]

abbrev add_checked : Option ℤ → ℤ → Option ℤ
add_checked none n = none
add_checked (some z) n = checked (z +ℤ n)

-- The time that EXPIRE and its kin mean.
unfoldable pub expire_at : Text → ℤ → ℤ → Option ℤ
expire_at name amount now =
    if key_eq name (codes "EXPIRE")
    then add_checked (checked (times 1000 amount)) now
    else if key_eq name (codes "PEXPIRE")
    then checked (amount +ℤ now)
    else if key_eq name (codes "EXPIREAT")
    then checked (times 1000 amount)
    else some amount

-- Whether the flags let the time change.
unfoldable pub may_expire : Flags → ℤ → Option ℕ → Bool
may_expire o at none = not o.xx && not o.gt
may_expire o at (some t) =
    not o.nx && (not o.gt || ltb_ℤ (to_i64_or_max t) at) && (not o.lt || ltb_ℤ at (to_i64_or_max t))

-- What TTL and its kin answer for a key that expires at a later time.
unfoldable pub time_left : Text → ℕ → ℕ → ℕ
time_left name now at =
    if key_eq name (codes "TTL")
    then (at - now + 500) / 1000
    else if key_eq name (codes "PTTL")
    then at - now
    else if key_eq name (codes "EXPIRETIME")
    then at / 1000
    else at

module _ (json : Json) (ctx : Ctx) (argv : List Text) where
  unfoldable pub del_loop : ℕ → List Text → Method ℕ
  unfolding change delete touch pure ◌>>=◌
  del_loop removed [] = pure removed
  del_loop removed (k ∷ ks) = do
    gone ← change (delete json k ctx.now)
    if gone then touch ctx k (codes "del") else pure tt
    del_loop (if gone then removed + 1 else removed) ks

  unfoldable pub del : Method Reply
  unfolding arity del_loop pure ◌>>=◌
  del = do arity argv 2; removed ← del_loop 0 (drop 1 argv); pure (int_reply removed)

  abbrev count_existing : Db → List Text → ℕ
  count_existing db [] = 0
  count_existing db (k ∷ ks) = (if exists k ctx.now db then 1 else 0) + count_existing db ks

  unfoldable pub exists_command : Method Reply
  unfolding arity gets exists pure ◌>>=◌
  exists_command = do
    arity argv 2
    n ← gets (λ x. count_existing x.db (drop 1 argv))
    pure (int_reply n)

  abbrev type_of : Option Entry → Text
  type_of none = codes "none"
  type_of (some e) = type_name e.value

  unfoldable pub type_command : Method Reply
  unfolding exactly gets read type_name pure ◌>>=◌
  type_command = do
    exactly argv 2
    held ← gets (λ x. read (arg argv 1) ctx.now x.db)
    pure (simple (type_of held))

  abbrev no_flags : Flags
  no_flags = record { nx = false; xx = false; gt = false; lt = false }

  -- The new time of an entry that EXPIRE reaches and that stays.
  abbrev expire_entry : Flags → ℤ → Entry → Entry
  expire_entry o at e =
      if may_expire o at e.expires && not (leb_ℤ at (as_i64 ctx.now))
      then record e { expires = some (as_u64 at) }
      else e

  unfoldable pub expire : Text → Method Reply
  unfolding arity lift int require expire_at expire_flags demand edit either may_expire change
      delete deadline touch pure lower ◌>>=◌
  expire name = do
    arity argv 3
    amount ← lift (int (arg argv 2))
    at ← require (expire_at name amount (as_i64 ctx.now)) (invalid_time (lower name))
    o ← lift (expire_flags (drop 3 argv) no_flags)
    demand (not (o.nx && (o.xx || o.gt || o.lt) || o.gt && o.lt))
        (codes "ERR NX and XX, GT or LT options at the same time are not compatible")
    held ← edit json ctx (arg argv 1) (expire_entry o at)
    either held (pure (int_reply 0)) λ e.
        if not (may_expire o at e.expires) then pure (int_reply 0) else (do
          if leb_ℤ at (as_i64 ctx.now)
              then (do
                change (delete json (arg argv 1) ctx.now)
                touch ctx (arg argv 1) (codes "del"))
              else (do
                change λ db. (deadline (arg argv 1) (as_u64 at) db, tt)
                touch ctx (arg argv 1) (codes "expire"))
          pure (int_reply 1))

  abbrev ttl_of : Text → Option Entry → Reply
  ttl_of name none = Reply.int (negsuc 1)
  ttl_of name (some e) = elim e.expires [
    | none ↦ Reply.int (negsuc 0)
    | some at ↦ int_reply (time_left name ctx.now at)
  ]

  unfoldable pub ttl : Text → Method Reply
  unfolding exactly gets read time_left pure ◌>>=◌
  ttl name = do
    exactly argv 2
    held ← gets (λ x. read (arg argv 1) ctx.now x.db)
    pure (ttl_of name held)

  unfoldable pub persist : Method Reply
  unfolding exactly edit either touch pure ◌>>=◌
  persist = do
    exactly argv 2
    held ← edit json ctx (arg argv 1) (λ e. record e { expires = none })
    either held (pure (int_reply 0)) λ e.
        either e.expires (pure (int_reply 0))
          λ _. do touch ctx (arg argv 1) (codes "persist"); pure (int_reply 1)

  abbrev no_such_key : Text
  no_such_key = codes "ERR no such key"

  -- The last lines of RENAME, where the new name is free or may be taken.
  unfoldable pub move_key : Bool → Method Reply
  unfolding change remove_live require either deadline put touch pure ◌>>=◌
  move_key nx = do
    held ← change (remove_live json (arg argv 1) ctx.now)
    entry ← require held no_such_key
    either entry.expires (pure tt) λ at. change λ db. (deadline (arg argv 2) at db, tt)
    change λ db. (put json (arg argv 2) entry db, tt)
    touch ctx (arg argv 1) (codes "rename_from")
    touch ctx (arg argv 2) (codes "rename_to")
    pure (if nx then int_reply 1 else ok_reply)

  unfoldable pub rename : Bool → Method Reply
  unfolding exactly gets exists demand move_key pure ◌>>=◌
  rename nx = do
    exactly argv 3
    there ← gets (λ x. exists (arg argv 1) ctx.now x.db)
    demand there no_such_key
    if key_eq (arg argv 1) (arg argv 2) then pure (if nx then int_reply 0 else ok_reply) else (do
      taken ← gets (λ x. exists (arg argv 2) ctx.now x.db)
      if nx && taken then pure (int_reply 0) else move_key nx)

  abbrev is_none_held : Db → Bool
  is_none_held db = elim db.keys [ [] ↦ true | _ ∷ _ ↦ false ]

  unfoldable pub flush : Method Reply
  unfolding demand gets change clear modify pure ◌>>=◌
  flush = do
    demand ctx.access.admin (codes "NOPERM this command requires the administrator token")
    empty ← gets (λ x. is_none_held x.db)
    if empty
        then pure tt
        else (do change λ db. (clear json db, tt); modify λ x. record x { dirty = true })
    pure ok_reply
