-- ===== src/Commands/Strings/Setting.antt =====
-- src/commands.rs: SET and GETEX.
use postino.Prelude.{
  Bool, true, not, ◌&&◌, ◌||◌, Option, none, some, List, if◌then◌else◌, is_some_and, drop,
}
use postino.Prelude.Order.{key_eq, text_order}
use postino.Prelude.Text.{Text, Result, ok, err, codes}
use postino.Db.{read, deadline}
use postino.Db.Value.{Entry}
use postino.Db.Captures.{Json}
use postino.Commands.Reply.{Reply, nil, ok_reply}
use postino.Commands.Exec.{
  Ctx, Method, pure, lift, gets, ◌>>=◌, ◌>>◌, either, demand, arg, arity, touch,
}
use postino.Commands.Exec.Typed.{wrong_type, syntax, string_kind, look}
use postino.Commands.Strings.{bulk_or_nil, expires_of, set_deadline, store_string, edit}
use postino.Commands.Strings.Options.{
  SetOptions, no_options, set_options, conflicts, is_plain, getex_options,
}

module _ (json : Json) (ctx : Ctx) (argv : List Text) where
  -- What the key holds, for SET: an error where that must be a string and is not.
  abbrev old_string : SetOptions → Option Entry → Result (Option Text)
  old_string o none = ok none
  old_string o (some e) = elim (string_kind.held e.value) [
    | some s ↦ ok (some s)
    | none ↦ if o.get || is_some_and o.ifeq (λ _. true) then err wrong_type else ok none
  ]

  -- Whether SET may write.
  abbrev pub may_set : SetOptions → Bool → Option Text → Bool
  may_set o there old =
      (not o.nx || not there)
      && (not o.xx || there)
      && elim o.ifeq [ none ↦ true | some want ↦ is_some_and old (key_eq want) ]

  unfoldable pub set : Method Reply
  unfolding arity lift set_options demand store_string gets read pure ◌>>=◌
  set = do
    arity argv 3
    o ← lift (set_options ctx.now (drop 3 argv) no_options)
    demand (not (conflicts o)) syntax
    if is_plain o
        then (do store_string json ctx (arg argv 1) (arg argv 2) o.expires; pure ok_reply)
        else (do
          current ← gets (λ x. read (arg argv 1) ctx.now x.db)
          old ← lift (old_string o current)
          let there = is_some_and current λ _. true
          let allowed = may_set o there old
          if allowed
              then store_string json ctx (arg argv 1) (arg argv 2)
                  (if o.keep then expires_of json ctx current else o.expires)
              else pure tt
          pure (if o.get then bulk_or_nil old else if allowed then ok_reply else nil))

  unfoldable pub getex : Method Reply
  unfolding arity look lift getex_options either edit deadline touch pure ◌>>=◌
  getex = do
    arity argv 2
    value ← look string_kind ctx (arg argv 1)
    new ← lift (getex_options ctx.now (drop 2 argv) none)
    either new (pure tt) λ expires. either value (pure tt) λ _. do
      held ← edit json ctx (arg argv 1) (λ e. record e { expires = expires })
      either held (pure tt) λ _. do
        set_deadline json ctx (arg argv 1) expires
        touch ctx (arg argv 1)
            (codes (if is_some_and expires (λ _. true) then "expire" else "persist"))
    pure (bulk_or_nil value)
