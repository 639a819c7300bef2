-- ===== src/Commands/Strings/Many.antt =====
-- src/commands.rs: MGET, MSET and MSETNX.
use postino.Prelude.{
  ◌%◌, not, ◌&&◌, ◌||◌, Option, none, some, List, [], ◌∷◌, ◌++◌, length, ltb, ◌==◌, if◌then◌else◌,
  any, map, drop,
}
use postino.Prelude.Order.{key_eq, text_order}
use postino.Prelude.Text.{Text, codes, utf8_len}
use postino.Db.{Db, read, exists}
use postino.Db.Captures.{Json}
use postino.Commands.Reply.{Reply, array, ok_reply, int_reply}
use postino.Commands.Exec.{
  Ctx, Method, pure, raise, lift, gets, ◌>>=◌, ◌>>◌, either, demand, wrong_args, arity, admit_all,
}
use postino.Commands.Exec.Typed.{string_kind, found}
use postino.Commands.Strings.{max_string, gather, pairs_of, store_string}

module _ (json : Json) (ctx : Ctx) (argv : List Text) where
  -- What MGET reads: nothing where the key holds no string.
  abbrev string_at : Db → Text → Option Text
  string_at db key = found string_kind (read key ctx.now db)

  unfoldable pub mget : Method Reply
  unfolding arity gets lift gather pure read ◌>>=◌
  mget = do
    arity argv 2
    lookup ← gets (λ x. string_at x.db)
    values ← lift (gather lookup 0 (drop 1 argv))
    pure (array values)

  unfoldable pub store_all : List (Text × Text) → Method (Unit {0})
  unfolding store_string pure ◌>>=◌
  store_all [] = pure tt
  store_all ((k, v) ∷ ps) = do store_string json ctx k v none; store_all ps

  abbrev first_long : List (Text × Text) → Option Text
  first_long [] = none
  first_long ((k, v) ∷ ps) = if ltb max_string (utf8_len v) then some k else first_long ps

  -- `MSET` and `MSETNX`, with what `{:?}` writes.
  unfoldable pub mset : (Text → Text) → Text → Method Reply
  unfolding demand pairs_of gets exists either raise admit_all store_all pure ◌>>=◌
  mset debug name = do
    demand (not (ltb (length argv) 3 || length argv % 2 == 0)) (wrong_args name)
    let pairs = pairs_of (drop 1 argv)
    held ← gets (λ x. any (λ p. exists p.0 ctx.now x.db) pairs)
    if key_eq name (codes "MSETNX") && held then pure (int_reply 0) else (do
      either (first_long pairs) (pure tt) (λ key. raise (
          codes "ERR string for " ++ (debug key ++ codes " exceeds maximum allowed size (16 MiB)")))
      admit_all ctx (map (λ p. p.0) pairs)
      store_all pairs
      pure (if key_eq name (codes "MSET") then ok_reply else int_reply 1))
