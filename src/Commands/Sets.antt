-- ===== src/Commands/Sets.antt =====
-- src/commands.rs: SADD, SREM, SMEMBERS, SISMEMBER, SMISMEMBER and SCARD.
pub mod Refusals
use postino.Prelude.{
  ℕ, ◌+◌, Bool, true, false, not, Option, none, some, List, [], ◌∷◌, length, ltb, drop,
  if◌then◌else◌,
}
use postino.Prelude.Order.{text_order}
use postino.Prelude.Map.{Map, get, insert, remove}
use postino.Prelude.Text.{Text, codes}
use postino.Db.Captures.{Json}
use postino.Commands.Reply.{
  Reply, Replies, replies, bulk, array, int_reply, bool_reply, collect_within,
}
use postino.Commands.Exec.{
  Ctx, Method, pure, lift, ◌>>=◌, ◌>>◌, either, arg, arity, exactly, touch, room_for,
}
use postino.Commands.Exec.Typed.{set_kind, look, typed_mut, made}
use postino.Commands.Hashes.{fields_of, has_field, remove_all, prune_key, removed_from}

abbrev pub Set : Type 0
Set = Map Text (Unit {0})

-- All the members inserted, and how many were new.
unfoldable pub add_all : List Text → Set → Set × ℕ
unfolding get insert
add_all [] s = (s, 0)
add_all (t ∷ ts) s =
    let (s', n) = add_all ts (insert t tt s) in (s', (if has_field t s then 0 else 1) + n)

-- The members that the set has not, without repetition.
unfoldable pub new_members : Set → List Text → Set
unfolding get insert
new_members s [] = []
new_members s (t ∷ ts) =
    let rest = new_members s ts in if has_field t s then rest else insert t tt rest

abbrev member_replies : Set → List Reply
member_replies [] = []
member_replies ((t, _) ∷ s) = bulk t ∷ member_replies s

abbrev tests_of : Set → List Text → List Reply
tests_of s [] = []
tests_of s (t ∷ ts) = bool_reply (has_field t s) ∷ tests_of s ts

module _ (json : Json) (ctx : Ctx) (argv : List Text) where
  unfoldable pub sadd : Method Reply
  unfolding arity look room_for new_members made add_all touch prune_key pure ◌>>=◌
  sadd = do
    arity argv 3
    let members = drop 2 argv
    current ← look set_kind ctx (arg argv 1)
    room_for ctx (length (fields_of current)) (length (new_members (fields_of current) members))
    added ← made set_kind ctx (arg argv 1) json (add_all members)
    if ltb 0 added then touch ctx (arg argv 1) (codes "sadd") else pure tt
    prune_key json ctx (arg argv 1)
    pure (int_reply added)

  unfoldable pub srem : Method Reply
  unfolding arity typed_mut remove_all either removed_from pure ◌>>=◌
  srem = do
    arity argv 3
    removed ← typed_mut set_kind ctx (arg argv 1) json false (remove_all (drop 2 argv))
    either removed (pure (int_reply 0)) λ n. removed_from json ctx (arg argv 1) (codes "srem") n

  unfoldable pub smembers : Method Reply
  unfolding exactly look lift collect_within ◌>>=◌
  smembers = do
    exactly argv 2
    held ← look set_kind ctx (arg argv 1)
    lift (collect_within (member_replies (fields_of held)))

  unfoldable pub sismember : Method Reply
  unfolding exactly look get pure ◌>>=◌
  sismember = do
    exactly argv 3
    held ← look set_kind ctx (arg argv 1)
    pure (bool_reply (has_field (arg argv 2) (fields_of held)))

  unfoldable pub smismember : Method Reply
  unfolding arity look get pure ◌>>=◌
  smismember = do
    arity argv 3
    held ← look set_kind ctx (arg argv 1)
    pure (array (replies (tests_of (fields_of held) (drop 2 argv))))

  unfoldable pub scard : Method Reply
  unfolding exactly look pure ◌>>=◌
  scard = do
    exactly argv 2
    held ← look set_kind ctx (arg argv 1)
    pure (int_reply (length (fields_of held)))
