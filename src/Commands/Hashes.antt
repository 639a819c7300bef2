-- ===== src/Commands/Hashes.antt =====
-- src/commands.rs: the commands on hashes, HINCRBYFLOAT apart.
pub mod Refusals
pub mod Laws
use postino.Prelude.{
  ℕ, ◌+◌, ◌%◌, Bool, true, false, not, ◌&&◌, ◌||◌, Option, none, some, List, [], ◌∷◌, ◌++◌, length,
  ltb, ◌==◌, drop, if◌then◌else◌, is_some_and,
}
use postino.Prelude.Order.{key_eq, text_order}
use postino.Prelude.Map.{Map, get, insert, remove}
use postino.Prelude.Text.{Text, Result, ok, err, codes, utf8_len}
use postino.Prelude.Int.{ℤ, pos, ◌+ℤ◌, checked, int_text}
use postino.Db.{prune}
use postino.Db.Captures.{Json}
use postino.Commands.Args.{int}
use postino.Commands.Reply.{
  Reply, Fields, no_fields, field, map, bulk, array, ok_reply, int_reply, bool_reply, within_reply,
  collect_within,
}
use postino.Commands.Exec.{
  Ctx, Method, pure, lift, change, ◌>>=◌, ◌>>◌, either, demand, wrong_args, arg, arity, exactly,
  touch, room_for,
}
use postino.Commands.Exec.Typed.{hash_kind, require, look, typed_mut, made}
use postino.Commands.Strings.{gather, pairs_of, bulk_or_nil}

abbrev pub Hash : Type 0
Hash = Map Text Text

-- The fields of a key that may not be there.
abbrev pub fields_of {ℓ} : {V : Type ℓ} → Option (Map Text V) → Map Text V
fields_of none = []
fields_of (some h) = h

abbrev pub has_field {ℓ} : {V : Type ℓ} → Text → Map Text V → Bool
has_field f h = is_some_and (get f h) λ _. true

-- All the pairs inserted, and how many fields were new.
unfoldable pub insert_all : List (Text × Text) → Hash → Hash × ℕ
unfolding get insert
insert_all [] h = (h, 0)
insert_all ((f, v) ∷ ps) h =
    let (h', n) = insert_all ps (insert f v h) in (h', (if has_field f h then 0 else 1) + n)

-- All the fields removed, and how many were there.
unfoldable pub remove_all {ℓ} : {V : Type ℓ} → List Text → Map Text V → Map Text V × ℕ
unfolding get remove
remove_all [] h = (h, 0)
remove_all (f ∷ fs) h =
    let (h', n) = remove_all fs (remove f h) in (h', (if has_field f h then 1 else 0) + n)

-- The pairs of HGETALL, within what a reply may hold.
unfoldable pub all_fields : ℕ → Hash → Result Fields
unfolding within_reply utf8_len
all_fields bytes [] = ok no_fields
all_fields bytes ((f, v) ∷ h) =
    let bytes' = bytes + (utf8_len f + utf8_len v + 8) in
    elim (within_reply bytes') [
      | err e ↦ err e
      | ok _ ↦ elim (all_fields bytes' h) [ ok fs ↦ ok (field f (bulk v) fs) | err e ↦ err e ]
    ]

abbrev field_replies : Bool → Hash → List Reply
field_replies keys [] = []
field_replies keys ((f, v) ∷ h) = bulk (if keys then f else v) ∷ field_replies keys h

abbrev hash_number : Option Text → Result ℤ
hash_number none = ok (pos 0)
hash_number (some v) = elim (int v) [
  | ok n ↦ ok n
  | err _ ↦ err (codes "ERR hash value is not an integer")
]

module _ (json : Json) (ctx : Ctx) where
  unfoldable pub prune_key : Text → Method (Unit {0})
  unfolding change prune
  prune_key key = change λ db. (prune json key db, tt)

  -- What follows a removal of some elements: an emptied collection goes, and a change is told.
  unfoldable pub removed_from : Text → Text → ℕ → Method Reply
  unfolding prune_key touch pure ◌>>=◌
  removed_from key event n = do
    prune_key key
    if ltb 0 n then touch ctx key event else pure tt
    pure (int_reply n)

  module _ (argv : List Text) where
    unfoldable pub hset : Text → Method Reply
    unfolding demand look room_for pairs_of made insert_all touch pure ◌>>=◌
    hset name = do
      demand (not (ltb (length argv) 4 || length argv % 2 == 1)) (wrong_args name)
      let pairs = pairs_of (drop 2 argv)
      current ← look hash_kind ctx (arg argv 1)
      room_for ctx (length (fields_of current)) (length pairs)
      added ← made hash_kind ctx (arg argv 1) json (insert_all pairs)
      touch ctx (arg argv 1) (codes "hset")
      pure (if key_eq name (codes "HMSET") then ok_reply else int_reply added)

    unfoldable pub hsetnx : Method Reply
    unfolding exactly look room_for made get insert touch pure ◌>>=◌
    hsetnx = do
      exactly argv 4
      current ← look hash_kind ctx (arg argv 1)
      if is_some_and current (has_field (arg argv 2)) then pure (int_reply 0) else (do
        room_for ctx (length (fields_of current)) 1
        made hash_kind ctx (arg argv 1) json (λ h. (insert (arg argv 2) (arg argv 3) h, tt))
        touch ctx (arg argv 1) (codes "hset")
        pure (int_reply 1))

    unfoldable pub hget : Method Reply
    unfolding exactly look get pure ◌>>=◌
    hget = do
      exactly argv 3
      held ← look hash_kind ctx (arg argv 1)
      pure (bulk_or_nil (get (arg argv 2) (fields_of held)))

    unfoldable pub hmget : Method Reply
    unfolding arity look lift gather get pure ◌>>=◌
    hmget = do
      arity argv 3
      held ← look hash_kind ctx (arg argv 1)
      values ← lift (gather (λ f. get f (fields_of held)) 0 (drop 2 argv))
      pure (array values)

    unfoldable pub hgetall : Method Reply
    unfolding exactly look lift all_fields pure ◌>>=◌
    hgetall = do
      exactly argv 2
      held ← look hash_kind ctx (arg argv 1)
      pairs ← lift (all_fields 0 (fields_of held))
      pure (Reply.map pairs)

    unfoldable pub hdel : Method Reply
    unfolding arity typed_mut remove_all either removed_from pure ◌>>=◌
    hdel = do
      arity argv 3
      removed ← typed_mut hash_kind ctx (arg argv 1) json false (remove_all (drop 2 argv))
      either removed (pure (int_reply 0)) λ n. removed_from (arg argv 1) (codes "hdel") n

    unfoldable pub hexists : Method Reply
    unfolding exactly look get pure ◌>>=◌
    hexists = do
      exactly argv 3
      held ← look hash_kind ctx (arg argv 1)
      pure (bool_reply (has_field (arg argv 2) (fields_of held)))

    unfoldable pub hlen : Method Reply
    unfolding exactly look pure ◌>>=◌
    hlen = do
      exactly argv 2
      held ← look hash_kind ctx (arg argv 1)
      pure (int_reply (length (fields_of held)))

    -- `HKEYS` and `HVALS`
    unfoldable pub hkeys : Text → Method Reply
    unfolding exactly look lift collect_within ◌>>=◌
    hkeys name = do
      exactly argv 2
      held ← look hash_kind ctx (arg argv 1)
      lift (collect_within (field_replies (key_eq name (codes "HKEYS")) (fields_of held)))

    unfoldable pub hincrby : Method Reply
    unfolding exactly look room_for lift int require made get insert int_text touch pure ◌>>=◌
    hincrby = do
      exactly argv 4
      held ← look hash_kind ctx (arg argv 1)
      let existing = get (arg argv 2) (fields_of held)
      if is_some_and existing (λ _. true) then pure tt else room_for ctx (length (fields_of held)) 1
      current ← lift (hash_number existing)
      by ← lift (int (arg argv 3))
      next ← require (checked (current +ℤ by)) (codes "ERR increment or decrement would overflow")
      made hash_kind ctx (arg argv 1) json (λ h. (insert (arg argv 2) (int_text next) h, tt))
      touch ctx (arg argv 1) (codes "hincrby")
      pure (Reply.int next)
