-- ===== src/Commands/Keyspace/Laws.antt =====
-- What can be read after a key is renamed.
use postino.Prelude.{
  ◌≡◌, refl, Bool, true, false, none, some, List, arith, if◌then◌else◌, length, ◌==◌, Option-cases,
  inl, inr,
}
use postino.Prelude.Order.{text_order, key_eq}
use postino.Prelude.Map.{insert, remove, get-insert, get-remove}
use postino.Prelude.Text.{Text, ok}
use postino.Db.{Db, read, exists, remove_live, take_key, deadline}
use postino.Db.Value.{Entry}
use postino.Db.Captures.{Json}
use postino.Db.Reads.{preserve-keys, put-keys, deadline-keys, read-alive}
use postino.Commands.Reply.{ok_reply, int_reply}
use postino.Commands.Exec.{
  Exec, Ctx, demand, raise, pure, change, gets, either, exactly, arg, touch, modify, ◌>>=◌,
}
use postino.Commands.Exec.Typed.{require}
use postino.Commands.Keyspace
use postino.Commands.Keyspace.Refusals.{remove_live-there}

module _ (json : Json) (ctx : Ctx) (argv : List Text) where
  remove_live-keys :
      (key : Text) (db : Db) → (remove_live json key ctx.now db).0.keys ≡ remove key db.keys
  unfolding remove_live take_key
  remove_live-keys key db = ground (arith, preserve-keys json key db)

  -- The keyspace without the key.
  abbrev without : Exec → Db
  without x = (remove_live json (arg argv 1) ctx.now x.db).0

  move_key-done :
      (nx : Bool) (x : Exec) (entry : Entry)
      → read (arg argv 1) ctx.now x.db ≡ some entry
      → ((Keyspace.move_key json ctx argv nx x).0 ≡ ok (if nx then int_reply 1 else ok_reply))
        × ((Keyspace.move_key json ctx argv nx x).1.db.keys
            ≡ insert (arg argv 2) entry (remove (arg argv 1) x.db.keys))
  unfolding Keyspace.move_key change require either raise pure touch modify ◌>>=◌
  move_key-done nx x entry there = elim (Option-cases entry.expires) [
    | inl never ↦ (
      ground (arith, never, remove_live-there json ctx argv (arg argv 1) x.db entry there),
      ground (
        arith,
        never,
        remove_live-there json ctx argv (arg argv 1) x.db entry there,
        remove_live-keys (arg argv 1) x.db,
        put-keys json (arg argv 2) entry (without x),
      ),
    )
    | inr (at, sometime) ↦ (
      ground (arith, sometime, remove_live-there json ctx argv (arg argv 1) x.db entry there),
      ground (
        arith,
        sometime,
        remove_live-there json ctx argv (arg argv 1) x.db entry there,
        remove_live-keys (arg argv 1) x.db,
        put-keys json (arg argv 2) entry (deadline (arg argv 2) at (without x)),
        deadline-keys (arg argv 2) at (without x),
      ),
    )
  ]

  -- The first lines of RENAME let through a key that is there, under another name.
  rename-move_key :
      (x : Exec) (entry : Entry)
      → (length argv == 3) ≡ true
      → key_eq (arg argv 1) (arg argv 2) ≡ false
      → read (arg argv 1) ctx.now x.db ≡ some entry
      → Keyspace.rename json ctx argv false x ≡ Keyspace.move_key json ctx argv false x
  unfolding Keyspace.rename exactly gets exists demand pure ◌>>=◌
  rename-move_key x entry three other there =
      rw (Keyspace.rename, exactly, three, there, other) refl

  moved_read :
      (entry : Entry) (j : Text) (db db' : Db)
      → read (arg argv 1) ctx.now db ≡ some entry
      → db'.keys ≡ insert (arg argv 2) entry (remove (arg argv 1) db.keys)
      → read j ctx.now db' ≡ (
          if key_eq j (arg argv 2)
          then some entry
          else if key_eq j (arg argv 1)
          then none
          else read j ctx.now db)
  moved_read entry j db db' there e = ground (
    arith,
    e,
    there,
    read-alive json ctx.now j db',
    read-alive json ctx.now j db,
    read-alive json ctx.now (arg argv 1) db,
    get-insert (arg argv 2) j entry (remove (arg argv 1) db.keys),
    get-remove (arg argv 1) j db.keys,
  )

  -- RENAME of a key that is there to another name succeeds. The new name then reads as the old one did, its
  -- time of expiry included, the old one reads as absent, and every other key as before.
  pub rename-read :
      (x : Exec) (entry : Entry)
      → (length argv == 3) ≡ true
      → key_eq (arg argv 1) (arg argv 2) ≡ false
      → read (arg argv 1) ctx.now x.db ≡ some entry
      → ((Keyspace.rename json ctx argv false x).0 ≡ ok ok_reply)
        × ((j : Text)
            → read j ctx.now (Keyspace.rename json ctx argv false x).1.db ≡ (
                if key_eq j (arg argv 2)
                then some entry
                else if key_eq j (arg argv 1)
                then none
                else read j ctx.now x.db))
  rename-read x entry three other there =
      let (answer, keys) = move_key-done false x entry there in
      rw (rename-move_key x entry three other there) (
        answer,
        λ j. moved_read entry j x.db (Keyspace.move_key json ctx argv false x).1.db there keys,
      )
