-- ===== src/Commands/Strings/Laws.antt =====
-- What can be read after a string is stored.
use postino.Prelude.{
  ℕ, ◌≡◌, Option, none, some, [], ◌∷◌, arith, if◌then◌else◌, Option-cases, Bool-cases, inl, inr,
}
use postino.Prelude.Order.{text_order, key_eq}
use postino.Prelude.Map.{get, insert, get-insert}
use postino.Prelude.Text.{Text, ok}
use postino.Db.{Db, read, replace, put, preserve, deadline, reindex_deadlines}
use postino.Db.Value.{Entry, string}
use postino.Db.Captures.{Json}
use postino.Db.Reads.{preserve-keys, read-alive, alive}
use postino.Commands.Exec.{
  Exec, Ctx, admits_all, admit, admit_all, demand, raise, pure, change, either, touch, modify,
  ◌>>=◌,
}
use postino.Commands.Strings.{place, store_string}

module _ (json : Json) (ctx : Ctx) (key : Text) where
  place-keys :
      (entry : Entry) (x : Exec)
      → (place json ctx key entry x).0 ≡ ok tt
      → (place json ctx key entry x).1.db.keys ≡ insert key entry x.db.keys
  unfolding place replace change put either admit admit_all demand raise pure ◌>>=◌
  place-keys entry x done = elim (Option-cases (get key (preserve json key x.db).keys)) [
    | inr (_, there) ↦ ground (arith, there, preserve-keys json key x.db)
    | inl absent ↦ elim (Bool-cases (admits_all ctx (key ∷ []) (preserve json key x.db))) [
      | inl room ↦ ground (
        arith,
        absent,
        room,
        preserve-keys json key x.db,
        preserve-keys json key (preserve json key x.db),
      )
      | inr full ↦ absurd (ground (arith, absent, full))
    ]
  ]

  -- What is read of a keyspace into which an entry was put.
  pub insert-read :
      (entry : Entry) (j : Text) (db db' : Db)
      → db'.keys ≡ insert key entry db.keys
      → read j ctx.now db'
        ≡ (if key_eq j key then alive ctx.now (some entry) else read j ctx.now db)
  insert-read entry j db db' e = ground (
    arith,
    e,
    read-alive json ctx.now j db',
    read-alive json ctx.now j db,
    get-insert key j entry db.keys,
  )

  pub store-keys :
      (value : Text) (expires : Option ℕ) (x : Exec)
      → (store_string json ctx key value expires x).0 ≡ ok tt
      → (store_string json ctx key value expires x).1.db.keys
        ≡ insert key (record { value = string value; expires = expires }) x.db.keys
  unfolding store_string demand change either touch modify raise pure deadline reindex_deadlines
      ◌>>=◌
  store-keys value none x done =
      ground (arith, place-keys (record { value = string value; expires = none }) x)
  store-keys value (some at) x done =
      ground (arith, place-keys (record { value = string value; expires = some at }) x)

  -- Where storing a string succeeds, reading the key gives the string, unless the time it may be read until
  -- is over already, and every other key reads as before.
  pub store_string-read :
      (value : Text) (expires : Option ℕ) (x : Exec) (j : Text)
      → (store_string json ctx key value expires x).0 ≡ ok tt
      → let e : Entry = record { value = string value; expires = expires } in
        read j ctx.now (store_string json ctx key value expires x).1.db
        ≡ (if key_eq j key then alive ctx.now (some e) else read j ctx.now x.db)
  store_string-read value expires x j done =
      insert-read (record { value = string value; expires = expires }) j x.db _
        (store-keys value expires x done)
