-- ===== src/Db/Reads.antt =====
-- src/db.rs: what can be read after a change to the keyspace, key by key.
use postino.Prelude.{
  ℕ, ◌≡◌, refl, ap, Option, none, some, arith, if◌then◌else◌, Option-cases, inl, inr,
}
use postino.Prelude.Order.{text_order, key_eq}
use postino.Prelude.Map.{get, insert, get-insert, get-remove}
use postino.Prelude.Text.{Text}
use postino.Db.Value.{Entry, expired}
use postino.Db.Captures.{Json}
use postino.Db.{Db, read, preserve, put, take_key, get_mut, deadline, reindex_deadlines}

-- What of an entry can be read.
abbrev pub alive : ℕ → Option Entry → Option Entry
alive now none = none
alive now (some e) = if expired e now then none else some e

module _ (json : Json) where
  pub preserve-keys : (k : Text) (db : Db) → (preserve json k db).keys ≡ db.keys
  unfolding preserve
  preserve-keys k db = elim (Option-cases db.capture) [ inl e ↦ rw e refl | inr (c, e) ↦ rw e refl ]

  pub put-keys : (k : Text) (e : Entry) (db : Db) → (put json k e db).keys ≡ insert k e db.keys
  unfolding put
  put-keys k e db = ap (insert k e) (preserve-keys k db)

module _ (json : Json) (now : ℕ) where
  pub read-alive : (k : Text) (db : Db) → read k now db ≡ alive now (get k db.keys)
  unfolding read
  read-alive k db = ground arith

  pub read-put :
      (k j : Text) (e : Entry) (db : Db)
      → read j now (put json k e db) ≡ (if key_eq j k then alive now (some e) else read j now db)
  unfolding put
  read-put k j e db = ground (
    arith,
    read-alive j (put json k e db),
    read-alive j db,
    get-insert k j e (preserve json k db).keys,
    preserve-keys json k db,
  )

  pub read-take_key :
      (k j : Text) (db : Db)
      → read j now (take_key json k db).0 ≡ (if key_eq j k then none else read j now db)
  unfolding take_key
  read-take_key k j db = ground (
    arith,
    read-alive j (take_key json k db).0,
    read-alive j db,
    get-remove k j (preserve json k db).keys,
    preserve-keys json k db,
  )

  pub read-get_mut :
      (k j : Text) (f : Entry → Entry) (db : Db)
      → read j now (get_mut json k now f db) ≡ (
          if key_eq j k
          then elim (read k now db) [ none ↦ none | some e ↦ alive now (some (f e)) ]
          else read j now db)
  unfolding get_mut read
  read-get_mut k j f db = elim (Option-cases (get k db.keys)) [
    | inl absent ↦ ground (arith, preserve-keys json k db, text_order.eq_of_cmp j k)
    | inr (e, there) ↦ ground (
      arith,
      preserve-keys json k db,
      get-insert k j (f e) (preserve json k db).keys,
      get-remove k j (preserve json k db).keys,
      text_order.eq_of_cmp j k,
    )
  ]

pub read-deadline :
    (k j : Text) (at now : ℕ) (db : Db) → read j now (deadline k at db) ≡ read j now db
unfolding deadline reindex_deadlines read
read-deadline k j at now db = ground arith

pub deadline-keys : (k : Text) (at : ℕ) (db : Db) → (deadline k at db).keys ≡ db.keys
unfolding deadline reindex_deadlines
deadline-keys k at db = ground arith
