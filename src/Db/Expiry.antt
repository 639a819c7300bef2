-- ===== src/Db/Expiry.antt =====
-- Removing the keys that are past their time: src/db.rs, `Db::expire_keys`.
use postino.Prelude.{
  ℕ, ◌+◌, ◌≤◌, ◌≡◌, ◌∙◌, refl, sym, ap, Bool, true, ◌||◌, Option, none, some, List, [], ◌∷◌, ◌++◌,
  arith, length, length-append, leb, if◌then◌else◌, if_cases, any, Bool-cases, Option-cases, inl,
  inr,
}
use postino.Prelude.Order.{text_order, key_eq}
use postino.Prelude.Map.{Map, get, remove, get-remove}
use postino.Prelude.Text.{Text}
use postino.Db.Value.{Entry, expired}
use postino.Db.Captures.{Json}
use postino.Db.Reads.{preserve-keys}
use postino.Db.{
  Db, Deadline, expire_batch, read, take_key, more_due, expires_at, expire_loop, expire_keys,
}

module _ (json : Json) (now : ℕ) where
  take_key-keys : (k : Text) (db : Db) → (take_key json k db).0.keys ≡ remove k db.keys
  unfolding take_key
  take_key-keys k db = ap (remove k) (preserve-keys json k db)

  -- What a reader sees of what is held.
  abbrev seen : Option Entry → Option Entry
  seen held = elim held [ none ↦ none | some e ↦ if expired e now then none else some e ]

  due_seen :
      (k : Text) (at : ℕ) (m : Map Text Entry)
      → expires_at k at m ≡ true
      → leb at now ≡ true
      → seen (get k m) ≡ none
  unfolding expired
  due_seen k at m h due = elim (Option-cases (get k m)) [
    | inl e ↦ rw e refl
    | inr (entry, e) ↦ elim (Option-cases entry.expires) [
      | inl never ↦ absurd (ground (arith, e, never))
      | inr (t, there) ↦ rw (e, there) (ground (arith, e, there))
    ]
  ]

  -- A key whose time is over is not seen, so that removing it changes nothing.
  remove_due :
      (k j : Text) (at : ℕ) (m : Map Text Entry)
      → expires_at k at m ≡ true
      → leb at now ≡ true
      → seen (get j (remove k m)) ≡ seen (get j m)
  remove_due k j at m h due = elim (Bool-cases (key_eq j k)) [
    | inl same ↦
        let q : j ≡ k = text_order.eq_of_cmp j k (ground arith) in
        rw (get-remove k j m, same, q) (sym (due_seen k at m h due))
    | inr other ↦ rw (get-remove k j m, other) refl
  ]

  -- What the rounds keep: `gone` are the keys that left `origin`, and `m` is the rest.
  record IsSwept (origin : Map Text Entry) (gone : List Text) (m : Map Text Entry) : Type 0 where
    few : length gone ≤ expire_batch
    rest : (k : Text) → get k m ≡ (if any (key_eq k) gone then none else get k origin)
    unseen : (k : Text) → seen (get k m) ≡ seen (get k origin)

  any-snoc :
      (test : Text → Bool) (gone : List Text) (k : Text)
      → any test (gone ++ k ∷ []) ≡ (test k || any test gone)
  any-snoc test [] k = ground arith
  any-snoc test (g ∷ gone) k = ground (arith, any-snoc test gone k)

  sweep :
      (origin : Map Text Entry) (gone : List Text) (db : Db) (k : Text) (at visited : ℕ)
      → IsSwept origin gone db.keys
      → more_due now visited gone at ≡ true
      → expires_at k at db.keys ≡ true
      → IsSwept origin (gone ++ k ∷ []) (take_key json k db).0.keys
  sweep origin gone db k at visited w more h = rw (take_key-keys k db) (record {
    few = ground (arith, length-append gone (k ∷ []));
    rest = λ j. get-remove k j db.keys ∙ rw (any-snoc (key_eq j) gone k, w.rest j) (ground arith);
    unseen = λ j. remove_due k j at db.keys h (ground arith) ∙ w.unseen j;
  })

  loop-IsSwept :
      (origin : Map Text Entry) (visited : ℕ) (ds : List Deadline) (gone : List Text) (db : Db)
      → IsSwept origin gone db.keys
      → let (db', gone') = expire_loop json now visited ds gone db in IsSwept origin gone' db'.keys
  unfolding expire_loop
  loop-IsSwept origin visited [] gone db w = w
  loop-IsSwept origin visited ((at, k) ∷ ds) gone db w =
      if_cases {A = Db × List Text} (λ r. IsSwept origin r.1 r.0.keys)
        (more_due now visited gone at) _ _
        (λ more.
          if_cases {A = Db × List Text} (λ r. IsSwept origin r.1 r.0.keys) (expires_at k at db.keys)
            _ _
            (λ h.
              loop-IsSwept origin (visited + 1) ds (gone ++ k ∷ []) (take_key json k db).0
                (sweep origin gone db k at visited w more h))
            (λ _. loop-IsSwept origin (visited + 1) ds gone db w))
        (λ _. w)

-- Removing the keys that are past their time leaves what a reader sees at that time unchanged,
-- answers with at most a batch of keys, and takes those keys, and no others, from the keyspace.
pub expire_keys-read :
    (json : Json) (now : ℕ) (db : Db)
    → let (db', gone) = expire_keys json now db in
      ((k : Text) → read k now db' ≡ read k now db)
      × (length gone ≤ expire_batch)
      × ((k : Text) → get k db'.keys ≡ (if any (key_eq k) gone then none else get k db.keys))
unfolding expire_keys read
expire_keys-read json now db =
    let w =
      loop-IsSwept json now db.keys 0 db.deadlines [] db
        (record { few = omega arith; rest = λ k. refl; unseen = λ k. refl }) in
    (w.unseen, w.few, w.rest)
