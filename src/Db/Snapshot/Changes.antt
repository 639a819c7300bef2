-- ===== src/Db/Snapshot/Changes.antt =====
-- Every change to the keyspace keeps a capture in step with it: src/db.rs, the methods of `Db`.
use postino.Prelude.{
  ℕ, ◌+◌, ◌≡◌, refl, Bool, Option-cases, inl, inr, true, false, Option, none, some, List, [], ◌∷◌,
  ◌++◌, arith, if_cases, option_cases, subst, length, ◌*◌, concat, concat-append, append_assoc,
  append-nil, is_some_and, ltb,
}
use postino.Prelude.Order.{text_order, key_eq}
use postino.Prelude.Map.{
  Map, get, insert, remove, IsSorted, get-insert, get-remove, insert-IsSorted, remove-IsSorted,
}
use postino.Prelude.Text.{Text}
use postino.Db.Value.{Entry, expired, is_empty_collection}
use postino.Db.Captures.{Bytes, Json, Capture, Budget, save, advance}
use postino.Db.Captures.Coverage.{reached, change-Covers, over-Covers}
use postino.Db.Captures.Passes.{Follows, save-Follows, save-reached, advance-Follows, advance-done}
use postino.Db.{
  Db, more_due, expires_at, Deadline, heap_push, preserve, put, replace, take_key, capture_step,
  clear, drain_capture, get_mut, remove_live, delete, prune, expire_keys, expire_loop, deadline,
  reindex_deadlines,
}

-- The methods that a holder of the keyspace may call while a capture is in progress.
pub data Op : Type 0 where
  puts : Text → Entry → Op
  replaces : Text → Entry → Op
  takes : Text → Op
  clears : Op
  steps : Budget → Op
  drains : Op
  gets_mut : Text → ℕ → (Entry → Entry) → Op
  removes : Text → ℕ → Op
  deletes : Text → ℕ → Op
  prunes : Text → Op
  notes_deadline : Text → ℕ → Op
  expires_keys : ℕ → Op

-- What a method leaves, and the parts that it hands out.
unfoldable pub run_op : Json → Op → Db → Db × List Bytes
run_op json (puts k e) db = (put json k e db, [])
run_op json (replaces k e) db = ((replace json k e db).0, [])
run_op json (takes k) db = ((take_key json k db).0, [])
run_op json clears db = (clear json db, [])
run_op json (steps budget) db = ((capture_step json budget db).0, [])
run_op json drains db = drain_capture json db
run_op json (gets_mut k now change) db = (get_mut json k now change db, [])
run_op json (removes k now) db = ((remove_live json k now db).0, [])
run_op json (deletes k now) db = ((delete json k now db).0, [])
run_op json (prunes k) db = (prune json k db, [])
run_op json (notes_deadline k at) db = (deadline k at db, [])
run_op json (expires_keys now) db = ((expire_keys json now db).0, [])

unfoldable pub run_ops : Json → List Op → Db → Db × List Bytes
unfolding run_op
run_ops json [] db = (db, [])
run_ops json (op ∷ ops) db =
    let (db', drained) = run_op json op db in
    let (db'', more) = run_ops json ops db' in (db'', drained ++ more)

-- What a method does when a capture is in progress.
pub captured {ℓ κ} :
    {B : Type ℓ} (db : Db) {c : Capture}
    → db.capture ≡ some c
    → (P : B → Type κ) (n : B) (f : Capture → B) → P (f c)
    → P (elim db.capture [ none ↦ n | some c ↦ f c ])
captured db {c} e P n f h =
    option_cases P db.capture n f (λ e'. cc)
      (λ c' e'. let p : c ≡ c' = cc in subst (λ x. P (f x)) p h)

-- A capture is in progress, and follows the keyspace.
module _ (json : Json) (head : Bytes) (origin : Map Text Entry) where
  abbrev pub Captures : List Bytes → Db → Type 0
  Captures drained db =
      (c : Capture) × (db.capture ≡ some c) × Follows json head drained origin db.keys c

  preserve-Captures :
      (drained : List Bytes) (k : Text) (db : Db)
      → Captures drained db
      → (c : Capture) × ((preserve json k db).capture ≡ some c)
        × Follows json head drained origin db.keys c
        × (reached c.done c.cursor c.early k ≡ true)
  unfolding preserve
  preserve-Captures drained k db (c, e, f) = (
    save json k db.keys c,
    ground arith,
    save-Follows json head drained origin db.keys k c f,
    save-reached json db.keys k c,
  )

  -- A change at one key, once the key is preserved.
  change-Captures :
      (drained : List Bytes) (k : Text) (db : Db) (m : Map Text Entry)
      → Captures drained db
      → (IsSorted db.keys → IsSorted m)
      → ((j : Text) → key_eq j k ≡ false → get j m ≡ get j db.keys)
      → Captures drained (record (preserve json k db) { keys = m })
  change-Captures drained k db m p s same =
      let (c, e, (ws, h, v), r) = preserve-Captures drained k db p in
      (c, e, (ws, h, change-Covers v k m r (s v.sorted) same))

  preserve-keys : (k : Text) (db : Db) → (preserve json k db).keys ≡ db.keys
  unfolding preserve
  preserve-keys k db = ground arith

  only_preserve :
      (drained : List Bytes) (k : Text) (db : Db)
      → Captures drained db
      → Captures drained (preserve json k db)
  only_preserve drained k db p =
      let (c, e, f, _) = preserve-Captures drained k db p in (c, e, rw (preserve-keys k db) f)

  insert-Captures :
      (drained : List Bytes) (k : Text) (e : Entry) (db : Db)
      → Captures drained db
      → Captures drained
          (record (preserve json k db) { keys = insert k e (preserve json k db).keys })
  insert-Captures drained k e db p = rw (preserve-keys k db) (
      change-Captures drained k db (insert k e db.keys) p (insert-IsSorted k e db.keys)
        (λ j h. rw (get-insert k j e db.keys) (ground arith)))

  remove-Captures :
      (drained : List Bytes) (k : Text) (db : Db)
      → Captures drained db
      → Captures drained (record (preserve json k db) { keys = remove k (preserve json k db).keys })
  remove-Captures drained k db p = rw (preserve-keys k db) (
      change-Captures drained k db (remove k db.keys) p (remove-IsSorted k db.keys)
        (λ j h. rw (get-remove k j db.keys) (ground arith)))

  put-Captures :
      (drained : List Bytes) (k : Text) (e : Entry) (db : Db)
      → Captures drained db
      → Captures drained (put json k e db)
  unfolding put
  put-Captures drained k e db p = insert-Captures drained k e db p

  take_key-Captures :
      (drained : List Bytes) (k : Text) (db : Db)
      → Captures drained db
      → Captures drained (take_key json k db).0
  unfolding take_key
  take_key-Captures drained k db p = remove-Captures drained k db p

  replace-Captures :
      (drained : List Bytes) (k : Text) (e : Entry) (db : Db)
      → Captures drained db
      → Captures drained (replace json k e db).0
  unfolding replace
  replace-Captures drained k e db p = elim (Option-cases (get k (preserve json k db).keys)) [
    | inl none_there ↦ rw (none_there, replace) (only_preserve drained k db p)
    | inr (x, there) ↦ simp (there, replace) (insert-Captures drained k e db p)
  ]

  get_mut-Captures :
      (drained : List Bytes) (k : Text) (now : ℕ) (change : Entry → Entry) (db : Db)
      → Captures drained db
      → Captures drained (get_mut json k now change db)
  unfolding get_mut
  get_mut-Captures drained k now change db p =
      option_cases (Captures drained) (get k (preserve json k db).keys) _ _
        (λ _. only_preserve drained k db p)
        (λ x _.
          if_cases (λ m. Captures drained (record (preserve json k db) { keys = m }))
            (expired x now) _ _ (λ _. remove-Captures drained k db p)
            (λ _. insert-Captures drained k (change x) db p))

  remove_live-Captures :
      (drained : List Bytes) (k : Text) (now : ℕ) (db : Db)
      → Captures drained db
      → Captures drained (remove_live json k now db).0
  unfolding remove_live
  remove_live-Captures drained k now db p =
      option_cases (λ (r : Db × Option Entry). Captures drained r.0) (take_key json k db).1 _ _
        (λ _. take_key-Captures drained k db p) (λ x _. take_key-Captures drained k db p)

  prune-Captures :
      (drained : List Bytes) (k : Text) (db : Db)
      → Captures drained db
      → Captures drained (prune json k db)
  unfolding prune
  prune-Captures drained k db p =
      if_cases (Captures drained) (is_some_and (get k db.keys) λ e. is_empty_collection e.value) _ _
        (λ _. take_key-Captures drained k db p) (λ _. p)

  deadline-Captures :
      (drained : List Bytes) (k : Text) (at : ℕ) (db : Db)
      → Captures drained db
      → Captures drained (deadline k at db)
  unfolding deadline reindex_deadlines
  deadline-Captures drained k at db p =
      if_cases (Captures drained)
        (ltb (2 * length db.keys + 1024) (length (heap_push (at, k) db.deadlines))) _ _ (λ _. p)
        (λ _. p)

  capture_step-Captures :
      (drained : List Bytes) (budget : Budget) (db : Db)
      → Captures drained db
      → Captures drained (capture_step json budget db).0
  unfolding capture_step
  capture_step-Captures drained budget db (c, e, f) =
      captured db e (λ (r : Db × Bool). Captures drained r.0) _ _
        (
          advance json budget db.keys c,
          refl,
          advance-Follows json head drained origin budget db.keys c f,
        )

  clear-Captures :
      (drained : List Bytes) (db : Db) → Captures drained db → Captures drained (clear json db)
  unfolding clear capture_step
  clear-Captures drained db (c, e, f) =
      let (ws, h, v) = advance-Follows json head drained origin none db.keys c f in
      captured db e (λ (r : Db × Bool). Captures drained (record (r.0) { keys = [] })) _ _
        (
          advance json none db.keys c,
          refl,
          (ws, h, over-Covers [] v (advance-done json db.keys c) tt),
        )

  drain-Captures :
      (drained : List Bytes) (db : Db)
      → Captures drained db
      → Captures (drained ++ (drain_capture json db).1) (drain_capture json db).0
  unfolding drain_capture
  drain-Captures drained db (c, e, (ws, h, v)) =
      captured db e (λ (r : Db × List Bytes). Captures (drained ++ r.1) r.0) _ _
        (
          record c { parts = [] },
          refl,
          (
            ws,
            (
              λ intact.
                  rw (concat-append drained c.parts, append_assoc (concat drained)) (h.0 intact),
              h.1,
            ),
            v,
          ),
        )

  expire_loop-Captures :
      (drained : List Bytes) (now visited : ℕ) (ds : List Deadline) (gone : List Text) (db : Db)
      → Captures drained db
      → Captures drained (expire_loop json now visited ds gone db).0
  unfolding expire_loop
  expire_loop-Captures drained now visited [] gone db p = p
  expire_loop-Captures drained now visited ((at, k) ∷ ds) gone db p =
      if_cases (λ (r : Db × List Text). Captures drained r.0) (more_due now visited gone at) _ _
        (λ _.
          if_cases (λ (r : Db × List Text). Captures drained r.0) (expires_at k at db.keys) _ _
            (λ _.
              expire_loop-Captures drained now (visited + 1) ds (gone ++ k ∷ [])
                (take_key json k db).0 (take_key-Captures drained k db p))
            (λ _. expire_loop-Captures drained now (visited + 1) ds gone db p))
        (λ _. p)

  pub run_op-Captures :
      (drained : List Bytes) (op : Op) (db : Db)
      → Captures drained db
      → Captures (drained ++ (run_op json op db).1) (run_op json op db).0
  unfolding run_op
  run_op-Captures drained (puts k e) db p = simp append-nil (put-Captures drained k e db p)
  run_op-Captures drained (replaces k e) db p = simp append-nil (replace-Captures drained k e db p)
  run_op-Captures drained (takes k) db p = simp append-nil (take_key-Captures drained k db p)
  run_op-Captures drained clears db p = simp append-nil (clear-Captures drained db p)
  run_op-Captures drained (steps budget) db p =
      simp append-nil (capture_step-Captures drained budget db p)
  run_op-Captures drained drains db p = drain-Captures drained db p
  run_op-Captures drained (gets_mut k now change) db p =
      simp append-nil (get_mut-Captures drained k now change db p)
  run_op-Captures drained (removes k now) db p =
      simp append-nil (remove_live-Captures drained k now db p)
  run_op-Captures drained (deletes k now) db p =
      simp append-nil (unfold delete in remove_live-Captures drained k now db p)
  run_op-Captures drained (prunes k) db p = simp append-nil (prune-Captures drained k db p)
  run_op-Captures drained (notes_deadline k at) db p =
      simp append-nil (deadline-Captures drained k at db p)
  run_op-Captures drained (expires_keys now) db p =
      simp append-nil
        (unfold expire_keys in expire_loop-Captures drained now 0 db.deadlines [] db p)

  pub run_ops-Captures :
      (drained : List Bytes) (ops : List Op) (db : Db)
      → Captures drained db
      → Captures (drained ++ (run_ops json ops db).1) (run_ops json ops db).0
  unfolding run_ops
  run_ops-Captures drained [] db p = rw append-nil p
  run_ops-Captures drained (op ∷ ops) db p =
      let q =
        run_ops-Captures (drained ++ (run_op json op db).1) ops (run_op json op db).0
          (run_op-Captures drained op db p) in
      rw append_assoc at q
