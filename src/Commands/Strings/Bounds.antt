-- ===== src/Commands/Strings/Bounds.antt =====
-- Storing a string keeps to the limit on keys.
use postino.Prelude.{
  ℕ, ◌+◌, ◌-◌, ◌≤◌, ◌<◌, ◌≡◌, sym, ap, ◌∙◌, subst, true, false, Option, none, [], ◌∷◌, length,
  arith, Option-cases, Bool-cases, ◌⊎◌, inl, inr,
}
use postino.Prelude.Order.{text_order}
use postino.Prelude.Map.{get, IsSorted}
use postino.Prelude.Map.Length.{length-insert}
use postino.Prelude.Text.{Text, ok, u64_size}
use postino.Db.{Db, replace, preserve}
use postino.Db.Value.{Entry, string}
use postino.Db.Captures.{Json}
use postino.Db.Reads.{preserve-keys}
use postino.Scope.{sorted, put_in_order}
use postino.Commands.Exec.{
  Exec, Ctx, admits_all, admit, admit_all, demand, dedup, raise, pure, change, either, ◌>>=◌,
}
use postino.Commands.Strings.{place, store_string}
use postino.Commands.Strings.Laws.{store-keys}

module _ (json : Json) (ctx : Ctx) (key : Text) where
  -- A new key is placed only where it is admitted.
  place-admits :
      (entry : Entry) (x : Exec)
      → get key x.db.keys ≡ none
      → (place json ctx key entry x).0 ≡ ok tt
      → admits_all ctx (key ∷ []) (preserve json key x.db) ≡ true
  unfolding place replace change either admit admit_all demand raise pure ◌>>=◌
  place-admits entry x absent done =
      elim (Bool-cases (admits_all ctx (key ∷ []) (preserve json key x.db))) [
        | inl room ↦ room
        | inr full ↦ absurd (ground (arith, full, absent, preserve-keys json key x.db))
      ]

  store-admits :
      (value : Text) (expires : Option ℕ) (x : Exec)
      → get key x.db.keys ≡ none
      → (store_string json ctx key value expires x).0 ≡ ok tt
      → admits_all ctx (key ∷ []) (preserve json key x.db) ≡ true
  unfolding store_string demand raise pure ◌>>=◌
  store-admits value expires x absent done =
      ground (arith, place-admits (record { value = string value; expires = expires }) x absent)

  admitted_room :
      (db : Db)
      → get key db.keys ≡ none
      → ctx.replay ≡ false
      → length db.keys < u64_size - 1
      → admits_all ctx (key ∷ []) db ≡ true
      → length db.keys + 1 ≤ ctx.max_keys
  unfolding admits_all sorted put_in_order dedup
  admitted_room db absent live small h = ground (arith, absent, live)

  -- Outside a replay, storing a string in a keyspace whose keys are in order, and fewer than a word counts,
  -- leaves no more keys than there were or no more than the limit on them.
  pub length-store_string :
      (value : Text) (expires : Option ℕ) (x : Exec)
      → IsSorted x.db.keys
      → length x.db.keys < u64_size - 1
      → ctx.replay ≡ false
      → (store_string json ctx key value expires x).0 ≡ ok tt
      → let after = length (store_string json ctx key value expires x).1.db.keys in
        (after ≤ length x.db.keys) ⊎ (after ≤ ctx.max_keys)
  length-store_string value expires x s small live done =
      let e : Entry = record { value = string value; expires = expires } in
      let size =
        ap length (store-keys json ctx key value expires x done)
        ∙ length-insert key e x.db.keys s in
      elim (Option-cases (get key x.db.keys)) [
        | inr (_, there) ↦ inl (ground (arith, size, there))
        | inl absent ↦
            let same = preserve-keys json key x.db in
            let room =
              admitted_room (preserve json key x.db) (ap (get key) same ∙ absent) live
                (subst (λ m. length m < u64_size - 1) (sym same) small)
                (store-admits value expires x absent done) in
            inr (ground (arith, size, absent, ap length same, room))
      ]
