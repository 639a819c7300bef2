-- ===== src/Commands/Keyspace/Refusals.antt =====
-- The commands on keys of any kind, where they answer with an error.
use postino.Prelude.{ℕ, ◌≡◌, ◌≢◌, Bool, true, some, List, [], ◌∷◌, arith, Option-cases, inl, inr}
use postino.Prelude.Order.{text_order}
use postino.Prelude.Text.{Text, err}
use postino.Db.{Db, read, exists, remove_live, take_key}
use postino.Db.Value.{Entry}
use postino.Db.Captures.{Json}
use postino.Db.Reads.{preserve-keys}
use postino.Commands.Exec.{
  Exec, Ctx, raise, pure, change, either, exactly, arg, touch, modify, ◌>>=◌,
}
use postino.Commands.Exec.Refusals.{IsReading, IsSure, IsAtomic, atomic_rules, reading_rules}
use postino.Commands.Exec.Kept.{KeptAt, KeptAt-sure, kept_rules}
use postino.Commands.Exec.Typed.{require}
use postino.Commands.Strings.Refusals.{IsReading-require}
use postino.Commands.Keyspace

module _ (json : Json) (ctx : Ctx) (argv : List Text) where
  IsSure-del_loop : (n : ℕ) (ks : List Text) → IsSure (Keyspace.del_loop json ctx argv n ks)
  unfolding Keyspace.del_loop
  IsSure-del_loop n [] = search atomic_rules
  IsSure-del_loop n (k ∷ ks) = search (atomic_rules, λ (m : ℕ). IsSure-del_loop m ks) depth 12

  pub IsAtomic-del : IsAtomic (Keyspace.del json ctx argv)
  unfolding Keyspace.del
  IsAtomic-del = search (atomic_rules, IsSure-del_loop) depth 12

  pub IsReading-exists : IsReading (Keyspace.exists_command json ctx argv)
  unfolding Keyspace.exists_command
  IsReading-exists = search reading_rules depth 12

  pub IsReading-type : IsReading (Keyspace.type_command json ctx argv)
  unfolding Keyspace.type_command
  IsReading-type = search reading_rules depth 12

  pub IsAtomic-expire : (name : Text) → IsAtomic (Keyspace.expire json ctx argv name)
  unfolding Keyspace.expire
  IsAtomic-expire name = search (atomic_rules, IsReading-require) depth 18

  pub IsReading-ttl : (name : Text) → IsReading (Keyspace.ttl json ctx argv name)
  unfolding Keyspace.ttl
  IsReading-ttl name = search reading_rules depth 12

  pub IsAtomic-persist : IsAtomic (Keyspace.persist json ctx argv)
  unfolding Keyspace.persist
  IsAtomic-persist = search atomic_rules depth 12

  pub IsAtomic-flush : IsAtomic (Keyspace.flush json ctx argv)
  unfolding Keyspace.flush
  IsAtomic-flush = search atomic_rules depth 12

  -- An entry that is there is removed and given back.
  pub remove_live-there :
      (key : Text) (db : Db) (e : Entry)
      → read key ctx.now db ≡ some e
      → (remove_live json key ctx.now db).1 ≡ some e
  unfolding remove_live take_key read
  remove_live-there key db e there = ground (arith, there, preserve-keys json key db)

  moves :
      (nx : Bool) (x : Exec) (entry : Entry)
      → read (arg argv 1) ctx.now x.db ≡ some entry
      → (e : Text) → (Keyspace.move_key json ctx argv nx x).0 ≢ err e
  unfolding Keyspace.move_key change require either raise pure touch modify ◌>>=◌
  moves nx x entry there e h = elim (Option-cases entry.expires) [
    | inl never ↦ ground (arith, never, remove_live-there (arg argv 1) x.db entry there)
    | inr (at, sometime) ↦ ground (arith, sometime, remove_live-there (arg argv 1) x.db entry there)
  ]

  move_key-there :
      (nx : Bool) (x : Exec)
      → exists (arg argv 1) ctx.now x.db ≡ true
      → KeptAt x (Keyspace.move_key json ctx argv nx)
  unfolding exists
  move_key-there nx x there = KeptAt-sure x _ λ e.
      elim (Option-cases (read (arg argv 1) ctx.now x.db)) [
        | inl absent ↦ absurd (ground (arith, absent))
        | inr (entry, held) ↦ moves nx x entry held e
      ]

  rename-kept : (nx : Bool) (x : Exec) → KeptAt x (Keyspace.rename json ctx argv nx)
  unfolding Keyspace.rename exactly
  rename-kept nx x = search (kept_rules, move_key-there) depth 12

  -- RENAME answers with an error only before it changes anything.
  pub IsAtomic-rename : (nx : Bool) → IsAtomic (Keyspace.rename json ctx argv nx)
  IsAtomic-rename nx = record { kept = λ x. (rename-kept nx x).kept }
