-- ===== src/Commands/Strings/Refusals.antt =====
-- The commands on strings, where they answer with an error.
use postino.Prelude.{ℕ, ◌≡◌, Option, List, [], ◌∷◌, arith, Option-cases, Bool-cases, inl, inr}
use postino.Prelude.Order.{text_order}
use postino.Prelude.Map.{get}
use postino.Prelude.Int.{ℤ}
use postino.Prelude.Text.{Text}
use postino.Db.{Db, replace, preserve}
use postino.Db.Value.{Entry}
use postino.Db.Captures.{Json}
use postino.Db.Reads.{preserve-keys}
use postino.Commands.Exec.{
  Ctx, admits_all, admit, admit_all, demand, raise, pure, change, either, ◌>>=◌,
}
use postino.Commands.Exec.Refusals.{IsReading, IsAtomic, atomic_rules, reading_rules}
use postino.Commands.Exec.Typed.{require, IsReading-look, IsAtomic-made}
use postino.Commands.Strings
use postino.Commands.Strings.Setting
use postino.Commands.Strings.Many

pub IsReading-require : {A : Type 0} (o : Option A) (e : Text) → IsReading (require o e)
unfolding require
IsReading-require o e = search atomic_rules

module _ (json : Json) (ctx : Ctx) where
  preserve-deadlines : (k : Text) (db : Db) → (preserve json k db).deadlines ≡ db.deadlines
  unfolding preserve
  preserve-deadlines k db = ground arith

  pub IsAtomic-place : (key : Text) (entry : Entry) → IsAtomic (Strings.place json ctx key entry)
  unfolding Strings.place change replace either admit admit_all demand raise pure ◌>>=◌
  IsAtomic-place key entry = record {
    kept = λ x e h. elim (Option-cases (get key (preserve json key x.db).keys)) [
      | inr (_, there) ↦ absurd (ground (arith, there))
      | inl absent ↦ elim (Bool-cases (admits_all ctx (key ∷ []) (preserve json key x.db))) [
        | inl room ↦ absurd (ground (arith, absent, room))
        | inr full ↦ record {
          keys = ground (arith, absent, full, preserve-keys json key x.db);
          deadlines = ground (arith, absent, full, preserve-deadlines key x.db);
          dirty = ground (arith, absent, full);
          propagate = ground (arith, absent, full);
          events = ground (arith, absent, full);
          block = ground (arith, absent, full);
        }
      ]
    ];
  }

  pub IsAtomic-store_string :
      (key value : Text) (expires : Option ℕ)
      → IsAtomic (Strings.store_string json ctx key value expires)
  unfolding Strings.store_string
  IsAtomic-store_string key value expires = search (atomic_rules, IsAtomic-place) depth 12

  IsAtomic-write_string :
      (key value : Text) → IsAtomic (Strings.write_string_keep_ttl json ctx key value)
  unfolding Strings.write_string_keep_ttl
  IsAtomic-write_string key value = search atomic_rules depth 12

  IsAtomic-incr : (key : Text) (by : ℤ) → IsAtomic (Strings.incr json ctx key by)
  unfolding Strings.incr
  IsAtomic-incr key by =
      search (atomic_rules, IsReading-look, IsReading-require, IsAtomic-write_string) depth 16

  module _ (argv : List Text) where
    pub IsReading-get : IsReading (Strings.get_command json ctx argv)
    unfolding Strings.get_command
    IsReading-get = search (reading_rules, IsReading-look) depth 12

    pub IsAtomic-setnx : IsAtomic (Strings.setnx json ctx argv)
    unfolding Strings.setnx
    IsAtomic-setnx = search (atomic_rules, IsAtomic-store_string) depth 12

    pub IsAtomic-setex : (name : Text) → IsAtomic (Strings.setex json ctx argv name)
    unfolding Strings.setex
    IsAtomic-setex name = search (atomic_rules, IsReading-require, IsAtomic-store_string) depth 14

    pub IsAtomic-getset : IsAtomic (Strings.getset json ctx argv)
    unfolding Strings.getset
    IsAtomic-getset = search (atomic_rules, IsReading-look, IsAtomic-store_string) depth 14

    pub IsAtomic-getdel : IsAtomic (Strings.getdel json ctx argv)
    unfolding Strings.getdel
    IsAtomic-getdel = search (atomic_rules, IsReading-look) depth 14

    pub IsAtomic-delifeq : IsAtomic (Strings.delifeq json ctx argv)
    unfolding Strings.delifeq
    IsAtomic-delifeq = search (atomic_rules, IsReading-look) depth 14

    pub IsAtomic-append : IsAtomic (Strings.append json ctx argv)
    unfolding Strings.append
    IsAtomic-append = search (atomic_rules, IsReading-look, IsAtomic-made) depth 14

    pub IsAtomic-set : IsAtomic (Setting.set json ctx argv)
    unfolding Setting.set
    IsAtomic-set = search (atomic_rules, IsAtomic-store_string) depth 16

    pub IsAtomic-getex : IsAtomic (Setting.getex json ctx argv)
    unfolding Setting.getex
    IsAtomic-getex = search (atomic_rules, IsReading-look) depth 18

    pub IsAtomic-incr_command : (name : Text) → IsAtomic (Strings.incr_command json ctx argv name)
    unfolding Strings.incr_command
    IsAtomic-incr_command name = search (atomic_rules, IsReading-require, IsAtomic-incr) depth 16

    pub IsReading-mget : IsReading (Many.mget json ctx argv)
    unfolding Many.mget
    IsReading-mget = search reading_rules depth 12

    pub IsReading-strlen : IsReading (Strings.strlen json ctx argv)
    unfolding Strings.strlen
    IsReading-strlen = search (reading_rules, IsReading-look) depth 12
