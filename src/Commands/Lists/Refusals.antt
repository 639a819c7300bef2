-- ===== src/Commands/Lists/Refusals.antt =====
-- The commands on lists, where they answer with an error.
use postino.Prelude.{List}
use postino.Prelude.Text.{Text}
use postino.Db.Captures.{Json}
use postino.Commands.Exec.{Ctx}
use postino.Commands.Exec.Refusals.{IsAtomic, atomic_rules, IsReading, reading_rules}
use postino.Commands.Exec.Typed.{IsReading-look, IsAtomic-made, IsAtomic-typed_mut}
use postino.Commands.Hashes.Refusals.{IsSure-removed_from}
use postino.Commands.Lists

module _ (json : Json) (ctx : Ctx) (argv : List Text) where
  pub IsAtomic-lpush : (name : Text) → IsAtomic (Lists.lpush json ctx argv name)
  unfolding Lists.lpush
  IsAtomic-lpush name = search (atomic_rules, IsReading-look, IsAtomic-made) depth 16

  pub IsAtomic-lpop : (name : Text) → IsAtomic (Lists.lpop json ctx argv name)
  unfolding Lists.lpop
  IsAtomic-lpop name = search (atomic_rules, IsAtomic-typed_mut) depth 16

  pub IsReading-llen : IsReading (Lists.llen json ctx argv)
  unfolding Lists.llen
  IsReading-llen = search (reading_rules, IsReading-look) depth 12

  pub IsReading-lrange : IsReading (Lists.lrange json ctx argv)
  unfolding Lists.lrange
  IsReading-lrange = search (reading_rules, IsReading-look) depth 12

  pub IsReading-lindex : IsReading (Lists.lindex json ctx argv)
  unfolding Lists.lindex
  IsReading-lindex = search (reading_rules, IsReading-look) depth 12

  pub IsAtomic-lrem : IsAtomic (Lists.lrem json ctx argv)
  unfolding Lists.lrem
  IsAtomic-lrem = search (atomic_rules, IsAtomic-typed_mut, IsSure-removed_from) depth 14

  pub IsAtomic-ltrim : IsAtomic (Lists.ltrim json ctx argv)
  unfolding Lists.ltrim
  IsAtomic-ltrim = search (atomic_rules, IsAtomic-typed_mut) depth 16
