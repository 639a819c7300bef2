-- ===== src/Commands/Sets/Refusals.antt =====
-- The commands on sets, where they answer with an error.
use postino.Prelude.{List}
use postino.Prelude.Text.{Text}
use postino.Db.Captures.{Json}
use postino.Commands.Exec.{Ctx}
use postino.Commands.Exec.Refusals.{IsAtomic, atomic_rules, IsReading, reading_rules}
use postino.Commands.Exec.Typed.{IsReading-look, IsAtomic-made, IsAtomic-typed_mut}
use postino.Commands.Hashes.Refusals.{IsSure-removed_from}
use postino.Commands.Sets

module _ (json : Json) (ctx : Ctx) (argv : List Text) where
  pub IsAtomic-sadd : IsAtomic (Sets.sadd json ctx argv)
  unfolding Sets.sadd
  IsAtomic-sadd = search (atomic_rules, IsReading-look, IsAtomic-made) depth 16

  pub IsAtomic-srem : IsAtomic (Sets.srem json ctx argv)
  unfolding Sets.srem
  IsAtomic-srem = search (atomic_rules, IsAtomic-typed_mut, IsSure-removed_from) depth 12

  pub IsReading-smembers : IsReading (Sets.smembers json ctx argv)
  unfolding Sets.smembers
  IsReading-smembers = search (reading_rules, IsReading-look) depth 12

  pub IsReading-sismember : IsReading (Sets.sismember json ctx argv)
  unfolding Sets.sismember
  IsReading-sismember = search (reading_rules, IsReading-look) depth 12

  pub IsReading-smismember : IsReading (Sets.smismember json ctx argv)
  unfolding Sets.smismember
  IsReading-smismember = search (reading_rules, IsReading-look) depth 12

  pub IsReading-scard : IsReading (Sets.scard json ctx argv)
  unfolding Sets.scard
  IsReading-scard = search (reading_rules, IsReading-look) depth 12
