-- ===== src/Commands/Hashes/Refusals.antt =====
-- The commands on hashes, where they answer with an error.
use postino.Prelude.{ℕ, List}
use postino.Prelude.Text.{Text}
use postino.Db.Captures.{Json}
use postino.Commands.Exec.{Ctx}
use postino.Commands.Exec.Refusals.{IsSure, IsAtomic, atomic_rules, IsReading, reading_rules}
use postino.Commands.Exec.Typed.{IsReading-look, IsAtomic-made, IsAtomic-typed_mut}
use postino.Commands.Strings.Refusals.{IsReading-require}
use postino.Commands.Hashes

module _ (json : Json) (ctx : Ctx) where
  pub IsSure-prune_key : (key : Text) → IsSure (Hashes.prune_key json ctx key)
  unfolding Hashes.prune_key
  IsSure-prune_key key = search atomic_rules

  pub IsSure-removed_from :
      (key event : Text) (n : ℕ) → IsSure (Hashes.removed_from json ctx key event n)
  unfolding Hashes.removed_from
  IsSure-removed_from key event n = search atomic_rules depth 12

  module _ (argv : List Text) where
    pub IsAtomic-hset : (name : Text) → IsAtomic (Hashes.hset json ctx argv name)
    unfolding Hashes.hset
    IsAtomic-hset name = search (atomic_rules, IsReading-look, IsAtomic-made) depth 16

    pub IsAtomic-hsetnx : IsAtomic (Hashes.hsetnx json ctx argv)
    unfolding Hashes.hsetnx
    IsAtomic-hsetnx = search (atomic_rules, IsReading-look, IsAtomic-made) depth 16

    pub IsReading-hget : IsReading (Hashes.hget json ctx argv)
    unfolding Hashes.hget
    IsReading-hget = search (reading_rules, IsReading-look) depth 12

    pub IsReading-hmget : IsReading (Hashes.hmget json ctx argv)
    unfolding Hashes.hmget
    IsReading-hmget = search (reading_rules, IsReading-look) depth 12

    pub IsReading-hgetall : IsReading (Hashes.hgetall json ctx argv)
    unfolding Hashes.hgetall
    IsReading-hgetall = search (reading_rules, IsReading-look) depth 12

    pub IsAtomic-hdel : IsAtomic (Hashes.hdel json ctx argv)
    unfolding Hashes.hdel
    IsAtomic-hdel = search (atomic_rules, IsAtomic-typed_mut, IsSure-removed_from) depth 12

    pub IsReading-hexists : IsReading (Hashes.hexists json ctx argv)
    unfolding Hashes.hexists
    IsReading-hexists = search (reading_rules, IsReading-look) depth 12

    pub IsReading-hlen : IsReading (Hashes.hlen json ctx argv)
    unfolding Hashes.hlen
    IsReading-hlen = search (reading_rules, IsReading-look) depth 12

    pub IsReading-hkeys : (name : Text) → IsReading (Hashes.hkeys json ctx argv name)
    unfolding Hashes.hkeys
    IsReading-hkeys name = search (reading_rules, IsReading-look) depth 12

    pub IsAtomic-hincrby : IsAtomic (Hashes.hincrby json ctx argv)
    unfolding Hashes.hincrby
    IsAtomic-hincrby =
        search (atomic_rules, IsReading-look, IsReading-require, IsAtomic-made) depth 18
