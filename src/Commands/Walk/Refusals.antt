-- ===== src/Commands/Walk/Refusals.antt =====
-- KEYS and DBSIZE only read.
use postino.Prelude.{List}
use postino.Prelude.Text.{Text}
use postino.Db.Captures.{Json}
use postino.Commands.Exec.{Ctx}
use postino.Commands.Exec.Refusals.{IsReading, reading_rules}
use postino.Commands.Walk

module _ (json : Json) (ctx : Ctx) (argv : List Text) where
  pub IsReading-keys : IsReading (Walk.keys json ctx argv)
  unfolding Walk.keys
  IsReading-keys = search reading_rules depth 12

  pub IsReading-dbsize : IsReading (Walk.dbsize json ctx argv)
  unfolding Walk.dbsize
  IsReading-dbsize = search reading_rules depth 12
