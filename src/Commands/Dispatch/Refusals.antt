-- ===== src/Commands/Dispatch/Refusals.antt =====
-- The commands of the table: those that only read, and those that change nothing where they answer
-- with an error.
use postino.Prelude.{
  ◌≡◌, ap, false, none, some, List, [], ◌∷◌, ◌++◌, Bool-cases, inl, inr, subst, arith,
}
use postino.Prelude.Order.{text_order}
use postino.Prelude.Text.{Text, err}
use postino.Db.{Db}
use postino.Db.Captures.{Json}
use postino.Commands.Names.{among}
use postino.Commands.Reply.{Reply, error, Outcome}
use postino.Commands.Exec.{Ctx, Method, exec, start, reply_of}
use postino.Commands.Exec.Refusals.{
  IsReading, IsAtomic, IsAtomic-reading, reading_rules, IsReading-pure, IsReading-raise,
}
use postino.Commands.Strings.Refusals as StringLaws
use postino.Commands.Keyspace.Refusals as KeyLaws
use postino.Commands.Hashes.Refusals as HashLaws
use postino.Commands.Lists.Refusals as ListLaws
use postino.Commands.Sets.Refusals as SetLaws
use postino.Commands.Walk.Refusals as WalkLaws
use postino.Commands.Dispatch.{Table, select, ping, echo, readers, writers, dispatch}

infixr 30 ◌&◌
pub data AllOf (P : Method Reply → Type 0) : Table → Type 0 where
  all_done : AllOf P []
  ◌&◌ :
      {names : List Text} {m : Method Reply} {t : Table}
      → P m
      → AllOf P t
      → AllOf P ((names, m) ∷ t)

AllOf-append : (t u : Table) → AllOf IsReading t → AllOf IsAtomic u → AllOf IsAtomic (t ++ u)
AllOf-append [] u all_done a = a
AllOf-append ((names, m) ∷ t) u (r & rs) a = IsAtomic-reading m r & AllOf-append t u rs a

AllOf-select :
    {P : Method Reply → Type 0} (name : Text) (t : Table) (m : Method Reply)
    → AllOf P t
    → select name t ≡ some m
    → P m
unfolding select
AllOf-select name [] m all_done h = absurd cc
AllOf-select {P} name ((names, n) ∷ t) m (p & ps) h = elim (Bool-cases (among name names)) [
  | inl here ↦ subst P (ground (arith, here)) p
  | inr later ↦ AllOf-select name t m ps (ground (arith, later))
]

IsReading-ping : (argv : List Text) → IsReading (ping argv)
unfolding ping
IsReading-ping [] = IsReading-raise _
IsReading-ping (_ ∷ []) = IsReading-pure _
IsReading-ping (_ ∷ a ∷ []) = IsReading-pure _
IsReading-ping (_ ∷ _ ∷ _ ∷ _) = IsReading-raise _

module _ (json : Json) (ctx : Ctx) (name : Text) (argv : List Text) where
  IsReading-echo : IsReading (echo json ctx name argv)
  unfolding echo
  IsReading-echo = search reading_rules

  pub readers-IsReading : AllOf IsReading (readers json ctx name argv)
  unfolding readers
  readers-IsReading =
      IsReading-ping argv
      & IsReading-echo
      & WalkLaws.IsReading-keys json ctx argv
      & WalkLaws.IsReading-dbsize json ctx argv
      & KeyLaws.IsReading-exists json ctx argv
      & KeyLaws.IsReading-type json ctx argv
      & KeyLaws.IsReading-ttl json ctx argv name
      & StringLaws.IsReading-get json ctx argv
      & StringLaws.IsReading-mget json ctx argv
      & StringLaws.IsReading-strlen json ctx argv
      & HashLaws.IsReading-hget json ctx argv
      & HashLaws.IsReading-hmget json ctx argv
      & HashLaws.IsReading-hgetall json ctx argv
      & HashLaws.IsReading-hexists json ctx argv
      & HashLaws.IsReading-hlen json ctx argv
      & HashLaws.IsReading-hkeys json ctx argv name
      & ListLaws.IsReading-llen json ctx argv
      & ListLaws.IsReading-lrange json ctx argv
      & ListLaws.IsReading-lindex json ctx argv
      & SetLaws.IsReading-smembers json ctx argv
      & SetLaws.IsReading-sismember json ctx argv
      & SetLaws.IsReading-smismember json ctx argv
      & SetLaws.IsReading-scard json ctx argv
      & all_done

  writers-IsAtomic : AllOf IsAtomic (writers json ctx name argv)
  unfolding writers
  writers-IsAtomic =
      KeyLaws.IsAtomic-del json ctx argv
      & KeyLaws.IsAtomic-expire json ctx argv name
      & KeyLaws.IsAtomic-persist json ctx argv
      & KeyLaws.IsAtomic-rename json ctx argv _
      & StringLaws.IsAtomic-set json ctx argv
      & StringLaws.IsAtomic-setnx json ctx argv
      & StringLaws.IsAtomic-setex json ctx argv name
      & StringLaws.IsAtomic-getset json ctx argv
      & StringLaws.IsAtomic-getdel json ctx argv
      & StringLaws.IsAtomic-getex json ctx argv
      & StringLaws.IsAtomic-append json ctx argv
      & StringLaws.IsAtomic-incr_command json ctx argv name
      & StringLaws.IsAtomic-delifeq json ctx argv
      & HashLaws.IsAtomic-hset json ctx argv name
      & HashLaws.IsAtomic-hsetnx json ctx argv
      & HashLaws.IsAtomic-hdel json ctx argv
      & HashLaws.IsAtomic-hincrby json ctx argv
      & ListLaws.IsAtomic-lpush json ctx argv name
      & ListLaws.IsAtomic-lpop json ctx argv name
      & ListLaws.IsAtomic-lrem json ctx argv
      & ListLaws.IsAtomic-ltrim json ctx argv
      & SetLaws.IsAtomic-sadd json ctx argv
      & SetLaws.IsAtomic-srem json ctx argv
      & KeyLaws.IsAtomic-flush json ctx argv
      & all_done

  pub dispatch-IsAtomic : (m : Method Reply) → dispatch json ctx name argv ≡ some m → IsAtomic m
  unfolding dispatch
  dispatch-IsAtomic m h =
      AllOf-select name (readers json ctx name argv ++ writers json ctx name argv) m
        (AllOf-append (readers json ctx name argv) _ readers-IsReading writers-IsAtomic) h

-- What the caller of a refused command finds.
pub record IsRefused (db : Db) (e : Text) (done : Outcome × Db) : Type 0 where
  pub reply : done.0.reply ≡ error e
  pub dirty : done.0.dirty ≡ false
  pub propagate : done.0.propagate ≡ none
  pub events : done.0.events ≡ []
  pub block : done.0.block ≡ none
  pub keys : done.1.keys ≡ db.keys
  pub deadlines : done.1.deadlines ≡ db.deadlines

-- A command of the table that fails is answered with its error and leaves nothing behind: no key and no
-- deadline is other than it was, nothing is for the journal, no event is told and nothing is waited for.
pub exec-IsRefused :
    (json : Json) (ctx : Ctx) (name : Text) (argv : List Text) (m : Method Reply) (db : Db)
    (e : Text)
    → dispatch json ctx name argv ≡ some m
    → (m (start db)).0 ≡ err e
    → IsRefused db e (exec m db)
unfolding exec
exec-IsRefused json ctx name argv m db e h failed =
    let s = (dispatch-IsAtomic json ctx name argv m h).kept (start db) e failed in
    record {
      reply = ap reply_of failed;
      dirty = ground (arith, s.dirty);
      propagate = s.propagate;
      events = s.events;
      block = s.block;
      keys = s.keys;
      deadlines = s.deadlines;
    }
