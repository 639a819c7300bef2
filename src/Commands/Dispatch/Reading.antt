-- ===== src/Commands/Dispatch/Reading.antt =====
-- src/commands.rs, `writes` beside `Exec::dispatch`: a command that `writes` denies only reads.
use postino.Prelude.{
  ◌≡◌, refl, sym, Bool, true, false, ◌||◌, ◌&&◌, Option, none, some, List, [], ◌∷◌, ◌++◌, length,
  ltb, all, Bool-cases, inl, inr, ◌⊎◌, arith, subst,
}
use postino.Prelude.Order.{text_order, key_eq}
use postino.Prelude.Text.{Text}
use postino.Db.Captures.{Json}
use postino.Commands.Names.{
  Keys, split_words, find_spec, key_table, among, name_of, key_spec, is_flush, spec_writes, writes,
  no_keys, first, every, pairs, two, all_but_last, streams, second,
}
use postino.Commands.Reply.{Reply}
use postino.Commands.Exec.{Exec, Ctx, Method}
use postino.Commands.Exec.Refusals.{Same, IsReading}
use postino.Commands.Dispatch.{Table, select, readers, writers, dispatch}
use postino.Commands.Dispatch.Refusals.{AllOf, all_done, ◌&◌, readers-IsReading}

-- Specifications by which a command with an argument may write.
abbrev may_write : Option Keys → Bool
may_write (some (first write)) = write
may_write (some (every write)) = write
may_write (some two) = true
may_write _ = false

abbrev is_writer : Text → Bool
is_writer name = is_flush name || may_write (key_spec name)

may_write-writes :
    (spec : Option Keys) (argv : List Text)
    → may_write spec ≡ true
    → ltb 1 (length argv) ≡ true
    → elim spec [ none ↦ false | some spec ↦ spec_writes spec argv ] ≡ true
unfolding spec_writes
may_write-writes (some (first write)) argv h l = ground arith
may_write-writes (some (every write)) argv h l = ground arith
may_write-writes (some two) argv h l = l
may_write-writes (some (second write)) argv h l = absurd cc
may_write-writes (some (streams from write)) argv h l = absurd cc
may_write-writes (some no_keys) argv h l = absurd cc
may_write-writes (some pairs) argv h l = absurd cc
may_write-writes (some all_but_last) argv h l = absurd cc
may_write-writes none argv h l = absurd cc

is_writer-writes :
    (argv : List Text)
    → is_writer (name_of argv) ≡ true
    → ltb 1 (length argv) ≡ true
    → writes argv ≡ true
unfolding writes
is_writer-writes argv h l = ground (arith, may_write-writes (key_spec (name_of argv)) argv)

among-all :
    (test : Text → Bool) (name : Text) (names : List Text)
    → all test names ≡ true
    → among name names ≡ true
    → test name ≡ true
among-all test name [] a h = absurd cc
among-all test name (n ∷ names) a h = elim (Bool-cases (key_eq name n)) [
  | inl same ↦
      let p : name ≡ n = text_order.eq_of_cmp name n (ground (arith, same)) in
      let q : test n ≡ true = ground (arith, a) in subst (λ t. test t ≡ true) (sym p) q
  | inr other ↦ among-all test name names (ground (arith, a)) (ground (arith, h, other))
]

-- Every row's names pass the test.
abbrev all_named : (Text → Bool) → Table → Bool
all_named test [] = true
all_named test ((names, m) ∷ t) = all test names && all_named test t

select-named :
    (test : Text → Bool) (name : Text) (t : Table) (m : Method Reply)
    → all_named test t ≡ true
    → select name t ≡ some m
    → test name ≡ true
unfolding select
select-named test name [] m a h = absurd cc
select-named test name ((names, n) ∷ t) m a h = elim (Bool-cases (among name names)) [
  | inl here ↦ among-all test name names (ground (arith, a)) here
  | inr later ↦ select-named test name t m (ground (arith, a)) (ground (arith, later))
]

select-append :
    (name : Text) (t u : Table) (m : Method Reply)
    → AllOf IsReading t
    → select name (t ++ u) ≡ some m
    → IsReading m ⊎ (select name u ≡ some m)
unfolding select
select-append name [] u m all_done h = inr h
select-append name ((names, n) ∷ t) u m (p & ps) h = elim (Bool-cases (among name names)) [
  | inl here ↦ inl (subst IsReading (ground (arith, here)) p)
  | inr later ↦ select-append name t u m ps (ground (arith, later))
]

writers-named :
    (json : Json) (ctx : Ctx) (name : Text) (argv : List Text)
    → all_named is_writer (writers json ctx name argv) ≡ true
unfolding writers key_spec find_spec key_table split_words
writers-named json ctx name argv = refl

-- A command with an argument, that `writes` denies, only reads: the keyspace, what the journal and the
-- events would be told and whether it waits are as they were, a snapshot in progress apart.
pub dispatch-reading :
    (json : Json) (ctx : Ctx) (argv : List Text) (m : Method Reply)
    → ltb 1 (length argv) ≡ true
    → dispatch json ctx (name_of argv) argv ≡ some m
    → writes argv ≡ false
    → (x : Exec) → Same x (m x).1
unfolding dispatch
dispatch-reading json ctx argv m l h denied x =
    let name = name_of argv in
    elim (select-append name (readers json ctx name argv) (writers json ctx name argv) m
      (readers-IsReading json ctx name argv) h) [
        | inl reading ↦ reading.same x
        | inr writer ↦ absurd (
            ground (
              arith,
              denied,
              is_writer-writes argv
                  (select-named is_writer name (writers json ctx name argv) m
                    (writers-named json ctx name argv) writer)
                  l,
            ))
      ]
