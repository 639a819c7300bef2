-- ===== src/Commands/Names/Laws.antt =====
-- The commands that may change the keyspace are those that name a key they may change:
-- src/commands.rs, `writes`, `key_args` and `COMMANDS`.
use Prim.Native.Nat.{zero, suc}
use postino.Prelude.{
  ℕ, ◌+◌, ◌-◌, ◌/◌, ◌≡◌, ◌∙◌, refl, sym, subst, Bool, true, false, ◌&&◌, ◌||◌, List, [], ◌∷◌, ◌++◌,
  arith, length, ltb, if◌then◌else◌, any, all, map, is_some_and, Bool-eq_of_iff, Bool-cases,
  Option-cases, inl, inr,
}
use postino.Prelude.Order.{key_eq, text_order}
use postino.Prelude.Search.{key_eq_iff}
use postino.Prelude.Text.{Text}
use postino.Commands.Names.{
  Keys, no_keys, first, every, pairs, two, all_but_last, streams, second, counted, keys_in,
  filter_below, args_of, key_args, spec_writes, writes, is_flush, key_spec, name_of, stream_keys,
  commands, key_table, find_spec, among, words,
}

abbrev changes : ℕ × Bool → Bool
changes k = k.1

filter_below-over :
    (len a n : ℕ) (write : Bool)
    → ltb a len ≡ false
    → any changes (map (λ i. (i, write)) (filter_below len (counted a 1 n))) ≡ false
unfolding counted
filter_below-over len a zero write h = refl
filter_below-over len a (suc n) write h =
    rw h (filter_below-over len (a + 1) n write (ground arith))

none_marked : (is : List ℕ) → any changes (map (λ i. (i, false)) is) ≡ false
none_marked [] = refl
none_marked (i ∷ is) = none_marked is

any-keys_in :
    (len a b : ℕ) (write : Bool)
    → any changes (keys_in len write (a, b)) ≡ (write && (ltb a len && ltb a b))
unfolding keys_in
any-keys_in len a b write = from (b - a) refl
  where
    from :
        (n : ℕ)
        → b - a ≡ n
        → any changes (map (λ i. (i, write)) (filter_below len (counted a 1 n)))
          ≡ (write && (ltb a len && ltb a b))
    from zero e = ground arith
    from (suc n) e = elim (Bool-cases (ltb a len)) [
      | inl within ↦ rw within (by_write write n e)
      | inr past ↦ rw past (filter_below-over len (a + 1) n write (ground arith) ∙ ground arith)
    ]
      where
        by_write :
            (write : Bool) (n : ℕ)
            → b - a ≡ suc n
            → any changes (map (λ i. (i, write)) (a ∷ filter_below len (counted (a + 1) 1 n)))
              ≡ (write && (true && ltb a b))
        by_write true n e = ground arith
        by_write false n e = none_marked (filter_below len (counted (a + 1) 1 n))

any-pairs : (n : ℕ) → any changes (map (λ i. (i, true)) (counted 1 2 n)) ≡ ltb 0 n
unfolding counted
any-pairs zero = refl
any-pairs (suc n) = ground arith

any-args_of :
    (spec : Keys) (argv : List Text) → any changes (args_of spec argv) ≡ spec_writes spec argv
unfolding args_of spec_writes
any-args_of no_keys argv = refl
any-args_of (first write) argv = any-keys_in (length argv) 1 2 write ∙ ground arith
any-args_of (every write) argv = any-keys_in (length argv) 1 (length argv) write ∙ ground arith
any-args_of pairs argv = any-pairs (length argv / 2) ∙ ground arith
any-args_of two argv = any-keys_in (length argv) 1 3 true ∙ ground arith
any-args_of all_but_last argv =
    any-keys_in (length argv) 1 (if ltb (length argv - 1) 1 then 1 else length argv - 1) true
    ∙ ground arith
any-args_of (streams from write) argv =
    let (start, end) = stream_keys argv from in any-keys_in (length argv) start end write
any-args_of (second write) argv = any-keys_in (length argv) 2 3 write ∙ ground arith

-- A command may change the keyspace exactly when it flushes it, or when it is known and one of the
-- arguments that are its keys is one that it may change.
pub writes-key_args :
    (argv : List Text)
    → writes argv
      ≡ (is_flush (name_of argv) || is_some_and (key_args argv) (λ keys. any (λ k. k.1) keys))
unfolding writes key_args
writes-key_args argv = elim (Option-cases (key_spec (name_of argv))) [
  | inl e ↦ rw e (ground arith)
  | inr (spec, e) ↦ rw (e, ← any-args_of spec argv) (ground arith)
]

all-among :
    (ts us : List Text) (t : Text)
    → all (λ u. among u us) ts ≡ true
    → among t ts ≡ true
    → among t us ≡ true
all-among [] us t h m = cc
all-among (u ∷ ts) us t h m = elim (Bool-cases (key_eq t u)) [
  | inl same ↦ subst (λ v. among v us ≡ true) (sym ((key_eq_iff t u).0 same)) (ground arith)
  | inr other ↦ all-among ts us t (ground arith) (ground arith)
]

-- All names of a table.
abbrev names_of : List (List Text × Keys) → List Text
names_of [] = []
names_of ((names, _) ∷ table) = names ++ names_of table

among-append : (t : Text) (ts us : List Text) → among t (ts ++ us) ≡ (among t ts || among t us)
among-append t [] us = refl
among-append t (u ∷ ts) us = ground (arith, among-append t ts us)

find_spec-names_of :
    (t : Text) (table : List (List Text × Keys))
    → is_some_and (find_spec t table) (λ _. true) ≡ among t (names_of table)
unfolding find_spec
find_spec-names_of t [] = refl
find_spec-names_of t ((names, spec) ∷ table) =
    ground (arith, among-append t names (names_of table), find_spec-names_of t table)

listed : all (λ u. among u (names_of key_table)) commands ≡ true
unfolding commands key_table words
listed = refl

tabled : all (λ u. among u commands) (names_of key_table) ≡ true
unfolding commands key_table words
tabled = refl

-- `COMMANDS` lists exactly the names that have a key specification.
pub commands-key_spec :
    (name : Text) → among name commands ≡ is_some_and (key_spec name) (λ _. true)
unfolding key_spec
commands-key_spec name =
    Bool-eq_of_iff (among name commands) (among name (names_of key_table)) (
      all-among commands (names_of key_table) name listed,
      all-among (names_of key_table) commands name tabled,
    )
    ∙ sym (find_spec-names_of name key_table)
