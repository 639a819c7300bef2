-- ===== src/Commands/Exec/Typed.antt =====
-- src/commands.rs, the macro `typed!`: reading and changing a key that must hold one kind of value.
use postino.Prelude.{
  ℕ, ◌≡◌, ◌≢◌, refl, Bool, true, Option, none, some, List, [], ◌∷◌, if◌then◌else◌, Option-cases,
  Bool-cases, inl, inr, arith,
}
use postino.Prelude.Order.{text_order}
use postino.Prelude.Map.{Map}
use postino.Prelude.Text.{Text, Result, ok, err, codes}
use postino.Db.{Db, read, put, get_mut}
use postino.Db.Reads.{read-put}
use postino.Db.Value.{Value, Entry, lasting, expired, string, list, hash, set}
use postino.Db.Captures.{Json}
use postino.Commands.Exec.{
  Exec, Ctx, Method, continue, pure, raise, change, demand, ◌>>=◌, ◌>>◌, either, admit, admit_all,
  admits_all,
}
use postino.Commands.Exec.Refusals.{
  Same, Same-refl, IsReading, IsSure, IsAtomic, sure_rules, atomic_rules,
}

abbrev pub wrong_type : Text
wrong_type = codes "WRONGTYPE Operation against a key holding the wrong kind of value"

abbrev pub syntax : Text
syntax = codes "ERR syntax error"

-- A variant of `Value`, with what it holds when the key is new.
pub record Kind (T : Type 0) : Type 0 where
  pub wrap : T → Value
  pub held : Value → Option T
  pub fresh : T
  pub held-wrap : (v : T) → held (wrap v) ≡ some v

abbrev as_string : Value → Option Text
as_string (string v) = some v
as_string _ = none

abbrev as_list : Value → Option (List Text)
as_list (list v) = some v
as_list _ = none

abbrev as_hash : Value → Option (Map Text Text)
as_hash (hash v) = some v
as_hash _ = none

abbrev as_set : Value → Option (Map Text (Unit {0}))
as_set (set v) = some v
as_set _ = none

abbrev pub string_kind : Kind Text
string_kind = record { wrap = string; held = as_string; fresh = []; held-wrap = λ v. refl }

abbrev pub list_kind : Kind (List Text)
list_kind = record { wrap = list; held = as_list; fresh = []; held-wrap = λ v. refl }

abbrev pub hash_kind : Kind (Map Text Text)
hash_kind = record { wrap = hash; held = as_hash; fresh = []; held-wrap = λ v. refl }

abbrev pub set_kind : Kind (Map Text (Unit {0}))
set_kind = record { wrap = set; held = as_set; fresh = []; held-wrap = λ v. refl }

-- `require`: `option.ok_or(error)?`
unfoldable pub require : {A : Type 0} → Option A → Text → Method A
unfolding either raise pure
require o e = either o (raise e) pure

module _ {T : Type 0} (kind : Kind T) where
  abbrev typed_entry : Option Entry → Result (Option T)
  typed_entry none = ok none
  typed_entry (some e) = elim (kind.held e.value) [ none ↦ err wrong_type | some v ↦ ok (some v) ]

  -- `$get`
  unfoldable pub typed_ref : Text → ℕ → Db → Result (Option T)
  unfolding read
  typed_ref key now db = typed_entry (read key now db)

  abbrev pub found : Option Entry → Option T
  found none = none
  found (some e) = kind.held e.value

  abbrev pub changed : {A : Type 0} → (T → T × A) → Entry → Entry
  changed f e = elim (kind.held e.value) [
    | none ↦ e
    | some v ↦ record e { value = kind.wrap (f v).0 }
  ]

  abbrev answer : {A : Type 0} → (T → T × A) → Option T → Option A
  answer f none = none
  answer f (some v) = some (f v).1

  module _ (ctx : Ctx) (key : Text) where
    unfoldable pub look : Method (Option T)
    unfolding typed_ref
    look x = (typed_ref key ctx.now x.db, x)

    pub IsReading-look : IsReading look
    unfolding look
    IsReading-look = record { same = λ x. Same-refl x }

    module _ (json : Json) {A : Type 0} where
      -- What the caller does with the value it is given, and what that answers.
      unfoldable pub mutate : (T → T × A) → Method (Option A)
      unfolding change get_mut read
      mutate f =
          change
            λ db. (get_mut json key ctx.now (changed f) db, answer f (found (read key ctx.now db)))

      -- `$get_mut`, and what the caller does with what it finds.
      unfoldable pub typed_mut : Bool → (T → T × A) → Method (Option A)
      unfolding look mutate admit put ◌>>=◌ either change pure
      typed_mut create f = do
        held ← look
        either held
            (if create
              then (do
                admit ctx key
                change (λ db. (put json key (lasting (kind.wrap kind.fresh)) db, tt))
                mutate f)
              else pure none)
            (λ _. mutate f)

      pub IsSure-mutate : (f : T → T × A) → IsSure (mutate f)
      unfolding mutate
      IsSure-mutate f = search sure_rules

      pub IsAtomic-typed_mut : (create : Bool) (f : T → T × A) → IsAtomic (typed_mut create f)
      unfolding typed_mut
      IsAtomic-typed_mut create f = search (atomic_rules, IsReading-look) depth 12

      -- `$get_mut(.., true)?.ok_or(SYNTAX)?`
      unfoldable pub made : (T → T × A) → Method A
      unfolding typed_mut require ◌>>=◌
      made f = do made ← typed_mut true f; require made syntax

      -- A value is found where there was one, and where one is put.
      finds : (f : T → T × A) (x : Exec) → (typed_mut true f x).0 ≢ ok none
      unfolding typed_mut look typed_ref mutate ◌>>=◌ either pure change admit admit_all demand
          raise expired
      finds f x h = elim (Option-cases (read key ctx.now x.db)) [
        | inl absent ↦ elim (Bool-cases (admits_all ctx (key ∷ []) x.db)) [
          | inl room ↦ ground (
            arith,
            absent,
            room,
            kind.held-wrap kind.fresh,
            text_order.cmp_refl key,
            read-put json ctx.now key key (lasting (kind.wrap kind.fresh)) x.db,
          )
          | inr full ↦ ground (arith, absent, full)
        ]
        | inr (e, there) ↦ elim (Option-cases (kind.held e.value)) [
          | inl other ↦ ground (arith, there, other)
          | inr (v, same) ↦ ground (arith, there, same)
        ]
      ]

      pub IsAtomic-made : (f : T → T × A) → IsAtomic (made f)
      unfolding made ◌>>=◌ require either pure
      IsAtomic-made f = record {
        kept = λ x e.
            by_result (typed_mut true f x).0 (typed_mut true f x).1 e (finds f x)
              ((IsAtomic-typed_mut true f).kept x);
      }
        where
          by_result :
              (q : Result (Option A)) (y : Exec) (e : Text) {x : Exec}
              → q ≢ ok none
              → ((t : Text) → q ≡ err t → Same x y)
              → (continue q (λ made. require made syntax) y).0 ≡ err e
              → Same x (continue q (λ made. require made syntax) y).1
          by_result (ok none) y e n h k = absurd (n refl)
          by_result (ok (some a)) y e n h k = absurd cc
          by_result (err t) y e n h k = h t refl
