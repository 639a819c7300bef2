-- ===== src/Commands/Exec.antt =====
-- src/commands.rs, `Ctx`, `Exec` and `Db::exec`: how a command runs. A method of `Exec` takes the state
-- and gives its result and the state after it, also where the result is an error. What `serde_json`
-- writes is a parameter, since a change to the keyspace may write to a snapshot in progress.
pub mod Refusals
pub mod Kept
pub mod Typed
use postino.Prelude.{
  ℕ, ◌+◌, ◌^◌, ◌-◌, Bool, true, false, not, ◌&&◌, ◌||◌, Option, none, some, List, [], ◌∷◌, ◌++◌,
  length, ltb, ◌==◌, if◌then◌else◌, get_or, is_some_and,
}
use postino.Prelude.Order.{key_eq, text_order}
use postino.Prelude.Map.{get}
use postino.Prelude.Text.{Text, Result, ok, err, codes, to_text, u64_size}
use postino.Db.{Db}
use postino.Scope.{sorted}
use postino.Scope.Access.{Access, admin_access}
use postino.Commands.Names.{lower}
use postino.Commands.Reply.{Reply, error, is_error, Block, Outcome}

pub record Ctx : Type 0 where
  pub now : ℕ
  pub replay : Bool
  pub blocking : Bool
  pub access : Access
  pub max_keys : ℕ
  pub max_elements : ℕ
  pub events : Bool

-- `Ctx::replay`
abbrev pub replaying : ℕ → Ctx
replaying now = record {
  now = now;
  replay = true;
  blocking = false;
  access = admin_access;
  max_keys = u64_size - 1;
  max_elements = u64_size - 1;
  events = true;
}

pub record Exec : Type 0 where
  pub db : Db
  pub dirty : Bool
  pub propagate : Option (List (List Text))
  pub events : List (Text × Text)
  pub block : Option Block

-- A method of `Exec`.
abbrev pub Method {ℓ} : Type ℓ → Type ℓ
Method A = Exec → Result A × Exec

module _ {ℓ} {A : Type ℓ} where
  unfoldable pub pure : A → Method A
  pure a x = (ok a, x)

  unfoldable pub raise : Text → Method A
  raise e x = (err e, x)

  unfoldable pub lift : Result A → Method A
  lift r x = (r, x)

-- What is read from the state.
unfoldable pub gets : {A : Type 0} → (Exec → A) → Method A
gets f x = (ok (f x), x)

-- A change of the state.
unfoldable pub modify : (Exec → Exec) → Method (Unit {0})
modify f x = (ok tt, f x)

-- A change of the keyspace, and what comes back from it.
unfoldable pub change : {A : Type 0} → (Db → Db × A) → Method A
change f x = let (db, a) = f x.db in (ok a, record x { db = db })

module _ {ℓ} {A B : Type ℓ} where
  abbrev pub continue : Result A → (A → Method B) → Method B
  continue (ok a) f x = f a x
  continue (err e) f x = (err e, x)

  infixl 5 ◌>>=◌ ◌>>◌
  unfoldable pub ◌>>=◌ : Method A → (A → Method B) → Method B
  unfolding pure raise lift gets modify change
  ◌>>=◌ m f x = let (r, x') = m x in continue r f x'

  abbrev pub ◌>>◌ : Method A → Method B → Method B
  m >> n = m >>= λ _. n

-- `match option { .. }`
unfoldable pub either : {A B : Type 0} → Option A → Method B → (A → Method B) → Method B
either none m f = m
either (some a) m f = f a

-- `if !test { return Err(e) }`
unfoldable pub demand : Bool → Text → Method (Unit {0})
unfolding pure raise
demand true e = pure tt
demand false e = raise e

unfoldable pub wrong_args : Text → Text
unfolding lower
wrong_args name = codes "ERR wrong number of arguments for '" ++ (lower name ++ codes "' command")

abbrev pub arg : List Text → ℕ → Text
arg argv i = get_or argv i []

unfoldable pub arity : List Text → ℕ → Method (Unit {0})
unfolding demand wrong_args
arity argv min = demand (not (ltb (length argv) min)) (wrong_args (arg argv 0))

unfoldable pub exactly : List Text → ℕ → Method (Unit {0})
unfolding demand wrong_args
exactly argv n = demand (length argv == n) (wrong_args (arg argv 0))

-- `saturating_add` of a `usize`
abbrev pub saturating_add : ℕ → ℕ → ℕ
saturating_add a b = if ltb (a + b) u64_size then a + b else u64_size - 1

-- `dedup`, of a sorted list.
unfoldable pub dedup : List Text → List Text
dedup [] = []
dedup (t ∷ []) = t ∷ []
dedup (t ∷ u ∷ ts) = if key_eq t u then dedup (u ∷ ts) else t ∷ dedup (u ∷ ts)

abbrev pub is_new : Db → Text → Bool
is_new db k = not (is_some_and (get k db.keys) λ _. true)

abbrev pub keep : (Text → Bool) → List Text → List Text
keep test [] = []
keep test (t ∷ ts) = if test t then t ∷ keep test ts else keep test ts

unfoldable pub too_many_keys : ℕ → Text
too_many_keys most =
    codes "OOM key limit reached ("
    ++ (to_text most ++ codes " keys); raise POSTINO_MAX_KEYS or delete keys")

module _ (ctx : Ctx) where
  unfoldable pub touch : Text → Text → Method (Unit {0})
  unfolding modify
  touch key event = modify λ x. record x {
    dirty = true;
    events = if ctx.events then x.events ++ (key, event) ∷ [] else x.events;
  }

  unfoldable pub admits_all : List Text → Db → Bool
  unfolding sorted dedup
  admits_all keys db =
      let new = dedup (sorted (keep (is_new db) keys)) in
      ctx.replay
      || not (ltb ctx.max_keys (saturating_add (length db.keys) (length new)) && ltb 0 (length new))

  unfoldable pub admit_all : List Text → Method (Unit {0})
  unfolding admits_all demand too_many_keys
  admit_all keys x = demand (admits_all keys x.db) (too_many_keys ctx.max_keys) x

  unfoldable pub admit : Text → Method (Unit {0})
  unfolding admit_all
  admit key = admit_all (key ∷ [])

  unfoldable pub room_for : ℕ → ℕ → Method (Unit {0})
  unfolding demand
  room_for len adding =
      demand (ctx.replay || not (ltb ctx.max_elements (saturating_add len adding))) (
        codes "OOM a collection holds at most "
        ++ (to_text ctx.max_elements ++ codes " elements (POSTINO_MAX_ELEMENTS)"))

-- `unwrap_or_else(Reply::Error)`
abbrev pub reply_of : Result Reply → Reply
reply_of (ok r) = r
reply_of (err e) = error e

abbrev pub start : Db → Exec
start db = record { db = db; dirty = false; propagate = none; events = []; block = none }

-- `Db::exec`, of the method that the command's name selects.
unfoldable pub exec : Method Reply → Db → Outcome × Db
unfolding is_error
exec method db =
    let (r, x) = method (start db) in
    let reply = reply_of r in
    (
      record {
        reply = reply;
        dirty = x.dirty && not (is_error reply);
        propagate = x.propagate;
        events = x.events;
        block = x.block;
      },
      x.db,
    )
