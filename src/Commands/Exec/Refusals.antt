-- ===== src/Commands/Exec/Refusals.antt =====
-- Methods that change nothing where they answer with an error, one rule for each way to build a
-- method.
use postino.Prelude.{
  ℕ, [], ◌∷◌, ◌≡◌, ◌≢◌, refl, ◌∙◌, Bool, true, false, Option, none, some, List, if◌then◌else◌,
}
use postino.Prelude.Text.{Text, Result, ok, err}
use postino.Db.{Db}
use postino.Commands.Exec.{
  Exec, Ctx, Method, continue, admits_all, too_many_keys, pure, raise, lift, gets, modify, change,
  ◌>>=◌, either, demand, arity, exactly, touch, admit_all, admit, room_for,
}

-- Nothing differs but the snapshot in progress, which may have written a key ahead.
pub record Same (x y : Exec) : Type 0 where
  pub keys : y.db.keys ≡ x.db.keys
  pub deadlines : y.db.deadlines ≡ x.db.deadlines
  pub dirty : y.dirty ≡ x.dirty
  pub propagate : y.propagate ≡ x.propagate
  pub events : y.events ≡ x.events
  pub block : y.block ≡ x.block

pub Same-refl : (x : Exec) → Same x x
Same-refl x = record {
  keys = refl;
  deadlines = refl;
  dirty = refl;
  propagate = refl;
  events = refl;
  block = refl;
}

pub Same-trans : {x y z : Exec} → Same x y → Same y z → Same x z
Same-trans a b = record {
  keys = b.keys ∙ a.keys;
  deadlines = b.deadlines ∙ a.deadlines;
  dirty = b.dirty ∙ a.dirty;
  propagate = b.propagate ∙ a.propagate;
  events = b.events ∙ a.events;
  block = b.block ∙ a.block;
}

-- A method that only reads, one that answers with no error, and one that changes nothing where it
-- answers with an error.
pub record IsReading {ℓ} {A : Type ℓ} (m : Method A) : Type ℓ where
  pub same : (x : Exec) → Same x (m x).1

pub record IsSure {ℓ} {A : Type ℓ} (m : Method A) : Type ℓ where
  pub done : (x : Exec) (e : Text) → (m x).0 ≢ err e

pub record IsAtomic {ℓ} {A : Type ℓ} (m : Method A) : Type ℓ where
  pub kept : (x : Exec) (e : Text) → (m x).0 ≡ err e → Same x (m x).1

module _ {ℓ} {A : Type ℓ} where
  pub IsReading-pure : (a : A) → IsReading (pure a)
  unfolding pure
  IsReading-pure a = record { same = λ x. Same-refl x }

  pub IsReading-raise : (e : Text) → IsReading (raise {A = A} e)
  unfolding raise
  IsReading-raise e = record { same = λ x. Same-refl x }

  pub IsReading-lift : (r : Result A) → IsReading (lift r)
  unfolding lift
  IsReading-lift r = record { same = λ x. Same-refl x }

  pub IsSure-pure : (a : A) → IsSure (pure a)
  unfolding pure
  IsSure-pure a = record { done = λ x e h. cc }

  pub IsAtomic-reading : (m : Method A) → IsReading m → IsAtomic m
  IsAtomic-reading m r = record { kept = λ x e h. r.same x }

  pub IsAtomic-sure : (m : Method A) → IsSure m → IsAtomic m
  IsAtomic-sure m s = record { kept = λ x e h. absurd (s.done x e h) }

  pub IsAtomic-if :
      (b : Bool) (m n : Method A) → IsAtomic m → IsAtomic n → IsAtomic (if b then m else n)
  IsAtomic-if true m n f g = f
  IsAtomic-if false m n f g = g

  pub IsSure-if : (b : Bool) (m n : Method A) → IsSure m → IsSure n → IsSure (if b then m else n)
  IsSure-if true m n f g = f
  IsSure-if false m n f g = g

  pub IsReading-if :
      (b : Bool) (m n : Method A) → IsReading m → IsReading n → IsReading (if b then m else n)
  IsReading-if true m n f g = f
  IsReading-if false m n f g = g

module _ {A : Type 0} where
  pub IsReading-gets : (f : Exec → A) → IsReading (gets f)
  unfolding gets
  IsReading-gets f = record { same = λ x. Same-refl x }

  pub IsSure-gets : (f : Exec → A) → IsSure (gets f)
  unfolding gets
  IsSure-gets f = record { done = λ x e h. cc }

  pub IsSure-change : (f : Db → Db × A) → IsSure (change f)
  unfolding change
  IsSure-change f = record { done = λ x e h. cc }

pub IsSure-modify : (f : Exec → Exec) → IsSure (modify f)
unfolding modify
IsSure-modify f = record { done = λ x e h. cc }

module _ {ℓ} {A B : Type ℓ} (m : Method A) (f : A → Method B) where
  pub IsReading-bind : IsReading m → ((a : A) → IsReading (f a)) → IsReading (m >>= f)
  unfolding ◌>>=◌
  IsReading-bind r s = record { same = λ x. by_result (m x).0 (m x).1 (r.same x) }
    where
      by_result : (q : Result A) (y : Exec) {x : Exec} → Same x y → Same x (continue q f y).1
      by_result (ok a) y h = Same-trans h ((s a).same y)
      by_result (err e) y h = h

  pub IsSure-bind : IsSure m → ((a : A) → IsSure (f a)) → IsSure (m >>= f)
  unfolding ◌>>=◌
  IsSure-bind r s = record { done = λ x e. by_result (m x).0 (m x).1 e (r.done x) }
    where
      by_result :
          (q : Result A) (y : Exec) (e : Text)
          → ((t : Text) → q ≢ err t)
          → (continue q f y).0 ≢ err e
      by_result (ok a) y e h = (s a).done y e
      by_result (err t) y e h = absurd (h t refl)

  pub IsAtomic-bind_reading : IsReading m → ((a : A) → IsAtomic (f a)) → IsAtomic (m >>= f)
  unfolding ◌>>=◌
  IsAtomic-bind_reading r s = record { kept = λ x e. by_result (m x).0 (m x).1 e (r.same x) }
    where
      by_result :
          (q : Result A) (y : Exec) (e : Text) {x : Exec}
          → Same x y
          → (continue q f y).0 ≡ err e
          → Same x (continue q f y).1
      by_result (ok a) y e h k = Same-trans h ((s a).kept y e k)
      by_result (err t) y e h k = h

  pub IsAtomic-bind_sure : IsAtomic m → ((a : A) → IsSure (f a)) → IsAtomic (m >>= f)
  unfolding ◌>>=◌
  IsAtomic-bind_sure r s = record { kept = λ x e. by_result (m x).0 (m x).1 e (r.kept x) }
    where
      by_result :
          (q : Result A) (y : Exec) (e : Text) {x : Exec}
          → ((t : Text) → q ≡ err t → Same x y)
          → (continue q f y).0 ≡ err e
          → Same x (continue q f y).1
      by_result (ok a) y e h k = absurd ((s a).done y e k)
      by_result (err t) y e h k = h t refl

module _ {A B : Type 0} where
  pub IsReading-either :
      (o : Option A) (m : Method B) (f : A → Method B)
      → IsReading m
      → ((a : A) → IsReading (f a))
      → IsReading (either o m f)
  unfolding either
  IsReading-either none m f r s = r
  IsReading-either (some a) m f r s = s a

  pub IsSure-either :
      (o : Option A) (m : Method B) (f : A → Method B)
      → IsSure m
      → ((a : A) → IsSure (f a))
      → IsSure (either o m f)
  unfolding either
  IsSure-either none m f r s = r
  IsSure-either (some a) m f r s = s a

  pub IsAtomic-either :
      (o : Option A) (m : Method B) (f : A → Method B)
      → IsAtomic m
      → ((a : A) → IsAtomic (f a))
      → IsAtomic (either o m f)
  unfolding either
  IsAtomic-either none m f r s = r
  IsAtomic-either (some a) m f r s = s a

pub IsReading-demand : (b : Bool) (e : Text) → IsReading (demand b e)
unfolding demand
IsReading-demand true e = IsReading-pure tt
IsReading-demand false e = IsReading-raise e

pub IsReading-arity : (argv : List Text) (n : ℕ) → IsReading (arity argv n)
unfolding arity
IsReading-arity argv n = IsReading-demand _ _

pub IsReading-exactly : (argv : List Text) (n : ℕ) → IsReading (exactly argv n)
unfolding exactly
IsReading-exactly argv n = IsReading-demand _ _

module _ (ctx : Ctx) where
  pub IsReading-admit : (key : Text) → IsReading (admit ctx key)
  unfolding admit admit_all
  IsReading-admit key = record {
    same = λ x.
        (IsReading-demand (admits_all ctx (key ∷ []) x.db) (too_many_keys ctx.max_keys)).same x;
  }

  pub IsReading-admit_all : (keys : List Text) → IsReading (admit_all ctx keys)
  unfolding admit_all
  IsReading-admit_all keys = record {
    same = λ x. (IsReading-demand (admits_all ctx keys x.db) (too_many_keys ctx.max_keys)).same x;
  }

  pub IsReading-room_for : (len adding : ℕ) → IsReading (room_for ctx len adding)
  unfolding room_for
  IsReading-room_for len adding = IsReading-demand _ _

  pub IsSure-touch : (key event : Text) → IsSure (touch ctx key event)
  unfolding touch
  IsSure-touch key event = IsSure-modify _

pub ruleset reading_rules = (
  IsReading-pure, IsReading-raise, IsReading-lift, IsReading-gets, IsReading-bind, IsReading-either,
  IsReading-if, IsReading-demand, IsReading-arity, IsReading-exactly, IsReading-admit,
  IsReading-admit_all, IsReading-room_for,
)

pub ruleset sure_rules = (
  IsSure-pure, IsSure-gets, IsSure-modify, IsSure-change, IsSure-bind, IsSure-either, IsSure-if,
  IsSure-touch,
)

pub ruleset atomic_rules = (
  reading_rules, sure_rules, IsAtomic-bind_reading, IsAtomic-bind_sure, IsAtomic-either,
  IsAtomic-if, IsAtomic-reading, IsAtomic-sure,
)
