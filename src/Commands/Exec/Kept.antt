-- ===== src/Commands/Exec/Kept.antt =====
-- Methods that fail or not by what they have read, and change nothing where they fail.
use postino.Prelude.{◌≡◌, ◌≢◌, refl, Bool, true, false, if◌then◌else◌}
use postino.Prelude.Text.{Text, err}
use postino.Commands.Exec.{Exec, Method, pure, raise, gets, demand, ◌>>=◌}
use postino.Commands.Exec.Refusals.{Same, Same-refl}

-- A method that changes nothing where it answers with an error, at one state.
pub record KeptAt {A : Type 0} (x : Exec) (m : Method A) : Type 0 where
  pub kept : (e : Text) → (m x).0 ≡ err e → Same x (m x).1

module _ {A : Type 0} (x : Exec) where
  pub KeptAt-pure : (a : A) → KeptAt x (pure a)
  unfolding pure
  KeptAt-pure a = record { kept = λ e h. Same-refl x }

  pub KeptAt-demand :
      (b : Bool) (e : Text) (m : Method A)
      → (b ≡ true → KeptAt x m)
      → KeptAt x (demand b e >>= λ _. m)
  unfolding demand raise pure ◌>>=◌
  KeptAt-demand true e m h = record { kept = (h refl).kept }
  KeptAt-demand false e m h = record { kept = λ t r. Same-refl x }

  pub KeptAt-if :
      (b : Bool) (m n : Method A) → KeptAt x m → KeptAt x n → KeptAt x (if b then m else n)
  KeptAt-if true m n g h = g
  KeptAt-if false m n g h = h

  pub KeptAt-gets :
      {B : Type 0} (f : Exec → B) (k : B → Method A) → KeptAt x (k (f x)) → KeptAt x (gets f >>= k)
  unfolding gets ◌>>=◌
  KeptAt-gets f k h = record { kept = h.kept }

  pub KeptAt-sure : (m : Method A) → ((e : Text) → (m x).0 ≢ err e) → KeptAt x m
  KeptAt-sure m s = record { kept = λ e h. absurd (s e h) }

pub ruleset kept_rules = (KeptAt-pure, KeptAt-demand, KeptAt-if, KeptAt-gets)
