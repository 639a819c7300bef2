-- ===== src/Prelude/Results.antt =====
-- `?` on a `Result`: what follows is done only if there was no error.
use mathlib.Core.Path.{◌≡◌, refl}
use mathlib.Core.Bool.{Bool, true, false}
use postino.Prelude.Text.{Text, Result, ok, err}

-- `if !test { return Err(message) }`
abbrev pub guard : Bool → Text → Result (Unit {0})
guard false message = err message
guard true message = ok tt

module _ {ℓ κ} {A : Type ℓ} {B : Type κ} where
  infixl 5 ◌>>=◌
  abbrev pub ◌>>=◌ : Result A → (A → Result B) → Result B
  err message >>= next = err message
  ok value >>= next = next value

  -- What succeeded when a chain did.
  pub bind-ok :
      (first : Result A) (next : A → Result B) {last : B}
      → (first >>= next) ≡ ok last
      → (value : A) × (first ≡ ok value) × (next value ≡ ok last)
  bind-ok (err message) next e = cc
  bind-ok (ok value) next e = (value, refl, e)

module _ {ℓ} {B : Type ℓ} where
  infixl 5 ◌>>◌
  abbrev pub ◌>>◌ : Result (Unit {0}) → Result B → Result B
  check >> next = check >>= λ _. next

  abbrev pub is_ok : Result B → Bool
  is_ok (err message) = false
  is_ok (ok value) = true
