-- ===== src/Glob/Matching.antt =====
-- What it means for a text to match a list of atoms, with no automaton in it.
use postino.Prelude.{ℕ, ◌≡◌, ◌≢◌, true, List, [], ◌∷◌}
use postino.Prelude.Text.{Text}
use postino.Glob.Atoms.{Atom, star, accepts}

pub data Matches : List Atom → Text → Type 0 where
  empty : Matches [] []
  step :
      {a : Atom} {xs : List Atom} {c : ℕ} {s : Text}
      → a ≢ star
      → accepts a c ≡ true
      → Matches xs s
      → Matches (a ∷ xs) (c ∷ s)
  leave : {xs : List Atom} {s : Text} → Matches xs s → Matches (star ∷ xs) s
  take : {xs : List Atom} {c : ℕ} {s : Text} → Matches (star ∷ xs) s → Matches (star ∷ xs) (c ∷ s)

-- No two stars stand side by side.
abbrev pub IsMerged : List Atom → Type 0
IsMerged [] = Unit
IsMerged (star ∷ star ∷ xs) = ⊥
IsMerged (a ∷ xs) = IsMerged xs
