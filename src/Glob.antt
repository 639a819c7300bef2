-- ===== src/Glob.antt =====
-- src/glob.rs: glob patterns, compiled once and matched in time linear in the text.
pub mod Atoms
pub mod Matching
pub mod Automaton
pub mod Literals
pub mod Laws
pub mod Prefix
mod Tests
use postino.Prelude.{
  ℕ, ◌+◌, ◌-◌, ◌≡◌, Bool, true, false, not, ◌&&◌, ◌||◌, Option, none, some, List, [], ◌∷◌, ◌++◌,
  length, take, drop, ltb, leb, ◌==◌, if◌then◌else◌,
}
use postino.Prelude.Text.{Text, Result, ok, err, codes, utf8_len}
use postino.Prelude.Order.{key_eq, text_order}
use postino.Prelude.Search.{starts_with, ends_with, has}
use Atoms.{Atom, star, one, char, set, atoms}
use Automaton.{Automaton as Machine}

abbrev pub max_pattern : ℕ
max_pattern = 256

pub data Kind : Type 0 where
  any : Kind
  exact prefix suffix contains : Text → Kind
  never : Kind
  automaton : Machine → Kind

pub record Glob : Type 0 where
  pub source : Text
  pub kind : Kind

-- `literal`: the characters, if every atom is one.
unfoldable pub literal : List Atom → Option Text
literal [] = some []
literal (char c ∷ xs) = elim (literal xs) [ none ↦ none | some s ↦ some (c ∷ s) ]
literal (_ ∷ xs) = none

unfoldable pub is_star : Option Atom → Bool
is_star (some star) = true
is_star _ = false

-- `atoms.first()` and `atoms.last()`
unfoldable pub first : List Atom → Option Atom
first [] = none
first (a ∷ _) = some a

unfoldable pub last : List Atom → Option Atom
last [] = none
last (a ∷ []) = some a
last (_ ∷ b ∷ xs) = last (b ∷ xs)

-- The atoms between a star in front and a star behind, where there are such.
unfoldable pub inner : Bool → Bool → List Atom → List Atom
inner head tail xs =
    let i : ℕ = if head then 1 else 0 in
    let j : ℕ = if tail then 1 else 0 in drop i (take (length xs - j) xs)

unfoldable pub trimmed : Bool → Bool → Text → List Atom → Kind
trimmed false true s xs = prefix s
trimmed true false s xs = suffix s
trimmed true true s xs = contains s
trimmed false false s xs = automaton (Automaton.new xs)

unfoldable pub classify : List Atom → Kind
unfolding literal is_star first last inner trimmed
classify xs = if (length xs == 1) && is_star (first xs) then any else elim (literal xs) [
  | some s ↦ exact s
  | none ↦
      if leb 2 (length xs)
      then elim (literal (inner (is_star (first xs)) (is_star (last xs)) xs)) [
        | some s ↦ trimmed (is_star (first xs)) (is_star (last xs)) s xs
        | none ↦ automaton (Automaton.new xs)
      ]
      else automaton (Automaton.new xs)
]

unfoldable pub new : Text → Glob
unfolding atoms classify
new pattern = elim (atoms pattern) [
  | none ↦ record { source = pattern; kind = never }
  | some xs ↦ record { source = pattern; kind = classify xs }
]

-- A client's pattern.
unfoldable pub client : Text → Result Glob
unfolding new
client pattern =
    if ltb max_pattern (utf8_len pattern)
    then err (codes "ERR patterns are at most 256 bytes long")
    else ok (new pattern)

unfoldable pub matches_kind : Kind → Text → Bool
unfolding starts_with ends_with has Automaton.matches
matches_kind any text = true
matches_kind (exact s) text = key_eq text s
matches_kind (prefix s) text = starts_with s text
matches_kind (suffix s) text = ends_with s text
matches_kind (contains s) text = has s text
matches_kind never text = false
matches_kind (automaton a) text = Automaton.matches a text

unfoldable pub matches : Glob → Text → Bool
unfolding matches_kind
matches g text = matches_kind g.kind text
