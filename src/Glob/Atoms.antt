-- ===== src/Glob/Atoms.antt =====
-- The atoms of a pattern: src/glob.rs, `Atom`, `atoms` and `class`. A position in the pattern is the
-- text that is left from there.
pub mod Parsing
use Prim.Native.Nat.{zero, suc}
use postino.Prelude.{
  ℕ, Bool, true, false, not, ◌&&◌, ◌||◌, Option, none, some, List, [], ◌∷◌, ◌++◌, length, leb, ◌==◌,
  if◌then◌else◌, any,
}
use postino.Prelude.Text.{Text, ◌>>=◌}

abbrev pub Range : Type 0
Range = ℕ × ℕ

pub data Atom : Type 0 where
  star one : Atom
  char : ℕ → Atom
  set : Bool → List Range → Atom

abbrev pub backslash : ℕ
backslash = 92

abbrev pub in_range : ℕ → Range → Bool
in_range c r = leb r.0 c && leb c r.1

unfoldable pub accepts : Atom → ℕ → Bool
accepts star c = true
accepts one c = true
accepts (char x) c = x == c
accepts (set negate ranges) c =
    if negate then not (any (in_range c) ranges) else any (in_range c) ranges

-- The first character of a class's next item, and what follows it.
unfoldable pub low : ℕ → Text → ℕ × Text
low c [] = (c, [])
low c (d ∷ p) = if c == backslash then (d, p) else (c, d ∷ p)

abbrev ordered : ℕ → ℕ → Range
ordered lo hi = if leb lo hi then (lo, hi) else (hi, lo)

unfoldable pub span : ℕ → Text → Range × Text
span lo (dash ∷ hi ∷ p) =
    if (dash == b'-') && not (hi == b']') then (ordered lo hi, p) else ((lo, lo), dash ∷ hi ∷ p)
span lo (d ∷ []) = ((lo, lo), d ∷ [])
span lo [] = ((lo, lo), [])

-- The loop of `class`, on fuel.
unfoldable pub class_loop : ℕ → Bool → List Range → Text → Option (List Range × Text)
unfolding low span
class_loop zero first ranges p = none
class_loop (suc f) first ranges [] = none
class_loop (suc f) first ranges (c ∷ p) =
    let (lo, rest) = low c p in
    let (range, rest') = span lo rest in
    let more = class_loop f false (ranges ++ range ∷ []) rest' in
    if (c == b']') && not first then some (ranges, p) else more

unfoldable pub negated : Text → Bool
negated [] = false
negated (c ∷ _) = c == b'^'

unfoldable pub skip_one : Text → Text
skip_one [] = []
skip_one (_ ∷ p) = p

-- The class after an opening bracket, and where the pattern goes on.
unfoldable pub class : Text → Option (Atom × Text)
unfolding class_loop negated skip_one
class p = do
  let rest = if negated p then skip_one p else p
  (ranges, next) ← class_loop (suc (length rest)) true [] rest
  some (set (negated p) ranges, next)

unfoldable pub ends_in_star : List Atom → Bool
ends_in_star [] = false
ends_in_star (star ∷ []) = true
ends_in_star (_ ∷ []) = false
ends_in_star (_ ∷ b ∷ xs) = ends_in_star (b ∷ xs)

unfoldable pub push_star : List Atom → List Atom
unfolding ends_in_star
push_star out = if ends_in_star out then out else out ++ star ∷ []

unfoldable pub escaped : ℕ → Text → Atom × Text
escaped c [] = (char c, [])
escaped c (d ∷ p) = if c == backslash then (char d, p) else (char c, d ∷ p)

-- The atom at a character other than `*`, and what follows it.
unfoldable pub next_atom : ℕ → Text → Option (Atom × Text)
unfolding class escaped
next_atom c p =
    if c == b'?' then some (one, p) else if c == b'[' then class p else some (escaped c p)

-- The loop of `atoms`, on fuel.
unfoldable pub atoms_loop : ℕ → List Atom → Text → Option (List Atom)
unfolding next_atom push_star
atoms_loop f out [] = some out
atoms_loop zero out (c ∷ p) = none
atoms_loop (suc f) out (c ∷ p) =
    let after_star = atoms_loop f (push_star out) p in
    let other = (do (a, rest) ← next_atom c p; atoms_loop f (out ++ a ∷ []) rest) in
    if c == b'*' then after_star else other

unfoldable pub atoms : Text → Option (List Atom)
unfolding atoms_loop
atoms pattern = atoms_loop (length pattern) [] pattern
