-- ===== src/Glob/Automaton.antt =====
-- The automaton of a pattern: src/glob.rs, `Automaton`. Bit `i` of the state says that the first `i`
-- atoms have matched. Words are numbers below 2 ^ 64.
pub mod States
pub mod Words
pub mod Tables
pub mod Ascii
pub mod Correct
pub mod Run
use Prim.Native.Nat.{zero, suc, bit_and, bit_or}
use postino.Prelude.{
  ℕ, ◌+◌, ◌-◌, ◌*◌, ◌/◌, ◌%◌, ◌^◌, Bool, true, false, not, ◌&&◌, List, [], ◌∷◌, length, get_or, set,
  take, drop, replicate, ltb, leb, ◌==◌, if◌then◌else◌,
}
use postino.Prelude.Text.{Text, u64_size}
use postino.Glob.Atoms.{Atom, star, accepts}

pub record Automaton : Type 0 where
  pub atoms : List Atom
  pub words : ℕ
  pub stars : List ℕ
  pub ascii : List ℕ

-- `ws[k] |= bit`
unfoldable pub or_at : List ℕ → ℕ → ℕ → List ℕ
or_at ws k bit = set ws k (bit_or (get_or ws k 0) bit)

abbrev pub bit_of : ℕ → ℕ
bit_of i = 2 ^ (i % 64)

-- The characters from `c` on, `n` of them, that the atom accepts.
unfoldable pub mark_chars : ℕ → ℕ → Atom → ℕ → ℕ → List ℕ → List ℕ
unfolding or_at
mark_chars words i a zero c ascii = ascii
mark_chars words i a (suc n) c ascii =
    mark_chars words i a n (c + 1)
      (if accepts a c then or_at ascii (c * words + i / 64) (bit_of i) else ascii)

unfoldable pub is_star : Atom → Bool
is_star star = true
is_star _ = false

-- The loop of `new` over the atoms, from number `i` on: the stars, and the table of characters.
unfoldable pub build : ℕ → ℕ → List Atom → List ℕ → List ℕ → List ℕ × List ℕ
unfolding or_at is_star
build words i [] stars ascii = (stars, ascii)
build words i (a ∷ xs) stars ascii =
    build words (suc i) xs (if is_star a then or_at stars (i / 64) (bit_of i) else stars)
      (if is_star a then ascii else mark_chars words i a 128 0 ascii)

unfoldable pub new : List Atom → Automaton
unfolding build
new atoms =
    let words = length atoms / 64 + 1 in
    let (stars, ascii) = build words 0 atoms (replicate words 0) (replicate (128 * words) 0) in
    record { atoms = atoms; words = words; stars = stars; ascii = ascii }

abbrev pub shl_one : ℕ → ℕ
shl_one x = (x * 2) % u64_size

abbrev pub high_bit : ℕ → ℕ
high_bit x = x / 2 ^ 63

-- Adds the states that a star reaches by matching nothing.
unfoldable pub close : ℕ → List ℕ → List ℕ → List ℕ
close carry [] stars = []
close carry (w ∷ ws) [] = w ∷ ws
close carry (w ∷ ws) (s ∷ ss) =
    let starred = bit_and w s in
    bit_or w (bit_or (shl_one starred) carry) ∷ close (high_bit starred) ws ss

-- One character: the next state, and `live`, the union of its words.
unfoldable pub advance : ℕ → ℕ → List ℕ → List ℕ → List ℕ → List ℕ × ℕ
advance carry live (w ∷ ws) (a ∷ accepts) (s ∷ ss) =
    let advanced = bit_and w a in
    let next = bit_or (bit_or (shl_one advanced) carry) (bit_and w s) in
    let (rest, live') = advance (high_bit advanced) (bit_or live next) ws accepts ss in
    (next ∷ rest, live')
advance carry live _ _ _ = ([], live)

-- The mask of a character beyond ASCII.
unfoldable pub mask_loop : ℕ → ℕ → List Atom → List ℕ → List ℕ
unfolding or_at is_star
mask_loop c i [] mask = mask
mask_loop c i (a ∷ xs) mask =
    mask_loop c (suc i) xs
      (if not (is_star a) && accepts a c then or_at mask (i / 64) (bit_of i) else mask)

unfoldable pub accepting : Automaton → ℕ → List ℕ
unfolding mask_loop
accepting a c =
    if ltb c 128
    then take a.words (drop (c * a.words) a.ascii)
    else mask_loop c 0 a.atoms (replicate a.words 0)

unfoldable pub accepted : Automaton → List ℕ → Bool
accepted a state =
    let end = length a.atoms in not (bit_and (get_or state (end / 64) 0) (bit_of end) == 0)

unfoldable pub run_loop : Automaton → List ℕ → Text → Bool
unfolding advance close accepting accepted
run_loop a state [] = accepted a state
run_loop a state (c ∷ text) =
    let (next, live) = advance 0 0 state (accepting a c) a.stars in
    let rest = run_loop a (close 0 next a.stars) text in if live == 0 then false else rest

unfoldable pub run : Automaton → Text → List ℕ → Bool
unfolding run_loop close
run a text state = run_loop a (close 0 (set state 0 1) a.stars) text

abbrev pub stack_words : ℕ
stack_words = 8

unfoldable pub matches : Automaton → Text → Bool
unfolding run
matches a text =
    if leb a.words stack_words
    then run a text (take a.words (replicate stack_words 0))
    else run a text (replicate a.words 0)
