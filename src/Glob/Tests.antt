-- ===== src/Glob/Tests.antt =====
-- Runs of src/glob.rs, among them those of its own tests.
use postino.Prelude.{◌≡◌, ◌↔◌, refl, true, none, some, List, [], ◌∷◌, arith}
use postino.Prelude.Text.{Text, codes}
use postino.Glob.Atoms.{
  accepts, Atom, star, char, set, atoms, atoms_loop, next_atom, class, class_loop, low, span,
  negated, skip_one, escaped, push_star, ends_in_star,
}
use postino.Glob.Atoms.Parsing.{atoms-enough, atoms-IsMerged}
use postino.Glob.Matching.{Matches, IsMerged}
use postino.Glob.{new, matches}
use postino.Glob.Automaton
use postino.Glob.Automaton.Run.{matches-Matches}
use postino.Glob.Prefix.{literal_prefix, literal_prefix-starts_with}
use postino.Prelude.Search.{starts_with}
use postino.Glob.Laws.{matches_iff}

abbrev pattern : Text
pattern = codes "a**[^x]"

parsed : atoms pattern ≡ some (char b'a' ∷ star ∷ set true ((b'x', b'x') ∷ []) ∷ [])
unfolding atoms atoms_loop next_atom class class_loop low span negated skip_one escaped push_star
    ends_in_star
parsed = refl

unclosed : atoms (codes "[a-") ≡ none
unfolding atoms atoms_loop next_atom class class_loop low span negated skip_one escaped push_star
    ends_in_star
unclosed = refl

abbrev middle : List Atom
middle = char b'a' ∷ star ∷ char b'b' ∷ []

matches_iff_example :
    (matches (new pattern) (codes "abc") ≡ true)
    ↔ ((xs : List Atom) × (atoms pattern ≡ some xs) × Matches xs (codes "abc"))
matches_iff_example = matches_iff pattern (codes "abc")

matches-Matches_example :
    (Automaton.matches (Automaton.new middle) (codes "axb") ≡ true) ↔ Matches middle (codes "axb")
matches-Matches_example = matches-Matches middle (codes "axb") tt

atoms-enough_example : atoms_loop 20 [] pattern ≡ atoms pattern
atoms-enough_example = atoms-enough pattern 20 (omega arith)

atoms-IsMerged_example : IsMerged (char b'a' ∷ star ∷ set true ((b'x', b'x') ∷ []) ∷ [])
atoms-IsMerged_example =
    atoms-IsMerged pattern (char b'a' ∷ star ∷ set true ((b'x', b'x') ∷ []) ∷ []) parsed

pattern_text : matches (new pattern) (codes "abc") ≡ true
unfolding matches new atoms atoms_loop next_atom class class_loop low span negated skip_one escaped
    push_star ends_in_star Automaton.new Automaton.mark_chars accepts
pattern_text = refl

literal_prefix-starts_with_example : starts_with (literal_prefix pattern) (codes "abc") ≡ true
literal_prefix-starts_with_example = literal_prefix-starts_with pattern (codes "abc") pattern_text
