-- ===== src/Glob/Prefix.antt =====
-- The text that every match of a pattern starts with: src/db.rs, `literal_prefix`.
use Prim.Native.Nat.{zero, suc}
use postino.Prelude.{
  ℕ, ◌≡◌, ◌∙◌, sym, ap, subst, Bool, true, false, ◌||◌, some, List, [], ◌∷◌, ◌++◌, arith, length,
  ◌==◌, if◌then◌else◌, Bool-cases, Option-cases, inl, inr, append_assoc, append-nil,
}
use postino.Prelude.Text.{Text}
use postino.Prelude.Search.{starts_with, starts_with_iff}
use postino.Glob.Atoms.{
  Atom, star, char, backslash, push_star, escaped, next_atom, atoms_loop, atoms, ends_in_star,
}
use postino.Glob.Matching.{Matches}
use postino.Glob.Literals.{chars, chars-Matches}
use postino.Glob.Laws.{matches_iff}
use postino.Glob.{new, matches}

abbrev is_special : ℕ → Bool
is_special c = (c == b'*') || ((c == b'?') || ((c == b'[') || (c == backslash)))

unfoldable pub literal_prefix : Text → Text
literal_prefix [] = []
literal_prefix (c ∷ p) = if is_special c then [] else c ∷ literal_prefix p

-- The list begins with what another holds.
abbrev Extends : List Atom → List Atom → Type 0
Extends out xs = (ys : List Atom) × (xs ≡ out ++ ys)

push_star-Extends : (out xs : List Atom) → Extends (push_star out) xs → Extends out xs
unfolding push_star
push_star-Extends out xs = elim (Bool-cases (ends_in_star out)) [
  | inl t ↦ rw t (λ h. h)
  | inr n ↦ rw n (λ (ys, e). (star ∷ ys, e ∙ append_assoc out (star ∷ []) ys))
]

snoc-Extends : (out xs : List Atom) (a : Atom) → Extends (out ++ a ∷ []) xs → Extends out xs
snoc-Extends out xs a (ys, e) = (a ∷ ys, e ∙ append_assoc out (a ∷ []) ys)

atoms_loop-Extends :
    (f : ℕ) (out : List Atom) (p : Text) (xs : List Atom)
    → atoms_loop f out p ≡ some xs
    → Extends out xs
unfolding atoms_loop
atoms_loop-Extends zero out [] xs e = ([], ground arith ∙ sym (append-nil out))
atoms_loop-Extends (suc f) out [] xs e = ([], ground arith ∙ sym (append-nil out))
atoms_loop-Extends zero out (c ∷ p) xs e = cc
atoms_loop-Extends (suc f) out (c ∷ p) xs e = elim (Bool-cases (c == b'*')) [
  | inl t ↦ push_star-Extends out xs (atoms_loop-Extends f (push_star out) p xs (ground arith))
  | inr n ↦ elim (Option-cases (next_atom c p)) [
    | inl nothing ↦ absurd (ground arith)
    | inr ((a, rest), item) ↦
        snoc-Extends out xs a (atoms_loop-Extends f (out ++ a ∷ []) rest xs (ground arith))
  ]
]

plain_next : (c : ℕ) (p : Text) → is_special c ≡ false → next_atom c p ≡ some (char c, p)
unfolding next_atom escaped
plain_next c [] h = ground arith
plain_next c (d ∷ p) h = ground arith

atoms_loop-literal :
    (f : ℕ) (out : List Atom) (p : Text) (xs : List Atom)
    → atoms_loop f out p ≡ some xs
    → Extends (out ++ chars (literal_prefix p)) xs
unfolding atoms_loop literal_prefix
atoms_loop-literal f out [] xs e = rw (append-nil out) (atoms_loop-Extends f out [] xs e)
atoms_loop-literal zero out (c ∷ p) xs e = cc
atoms_loop-literal (suc f) out (c ∷ p) xs e = elim (Bool-cases (is_special c)) [
  | inl t ↦ rw (t, append-nil out) (atoms_loop-Extends (suc f) out (c ∷ p) xs e)
  | inr n ↦
      let next = plain_next c p n in
      let (ys, q) = atoms_loop-literal f (out ++ char c ∷ []) p xs (ground (arith, next)) in
      rw n (ys, q ∙ ap (λ zs. zs ++ ys) (append_assoc out (char c ∷ []) (chars (literal_prefix p))))
]

-- Each text that a pattern matches starts with what stands before the pattern's first wildcard, class
-- or escape.
pub literal_prefix-starts_with :
    (p t : Text) → matches (new p) t ≡ true → starts_with (literal_prefix p) t ≡ true
unfolding atoms
literal_prefix-starts_with p t h =
    let (xs, e, d) = (matches_iff p t).0 h in
    let (ys, q) = atoms_loop-literal (length p) [] p xs e in
    let (v, r, _) = (chars-Matches (literal_prefix p) ys t).0 (subst (λ zs. Matches zs t) q d) in
    (starts_with_iff (literal_prefix p) t).1 (v, r)
