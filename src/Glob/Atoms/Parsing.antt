-- ===== src/Glob/Atoms/Parsing.antt =====
-- What `atoms` of src/glob.rs gives, and that its loops never run out of fuel.
use Prim.Native.Nat.{zero, suc}
use postino.Prelude.{
  ℕ, ◌≤◌, ◌<◌, ◌≡◌, ◌≢◌, refl, ap, subst, Bool, true, false, not, ◌&&◌, Option, none, some, List,
  [], ◌∷◌, ◌++◌, arith, length, ◌==◌, if◌then◌else◌, Bool-cases, Option-cases, inl, inr,
}
use postino.Prelude.Text.{Text}
use postino.Glob.Atoms.{
  Atom, star, one, char, set, Range, low, span, class_loop, negated, skip_one, class, ends_in_star,
  push_star, escaped, next_atom, atoms_loop, atoms, backslash,
}
use postino.Glob.Matching.{IsMerged}

snoc-IsMerged : (out : List Atom) (a : Atom) → a ≢ star → IsMerged out → IsMerged (out ++ a ∷ [])
snoc-IsMerged [] star n m = absurd (n refl)
snoc-IsMerged [] one n m = tt
snoc-IsMerged [] (char c) n m = tt
snoc-IsMerged [] (set b r) n m = tt
snoc-IsMerged (star ∷ []) a n m = after_star a n
  where
    after_star : (a : Atom) → a ≢ star → IsMerged (star ∷ a ∷ [])
    after_star star n = absurd (n refl)
    after_star one n = tt
    after_star (char c) n = tt
    after_star (set b r) n = tt
snoc-IsMerged (star ∷ star ∷ out) a n m = absurd m
snoc-IsMerged (star ∷ one ∷ out) a n m = snoc-IsMerged (one ∷ out) a n m
snoc-IsMerged (star ∷ char c ∷ out) a n m = snoc-IsMerged (char c ∷ out) a n m
snoc-IsMerged (star ∷ set b r ∷ out) a n m = snoc-IsMerged (set b r ∷ out) a n m
snoc-IsMerged (one ∷ out) a n m = snoc-IsMerged out a n m
snoc-IsMerged (char c ∷ out) a n m = snoc-IsMerged out a n m
snoc-IsMerged (set b r ∷ out) a n m = snoc-IsMerged out a n m

snoc_star-IsMerged :
    (out : List Atom) → ends_in_star out ≡ false → IsMerged out → IsMerged (out ++ star ∷ [])
unfolding ends_in_star
snoc_star-IsMerged [] e m = tt
snoc_star-IsMerged (star ∷ []) e m = cc
snoc_star-IsMerged (star ∷ star ∷ out) e m = absurd m
snoc_star-IsMerged (star ∷ one ∷ out) e m = snoc_star-IsMerged (one ∷ out) e m
snoc_star-IsMerged (star ∷ char c ∷ out) e m = snoc_star-IsMerged (char c ∷ out) e m
snoc_star-IsMerged (star ∷ set b r ∷ out) e m = snoc_star-IsMerged (set b r ∷ out) e m
snoc_star-IsMerged (one ∷ []) e m = tt
snoc_star-IsMerged (one ∷ b ∷ out) e m = snoc_star-IsMerged (b ∷ out) e m
snoc_star-IsMerged (char c ∷ []) e m = tt
snoc_star-IsMerged (char c ∷ b ∷ out) e m = snoc_star-IsMerged (b ∷ out) e m
snoc_star-IsMerged (set n r ∷ []) e m = tt
snoc_star-IsMerged (set n r ∷ b ∷ out) e m = snoc_star-IsMerged (b ∷ out) e m

push_star-IsMerged : (out : List Atom) → IsMerged out → IsMerged (push_star out)
unfolding push_star
push_star-IsMerged out m = elim (Bool-cases (ends_in_star out)) [
  | inl t ↦ rw t m
  | inr n ↦ rw n (snoc_star-IsMerged out n m)
]

escaped-char : (c : ℕ) (p : Text) → (x : ℕ) × ((escaped c p).0 ≡ char x)
unfolding escaped
escaped-char c [] = (c, refl)
escaped-char c (d ∷ p) = elim (Bool-cases (c == backslash)) [
  | inl t ↦ (d, rw t refl)
  | inr n ↦ (c, rw n refl)
]

low-shorter : (c : ℕ) (p : Text) → length (low c p).1 ≤ length p
unfolding low
low-shorter c [] = omega arith
low-shorter c (d ∷ p) = ground arith

span-shorter : (c : ℕ) (p : Text) → length (span c p).1 ≤ length p
unfolding span
span-shorter c [] = omega arith
span-shorter c (d ∷ []) = omega arith
span-shorter c (d ∷ e ∷ p) = ground arith

escaped-shorter : (c : ℕ) (p : Text) → length (escaped c p).1 ≤ length p
unfolding escaped
escaped-shorter c [] = omega arith
escaped-shorter c (d ∷ p) = ground arith

item_shorter : (c : ℕ) (p : Text) → length (span (low c p).0 (low c p).1).1 ≤ length p
item_shorter c p = omega (arith, low-shorter c p, span-shorter (low c p).0 (low c p).1)

skip_shorter : (p : Text) → length (if negated p then skip_one p else p) ≤ length p
unfolding negated skip_one
skip_shorter [] = omega arith
skip_shorter (c ∷ p) = ground arith

class_loop-shorter :
    (f : ℕ) (first : Bool) (ranges : List Range) (p : Text) (r : List Range × Text)
    → class_loop f first ranges p ≡ some r
    → length r.1 ≤ length p
unfolding class_loop
class_loop-shorter zero first ranges p r e = cc
class_loop-shorter (suc f) first ranges [] r e = cc
class_loop-shorter (suc f) first ranges (c ∷ p) r e =
    let (lo, rest) = low c p in
    ground (
      arith,
      item_shorter c p,
      class_loop-shorter f false (ranges ++ (span (low c p).0 (low c p).1).0 ∷ [])
          (span (low c p).0 (low c p).1).1 r,
    )

pub class_loop-enough :
    (f g : ℕ) (first : Bool) (ranges : List Range) (p : Text)
    → length p < f
    → length p < g
    → class_loop f first ranges p ≡ class_loop g first ranges p
unfolding class_loop
class_loop-enough zero g first ranges p h k = absurd (omega arith)
class_loop-enough (suc f) zero first ranges p h k = absurd (omega arith)
class_loop-enough (suc f) (suc g) first ranges [] h k = refl
class_loop-enough (suc f) (suc g) first ranges (c ∷ p) h k =
    let s = item_shorter c p in
    ap (λ more. if (c == b']') && not first then some (ranges, p) else more)
      (class_loop-enough f g false (ranges ++ (span (low c p).0 (low c p).1).0 ∷ [])
        (span (low c p).0 (low c p).1).1 (omega arith) (omega arith))

-- An atom that is not a star, and a rest that is no longer.
abbrev IsItem : Text → Option (Atom × Text) → Type 0
IsItem p none = Unit
IsItem p (some (a, rest)) = (a ≢ star) × (length rest ≤ length p)

class-IsItem : (p : Text) → IsItem p (class p)
unfolding class
class-IsItem p =
    let q = if negated p then skip_one p else p in
    elim (Option-cases (class_loop (suc (length q)) true [] q)) [
      | inl e ↦ rw e tt
      | inr (r, e) ↦ rw e (
        λ h. cc,
        omega (arith, skip_shorter p, class_loop-shorter (suc (length q)) true [] q r e),
      )
    ]

next_atom-IsItem : (c : ℕ) (p : Text) → IsItem p (next_atom c p)
unfolding next_atom
next_atom-IsItem c p = elim (Bool-cases (c == b'?')) [
  | inl t ↦ rw t (λ h. cc, omega arith)
  | inr n ↦ rw n (elim (Bool-cases (c == b'[')) [
    | inl t ↦ rw t (class-IsItem p)
    | inr m ↦ let (x, e) = escaped-char c p in rw m (λ h. cc, escaped-shorter c p)
  ])
]

next_atom-some :
    (c : ℕ) (p : Text) (a : Atom) (rest : Text)
    → next_atom c p ≡ some (a, rest)
    → (a ≢ star) × (length rest ≤ length p)
next_atom-some c p a rest e = subst (IsItem p) e (next_atom-IsItem c p)

atoms_loop-IsMerged :
    (f : ℕ) (out : List Atom) (p : Text) (xs : List Atom)
    → IsMerged out
    → atoms_loop f out p ≡ some xs
    → IsMerged xs
unfolding atoms_loop
atoms_loop-IsMerged zero out [] xs m e = subst IsMerged {x = out} {y = xs} (ground arith) m
atoms_loop-IsMerged (suc f) out [] xs m e = subst IsMerged {x = out} {y = xs} (ground arith) m
atoms_loop-IsMerged zero out (c ∷ p) xs m e = cc
atoms_loop-IsMerged (suc f) out (c ∷ p) xs m e = elim (Bool-cases (c == b'*')) [
  | inl t ↦ atoms_loop-IsMerged f (push_star out) p xs (push_star-IsMerged out m) (ground arith)
  | inr n ↦ elim (Option-cases (next_atom c p)) [
    | inl nothing ↦ absurd (ground arith)
    | inr ((a, rest), item) ↦
        let (not_star, _) = next_atom-some c p a rest item in
        atoms_loop-IsMerged f (out ++ a ∷ []) rest xs (snoc-IsMerged out a not_star m)
          (ground arith)
  ]
]

-- If a pattern has atoms, no two stars stand side by side among them.
pub atoms-IsMerged : (p : Text) (xs : List Atom) → atoms p ≡ some xs → IsMerged xs
unfolding atoms
atoms-IsMerged p xs e = atoms_loop-IsMerged (length p) [] p xs tt e

atoms_loop-enough :
    (f g : ℕ) (out : List Atom) (p : Text)
    → length p ≤ f
    → length p ≤ g
    → atoms_loop f out p ≡ atoms_loop g out p
unfolding atoms_loop
atoms_loop-enough zero zero out [] h k = refl
atoms_loop-enough zero (suc g) out [] h k = refl
atoms_loop-enough (suc f) zero out [] h k = refl
atoms_loop-enough (suc f) (suc g) out [] h k = refl
atoms_loop-enough zero g out (c ∷ p) h k = absurd (omega arith)
atoms_loop-enough (suc f) zero out (c ∷ p) h k = absurd (omega arith)
atoms_loop-enough (suc f) (suc g) out (c ∷ p) h k = elim (Bool-cases (c == b'*')) [
  | inl t ↦ rw t (atoms_loop-enough f g (push_star out) p (omega arith) (omega arith))
  | inr n ↦ rw n (elim (Option-cases (next_atom c p)) [
    | inl nothing ↦ rw nothing refl
    | inr ((a, rest), item) ↦
        let (_, shorter) = next_atom-some c p a rest item in
        rw item (atoms_loop-enough f g (out ++ a ∷ []) rest (omega arith) (omega arith))
  ])
]

-- The loop of `atoms` gives the same result on every fuel that is at least the pattern's length.
pub atoms-enough : (p : Text) (f : ℕ) → length p ≤ f → atoms_loop f [] p ≡ atoms p
unfolding atoms
atoms-enough p f h = atoms_loop-enough f (length p) [] p h (omega arith)
