-- ===== src/Glob/Literals.antt =====
-- What lists of atoms that the compiler of src/glob.rs treats specially match.
use Prim.Native.Nat.{suc}
use postino.Prelude.{
  ℕ, ◌-◌, ◌≤◌, ◌≡◌, ◌↔◌, ◌∙◌, refl, sym, ap, subst, true, some, List, [], ◌∷◌, ◌++◌, arith, length,
  take, drop, Option-cases, inl, inr,
}
use postino.Prelude.Text.{Text}
use postino.Glob.Atoms.{Atom, star, one, char, set, accepts}
use postino.Glob.Matching.{Matches, empty, step, leave, IsMerged}
use postino.Glob.Matching
use postino.Glob.{literal, is_star, first, last}

pub star-Matches :
    (xs : List Atom) (t : Text)
    → Matches (star ∷ xs) t ↔ ((u : Text) × (v : Text) × (t ≡ u ++ v) × Matches xs v)
star-Matches xs t = (to t, λ (u, v, e, d). subst (Matches (star ∷ xs)) (sym e) (from u v d))
  where
    to : (t : Text) → Matches (star ∷ xs) t → (u : Text) × (v : Text) × (t ≡ u ++ v) × Matches xs v
    to _ (step n p d) = absurd (n refl)
    to t (leave d) = ([], t, refl, d)
    to _ (Matching.take {c = c} d) = let (u, v, e, r) = to _ d in (c ∷ u, v, ap (◌∷◌ c) e, r)

    from : (u v : Text) → Matches xs v → Matches (star ∷ xs) (u ++ v)
    from [] v d = leave d
    from (c ∷ u) v d = Matching.take (from u v d)

pub char-Matches :
    (x : ℕ) (xs : List Atom) (t : Text)
    → Matches (char x ∷ xs) t ↔ ((v : Text) × (t ≡ x ∷ v) × Matches xs v)
unfolding accepts
char-Matches x xs t =
    (to t, λ (v, e, d). subst (Matches (char x ∷ xs)) (sym e) (step (λ h. cc) (ground arith) d))
  where
    to : (t : Text) → Matches (char x ∷ xs) t → (v : Text) × (t ≡ x ∷ v) × Matches xs v
    to _ (step {c = c} {s = v} n p d) = (v, ground arith, d)

abbrev pub chars : Text → List Atom
chars [] = []
chars (c ∷ s) = char c ∷ chars s

pub literal-chars : (xs : List Atom) (s : Text) → literal xs ≡ some s → xs ≡ chars s
unfolding literal
literal-chars [] [] e = refl
literal-chars [] (c ∷ s) e = cc
literal-chars (star ∷ xs) s e = cc
literal-chars (one ∷ xs) s e = cc
literal-chars (set b r ∷ xs) s e = cc
literal-chars (char c ∷ xs) s e = elim (Option-cases (literal xs)) [
  | inl nothing ↦ absurd (ground arith)
  | inr (r, there) ↦
      let e' : some (c ∷ r) ≡ some s = ground arith in
      let e'' : c ∷ r ≡ s = ground arith in
      ap (◌∷◌ (char c)) (literal-chars xs r there) ∙ ap chars e''
]

-- Characters, then other atoms.
pub chars-Matches :
    (s : Text) (zs : List Atom) (t : Text)
    → Matches (chars s ++ zs) t ↔ ((v : Text) × (t ≡ s ++ v) × Matches zs v)
chars-Matches [] zs t = (λ d. (t, refl, d), λ (v, e, d). subst (Matches zs) (sym e) d)
chars-Matches (c ∷ s) zs t =
    let head = char-Matches c (chars s ++ zs) in
    let tail = chars-Matches s zs in
    (
      λ d.
          let (u, e, d') = (head t).0 d in
          let (v, e', d'') = (tail u).0 d' in (v, e ∙ ap (◌∷◌ c) e', d''),
      λ (v, e, d). (head t).1 (s ++ v, e, (tail (s ++ v)).1 (v, refl, d)),
    )

pub nothing-Matches : (t : Text) → Matches [] t ↔ (t ≡ [])
nothing-Matches t = (to t, λ e. subst (Matches []) (sym e) empty)
  where
    to : (t : Text) → Matches [] t → t ≡ []
    to _ empty = refl

pub star_only-Matches : (t : Text) → Matches (star ∷ []) t
star_only-Matches [] = leave empty
star_only-Matches (c ∷ t) = Matching.take (star_only-Matches t)

pub is_star-first : (xs : List Atom) → is_star (first xs) ≡ true → xs ≡ star ∷ drop 1 xs
unfolding is_star first
is_star-first [] e = cc
is_star-first (star ∷ xs) e = refl
is_star-first (one ∷ xs) e = cc
is_star-first (char c ∷ xs) e = cc
is_star-first (set b r ∷ xs) e = cc

pub is_star-last :
    (xs : List Atom) → is_star (last xs) ≡ true → xs ≡ take (length xs - 1) xs ++ star ∷ []
unfolding is_star last
is_star-last [] e = cc
is_star-last (star ∷ []) e = refl
is_star-last (one ∷ []) e = cc
is_star-last (char c ∷ []) e = cc
is_star-last (set b r ∷ []) e = cc
is_star-last (a ∷ b ∷ xs) e =
    let n : suc (suc (length xs)) - 1 ≡ suc (suc (length xs) - 1) = omega arith in
    rw n (ap (◌∷◌ a) (is_star-last (b ∷ xs) e))

pub between_stars :
    (xs : List Atom)
    → 2 ≤ length xs
    → is_star (first xs) ≡ true
    → is_star (last xs) ≡ true
    → xs ≡ star ∷ (drop 1 (take (length xs - 1) xs) ++ star ∷ [])
unfolding is_star first last
between_stars [] n h l = cc
between_stars (a ∷ []) n h l = absurd (omega arith)
between_stars (one ∷ b ∷ xs) n h l = cc
between_stars (char c ∷ b ∷ xs) n h l = cc
between_stars (set m r ∷ b ∷ xs) n h l = cc
between_stars (star ∷ b ∷ xs) n h l =
    let e : suc (suc (length xs)) - 1 ≡ suc (suc (length xs) - 1) = omega arith in
    rw e (ap (◌∷◌ star) (is_star-last (b ∷ xs) l))

pub take_all : (xs : List Atom) → take (length xs - 0) xs ≡ xs
take_all [] = refl
take_all (x ∷ xs) =
    let e : suc (length xs) - 0 ≡ suc (length xs - 0) = omega arith in
    rw e (ap (◌∷◌ x) (take_all xs))
