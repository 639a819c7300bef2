-- ===== src/Glob/Automaton/States.antt =====
-- Sets of states of an automaton and what they say of the text that is left.
use Prim.Native.Nat.{zero, suc}
use postino.Prelude.{
  ℕ, ◌≤◌, ◌<◌, ◌≡◌, ◌≢◌, ◌∙◌, refl, sym, ap, subst, Bool, true, false, ◌&&◌, ◌||◌, Option, some,
  List, [], ◌∷◌, arith, length, get_elem?, drop, Bool-cases, Option-cases, inl, inr, is_some_and,
}
use postino.Prelude.Text.{Text}
use postino.Glob.Atoms.{Atom, star, one, char, set, accepts}
use postino.Glob.Matching.{Matches, empty, step, leave, take, IsMerged}
use postino.Glob.Automaton.{is_star}
use postino.Glob.Automaton.Words.{shifted}
use postino.Glob.Automaton.Tables.{consumes}

abbrev pub star_at : List Atom → ℕ → Bool
star_at xs i = is_some_and (get_elem? xs i) is_star

abbrev pub eats_at : ℕ → List Atom → ℕ → Bool
eats_at c xs i = is_some_and (get_elem? xs i) (consumes c)

get-drop :
    (xs : List Atom) (i : ℕ) (a : Atom)
    → get_elem? xs i ≡ some a
    → (drop i xs ≡ a ∷ drop (suc i) xs) × (i < length xs)
get-drop [] i a e = cc
get-drop (x ∷ xs) zero a e = (ground arith, omega arith)
get-drop (x ∷ xs) (suc i) a e = let (d, l) = get-drop xs i a e in (d, omega arith)

drop-get :
    (xs : List Atom) (i : ℕ) (a : Atom) (ys : List Atom)
    → drop i xs ≡ a ∷ ys
    → (get_elem? xs i ≡ some a) × (drop (suc i) xs ≡ ys) × (i < length xs)
drop-get [] zero a ys e = cc
drop-get [] (suc i) a ys e = cc
drop-get (x ∷ xs) zero a ys e = (ground arith, ground arith, omega arith)
drop-get (x ∷ xs) (suc i) a ys e = let (g, d, l) = drop-get xs i a ys e in (g, d, omega arith)

drop-end : (xs : List Atom) (i : ℕ) → i ≤ length xs → drop i xs ≡ [] → i ≡ length xs
drop-end [] i h e = omega arith
drop-end (x ∷ xs) zero h e = cc
drop-end (x ∷ xs) (suc i) h e = ap suc (drop-end xs i (omega arith) e)

drop-length : (xs : List Atom) → drop (length xs) xs ≡ []
drop-length [] = refl
drop-length (x ∷ xs) = drop-length xs

is_star-star : (a : Atom) → is_star a ≡ true → a ≡ star
unfolding is_star
is_star-star star e = refl
is_star-star one e = cc
is_star-star (char c) e = cc
is_star-star (set n r) e = cc

star_at-drop :
    (xs : List Atom) (i : ℕ)
    → star_at xs i ≡ true
    → (drop i xs ≡ star ∷ drop (suc i) xs) × (i < length xs)
star_at-drop xs i e = elim (Option-cases (get_elem? xs i)) [
  | inl g ↦ cc (ap (λ o. is_some_and o is_star) g)
  | inr (a, g) ↦
      let s : a ≡ star = is_star-star a (sym (ap (λ o. is_some_and o is_star) g) ∙ e) in
      get-drop xs i star (g ∙ ap {B = Option Atom} some s)
]

consumes-parts : (c : ℕ) (a : Atom) → consumes c a ≡ true → (a ≢ star) × (accepts a c ≡ true)
unfolding is_star
consumes-parts c star e = cc
consumes-parts c one e = (λ h. cc, ground arith)
consumes-parts c (char x) e = (λ h. cc, ground arith)
consumes-parts c (set n r) e = (λ h. cc, ground arith)

consumes_intro : (c : ℕ) (a : Atom) → a ≢ star → accepts a c ≡ true → consumes c a ≡ true
unfolding is_star
consumes_intro c star n e = absurd (n refl)
consumes_intro c one n e = ground arith
consumes_intro c (char x) n e = ground arith
consumes_intro c (set m r) n e = ground arith

eats_at-drop :
    (c : ℕ) (xs : List Atom) (i : ℕ)
    → eats_at c xs i ≡ true
    → (a : Atom) × (drop i xs ≡ a ∷ drop (suc i) xs)
      × (a ≢ star)
      × (accepts a c ≡ true)
      × (i < length xs)
eats_at-drop c xs i e = elim (Option-cases (get_elem? xs i)) [
  | inl g ↦ cc (ap (λ o. is_some_and o (consumes c)) g)
  | inr (a, g) ↦
      let (n, h) = consumes-parts c a (sym (ap (λ o. is_some_and o (consumes c)) g) ∙ e) in
      let (d, l) = get-drop xs i a g in (a, d, n, h, l)
]

get-star_at : (xs : List Atom) (i : ℕ) → get_elem? xs i ≡ some star → star_at xs i ≡ true
unfolding is_star
get-star_at xs i g = ap (λ o. is_some_and o is_star) g

merged-next :
    (xs : List Atom) (i : ℕ) → IsMerged xs → star_at xs i ≡ true → star_at xs (suc i) ≡ false
unfolding is_star
merged-next [] i m e = refl
merged-next (star ∷ []) zero m e = refl
merged-next (star ∷ star ∷ xs) zero m e = absurd m
merged-next (star ∷ one ∷ xs) zero m e = refl
merged-next (star ∷ char c ∷ xs) zero m e = refl
merged-next (star ∷ set n r ∷ xs) zero m e = refl
merged-next (one ∷ xs) zero m e = cc
merged-next (char c ∷ xs) zero m e = cc
merged-next (set n r ∷ xs) zero m e = cc
merged-next (x ∷ xs) (suc i) m e = merged-next xs i (IsMerged-tail x xs m) e
  where
    IsMerged-tail : (x : Atom) (xs : List Atom) → IsMerged (x ∷ xs) → IsMerged xs
    IsMerged-tail star [] m = tt
    IsMerged-tail star (star ∷ xs) m = absurd m
    IsMerged-tail star (one ∷ xs) m = m
    IsMerged-tail star (char c ∷ xs) m = m
    IsMerged-tail star (set n r ∷ xs) m = m
    IsMerged-tail one xs m = m
    IsMerged-tail (char c) xs m = m
    IsMerged-tail (set n r) xs m = m

-- Some state of the set has its remaining atoms match the text.
abbrev pub Lives : List Atom → (ℕ → Bool) → Text → Type 0
Lives xs S s = (i : ℕ) × (i ≤ length xs) × (S i ≡ true) × Matches (drop i xs) s

-- A star may match nothing.
abbrev pub IsClosed : List Atom → (ℕ → Bool) → Type 0
IsClosed xs S = (i : ℕ) → S i ≡ true → star_at xs i ≡ true → S (suc i) ≡ true

module _ (xs : List Atom) (S T : ℕ → Bool) where
  -- `T` is the closure of `S`.
  abbrev pub Closes : Type 0
  Closes = (i : ℕ) → i ≤ length xs → T i ≡ (S i || shifted false (λ j. S j && star_at xs j) i)

  -- `T` is what `S` becomes on the character `c`.
  abbrev pub Steps : ℕ → Type 0
  Steps c =
      (i : ℕ)
      → i ≤ length xs
      → T i ≡ (shifted false (λ j. S j && eats_at c xs j) i || (S i && star_at xs i))

  pub Closes-IsClosed : Closes → IsMerged xs → IsClosed xs T
  Closes-IsClosed t m zero h e =
      let (_, l) = star_at-drop xs 0 e in ground (arith, t 0 (omega arith), t 1 l)
  Closes-IsClosed t m (suc i) h e =
      let (_, l) = star_at-drop xs (suc i) e in
      ground (arith, t (suc i) (omega arith), t (suc (suc i)) l, merged-next xs i m)

  pub Closes-Lives : (s : Text) → Closes → Lives xs T s → Lives xs S s
  Closes-Lives s t (zero, l, h, d) = (zero, l, ground (arith, t 0 l), d)
  Closes-Lives s t (suc i, l, h, d) = elim (Bool-cases (S (suc i))) [
    | inl there ↦ (suc i, l, there, d)
    | inr new ↦
        let e : S i && star_at xs i ≡ true = ground (arith, t (suc i) l) in
        let (g, _) = star_at-drop xs i (ground arith) in
        (i, omega arith, ground arith, subst (λ ys. Matches ys s) (sym g) (leave d))
  ]

  pub Lives-Closes : (s : Text) → Closes → Lives xs S s → Lives xs T s
  Lives-Closes s t (i, l, h, d) = (i, l, ground (arith, t i l), d)

  module _ (c : ℕ) (s : Text) (t : Steps c) where
    pub Steps-Lives : Lives xs T s → Lives xs S (c ∷ s)
    Steps-Lives (i, l, h, d) = elim (Bool-cases (S i && star_at xs i)) [
      | inl stays ↦
          let (g, _) = star_at-drop xs i (ground arith) in
          (
            i,
            l,
            ground arith,
            subst (λ ys. Matches ys (c ∷ s)) (sym g) (take (subst (λ ys. Matches ys s) g d)),
          )
      | inr moved ↦ from_below i l (ground (arith, t i l)) d
    ]
      where
        from_below :
            (i : ℕ)
            → i ≤ length xs
            → shifted false (λ j. S j && eats_at c xs j) i ≡ true
            → Matches (drop i xs) s
            → Lives xs S (c ∷ s)
        from_below zero l h d = cc
        from_below (suc i) l h d =
            let (a, g, n, p, _) = eats_at-drop c xs i (ground arith) in
            (i, omega arith, ground arith, subst (λ ys. Matches ys (c ∷ s)) (sym g) (step n p d))

    on_char :
        (i : ℕ) (ys : List Atom)
        → IsClosed xs S
        → drop i xs ≡ ys
        → i ≤ length xs
        → S i ≡ true
        → Matches ys (c ∷ s)
        → Lives xs T s
    on_char i _ closed e l h (step {a = a} {xs = ys} n p d) =
        let (g, r, b) = drop-get xs i a ys e in
        let q : eats_at c xs i ≡ true =
          ap (λ o. is_some_and o (consumes c)) g ∙ consumes_intro c a n p in
        (suc i, b, ground (arith, t (suc i) b), subst (λ zs. Matches zs s) (sym r) d)
    on_char i _ closed e l h (leave {xs = ys} d) =
        let (g, r, b) = drop-get xs i star ys e in
        on_char (suc i) ys closed r b (closed i h (get-star_at xs i g)) d
    on_char i _ closed e l h (take {xs = ys} d) =
        let (g, r, b) = drop-get xs i star ys e in
        let q = get-star_at xs i g in
        (i, l, ground (arith, t i l), subst (λ zs. Matches zs s) (sym e) d)

    pub Lives-Steps : IsClosed xs S → Lives xs S (c ∷ s) → Lives xs T s
    Lives-Steps closed (i, l, h, d) = on_char i (drop i xs) closed refl l h d

-- At the end of the text the state is the one after all atoms.
at_end :
    (xs : List Atom) (S : ℕ → Bool) (i : ℕ) (ys : List Atom)
    → IsClosed xs S
    → drop i xs ≡ ys
    → i ≤ length xs
    → S i ≡ true
    → Matches ys []
    → S (length xs) ≡ true
at_end xs S i _ closed e l h empty = rw (← drop-end xs i l e) h
at_end xs S i _ closed e l h (leave {xs = ys} d) =
    let (g, r, b) = drop-get xs i star ys e in
    at_end xs S (suc i) ys closed r b (closed i h (get-star_at xs i g)) d

pub Lives-end :
    (xs : List Atom) (S : ℕ → Bool) → IsClosed xs S → Lives xs S [] → S (length xs) ≡ true
Lives-end xs S closed (i, l, h, d) = at_end xs S i (drop i xs) closed refl l h d

pub end-Lives : (xs : List Atom) (S : ℕ → Bool) → S (length xs) ≡ true → Lives xs S []
end-Lives xs S h =
    (length xs, omega arith, h, subst (λ ys. Matches ys []) (sym (drop-length xs)) empty)
