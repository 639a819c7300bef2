-- ===== src/Glob/Laws.antt =====
-- A compiled pattern matches what its atoms match: src/glob.rs, `Glob::new`, `classify`, `matches`.
use postino.Prelude.{
  ◌≤◌, ◌≡◌, ◌↔◌, ◌∙◌, refl, sym, ap, subst, Bool, true, false, ◌&&◌, Option, none, some, List, [],
  ◌∷◌, ◌++◌, arith, length, drop, leb, ◌==◌, if_cases, option_cases,
}
use postino.Prelude.Text.{Text}
use postino.Prelude.Search.{starts_with_iff, ends_with_iff, has_iff, key_eq_iff}
use postino.Glob.Atoms.{Atom, star, one, char, set, atoms}
use postino.Glob.Atoms.Parsing.{atoms-IsMerged}
use postino.Glob.Matching.{Matches, IsMerged}
use postino.Glob.Literals.{
  chars, literal-chars, chars-Matches, nothing-Matches, star-Matches, star_only-Matches,
  is_star-first, is_star-last, between_stars, take_all,
}
use postino.Glob.Automaton
use postino.Glob.Automaton.Run.{matches-Matches}
use postino.Glob.{
  Kind, exact, prefix, suffix, contains, never, automaton, Glob, literal, is_star, first, last,
  inner, trimmed, classify, new, matches, matches_kind,
}
use mathlib.Core.List.{append-nil}

exact-Matches : (s t : Text) → (matches_kind (exact s) t ≡ true) ↔ Matches (chars s) t
unfolding matches_kind
exact-Matches s t =
    let e = append-nil (chars s) in
    (
      λ h.
          let q : t ≡ s = (key_eq_iff t s).0 h in
          subst (λ xs. Matches xs t) e
            ((chars-Matches s [] t).1 ([], q ∙ sym (append-nil s), (nothing-Matches []).1 refl)),
      λ d.
          let (v, q, d') = (chars-Matches s [] t).0 (subst (λ xs. Matches xs t) (sym e) d) in
          let n : v ≡ [] = (nothing-Matches v).0 d' in (key_eq_iff t s).1 (q ∙ rw n (append-nil s)),
    )

prefix-Matches :
    (s t : Text) → (matches_kind (prefix s) t ≡ true) ↔ Matches (chars s ++ star ∷ []) t
unfolding matches_kind
prefix-Matches s t = (
  λ h.
      let (v, e) = (starts_with_iff s t).0 h in
      (chars-Matches s (star ∷ []) t).1 (v, e, star_only-Matches v),
  λ d. let (v, e, _) = (chars-Matches s (star ∷ []) t).0 d in (starts_with_iff s t).1 (v, e),
)

suffix-Matches : (s t : Text) → (matches_kind (suffix s) t ≡ true) ↔ Matches (star ∷ chars s) t
unfolding matches_kind
suffix-Matches s t = (
  λ h.
      let (u, e) = (ends_with_iff s t).0 h in
      (star-Matches (chars s) t).1 (u, s, e, (exact-Matches s s).0 ((key_eq_iff s s).1 refl)),
  λ d.
      let (u, v, e, d') = (star-Matches (chars s) t).0 d in
      let q : v ≡ s = (key_eq_iff v s).0 ((exact-Matches s v).1 d') in
      (ends_with_iff s t).1 (u, e ∙ ap (λ w. u ++ w) q),
)

contains-Matches :
    (s t : Text) → (matches_kind (contains s) t ≡ true) ↔ Matches (star ∷ (chars s ++ star ∷ [])) t
unfolding matches_kind
contains-Matches s t = (
  λ h.
      let (u, v, e, p) = (has_iff s t).0 h in
      (star-Matches (chars s ++ star ∷ []) t).1 (u, v, e, (prefix-Matches s v).0 p),
  λ d.
      let (u, v, e, d') = (star-Matches (chars s ++ star ∷ []) t).0 d in
      (has_iff s t).1 (u, v, e, (prefix-Matches s v).1 d'),
)

abbrev Agrees : List Atom → Kind → Type 0
Agrees xs kind = (t : Text) → (matches_kind kind t ≡ true) ↔ Matches xs t

automaton-Agrees : (xs : List Atom) → IsMerged xs → Agrees xs (automaton (Automaton.new xs))
unfolding matches_kind
automaton-Agrees xs m t = matches-Matches xs t m

trimmed-Agrees :
    (xs : List Atom) (s : Text) (head tail : Bool)
    → IsMerged xs
    → 2 ≤ length xs
    → is_star (first xs) ≡ head
    → is_star (last xs) ≡ tail
    → literal (inner head tail xs) ≡ some s
    → Agrees xs (trimmed head tail s xs)
unfolding trimmed inner
trimmed-Agrees xs s false false m n h l e t = automaton-Agrees xs m t
trimmed-Agrees xs s false true m n h l e t =
    let q : xs ≡ chars s ++ star ∷ [] =
      is_star-last xs l ∙ ap (λ ys. ys ++ star ∷ []) (literal-chars _ s e) in
    subst (λ ys. (matches_kind (prefix s) t ≡ true) ↔ Matches ys t) (sym q) (prefix-Matches s t)
trimmed-Agrees xs s true false m n h l e t =
    let r : drop 1 xs ≡ chars s = ap (drop 1) (sym (take_all xs)) ∙ literal-chars _ s e in
    let q : xs ≡ star ∷ chars s = is_star-first xs h ∙ ap (◌∷◌ star) r in
    subst (λ ys. (matches_kind (suffix s) t ≡ true) ↔ Matches ys t) (sym q) (suffix-Matches s t)
trimmed-Agrees xs s true true m n h l e t =
    let q : xs ≡ star ∷ (chars s ++ star ∷ []) =
      between_stars xs n h l ∙ ap (λ ys. star ∷ (ys ++ star ∷ [])) (literal-chars _ s e) in
    subst (λ ys. (matches_kind (contains s) t ≡ true) ↔ Matches ys t) (sym q) (contains-Matches s t)

-- The way chosen to match a list of atoms agrees with it.
classify-Agrees : (xs : List Atom) → IsMerged xs → Agrees xs (classify xs)
unfolding classify matches_kind
classify-Agrees xs m =
    if_cases (Agrees xs) ((length xs == 1) && is_star (first xs)) _ _
      (λ only t.
        subst (λ ys. (true ≡ true) ↔ Matches ys t) (sym (lone xs only))
          ((λ _. star_only-Matches t), λ _. refl))
      (λ _.
        option_cases (Agrees xs) (literal xs) _ _
          (λ _.
            if_cases (Agrees xs) (leb 2 (length xs)) _ _
              (λ n.
                option_cases (Agrees xs)
                  (literal (inner (is_star (first xs)) (is_star (last xs)) xs)) _ _
                  (λ _. automaton-Agrees xs m)
                  (λ s e.
                    trimmed-Agrees xs s (is_star (first xs)) (is_star (last xs)) m (ground arith)
                      refl refl e))
              (λ _. automaton-Agrees xs m))
          (λ s e t.
            subst (λ ys. (matches_kind (exact s) t ≡ true) ↔ Matches ys t)
              (sym (literal-chars xs s e)) (exact-Matches s t)))
  where
    lone : (xs : List Atom) → ((length xs == 1) && is_star (first xs)) ≡ true → xs ≡ star ∷ []
    lone [] h = cc
    lone (a ∷ b ∷ xs) h = absurd (ground arith)
    lone (star ∷ []) h = refl
    lone (one ∷ []) h = cc
    lone (char c ∷ []) h = cc
    lone (set b r ∷ []) h = cc

abbrev compiled : Text → Option (List Atom) → Glob
compiled p o = elim o [
  | none ↦ record { source = p; kind = never }
  | some xs ↦ record { source = p; kind = classify xs }
]

compiled-Matches :
    (p t : Text) (o : Option (List Atom))
    → atoms p ≡ o
    → (matches_kind (compiled p o).kind t ≡ true)
      ↔ ((xs : List Atom) × (o ≡ some xs) × Matches xs t)
unfolding matches_kind
compiled-Matches p t none e = (λ h. cc, λ (_, q, _). cc)
compiled-Matches p t (some xs) e =
    let agrees = classify-Agrees xs (atoms-IsMerged p xs e) t in
    (
      λ h. (xs, refl, agrees.0 h),
      λ (ys, q, d).
          let same : ys ≡ xs = ground arith in agrees.1 (subst (λ zs. Matches zs t) same d),
    )

-- A pattern matches a text exactly when the pattern has atoms and they match the text.
pub matches_iff :
    (p t : Text)
    → (matches (new p) t ≡ true) ↔ ((xs : List Atom) × (atoms p ≡ some xs) × Matches xs t)
unfolding matches new
matches_iff p t = compiled-Matches p t (atoms p) refl
