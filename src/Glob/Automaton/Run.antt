-- ===== src/Glob/Automaton/Run.antt =====
-- The automaton run over a text: src/glob.rs, `run` and `matches`.
use Prim.Native.Nat.{zero, suc}
use postino.Prelude.{
  ℕ, ◌-◌, ◌*◌, ◌/◌, ◌%◌, ◌≤◌, ◌<◌, ◌≡◌, ◌↔◌, ◌∙◌, refl, sym, ap, subst, Bool, true, false, List, [],
  ◌∷◌, arith, length, length-replicate, get_or, set, ltb, leb, ◌==◌, if_cases, Bool-cases, inl, inr,
  leb→le,
}
use postino.Prelude.Bits.{bit, bit-pow, bit-zero}
use postino.Prelude.Text.{Text}
use postino.Glob.Atoms.{Atom}
use postino.Glob.Matching.{Matches, IsMerged}
use postino.Glob.Automaton.{
  Automaton, new, accepting, accepted, advance, close, run, run_loop, matches, stack_words,
}
use postino.Glob.Automaton.Words.{
  bits, AllNarrow, Advances, advance-Advances, close-bits, close-AllNarrow, length-close,
}
use postino.Glob.Automaton.Tables.{bits-cell}
use postino.Glob.Automaton.Correct.{
  Fits, new-Fits, zeros, bits-replicate, take-replicate, test_bit, no-IsCarry,
}
use postino.Glob.Automaton.States.{
  Lives, IsClosed, Closes, Steps, Closes-IsClosed, Closes-Lives, Lives-Closes, Steps-Lives,
  Lives-Steps, Lives-end, end-Lives,
}

module _ (a : Automaton) (xs : List Atom) (fits : Fits a xs) (merged : IsMerged xs) where
  -- What the loop keeps of a state.
  record IsRow (ws : List ℕ) : Type 0 where
    same_length : length ws ≡ a.words
    narrow : AllNarrow ws

  close-Closes : (ws : List ℕ) → IsRow ws → Closes xs (bits ws) (bits (close 0 ws a.stars))
  close-Closes ws r zero l =
      close-bits false 0 ws a.stars zero no-IsCarry r.narrow (r.same_length ∙ sym fits.stars_length)
        (omega (arith, fits.room, r.same_length))
  close-Closes ws r (suc i) l =
      close-bits false 0 ws a.stars (suc i) no-IsCarry r.narrow
        (r.same_length ∙ sym fits.stars_length) (omega (arith, fits.room, r.same_length))
      ∙ rw (fits.stars_bits i) refl

  close-IsRow : (ws : List ℕ) → IsRow ws → IsRow (close 0 ws a.stars)
  close-IsRow ws r = record {
    same_length = length-close 0 ws a.stars (r.same_length ∙ sym fits.stars_length) ∙ r.same_length;
    narrow = close-AllNarrow false 0 ws a.stars no-IsCarry r.narrow;
  }

  module _ (c : ℕ) (ws : List ℕ) (r : IsRow ws) where
    stepped : Advances false 0 ws (accepting a c) a.stars (advance 0 0 ws (accepting a c) a.stars)
    stepped =
        advance-Advances false 0 0 ws (accepting a c) a.stars no-IsCarry r.narrow
          (fits.row_length c ∙ sym r.same_length) (fits.stars_length ∙ sym r.same_length)

    abbrev next : List ℕ
    next = (advance 0 0 ws (accepting a c) a.stars).0

    next-IsRow : IsRow next
    next-IsRow = record {
      same_length = stepped.next_length ∙ r.same_length;
      narrow = stepped.next_narrow;
    }

    next-Steps : Steps xs (bits ws) (bits next) c
    next-Steps zero l =
        stepped.next_bits zero (omega (arith, fits.room, r.same_length))
        ∙ rw (fits.stars_bits zero) refl
    next-Steps (suc i) l =
        stepped.next_bits (suc i) (omega (arith, fits.room, r.same_length))
        ∙ rw (fits.stars_bits (suc i), fits.row_bits c i (omega (arith, fits.room))) refl

    next-dead : (advance 0 0 ws (accepting a c) a.stars).1 ≡ 0 → (i : ℕ) → bits next i ≡ false
    next-dead z = (stepped.dead z).1

  accepted-end : (ws : List ℕ) → accepted a ws ≡ bits ws (length xs)
  unfolding accepted
  accepted-end ws =
      rw fits.atoms_same
        (test_bit (length xs % 64) (get_or ws (length xs / 64) 0) ∙ sym (bits-cell ws (length xs)))

  run_loop-Lives :
      (ws : List ℕ) (s : Text)
      → IsRow ws
      → IsClosed xs (bits ws)
      → (run_loop a ws s ≡ true) ↔ Lives xs (bits ws) s
  unfolding run_loop
  run_loop-Lives ws [] r closed =
      rw (accepted-end ws) (end-Lives xs (bits ws), Lives-end xs (bits ws) closed)
  run_loop-Lives ws (c ∷ s) r closed =
      let n = next c ws r in
      let t = next-Steps c ws r in
      let k = close-Closes n (next-IsRow c ws r) in
      let ih =
        run_loop-Lives (close 0 n a.stars) s (close-IsRow n (next-IsRow c ws r))
          (Closes-IsClosed xs (bits n) (bits (close 0 n a.stars)) k merged) in
      elim (Bool-cases ((advance 0 0 ws (accepting a c) a.stars).1 == 0)) [
        | inl none ↦ rw none (
          (λ h. cc),
          λ l.
              let (i, _, h, _) = Lives-Steps xs (bits ws) (bits n) c s t closed l in
              absurd (ground (arith, next-dead c ws r (ground arith) i)),
        )
        | inr live ↦ rw live (
          (λ h.
              Steps-Lives xs (bits ws) (bits n) c s t
                (Closes-Lives xs (bits n) (bits (close 0 n a.stars)) s k (ih.0 h))),
          λ l. ih.1 (
              Lives-Closes xs (bits n) (bits (close 0 n a.stars)) s k
                (Lives-Steps xs (bits ws) (bits n) c s t closed l)),
        )
      ]

  abbrev start : List ℕ
  start = set (zeros a.words) 0 1

start_bits : (n i : ℕ) → bits (1 ∷ zeros n) i ≡ (i == 0)
unfolding bits
start_bits n i = elim (Bool-cases (ltb i 64)) [
  | inl low ↦ rw low (bit-pow i 0)
  | inr high ↦ rw (high, bits-replicate n (i - 64)) (ground arith)
]

one-IsNarrow : (i : ℕ) → 64 ≤ i → bit i 1 ≡ false
one-IsNarrow i h = bit-pow i 0 ∙ ground arith

zeros-AllNarrow : (n : ℕ) → AllNarrow (zeros n)
zeros-AllNarrow zero = tt
zeros-AllNarrow (suc n) = (λ i _. bit-zero i, zeros-AllNarrow n)

module _ (a : Automaton) (xs : List Atom) (s : Text) (fits : Fits a xs) (merged : IsMerged xs) where
  module _ (w : ℕ) (e : a.words ≡ suc w) where
    first-IsRow : IsRow a xs fits merged (1 ∷ zeros w)
    first-IsRow = record {
      same_length = ap suc (length-replicate w 0) ∙ sym e;
      narrow = (one-IsNarrow, zeros-AllNarrow w);
    }

    abbrev opened : ℕ → Bool
    opened = bits (close 0 (1 ∷ zeros w) a.stars)

    first-Closes : Closes xs (λ i. i == 0) opened
    first-Closes zero l =
        close-Closes a xs fits merged (1 ∷ zeros w) first-IsRow zero l ∙ rw (start_bits w 0) refl
    first-Closes (suc i) l =
        close-Closes a xs fits merged (1 ∷ zeros w) first-IsRow (suc i) l
        ∙ rw (start_bits w (suc i), start_bits w i) refl

    run-Lives : (run a s (zeros (suc w)) ≡ true) ↔ Lives xs (λ i. i == 0) s
    unfolding run
    run-Lives =
        let loop =
          run_loop-Lives a xs fits merged (close 0 (1 ∷ zeros w) a.stars) s
            (close-IsRow a xs fits merged (1 ∷ zeros w) first-IsRow)
            (Closes-IsClosed xs (λ i. i == 0) opened first-Closes merged) in
        (
          λ h. Closes-Lives xs (λ i. i == 0) opened s first-Closes (loop.0 h),
          λ l. loop.1 (Lives-Closes xs (λ i. i == 0) opened s first-Closes l),
        )

  Lives-zero : Lives xs (λ i. i == 0) s ↔ Matches xs s
  Lives-zero = (from_zero, λ d. (0, omega arith, refl, d))
    where
      from_zero : Lives xs (λ i. i == 0) s → Matches xs s
      from_zero (zero, l, h, d) = d
      from_zero (suc i, l, h, d) = absurd (ground arith)

  run-Matches : (run a s (zeros a.words) ≡ true) ↔ Matches xs s
  run-Matches =
      let (w, e) = fits_words a.words fits.room in
      let r = run-Lives w e in
      subst (λ n. (run a s (zeros n) ≡ true) ↔ Matches xs s) (sym e)
        (λ h. Lives-zero.0 (r.0 h), λ d. r.1 (Lives-zero.1 d))
    where
      fits_words : (n : ℕ) → length xs < 64 * n → (w : ℕ) × (n ≡ suc w)
      fits_words zero h = absurd (omega arith)
      fits_words (suc w) h = (w, refl)

-- The automaton built from a list of atoms in which no two stars stand side by side accepts exactly
-- the texts that the atoms match.
pub matches-Matches :
    (xs : List Atom) (s : Text) → IsMerged xs → (matches (new xs) s ≡ true) ↔ Matches xs s
unfolding matches new
matches-Matches xs s merged =
    if_cases (λ r. (r ≡ true) ↔ Matches xs s) (leb (new xs).words stack_words) _ _
      (λ t.
        rw (take-replicate (new xs).words stack_words (leb→le _ _ t))
          (run-Matches (new xs) xs s (new-Fits xs) merged))
      (λ _. run-Matches (new xs) xs s (new-Fits xs) merged)
