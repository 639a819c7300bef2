-- ===== src/Glob/Automaton/Correct.antt =====
-- The automaton of a list of atoms matches what the atoms match: src/glob.rs, `Automaton`.
use Prim.Native.Nat.{zero, suc, bit_and}
use postino.Prelude.{
  ℕ, ◌+◌, ◌*◌, ◌/◌, ◌%◌, ◌^◌, ◌≤◌, ◌<◌, ◌≡◌, ◌∙◌, refl, sym, ap, true, false, not, List, [], ◌∷◌,
  arith, length, length-replicate, length-drop, get_or, take, drop, replicate, ltb, ◌==◌, if_cases,
  Bool-cases, inl, inr, ltb→lt,
}
use postino.Prelude.Bits.{bit, bit-bit_and, bit-pow, bit-zero, zero_of_bits}
use postino.Glob.Atoms.{Atom}
use postino.Glob.Automaton.{Automaton, new, build, accepting, is_star, mask_loop}
use postino.Glob.Automaton.Words.{bits, IsCarry}
use postino.Glob.Automaton.Tables.{
  bits-cell, at_from-zero, build-stars, build-length, consumes, mask_loop-bits, mask_loop-length,
}
use postino.Glob.Automaton.Ascii.{build-ascii, build-ascii_length, row_fits}
use postino.Glob.Automaton.States.{star_at, eats_at}

-- The tables are those of the atoms.
pub record Fits (a : Automaton) (xs : List Atom) : Type 0 where
  pub atoms_same : a.atoms ≡ xs
  pub room : length xs < 64 * a.words
  pub stars_length : length a.stars ≡ a.words
  pub stars_bits : (i : ℕ) → bits a.stars i ≡ star_at xs i
  pub row_length : (c : ℕ) → length (accepting a c) ≡ a.words
  pub row_bits : (c i : ℕ) → i < 64 * a.words → bits (accepting a c) i ≡ eats_at c xs i

get_or-slice :
    (n w : ℕ) (m : List ℕ) (k : ℕ) → k < w → get_or (take w (drop n m)) k 0 ≡ get_or m (n + k) 0
get_or-slice zero zero m k h = absurd (omega arith)
get_or-slice zero (suc w) [] k h = refl
get_or-slice zero (suc w) (x ∷ m) zero h = refl
get_or-slice zero (suc w) (x ∷ m) (suc k) h =
    let e : 0 + suc k ≡ suc (0 + k) = omega arith in rw e (get_or-slice zero w m k (omega arith))
get_or-slice (suc n) zero m k h = absurd (omega arith)
get_or-slice (suc n) (suc w) [] k h = refl
get_or-slice (suc n) (suc w) (x ∷ m) k h =
    let e : suc n + k ≡ suc (n + k) = omega arith in rw e (get_or-slice n (suc w) m k h)

length-take-le : (w : ℕ) (m : List ℕ) → w ≤ length m → length (take w m) ≡ w
length-take-le zero m h = refl
length-take-le (suc w) [] h = absurd (omega arith)
length-take-le (suc w) (x ∷ m) h = ap suc (length-take-le w m (omega arith))

abbrev pub zeros : ℕ → List ℕ
zeros n = replicate n 0

get_or-replicate : (n k : ℕ) → get_or (zeros n) k 0 ≡ 0
get_or-replicate zero k = refl
get_or-replicate (suc n) zero = refl
get_or-replicate (suc n) (suc k) = get_or-replicate n k

pub bits-replicate : (n i : ℕ) → bits (zeros n) i ≡ false
bits-replicate n i =
    bits-cell (zeros n) i ∙ ap (bit (i % 64)) (get_or-replicate n (i / 64)) ∙ bit-zero (i % 64)

pub take-replicate : (w n : ℕ) → w ≤ n → take w (zeros n) ≡ zeros w
take-replicate zero n h = refl
take-replicate (suc w) zero h = absurd (omega arith)
take-replicate (suc w) (suc n) h = ap (◌∷◌ 0) (take-replicate w n (omega arith))

-- The slice of the table for a character is its row.
ascii_row :
    (w : ℕ) (xs : List Atom) (stars m : List ℕ) (c i : ℕ)
    → length xs < 64 * w
    → i < 64 * w
    → c < 128
    → m ≡ zeros (128 * w)
    → bits (take w (drop (c * w) (build w 0 xs stars m).1)) i ≡ eats_at c xs i
ascii_row w xs stars m c i h hi hc e =
    bits-cell (take w (drop (c * w) (build w 0 xs stars m).1)) i
    ∙ ap (bit (i % 64)) (get_or-slice (c * w) w (build w 0 xs stars m).1 (i / 64) (omega arith))
    ∙ build-ascii w 0 xs stars m c i (omega arith) (omega arith) hc
        (omega (arith, ap length e, length-replicate {0} {A = ℕ} (128 * w) 0))
    ∙ rw (e, get_or-replicate (128 * w) (c * w + i / 64), bit-zero (i % 64))
        (at_from-zero (consumes c) xs i)

ascii_row-length :
    (w : ℕ) (xs : List Atom) (stars m : List ℕ) (c : ℕ)
    → c < 128
    → m ≡ zeros (128 * w)
    → length (take w (drop (c * w) (build w 0 xs stars m).1)) ≡ w
ascii_row-length w xs stars m c hc e = length-take-le w (drop (c * w) (build w 0 xs stars m).1) (
    omega (
      arith,
      length-drop {0} {A = ℕ} (c * w) (build w 0 xs stars m).1,
      build-ascii_length w 0 xs stars m,
      ap length e,
      length-replicate {0} {A = ℕ} (128 * w) 0,
      row_fits c w hc,
    ))

mask_row :
    (w : ℕ) (xs : List Atom) (c i : ℕ)
    → length xs < 64 * w
    → bits (mask_loop c 0 xs (zeros w)) i ≡ eats_at c xs i
mask_row w xs c i h =
    mask_loop-bits c 0 xs (zeros w) i (omega (arith, length-replicate {0} {A = ℕ} w 0))
    ∙ rw (bits-replicate w i) (at_from-zero (consumes c) xs i)

pub new-Fits : (xs : List Atom) → Fits (new xs) xs
unfolding new accepting
new-Fits xs =
    let w = length xs / 64 + 1 in
    let m = zeros (128 * w) in
    let room : length xs < 64 * w = omega arith in
    record {
      atoms_same = refl;
      room = room;
      stars_length = build-length w 0 xs (zeros w) m ∙ length-replicate w 0;
      stars_bits = λ i.
          build-stars w 0 xs (zeros w) m i (omega (arith, length-replicate {0} {A = ℕ} w 0))
          ∙ rw (bits-replicate w i) (at_from-zero is_star xs i);
      row_length = λ c.
          if_cases {A = List ℕ} (λ r. length r ≡ w) (ltb c 128) _ _
            (λ t. ascii_row-length w xs (zeros w) m c (ltb→lt c 128 t) refl)
            (λ _. mask_loop-length c 0 xs (zeros w) ∙ length-replicate w 0);
      row_bits = λ c i h.
          if_cases {A = List ℕ} (λ r. bits r i ≡ eats_at c xs i) (ltb c 128) _ _
            (λ t. ascii_row w xs (zeros w) m c i room h (ltb→lt c 128 t) refl)
            (λ _. mask_row w xs c i room);
    }

other_bit : (q x i : ℕ) → bit q x ≡ false → bit i (bit_and x (2 ^ q)) ≡ false
other_bit q x i e =
    bit-bit_and i x (2 ^ q)
    ∙ rw (bit-pow i q) (elim (Bool-cases (i == q)) [
      | inl same ↦ let p : i ≡ q = ground arith in rw same (rw (p, e) refl)
      | inr other ↦ rw other (ground arith)
    ])

pub test_bit : (q x : ℕ) → not (bit_and x (2 ^ q) == 0) ≡ bit q x
test_bit q x = elim (Bool-cases (bit q x)) [
  | inl set_ ↦
      let b : bit q (bit_and x (2 ^ q)) ≡ true =
        bit-bit_and q x (2 ^ q) ∙ rw (set_, bit-pow q q) (ground arith) in
      elim (Bool-cases (bit_and x (2 ^ q) == 0)) [
        | inl zero_ ↦
            let z : bit_and x (2 ^ q) ≡ 0 = ground arith in
            cc (sym (bit-zero q) ∙ sym (ap (bit q) z) ∙ b)
        | inr there ↦ rw (there, set_) refl
      ]
  | inr clear ↦
      let z : bit_and x (2 ^ q) ≡ 0 =
        zero_of_bits (bit_and x (2 ^ q)) (λ i. other_bit q x i clear) in
      rw (z, clear) refl
]

pub no-IsCarry : IsCarry false 0
no-IsCarry i = bit-zero i ∙ ground arith
