-- ===== src/Glob/Automaton/Ascii.antt =====
-- The table of characters of an automaton, a row of words for each: src/glob.rs, `Automaton::new`.
use Prim.Native.Nat.{zero, suc}
use postino.Prelude.{
  ℕ, ◌+◌, ◌*◌, ◌/◌, ◌%◌, ◌≤◌, ◌<◌, ◌≡◌, ◌∙◌, refl, Bool, ◌&&◌, ◌||◌, List, [], ◌∷◌, arith, length,
  ltb, leb, ◌==◌, if◌then◌else◌, Bool-cases, inl, inr,
}
use postino.Glob.Atoms.{Atom, accepts}
use postino.Glob.Automaton.{or_at, bit_of, mark_chars, is_star, build}
use postino.Glob.Automaton.Tables.{cell, cell-or_at, mark-length, at_from, consumes, same_place}

index-lt : (r c w h : ℕ) → r < h → c < w → r * w + c < h * w
index-lt r c w h p q = grind arith

-- Two places of the table are the same if the rows are, and the words in the row.
place-eq :
    (c k c' k' w : ℕ) → k < w → k' < w → (c * w + k == c' * w + k') ≡ ((c == c') && (k == k'))
place-eq c k c' k' w h h' = ground (arith, index-lt c k w c', index-lt c' k' w c)

-- A character's bit for the atom numbered `i`.
abbrev marked : Atom → ℕ → ℕ → ℕ → ℕ → Bool
marked a i c k q = accepts a c && ((k == i / 64) && (q == i % 64))

one_char :
    (w i c₀ : ℕ) (a : Atom) (m : List ℕ) (c k q : ℕ)
    → i / 64 < w
    → k < w
    → c₀ < 128
    → 128 * w ≤ length m
    → cell (if accepts a c₀ then or_at m (c₀ * w + i / 64) (bit_of i) else m) (c * w + k) q
      ≡ (cell m (c * w + k) q || (marked a i c k q && (c == c₀)))
one_char w i c₀ a m c k q hi hk hc hm = elim (Bool-cases (accepts a c₀)) [
  | inl yes_ ↦ rw yes_ (
      cell-or_at m (c₀ * w + i / 64) (i % 64) (c * w + k) q
        (omega (arith, index-lt c₀ (i / 64) w 128 hc hi))
      ∙ rw (place-eq c k c₀ (i / 64) w hk hi) (elim (Bool-cases (c == c₀)) [
        | inl same ↦ let e : c ≡ c₀ = ground arith in rw same (rw (e, yes_) (ground arith))
        | inr other ↦ rw other (ground arith)
      ]))
  | inr no_ ↦ rw no_ (elim (Bool-cases (c == c₀)) [
    | inl same ↦ let e : c ≡ c₀ = ground arith in rw same (rw (e, no_) (ground arith))
    | inr other ↦ rw other (ground arith)
  ])
]

mark_chars-cell :
    (w i n c₀ : ℕ) (a : Atom) (m : List ℕ) (c k q : ℕ)
    → i / 64 < w
    → k < w
    → c₀ + n ≤ 128
    → 128 * w ≤ length m
    → cell (mark_chars w i a n c₀ m) (c * w + k) q
      ≡ (cell m (c * w + k) q || (marked a i c k q && (leb c₀ c && ltb c (c₀ + n))))
unfolding mark_chars
mark_chars-cell w i zero c₀ a m c k q hi hk hc hm = ground arith
mark_chars-cell w i (suc n) c₀ a m c k q hi hk hc hm =
    let m' = if accepts a c₀ then or_at m (c₀ * w + i / 64) (bit_of i) else m in
    mark_chars-cell w i n (c₀ + 1) a m' c k q hi hk (omega arith)
      (omega (arith, mark-length (accepts a c₀) m (c₀ * w + i / 64) (bit_of i)))
    ∙ rw (one_char w i c₀ a m c k q hi hk (omega arith) hm) (ground arith)

mark_chars-length :
    (w i n c₀ : ℕ) (a : Atom) (m : List ℕ) → length (mark_chars w i a n c₀ m) ≡ length m
unfolding mark_chars
mark_chars-length w i zero c₀ a m = refl
mark_chars-length w i (suc n) c₀ a m =
    mark_chars-length w i n (c₀ + 1) a _ ∙ mark-length (accepts a c₀) m (c₀ * w + i / 64) (bit_of i)

-- The atoms, numbered from `i` on, whose bit the row of `c` has.
pub build-ascii :
    (w i : ℕ) (xs : List Atom) (stars ascii : List ℕ) (c j : ℕ)
    → i + length xs ≤ 64 * w
    → j / 64 < w
    → c < 128
    → 128 * w ≤ length ascii
    → cell (build w i xs stars ascii).1 (c * w + j / 64) (j % 64)
      ≡ (cell ascii (c * w + j / 64) (j % 64) || at_from (consumes c) i xs j)
unfolding build
build-ascii w i [] stars ascii c j h hj hc hm = ground arith
build-ascii w i (a ∷ xs) stars ascii c j h hj hc hm = elim (Bool-cases (is_star a)) [
  | inl s ↦
      rw (s, build)
        (build-ascii w (suc i) xs (or_at stars (i / 64) (bit_of i)) ascii c j (omega arith) hj hc
          hm)
  | inr n ↦
      rw (n, build)
        (build-ascii w (suc i) xs stars (mark_chars w i a 128 0 ascii) c j (omega arith) hj hc
            (omega (arith, mark_chars-length w i 128 0 a ascii))
          ∙ rw
              (
                mark_chars-cell w i 128 0 a ascii c (j / 64) (j % 64) (omega arith) hj (omega arith)
                    hm,
                same_place i j,
              )
              (ground arith))
]

pub build-ascii_length :
    (w i : ℕ) (xs : List Atom) (stars ascii : List ℕ)
    → length (build w i xs stars ascii).1 ≡ length ascii
unfolding build
build-ascii_length w i [] stars ascii = refl
build-ascii_length w i (a ∷ xs) stars ascii = elim (Bool-cases (is_star a)) [
  | inl s ↦ rw (s, build) (build-ascii_length w (suc i) xs (or_at stars (i / 64) (bit_of i)) ascii)
  | inr n ↦
      rw (n, build)
        (build-ascii_length w (suc i) xs stars (mark_chars w i a 128 0 ascii)
          ∙ mark_chars-length w i 128 0 a ascii)
]

-- A row fits the table.
pub row_fits : (c w : ℕ) → c < 128 → c * w + w ≤ 128 * w
row_fits c w h = grind arith
