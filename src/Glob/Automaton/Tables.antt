-- ===== src/Glob/Automaton/Tables.antt =====
-- What the tables of an automaton hold: src/glob.rs, `Automaton::new` and the mask of `run`.
use Prim.Native.Nat.{zero, suc, bit_or}
use postino.Prelude.{
  ℕ, ◌+◌, ◌-◌, ◌*◌, ◌/◌, ◌%◌, ◌^◌, ◌≤◌, ◌<◌, ◌≡◌, ◌∙◌, refl, sym, ap, Bool, true, false, not, ◌&&◌,
  ◌||◌, List, [], ◌∷◌, arith, length, length-set, get_elem?, get_or, set, ltb, ltb→lt, ◌==◌,
  if◌then◌else◌, Bool-cases, inl, inr, is_some_and,
}
use postino.Prelude.Bits.{bit, bit-bit_or, bit-pow, bit-zero}
use postino.Glob.Atoms.{Atom, accepts}
use postino.Glob.Automaton.{or_at, bit_of, mark_chars, is_star, build, mask_loop}
use postino.Glob.Automaton.Words.{bits}

-- Bit `q` of word `k`.
abbrev pub cell : List ℕ → ℕ → ℕ → Bool
cell ws k q = bit q (get_or ws k 0)

get_or-set :
    (ws : List ℕ) (k v k' : ℕ)
    → k < length ws
    → get_or (set ws k v) k' 0 ≡ (if k' == k then v else get_or ws k' 0)
get_or-set [] k v k' h = absurd (omega arith)
get_or-set (w ∷ ws) zero v zero h = refl
get_or-set (w ∷ ws) zero v (suc k') h = ground arith
get_or-set (w ∷ ws) (suc k) v zero h = ground arith
get_or-set (w ∷ ws) (suc k) v (suc k') h = get_or-set ws k v k' (omega arith) ∙ ground arith

pub bits-cell : (ws : List ℕ) (i : ℕ) → bits ws i ≡ cell ws (i / 64) (i % 64)
unfolding bits
bits-cell [] i = sym (bit-zero (i % 64))
bits-cell (w ∷ ws) i = elim (Bool-cases (ltb i 64)) [
  | inl low ↦
      let k : i / 64 ≡ 0 = omega (arith, ltb→lt i 64 low) in
      let q : i % 64 ≡ i = omega (arith, ltb→lt i 64 low) in rw (low, k, q) refl
  | inr high ↦
      let h : 64 ≤ i = ground arith in
      let k : i / 64 ≡ suc ((i - 64) / 64) = omega arith in
      let q : i % 64 ≡ (i - 64) % 64 = omega arith in rw (high, k, q) (bits-cell ws (i - 64))
]

pub cell-or_at :
    (ws : List ℕ) (k q k' q' : ℕ)
    → k < length ws
    → cell (or_at ws k (2 ^ q)) k' q' ≡ (cell ws k' q' || ((k' == k) && (q' == q)))
unfolding or_at
cell-or_at ws k q k' q' h =
    rw (get_or-set ws k (bit_or (get_or ws k 0) (2 ^ q)) k' h) (elim (Bool-cases (k' == k)) [
      | inl same ↦
          let e : k' ≡ k = ground arith in
          rw same (bit-bit_or q' (get_or ws k 0) (2 ^ q) ∙ rw (e, bit-pow q' q) refl)
      | inr other ↦ rw other (ground arith)
    ])

pub same_place : (i j : ℕ) → ((j / 64 == i / 64) && (j % 64 == i % 64)) ≡ (j == i)
same_place i j = ground arith

bits-or_at :
    (ws : List ℕ) (i j : ℕ)
    → i < 64 * length ws
    → bits (or_at ws (i / 64) (bit_of i)) j ≡ (bits ws j || (j == i))
bits-or_at ws i j h =
    bits-cell (or_at ws (i / 64) (bit_of i)) j
    ∙ cell-or_at ws (i / 64) (i % 64) (j / 64) (j % 64) (omega arith)
    ∙ rw (same_place i j, bits-cell ws j) refl

-- The atoms that pass a test, numbered from `i` on.
abbrev pub at_from : (Atom → Bool) → ℕ → List Atom → ℕ → Bool
at_from test i [] j = false
at_from test i (a ∷ xs) j = (test a && (j == i)) || at_from test (suc i) xs j

at_from-before :
    (test : Atom → Bool) (i : ℕ) (xs : List Atom) (j : ℕ) → j < i → at_from test i xs j ≡ false
at_from-before test i [] j h = refl
at_from-before test i (a ∷ xs) j h = ground (arith, at_from-before test (suc i) xs j)

pub at_from-get_elem? :
    (test : Atom → Bool) (i : ℕ) (xs : List Atom) (j : ℕ)
    → at_from test i xs (i + j) ≡ is_some_and (get_elem? xs j) test
at_from-get_elem? test i [] j = refl
at_from-get_elem? test i (a ∷ xs) zero = ground (arith, at_from-before test (suc i) xs (i + 0))
at_from-get_elem? test i (a ∷ xs) (suc j) =
    let e : i + suc j ≡ suc i + j = omega arith in
    rw e (ground (arith, at_from-get_elem? test (suc i) xs j))

pub at_from-zero :
    (test : Atom → Bool) (xs : List Atom) (j : ℕ)
    → at_from test 0 xs j ≡ is_some_and (get_elem? xs j) test
at_from-zero test xs j =
    let e : j ≡ 0 + j = omega arith in ap (at_from test 0 xs) e ∙ at_from-get_elem? test 0 xs j

length-or_at : (ws : List ℕ) (k b : ℕ) → length (or_at ws k b) ≡ length ws
unfolding or_at
length-or_at ws k b = length-set ws k (bit_or (get_or ws k 0) b)

-- One atom's bit, set if it passes.
mark-bits :
    (t : Bool) (ws : List ℕ) (i j : ℕ)
    → i < 64 * length ws
    → bits (if t then or_at ws (i / 64) (bit_of i) else ws) j ≡ (bits ws j || (t && (j == i)))
mark-bits true ws i j h = bits-or_at ws i j h
mark-bits false ws i j h = ground arith

pub mark-length :
    (t : Bool) (ws : List ℕ) (k b : ℕ) → length (if t then or_at ws k b else ws) ≡ length ws
mark-length true ws k b = length-or_at ws k b
mark-length false ws k b = refl

pub build-stars :
    (words i : ℕ) (xs : List Atom) (stars ascii : List ℕ) (j : ℕ)
    → i + length xs ≤ 64 * length stars
    → bits (build words i xs stars ascii).0 j ≡ (bits stars j || at_from is_star i xs j)
unfolding build
build-stars words i [] stars ascii j h = ground arith
build-stars words i (a ∷ xs) stars ascii j h =
    let stars' = if is_star a then or_at stars (i / 64) (bit_of i) else stars in
    let l = mark-length (is_star a) stars (i / 64) (bit_of i) in
    build-stars words (suc i) xs stars'
      (if is_star a then ascii else mark_chars words i a 128 0 ascii) j (omega (arith, l))
    ∙ rw (mark-bits (is_star a) stars i j (omega arith)) (ground arith)

pub build-length :
    (words i : ℕ) (xs : List Atom) (stars ascii : List ℕ)
    → length (build words i xs stars ascii).0 ≡ length stars
unfolding build
build-length words i [] stars ascii = refl
build-length words i (a ∷ xs) stars ascii =
    build-length words (suc i) xs _ _ ∙ mark-length (is_star a) stars (i / 64) (bit_of i)

abbrev pub consumes : ℕ → Atom → Bool
consumes c a = not (is_star a) && accepts a c

pub mask_loop-bits :
    (c i : ℕ) (xs : List Atom) (mask : List ℕ) (j : ℕ)
    → i + length xs ≤ 64 * length mask
    → bits (mask_loop c i xs mask) j ≡ (bits mask j || at_from (consumes c) i xs j)
unfolding mask_loop
mask_loop-bits c i [] mask j h = ground arith
mask_loop-bits c i (a ∷ xs) mask j h =
    mask_loop-bits c (suc i) xs (if consumes c a then or_at mask (i / 64) (bit_of i) else mask) j
      (omega (arith, mark-length (consumes c a) mask (i / 64) (bit_of i)))
    ∙ rw (mark-bits (consumes c a) mask i j (omega arith)) (ground arith)

pub mask_loop-length :
    (c i : ℕ) (xs : List Atom) (mask : List ℕ) → length (mask_loop c i xs mask) ≡ length mask
unfolding mask_loop
mask_loop-length c i [] mask = refl
mask_loop-length c i (a ∷ xs) mask =
    mask_loop-length c (suc i) xs _ ∙ mark-length (consumes c a) mask (i / 64) (bit_of i)
