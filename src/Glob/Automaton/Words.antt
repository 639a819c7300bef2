-- ===== src/Glob/Automaton/Words.antt =====
-- The bits of the state under one step of the automaton: src/glob.rs, `run` and `close`.
use Prim.Native.Nat.{zero, suc, bit_and, bit_or}
use postino.Prelude.{
  ℕ, ◌+◌, ◌-◌, ◌*◌, ◌≤◌, ◌<◌, ◌≡◌, ◌∙◌, refl, sym, ap, Bool, false, ◌&&◌, ◌||◌, List, [], ◌∷◌,
  arith, length, ltb, ◌==◌, lt→ltb, ltb→lt, if◌then◌else◌, Bool-cases, inl, inr,
}
use postino.Prelude.Bits.{bit, bit-bit_and, bit-bit_or, bit-div, bit-mod, bit-zero, zero_of_bits}
use postino.Glob.Automaton.{close, advance, shl_one, high_bit}

-- Bit `i` of a row of words.
unfoldable pub bits : List ℕ → ℕ → Bool
bits [] i = false
bits (w ∷ ws) i = if ltb i 64 then bit i w else bits ws (i - 64)

-- What comes in from below, and the bits one place up.
abbrev pub shifted : Bool → (ℕ → Bool) → ℕ → Bool
shifted b f zero = b
shifted b f (suc i) = f i

abbrev pub IsCarry : Bool → ℕ → Type 0
IsCarry b carry = (i : ℕ) → bit i carry ≡ ((i == 0) && b)

-- At most 64 bits.
abbrev pub IsNarrow : ℕ → Type 0
IsNarrow x = (i : ℕ) → 64 ≤ i → bit i x ≡ false

abbrev pub AllNarrow : List ℕ → Type 0
AllNarrow [] = Unit
AllNarrow (w ∷ ws) = IsNarrow w × AllNarrow ws

bit-double : (i x : ℕ) → bit i (x * 2) ≡ shifted false (λ j. bit j x) i
unfolding bit
bit-double zero x = ground arith
bit-double (suc i) x = ap (bit i) (omega arith)

bit-shl_one : (i x : ℕ) → bit i (shl_one x) ≡ (ltb i 64 && shifted false (λ j. bit j x) i)
bit-shl_one i x = bit-mod i 64 (x * 2) ∙ ap (λ b. ltb i 64 && b) (bit-double i x)

shifted_or :
    (b : Bool) (f : ℕ → Bool) (i : ℕ) → (shifted false f i || ((i == 0) && b)) ≡ shifted b f i
shifted_or b f zero = refl
shifted_or b f (suc i) = ground arith

word_up :
    (b : Bool) (carry x i : ℕ)
    → IsCarry b carry
    → i < 64
    → bit i (bit_or (shl_one x) carry) ≡ shifted b (λ j. bit j x) i
word_up b carry x i c h =
    bit-bit_or i (shl_one x) carry
    ∙ rw (bit-shl_one i x, c i, lt→ltb i 64 h) (shifted_or b (λ j. bit j x) i)

word_up-IsNarrow : (b : Bool) (carry x : ℕ) → IsCarry b carry → IsNarrow (bit_or (shl_one x) carry)
word_up-IsNarrow b carry x c i h =
    bit-bit_or i (shl_one x) carry ∙ ground (arith, bit-shl_one i x, c i)

high_bit-IsCarry : (x : ℕ) → IsNarrow x → IsCarry (bit 63 x) (high_bit x)
high_bit-IsCarry x n zero = bit-div 63 0 x
high_bit-IsCarry x n (suc i) = bit-div 63 (suc i) x ∙ n (63 + suc i) (omega arith) ∙ ground arith

bit_and-IsNarrow : (x y : ℕ) → IsNarrow x → IsNarrow (bit_and x y)
bit_and-IsNarrow x y n i h = bit-bit_and i x y ∙ ground (arith, n i h)

bit_or-IsNarrow : (x y : ℕ) → IsNarrow x → IsNarrow y → IsNarrow (bit_or x y)
bit_or-IsNarrow x y n m i h = bit-bit_or i x y ∙ ground (arith, n i h, m i h)

-- The bits that move up a place.
abbrev both : List ℕ → List ℕ → ℕ → Bool
both ws ss j = bits ws j && bits ss j

bits-later : (w : ℕ) (ws : List ℕ) (j : ℕ) → bits (w ∷ ws) (63 + suc j) ≡ bits ws j
unfolding bits
bits-later w ws j =
    let e : 63 + suc j - 64 ≡ j = omega arith in
    let t : ltb (63 + suc j) 64 ≡ false = ground arith in rw (t, e) refl

-- Where a word ends, the bit below is its highest.
next_word :
    (w s : ℕ) (ws ss : List ℕ) (j : ℕ)
    → shifted (bit 63 (bit_and w s)) (both ws ss) j ≡ both (w ∷ ws) (s ∷ ss) (63 + j)
unfolding bits
next_word w s ws ss zero = bit-bit_and 63 w s
next_word w s ws ss (suc j) = rw (bits-later w ws j, bits-later s ss j) refl

word_after :
    (w s : ℕ) (ws ss : List ℕ) (b : Bool) (i : ℕ)
    → 64 ≤ i
    → shifted (bit 63 (bit_and w s)) (both ws ss) (i - 64) ≡ shifted b (both (w ∷ ws) (s ∷ ss)) i
word_after w s ws ss b i h =
    let e : suc (63 + (i - 64)) ≡ i = omega arith in
    next_word w s ws ss (i - 64) ∙ ap (shifted b (both (w ∷ ws) (s ∷ ss))) e

within_word :
    (w s : ℕ) (ws ss : List ℕ) (b : Bool) (i : ℕ)
    → i < 64
    → shifted b (λ j. bit j (bit_and w s)) i ≡ shifted b (both (w ∷ ws) (s ∷ ss)) i
unfolding bits
within_word w s ws ss b zero h = refl
within_word w s ws ss b (suc i) h = bit-bit_and i w s ∙ ground arith

-- What `close` does to every bit.
pub close-bits :
    (b : Bool) (carry : ℕ) (ws ss : List ℕ) (i : ℕ)
    → IsCarry b carry
    → AllNarrow ws
    → length ws ≡ length ss
    → i < 64 * length ws
    → bits (close carry ws ss) i ≡ (bits ws i || shifted b (both ws ss) i)
unfolding close bits
close-bits b carry [] ss i c n e h = absurd (omega arith)
close-bits b carry (w ∷ ws) [] i c n e h = cc
close-bits b carry (w ∷ ws) (s ∷ ss) i c n e h = elim (Bool-cases (ltb i 64)) [
  | inl low ↦ rw low (
      bit-bit_or i w (bit_or (shl_one (bit_and w s)) carry)
      ∙ ap (λ t. bit i w || t)
          (word_up b carry (bit_and w s) i c (ltb→lt i 64 low)
            ∙ within_word w s ws ss b i (ltb→lt i 64 low)))
  | inr high ↦ rw high (
      close-bits (bit 63 (bit_and w s)) (high_bit (bit_and w s)) ws ss (i - 64)
        (high_bit-IsCarry (bit_and w s) (bit_and-IsNarrow w s n.0)) n.1 (ground arith)
        (ground arith)
      ∙ ap (λ t. bits ws (i - 64) || t) (word_after w s ws ss b i (ground arith)))
]

pub length-close :
    (carry : ℕ) (ws ss : List ℕ) → length ws ≡ length ss → length (close carry ws ss) ≡ length ws
unfolding close
length-close carry [] ss e = refl
length-close carry (w ∷ ws) [] e = cc
length-close carry (w ∷ ws) (s ∷ ss) e =
    ap suc (length-close (high_bit (bit_and w s)) ws ss (omega arith))

pub close-AllNarrow :
    (b : Bool) (carry : ℕ) (ws ss : List ℕ)
    → IsCarry b carry
    → AllNarrow ws
    → AllNarrow (close carry ws ss)
unfolding close
close-AllNarrow b carry [] ss c n = tt
close-AllNarrow b carry (w ∷ ws) [] c n = n
close-AllNarrow b carry (w ∷ ws) (s ∷ ss) c n = (
  bit_or-IsNarrow w _ n.0 (word_up-IsNarrow b carry (bit_and w s) c),
  close-AllNarrow (bit 63 (bit_and w s)) (high_bit (bit_and w s)) ws ss
      (high_bit-IsCarry (bit_and w s) (bit_and-IsNarrow w s n.0)) n.1,
)

-- What `advance` does: the next state, bit by bit, its words, and the union of them.
pub record Advances (b : Bool) (live : ℕ) (ws accepts ss : List ℕ) (r : List ℕ × ℕ) : Type 0 where
  pub next_bits :
      (i : ℕ)
      → i < 64 * length ws
      → bits r.0 i ≡ (shifted b (both ws accepts) i || (bits ws i && bits ss i))
  pub next_length : length r.0 ≡ length ws
  pub next_narrow : AllNarrow r.0
  pub dead : r.1 ≡ 0 → (live ≡ 0) × ((i : ℕ) → bits r.0 i ≡ false)

bit_or-zero : (x y : ℕ) → bit_or x y ≡ 0 → (x ≡ 0) × (y ≡ 0)
bit_or-zero x y e = (
  zero_of_bits x (λ i. ground (arith, sym (bit-bit_or i x y) ∙ ap (bit i) e ∙ bit-zero i)),
  zero_of_bits y (λ i. ground (arith, sym (bit-bit_or i x y) ∙ ap (bit i) e ∙ bit-zero i)),
)

pub advance-Advances :
    (b : Bool) (carry live : ℕ) (ws accepts ss : List ℕ)
    → IsCarry b carry
    → AllNarrow ws
    → length accepts ≡ length ws
    → length ss ≡ length ws
    → Advances b live ws accepts ss (advance carry live ws accepts ss)
unfolding advance bits
advance-Advances b carry live [] accepts ss c n e f = record {
  next_bits = λ i h. absurd (omega arith);
  next_length = refl;
  next_narrow = tt;
  dead = λ z. (z, λ i. refl);
}
advance-Advances b carry live (w ∷ ws) [] ss c n e f = cc
advance-Advances b carry live (w ∷ ws) (a ∷ accepts) [] c n e f = cc
advance-Advances b carry live (w ∷ ws) (a ∷ accepts) (s ∷ ss) c n e f =
    let up = bit_or (shl_one (bit_and w a)) carry in
    let next = bit_or up (bit_and w s) in
    let ih =
      advance-Advances (bit 63 (bit_and w a)) (high_bit (bit_and w a)) (bit_or live next) ws accepts
        ss (high_bit-IsCarry (bit_and w a) (bit_and-IsNarrow w a n.0)) n.1 (omega arith)
        (omega arith) in
    record {
      next_bits = λ i h. elim (Bool-cases (ltb i 64)) [
        | inl low ↦ rw low (
            bit-bit_or i up (bit_and w s)
            ∙ rw
                (
                  word_up b carry (bit_and w a) i c (ltb→lt i 64 low),
                  within_word w a ws accepts b i (ltb→lt i 64 low),
                  bit-bit_and i w s,
                )
                refl)
        | inr high ↦ rw high (
            ih.next_bits (i - 64) (ground arith)
            ∙ ap (λ t. t || (bits ws (i - 64) && bits ss (i - 64)))
                (word_after w a ws accepts b i (ground arith)))
      ];
      next_length = ap suc ih.next_length;
      next_narrow = (
        bit_or-IsNarrow up (bit_and w s) (word_up-IsNarrow b carry (bit_and w a) c)
            (bit_and-IsNarrow w s n.0),
        ih.next_narrow,
      );
      dead = λ z.
          let (none_live, none_bits) = ih.dead z in
          let (old, new) = bit_or-zero live next none_live in
          (
            old,
            λ i. elim (Bool-cases (ltb i 64)) [
              | inl low ↦ rw low (ap (bit i) new ∙ bit-zero i)
              | inr high ↦ rw high (none_bits (i - 64))
            ],
          );
    }
