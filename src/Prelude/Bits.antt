-- ===== src/Prelude/Bits.antt =====
-- The bits of a number, and what the operations on words do to them.
use Prim.Native.Nat.{
  ℕ, zero, suc, ◌+◌, ◌-◌, ◌*◌, ◌/◌, ◌%◌, ◌^◌, ◌≤◌, ◌<◌, min, max, bit_and, bit_or, digits,
  bit_and-bitwise, bit_or-bitwise,
}
use mathlib.Core.Path.{◌≡◌, refl, sym, ap, ◌∙◌}
use mathlib.Core.Bool.{Bool, false, ◌&&◌, ◌||◌}
use native.Mathlib.Omega.{arith}
use native.Mathlib.Nat.{
  pow-suc, pow-succ', zero-add, suc-add, div-div-eq-div-mul, div-add-mod, mod-lt, mod-eq_of_lt,
  add-mul-mod_self_right, one-le-pow,
}
use postino.Prelude.Tests.{◌==◌, ltb}

unfoldable pub bit : ℕ → ℕ → Bool
bit zero x = x % 2 == 1
bit (suc i) x = bit i (x / 2)

-- Both operations go by `digits`, which has one round for each binary digit: more rounds than digits
-- change nothing.
module _ (z : ℕ → ℕ) (f : ℕ → ℕ → ℕ) where
  one_round_more : (n a b : ℕ) → a ≤ n → digits z f (suc n) a b ≡ digits z f n a b
  one_round_more zero zero b h = refl
  one_round_more (suc n) zero b h = refl
  one_round_more zero (suc a) b h = absurd (omega arith)
  one_round_more (suc n) (suc a) b h =
      ap (λ t. t * 2 + f (suc a % 2) (b % 2)) (one_round_more n (suc a / 2) (b / 2) (omega arith))

  rounds_more : (k n a b : ℕ) → a ≤ n → digits z f (k + n) a b ≡ digits z f n a b
  rounds_more zero n a b h = rw zero-add
  rounds_more (suc k) n a b h =
      rw suc-add (one_round_more (k + n) a b (omega arith) ∙ rounds_more k n a b h)

  bitwise-halves :
      (a b : ℕ)
      → digits z f (suc a) (suc a) b
        ≡ digits z f (suc a / 2) (suc a / 2) (b / 2) * 2 + f (suc a % 2) (b % 2)
  bitwise-halves a b =
      let k : a ≡ (a - suc a / 2) + suc a / 2 = omega arith in
      ap (λ t. t * 2 + f (suc a % 2) (b % 2))
        (ap (λ n. digits z f n (suc a / 2) (b / 2)) k
          ∙ rounds_more (a - suc a / 2) (suc a / 2) (suc a / 2) (b / 2) (omega arith))

-- The lowest digit, and the rest.
bit_and-halves : (a b : ℕ) → bit_and a b ≡ bit_and (a / 2) (b / 2) * 2 + min (a % 2) (b % 2)
bit_and-halves zero b = simp bit_and-bitwise (omega arith)
bit_and-halves (suc a) b = simp bit_and-bitwise (bitwise-halves (λ _. 0) min a b)

bit_or-halves : (a b : ℕ) → bit_or a b ≡ bit_or (a / 2) (b / 2) * 2 + max (a % 2) (b % 2)
bit_or-halves zero b = simp bit_or-bitwise (omega arith)
bit_or-halves (suc a) b = simp bit_or-bitwise (bitwise-halves (λ y. y) max a b)

pub bit-bit_and : (i a b : ℕ) → bit i (bit_and a b) ≡ (bit i a && bit i b)
unfolding bit
bit-bit_and zero a b = ground (arith, bit_and-halves a b)
bit-bit_and (suc i) a b =
    ap (bit i) (omega (arith, bit_and-halves a b)) ∙ bit-bit_and i (a / 2) (b / 2)

pub bit-bit_or : (i a b : ℕ) → bit i (bit_or a b) ≡ (bit i a || bit i b)
unfolding bit
bit-bit_or zero a b = ground (arith, bit_or-halves a b)
bit-bit_or (suc i) a b =
    ap (bit i) (omega (arith, bit_or-halves a b)) ∙ bit-bit_or i (a / 2) (b / 2)

pub bit-zero : (i : ℕ) → bit i 0 ≡ false
unfolding bit
bit-zero zero = refl
bit-zero (suc i) = bit-zero i

pub bit-pow : (j i : ℕ) → bit j (2 ^ i) ≡ (j == i)
unfolding bit
bit-pow zero zero = refl
bit-pow zero (suc i) = ground (arith, pow-suc 2 i)
bit-pow (suc j) zero = bit-zero j ∙ ground arith
bit-pow (suc j) (suc i) = ap (bit j) (omega (arith, pow-suc 2 i)) ∙ bit-pow j i ∙ ground arith

pub bit-div : (k i x : ℕ) → bit i (x / 2 ^ k) ≡ bit (k + i) x
unfolding bit
bit-div zero i x = rw zero-add (ap (bit i) (omega arith))
bit-div (suc k) i x = rw suc-add (ap (bit i) (half_power k x) ∙ bit-div k i (x / 2))
  where
    half_power : (k x : ℕ) → x / 2 ^ suc k ≡ x / 2 / 2 ^ k
    half_power k x = ap (λ t. x / t) (pow-succ' 2 k) ∙ sym (div-div-eq-div-mul x 2 (2 ^ k))

module _ (p x : ℕ) (pos : 1 ≤ p) where
  parts : x ≡ x % (p * 2) + x / (p * 2) * p * 2
  parts = omega (arith, div-add-mod x (p * 2))

  mod-half : x % (p * 2) / 2 ≡ x / 2 % p
  mod-half =
      let below : x % (p * 2) < p * 2 = mod-lt x (omega arith) in
      let e : x / 2 ≡ x % (p * 2) / 2 + x / (p * 2) * p = omega (arith, parts) in
      sym (
        ap (λ t. t % p) e
        ∙ add-mul-mod_self_right (x % (p * 2) / 2) (x / (p * 2)) p
        ∙ mod-eq_of_lt (omega arith))

  mod-odd : x % (p * 2) % 2 ≡ x % 2
  mod-odd = omega (arith, parts)

pub bit-mod : (i k x : ℕ) → bit i (x % 2 ^ k) ≡ (ltb i k && bit i x)
unfolding bit
bit-mod i zero x = ap (bit i) (omega arith) ∙ bit-zero i ∙ ground arith
bit-mod zero (suc k) x =
    ground (arith, pow-suc 2 k, mod-odd (2 ^ k) x (one-le-pow k 2 (omega arith)))
bit-mod (suc i) (suc k) x =
    ap (bit i) (rw (pow-suc 2 k) (mod-half (2 ^ k) x (one-le-pow k 2 (omega arith))))
    ∙ bit-mod i k (x / 2)
    ∙ ground arith

zero_of_bits-below : (f x : ℕ) → x < f → ((i : ℕ) → bit i x ≡ false) → x ≡ 0
unfolding bit
zero_of_bits-below zero x h p = absurd (omega arith)
zero_of_bits-below (suc f) zero h p = refl
zero_of_bits-below (suc f) (suc x) h p =
    let half = zero_of_bits-below f (suc x / 2) (omega arith) (λ i. p (suc i)) in
    ground (arith, p 0, half)

-- A number with no bit set is zero.
pub zero_of_bits : (x : ℕ) → ((i : ℕ) → bit i x ≡ false) → x ≡ 0
zero_of_bits x p = zero_of_bits-below (suc x) x (omega arith) p
