-- ===== src/Prelude/Int.antt =====
-- Signed integers over the native numbers, and those of 64 bits: `i64`.
pub mod Decimal
use Prim.Native.Nat.{ℕ, suc, ◌+◌, ◌-◌, ◌*◌, ◌^◌, ◌≤◌}
use mathlib.Core.Bool.{Bool, ◌&&◌}
use mathlib.Core.List.{[], ◌∷◌}
use mathlib.Core.Option.{Option, none, some}
use postino.Prelude.Tests.{ltb, leb, ◌==◌, if◌then◌else◌}
use postino.Prelude.Text.{Text, is_digit, to_text}

-- `negsuc n` is -(n + 1).
pub data ℤ : Type 0 where
  pos negsuc : ℕ → ℤ

-- How far it is above zero, and how far below.
abbrev pub above : ℤ → ℕ
above (pos n) = n
above (negsuc n) = 0

abbrev pub below : ℤ → ℕ
below (pos n) = 0
below (negsuc n) = suc n

-- The integer that is `a` less `b`.
abbrev pub minus : ℕ → ℕ → ℤ
minus a b = if ltb a b then negsuc (b - a - 1) else pos (a - b)

infixl 65 ◌+ℤ◌
abbrev pub ◌+ℤ◌ : ℤ → ℤ → ℤ
x +ℤ y = minus (above x + above y) (below x + below y)

-- A factor that is a number.
abbrev pub times : ℕ → ℤ → ℤ
times k x = minus (above x * k) (below x * k)

abbrev pub neg : ℤ → ℤ
neg x = minus (below x) (above x)

infix 50 ◌≤ℤ◌
abbrev pub ◌≤ℤ◌ : ℤ → ℤ → Type 0
x ≤ℤ y = above x + below y ≤ above y + below x

abbrev pub leb_ℤ : ℤ → ℤ → Bool
leb_ℤ x y = leb (above x + below y) (above y + below x)

abbrev pub ltb_ℤ : ℤ → ℤ → Bool
ltb_ℤ x y = ltb (above x + below y) (above y + below x)

abbrev pub i64_limit : ℕ
i64_limit = 2 ^ 63

-- The integers of an `i64`.
abbrev pub fits : ℤ → Bool
fits x = ltb (above x) i64_limit && leb (below x) i64_limit

-- `checked_add`, `checked_mul` and `checked_neg`, with their exact result.
abbrev pub checked : ℤ → Option ℤ
checked x = if fits x then some x else none

unfoldable pub parse_nat : ℕ → Text → Option ℕ
unfolding is_digit
parse_nat acc [] = some acc
parse_nat acc (c ∷ s) =
    let rest = parse_nat (acc * 10 + (c - 48)) s in if is_digit c then rest else none

-- The number after a sign.
unfoldable pub unsigned : Text → Option ℕ
unfolding parse_nat
unsigned [] = none
unsigned (c ∷ s) = parse_nat 0 (c ∷ s)

-- `text.parse::<i64>()`
unfoldable pub parse_i64 : Text → Option ℤ
unfolding unsigned
parse_i64 [] = none
parse_i64 (c ∷ s) =
    if c == b'-'
    then elim (unsigned s) [ none ↦ none | some n ↦ checked (minus 0 n) ]
    else elim (unsigned (if c == b'+' then s else c ∷ s)) [ none ↦ none | some n ↦ checked (pos n) ]

-- `to_string`
unfoldable pub int_text : ℤ → Text
unfolding to_text
int_text (pos n) = to_text n
int_text (negsuc n) = b'-' ∷ to_text (suc n)
