-- ===== src/Prelude/Text.antt =====
-- Texts as lists of code points, and what the standard library does with them: searching, splitting,
-- and unsigned decimals as `to_string` and `parse::<u64>` write and read them.
use Prim.Native.Nat.{ℕ, zero, suc, ◌+◌, ◌-◌, ◌*◌, ◌/◌, ◌%◌, ◌^◌, ◌≤◌, ◌<◌}
use Prim.Native.Char.{code}
use Prim.Native.String.{String}
use mathlib.Core.Path.{◌≡◌, refl, ◌∙◌}
use mathlib.Core.Logic.{◌≢◌}
use mathlib.Core.Bool.{Bool, ◌&&◌}
use mathlib.Core.List.{List, [], ◌∷◌, ◌++◌}
use mathlib.Core.Option.{Option, none, some}
use native.Mathlib.Omega.{arith}
use postino.Prelude.Tests.{if◌then◌else◌, ltb, leb, ◌==◌}

abbrev pub Text : Type 0
Text = List ℕ

abbrev pub codes : String → Text
codes String.[] = []
codes (String.◌∷◌ c s) = code c ∷ codes s

abbrev pub u64_size : ℕ
u64_size = 2 ^ 64

-- A value, or the error message of the source.
pub data Result {ℓ} (A : Type ℓ) : Type ℓ where
  ok : A → Result A
  err : Text → Result A

infixl 5 ◌>>=◌
abbrev pub ◌>>=◌ {ℓ κ} : {A : Type ℓ} {B : Type κ} → Option A → (A → Option B) → Option B
none >>= f = none
some a >>= f = f a

-- `text.split_once(c)`: what stands before and after the first `c`.
unfoldable pub split_once : ℕ → Text → Option (Text × Text)
split_once c [] = none
split_once c (d ∷ s) =
    if d == c then some ([], s) else (do (a, b) ← split_once c s; some (d ∷ a, b))

unfoldable pub is_digit : ℕ → Bool
is_digit c = leb 48 c && leb c 57

-- The digits of a number, on fuel.
unfoldable pub decimal : ℕ → ℕ → Text
decimal zero n = []
decimal (suc f) n =
    let more = decimal f (n / 10) ++ (48 + n % 10) ∷ [] in if ltb n 10 then (48 + n) ∷ [] else more

-- `n.to_string()`
unfoldable pub to_text : ℕ → Text
unfolding decimal
to_text n = decimal (suc n) n

unfoldable pub parse_digits : ℕ → Text → Option ℕ
unfolding is_digit
parse_digits acc [] = some acc
parse_digits acc (c ∷ s) =
    let v = acc * 10 + (c - 48) in
    let rest = parse_digits v s in if is_digit c && ltb v u64_size then rest else none

-- `text.parse::<u64>()`: a `+` may stand in front, and a number of 64 bits or fewer.
unfoldable pub parse_u64 : Text → Option ℕ
unfolding parse_digits
parse_u64 [] = none
parse_u64 (c ∷ []) = if c == b'+' then none else parse_digits 0 (c ∷ [])
parse_u64 (c ∷ d ∷ s) = if c == b'+' then parse_digits 0 (d ∷ s) else parse_digits 0 (c ∷ d ∷ s)

-- Decimal digits only.
abbrev pub Digits : Text → Type 0
Digits [] = Unit
Digits (c ∷ s) = (48 ≤ c) × (c ≤ 57) × Digits s

Digits-append : (s t : Text) → Digits s → Digits t → Digits (s ++ t)
Digits-append [] t a b = b
Digits-append (c ∷ s) t a b = (a.0, a.1, Digits-append s t a.2 b)

decimal-Digits : (f n : ℕ) → Digits (decimal f n)
unfolding decimal
decimal-Digits zero n = tt
decimal-Digits (suc f) n =
    ground
      (arith, Digits-append (decimal f (n / 10)) ((48 + n % 10) ∷ []) (decimal-Digits f (n / 10)))

pub to_text-Digits : (n : ℕ) → Digits (to_text n)
unfolding to_text
to_text-Digits n = decimal-Digits (suc n) n

parse_digits-append :
    (acc : ℕ) (s t : Text)
    → parse_digits acc (s ++ t) ≡ (parse_digits acc s >>= λ a. parse_digits a t)
unfolding parse_digits
parse_digits-append acc [] t = refl
parse_digits-append acc (c ∷ s) t = ground (arith, parse_digits-append (acc * 10 + (c - 48)) s t)

parse_digits-decimal : (f n : ℕ) → n < f → n < u64_size → parse_digits 0 (decimal f n) ≡ some n
unfolding decimal parse_digits
parse_digits-decimal zero n h k = elim h [ ]
parse_digits-decimal (suc f) n h k = ground (
  arith,
  parse_digits-append 0 (decimal f (n / 10)) ((48 + n % 10) ∷ []),
  parse_digits-decimal f (n / 10),
)

parse_u64-Digits : (s : Text) → Digits s → s ≢ [] → parse_u64 s ≡ parse_digits 0 s
unfolding parse_u64
parse_u64-Digits [] d h = absurd (h refl)
parse_u64-Digits (c ∷ []) d h = ground arith
parse_u64-Digits (c ∷ e ∷ s) d h = ground arith

snoc-ne-nil : (s : Text) (c : ℕ) → s ++ c ∷ [] ≢ []
snoc-ne-nil [] c e = cc
snoc-ne-nil (d ∷ s) c e = cc

pub to_text-ne-nil : (n : ℕ) → to_text n ≢ []
unfolding to_text
to_text-ne-nil n e = ground (arith, snoc-ne-nil (decimal n (n / 10)) (48 + n % 10))

pub parse_digits-to_text : (n : ℕ) → n < u64_size → parse_digits 0 (to_text n) ≡ some n
unfolding to_text
parse_digits-to_text n h = parse_digits-decimal (suc n) n (omega arith) h

-- A number of 64 bits reads back from its own text.
pub parse_u64-to_text : (n : ℕ) → n < u64_size → parse_u64 (to_text n) ≡ some n
parse_u64-to_text n h =
    parse_u64-Digits (to_text n) (to_text-Digits n) (to_text-ne-nil n) ∙ parse_digits-to_text n h

-- The first separator is the one that was put in.
pub split_once-append :
    (c : ℕ) (s t : Text) → Digits s → c < 48 → split_once c (s ++ c ∷ t) ≡ some (s, t)
unfolding split_once
split_once-append c [] t d h = ground arith
split_once-append c (e ∷ s) t d h = ground (arith, split_once-append c s t d.2 h)

-- `str::len`: bytes of UTF-8.
unfoldable pub utf8_len : Text → ℕ
utf8_len [] = 0
utf8_len (c ∷ s) =
    (if ltb c 0x80 then 1 else if ltb c 0x800 then 2 else if ltb c 0x1_0000 then 3 else 4)
    + utf8_len s
