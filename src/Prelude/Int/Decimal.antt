-- ===== src/Prelude/Int/Decimal.antt =====
-- A signed integer of 64 bits reads back from its own text.
use Prim.Native.Nat.{ℕ, suc, ◌+◌, ◌-◌, ◌*◌, ◌<◌}
use mathlib.Core.Path.{◌≡◌, refl, ◌∙◌}
use mathlib.Core.Logic.{◌≢◌}
use mathlib.Core.Bool.{true}
use mathlib.Core.List.{[], ◌∷◌}
use mathlib.Core.Option.{some}
use native.Mathlib.Omega.{arith}
use postino.Prelude.Text.{
  Text, Digits, to_text, parse_digits, to_text-Digits, to_text-ne-nil, parse_digits-to_text,
  u64_size,
}
use postino.Prelude.Int.{ℤ, pos, negsuc, checked, fits, parse_nat, unsigned, parse_i64, int_text}

parse_nat-parse_digits :
    (acc : ℕ) (s : Text) (n : ℕ) → parse_digits acc s ≡ some n → parse_nat acc s ≡ some n
unfolding parse_digits parse_nat
parse_nat-parse_digits acc [] n h = h
parse_nat-parse_digits acc (c ∷ s) n h =
    ground (arith, parse_nat-parse_digits (acc * 10 + (c - 48)) s n)

unsigned_some : (s : Text) → s ≢ [] → unsigned s ≡ parse_nat 0 s
unfolding unsigned
unsigned_some [] e = absurd (e refl)
unsigned_some (c ∷ s) e = refl

unsigned-to_text : (n : ℕ) → n < u64_size → unsigned (to_text n) ≡ some n
unsigned-to_text n h =
    unsigned_some (to_text n) (to_text-ne-nil n)
    ∙ parse_nat-parse_digits 0 (to_text n) n (parse_digits-to_text n h)

parse_i64-Digits :
    (s : Text) (n : ℕ) → Digits s → unsigned s ≡ some n → parse_i64 s ≡ checked (pos n)
unfolding parse_i64 unsigned
parse_i64-Digits [] n d h = absurd cc
parse_i64-Digits (c ∷ s) n d h = ground (arith, d.0, d.1)

pub parse_i64-int_text : (z : ℤ) → fits z ≡ true → parse_i64 (int_text z) ≡ some z
unfolding int_text parse_i64
parse_i64-int_text (pos n) h =
    parse_i64-Digits (to_text n) n (to_text-Digits n) (unsigned-to_text n (ground arith))
    ∙ ground arith
parse_i64-int_text (negsuc n) h = ground (arith, unsigned-to_text (suc n))
