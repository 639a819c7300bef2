-- ===== src/Util/Laws.antt =====
-- Bytes written in hexadecimal read back: src/util.rs, `to_hex` and `from_hex`.
use Prim.Native.Nat.{zero, suc}
use postino.Prelude.{
  ℕ, ◌+◌, ◌*◌, ◌/◌, ◌%◌, ◌<◌, ◌≡◌, refl, ap, false, Option, some, List, [], ◌∷◌, arith, ltb, get_or,
  ◌==◌, if◌then◌else◌,
}
use postino.Util.{digits, to_hex, digit, hex_pair, from_hex}

get_or-digits : (n : ℕ) → n < 16 → get_or digits n 0 ≡ (if ltb n 10 then 48 + n else 87 + n)
get_or-digits zero h = refl
get_or-digits (suc zero) h = refl
get_or-digits (suc (suc zero)) h = refl
get_or-digits (suc (suc (suc zero))) h = refl
get_or-digits (suc (suc (suc (suc zero)))) h = refl
get_or-digits (suc (suc (suc (suc (suc zero))))) h = refl
get_or-digits (suc (suc (suc (suc (suc (suc zero)))))) h = refl
get_or-digits (suc (suc (suc (suc (suc (suc (suc zero))))))) h = refl
get_or-digits (suc (suc (suc (suc (suc (suc (suc (suc zero)))))))) h = refl
get_or-digits (suc (suc (suc (suc (suc (suc (suc (suc (suc zero))))))))) h = refl
get_or-digits (suc (suc (suc (suc (suc (suc (suc (suc (suc (suc zero)))))))))) h = refl
get_or-digits (suc (suc (suc (suc (suc (suc (suc (suc (suc (suc (suc zero))))))))))) h = refl
get_or-digits (suc (suc (suc (suc (suc (suc (suc (suc (suc (suc (suc (suc zero)))))))))))) h = refl
get_or-digits (suc (suc (suc (suc (suc (suc (suc (suc (suc (suc (suc (suc (suc zero))))))))))))) h =
    refl
get_or-digits
      (suc (suc (suc (suc (suc (suc (suc (suc (suc (suc (suc (suc (suc (suc zero)))))))))))))) h =
    refl
get_or-digits
      (suc (suc (suc (suc (suc (suc (suc (suc (suc (suc (suc (suc (suc (suc (suc zero)))))))))))))))
      h =
    refl
get_or-digits
      (suc
        (suc (suc (suc (suc (suc (suc (suc (suc (suc (suc (suc (suc (suc (suc (suc n))))))))))))))))
      h =
    absurd (omega arith)

digit-digits : (n : ℕ) → n < 16 → digit (get_or digits n 0) ≡ some n
unfolding digit
digit-digits n h = rw (get_or-digits n h) (ground arith)

hex_pair-digits :
    (b : ℕ) → b < 256 → hex_pair (get_or digits (b / 16) 0) (get_or digits (b % 16) 0) ≡ some b
unfolding hex_pair
hex_pair-digits b h =
    let high : b / 16 < 16 = omega arith in
    let low : b % 16 < 16 = omega arith in
    let signed : (get_or digits (b / 16) 0 == b'+') ≡ false =
      rw (get_or-digits (b / 16) high) (ground arith) in
    let whole : b / 16 * 16 + b % 16 ≡ b = omega arith in
    rw (signed, digit-digits (b / 16) high, digit-digits (b % 16) low)
      (ap {B = Option ℕ} some whole)

abbrev pub AllBytes : List ℕ → Type 0
AllBytes [] = Unit
AllBytes (b ∷ bytes) = (b < 256) × AllBytes bytes

-- Bytes written in hexadecimal read back as those bytes.
pub from_hex-to_hex : (bytes : List ℕ) → AllBytes bytes → from_hex (to_hex bytes) ≡ some bytes
unfolding from_hex to_hex
from_hex-to_hex [] h = refl
from_hex-to_hex (b ∷ bytes) h = rw (hex_pair-digits b h.0, from_hex-to_hex bytes h.1) refl
