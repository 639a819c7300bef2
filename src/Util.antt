-- ===== src/Util.antt =====
-- src/util.rs: hexadecimal text. A byte is a number below 256.
pub mod Laws
pub mod Checks
mod Tests
use Prim.Native.Nat.{zero, suc}
use postino.Prelude.{
  ℕ, ◌+◌, ◌-◌, ◌*◌, ◌/◌, ◌%◌, Bool, ◌&&◌, Option, none, some, List, [], ◌∷◌, leb, ◌==◌,
  if◌then◌else◌, get_or,
}
use postino.Prelude.Text.{Text, codes, ◌>>=◌}

abbrev pub digits : Text
digits = codes "0123456789abcdef"

unfoldable pub to_hex : List ℕ → Text
to_hex [] = []
to_hex (b ∷ bytes) = get_or digits (b / 16) 0 ∷ get_or digits (b % 16) 0 ∷ to_hex bytes

-- `char::to_digit(16)`
unfoldable pub digit : ℕ → Option ℕ
digit c =
    if leb b'0' c && leb c b'9'
    then some (c - b'0')
    else if leb b'a' c && leb c b'f'
    then some (c - b'a' + 10)
    else if leb b'A' c && leb c b'F'
    then some (c - b'A' + 10)
    else none

-- `u8::from_str_radix` of two characters in base 16, which takes a plus sign in front.
unfoldable pub hex_pair : ℕ → ℕ → Option ℕ
unfolding digit
hex_pair c d =
    if c == b'+' then digit d else (do high ← digit c; low ← digit d; some (high * 16 + low))

-- The source goes by pairs of bytes. A character of several bytes is no digit, so that a text that
-- has one is refused either way.
unfoldable pub from_hex : Text → Option (List ℕ)
unfolding hex_pair
from_hex [] = some []
from_hex (c ∷ []) = none
from_hex (c ∷ d ∷ text) = do b ← hex_pair c d; bytes ← from_hex text; some (b ∷ bytes)
