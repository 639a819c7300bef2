-- ===== src/Util/Tests.antt =====
-- Runs of src/util.rs.
use postino.Prelude.{true, false, ◌≡◌, refl, none, some, [], ◌∷◌, arith}
use postino.Prelude.Text.{codes, to_text}
use postino.Util.{to_hex, from_hex, hex_pair, digit}
use postino.Util.Checks.{iso8601, valid_name}
use postino.Util.Laws.{from_hex-to_hex}

written : to_hex (0 ∷ 171 ∷ []) ≡ codes "00ab"
unfolding to_hex
written = refl

upper : from_hex (codes "AB") ≡ some (171 ∷ [])
unfolding from_hex hex_pair digit
upper = refl

signed : from_hex (codes "+f") ≡ some (15 ∷ [])
unfolding from_hex hex_pair digit
signed = refl

odd : from_hex (codes "abc") ≡ none
unfolding from_hex hex_pair digit
odd = refl

from_hex-to_hex_example : from_hex (to_hex (0 ∷ 171 ∷ [])) ≡ some (0 ∷ 171 ∷ [])
from_hex-to_hex_example = from_hex-to_hex (0 ∷ 171 ∷ []) (omega arith, (omega arith, tt))

leap_day : iso8601 951782400123 ≡ codes "2000-02-29T00:00:00.123Z"
unfolding iso8601 to_text
leap_day = refl

agent_name : valid_name (codes "my-agent_v2.0") ≡ true
unfolding valid_name
agent_name = refl

no_name : valid_name (codes "-leading") ≡ false
unfolding valid_name
no_name = refl
