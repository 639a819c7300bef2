-- ===== src/Id/RoundTrip.antt =====
-- The text of an id and back: src/id.rs, `Display` and `FromStr`.
use postino.Prelude.{◌≡◌, arith}
use postino.Prelude.Text.{ok, parse_u64-to_text, split_once-append, to_text-Digits, to_text}
use postino.Id.{EntryId, display, from_str, IsWord}

-- An id of machine words reads back from its own text.
pub from_str-display : (id : EntryId) → IsWord id → from_str (display id) ≡ ok id
unfolding from_str display
from_str-display id w = rw (
  split_once-append b'-' (to_text id.ms) (to_text id.seq) (to_text-Digits id.ms) (omega arith),
  parse_u64-to_text id.ms w.0,
  parse_u64-to_text id.seq w.1,
)
