-- ===== src/Db/Captures.antt =====
-- src/db.rs, `Capture`: the keyspace as it was at one moment, written out as JSON while it goes on
-- changing. What `serde_json` writes for a key and for an entry is a parameter.
pub mod Output
pub mod Coverage
pub mod Passes
use postino.Prelude.{
  ℕ, suc, zero, ◌+◌, ◌-◌, ◌^◌, ◌≡◌, Bool, true, false, not, ◌&&◌, ◌||◌, Option, none, some, List,
  [], ◌∷◌, ◌++◌, length, ltb, leb, if◌then◌else◌, is_some_and,
}
use postino.Prelude.Order.{key_le, text_order}
use postino.Prelude.Map.{Map, get, insert, remove}
use postino.Prelude.Ranges.{at_most, range_after}
use postino.Prelude.Text.{Text}
use postino.Db.Value.{Entry}

abbrev pub Bytes : Type 0
Bytes = List ℕ

-- `serde_json::to_writer`: the bytes of a key or an entry, or a failure.
pub record Json : Type 0 where
  pub key : Text → Option Bytes
  pub entry : Entry → Option Bytes

abbrev pub capture_part : ℕ
capture_part = 2 ^ 20

pub record Capture : Type 0 where
  pub number : ℕ
  pub parts : List Bytes
  pub out : Bytes
  pub filled : ℕ
  pub cursor : Option Text
  pub early : Map Text (Unit {0})
  pub done : Bool
  pub written : ℕ
  pub broken : Bool

unfoldable pub size : Capture → ℕ
size c = c.filled + length c.out

-- `set.contains(key)`
abbrev pub contains : Text → Map Text (Unit {0}) → Bool
contains k s = is_some_and (get k s) λ _. true

unfoldable pub passed : Capture → Text → Bool
passed c k = c.done || at_most c.cursor k

-- A full part is put away before more is written.
unfoldable pub roll : Capture → Capture
roll c =
    if leb capture_part (length c.out)
    then record c { parts = c.parts ++ c.out ∷ []; out = []; filled = c.filled + length c.out }
    else c

-- The key, a colon and the entry, if both can be serialized.
unfoldable pub member : Json → Text → Entry → Option Bytes
member json k e = elim (json.key k) [
  | none ↦ none
  | some name ↦ elim (json.entry e) [ none ↦ none | some held ↦ some (name ++ b':' ∷ held) ]
]

-- What follows the comma; a failure cuts `out` back to where it was.
unfoldable pub append : Capture → Option Bytes → Capture
append c none = record c { broken = true }
append c (some bytes) = record c {
  out = (if ltb 0 c.written then c.out ++ b',' ∷ [] else c.out) ++ bytes;
  written = c.written + 1;
}

unfoldable pub write : Json → Text → Entry → Capture → Capture
unfolding roll append member
write json k e c = append (roll c) (member json k e)

-- One key of the in-order pass: skipped if it was written early.
unfoldable pub visit : Json → Text → Entry → Capture → Capture
unfolding write
visit json k e c =
    if contains k c.early then record c { early = remove k c.early } else write json k e c

-- A budget in bytes; `none` is `usize::MAX`, which no buffer reaches.
abbrev pub Budget : Type 0
Budget = Option ℕ

abbrev pub within : Budget → ℕ → Bool
within none spent = true
within (some budget) spent = ltb spent budget

-- The `while` loop of `capture_step`: the capture, and the last key of the run.
unfoldable pub step_loop :
    Json → Budget → ℕ → Map Text Entry → Option Text → Capture → Capture × Option Text
unfolding visit size
step_loop json budget start [] last c =
    (if within budget (size c - start) then record c { done = true } else c, last)
step_loop json budget start ((k, e) ∷ run) last c =
    let rest = step_loop json budget start run (some k) (visit json k e c) in
    if within budget (size c - start) then rest else (c, last)

unfoldable pub place : Option Text → Capture → Capture
place none c = c
place (some k) c = record c { cursor = some k }

unfoldable pub advance : Json → Budget → Map Text Entry → Capture → Capture
unfolding step_loop place
advance json budget m c =
    if c.done
    then c
    else (let (c', last) = step_loop json budget (size c) (range_after c.cursor m) none c in
        place last c')

-- Before the key changes: what it holds is written, or noted to be missing.
unfoldable pub save : Json → Text → Map Text Entry → Capture → Capture
unfolding passed write
save json k m c =
    if passed c k || contains k c.early
    then c
    else (let c' : Capture = record c { early = insert k tt c.early } in
        elim (get k m) [ none ↦ c' | some e ↦ write json k e c' ])
