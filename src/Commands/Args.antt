-- ===== src/Commands/Args.antt =====
-- src/commands.rs: numbers, times, ranges and stream ids among the arguments of a command.
pub mod Bounds
use Prim.Native.Nat.{zero, suc}
use postino.Prelude.{
  ℕ, ◌+◌, ◌-◌, ◌^◌, Bool, true, false, ◌&&◌, Option, none, some, List, [], ◌∷◌, ltb, ◌==◌,
  if◌then◌else◌, get_or,
}
use postino.Prelude.Order.{key_eq, text_order}
use postino.Prelude.Text.{Text, Result, ok, err, codes, split_once, parse_u64, u64_size}
use postino.Prelude.Results.{◌>>=◌}
use postino.Prelude.Int.{
  ℤ, pos, negsuc, above, minus, ◌+ℤ◌, times, leb_ℤ, ltb_ℤ, checked, i64_limit, parse_i64,
}
use postino.Id.{EntryId, max_id, zero_id, after}

abbrev pub not_int : Text
not_int = codes "ERR value is not an integer or out of range"

abbrev pub bad_id : Text
bad_id = codes "ERR Invalid stream ID specified as stream command argument"

-- `ok_or`
abbrev pub ok_or {ℓ} : {A : Type ℓ} → Option A → Text → Result A
ok_or none e = err e
ok_or (some a) e = ok a

unfoldable pub int : Text → Result ℤ
unfolding parse_i64
int s = ok_or (parse_i64 s) not_int

abbrev to_count : ℤ → Result ℕ
to_count (pos n) = ok n
to_count (negsuc n) = err (codes "ERR value is out of range, must be positive")

unfoldable pub count : Text → Result ℕ
unfolding int
count s = int s >>= to_count

-- `u64::try_from` and `i64::try_from`
abbrev pub to_u64 : ℤ → Option ℕ
to_u64 (pos n) = some n
to_u64 (negsuc n) = none

abbrev pub to_i64 : ℕ → Option ℤ
to_i64 n = checked (pos n)

unfoldable pub expiry_at : ℕ → ℤ → ℕ → Bool → Option ℕ
expiry_at now amount unit absolute = elim (checked (times unit amount)) [
  | none ↦ none
  | some ms ↦ if absolute then to_u64 ms else elim (to_i64 now) [
    | none ↦ none
    | some from ↦ elim (checked (ms +ℤ from)) [ none ↦ none | some at ↦ to_u64 at ]
  ]
]

-- A range with negative indexes counting from the end, within `0..len`.
unfoldable pub range_bounds : ℤ → ℤ → ℕ → Option (ℕ × ℕ)
range_bounds start stop len =
    let start' =
      if ltb_ℤ start (pos 0)
      then (if ltb_ℤ (pos len +ℤ start) (pos 0) then pos 0 else pos len +ℤ start)
      else start in
    let last = minus len 1 in
    let stop' =
      if ltb_ℤ stop (pos 0) then pos len +ℤ stop else if ltb_ℤ stop last then stop else last in
    if leb_ℤ start' stop' && ltb_ℤ start' (pos len) then some (above start', above stop') else none

unfoldable pub parse_id : Text → ℕ → Result EntryId
parse_id s missing_seq = elim (split_once b'-' s) [
  | some (ms, seq) ↦ do
    q ← ok_or (parse_u64 seq) bad_id
    m ← ok_or (parse_u64 ms) bad_id
    ok (record { ms = m; seq = q })
  | none ↦ do m ← ok_or (parse_u64 s) bad_id; ok (record { ms = m; seq = missing_seq })
]

-- `strip_prefix('(')`
abbrev pub opened : Text → Option Text
opened [] = none
opened (c ∷ s) = if c == b'(' then some s else none

unfoldable pub range_start : Text → Result EntryId
unfolding parse_id after
range_start s =
    if key_eq s (codes "-")
    then ok zero_id
    else if key_eq s (codes "+")
    then ok max_id
    else elim (opened s) [
      | none ↦ parse_id s 0
      | some rest ↦
          parse_id rest 0 >>= λ id. ok_or (after id) (codes "ERR invalid start ID for the interval")
    ]

-- The id below another.
unfoldable pub before : EntryId → Option EntryId
before id =
    if id.seq == 0
    then (if id.ms == 0 then none else some (record { ms = id.ms - 1; seq = u64_size - 1 }))
    else some (record { ms = id.ms; seq = id.seq - 1 })

unfoldable pub range_end : Text → Result (Option EntryId)
unfolding parse_id before
range_end s =
    if key_eq s (codes "-")
    then ok (some zero_id)
    else if key_eq s (codes "+")
    then ok (some max_id)
    else elim (opened s) [
      | none ↦ parse_id s (u64_size - 1) >>= λ id. ok (some id)
      | some rest ↦ parse_id rest (u64_size - 1) >>= λ id. ok (before id)
    ]
