-- ===== src/Captured.antt =====
-- src/capture.rs: a map that a snapshot can write out as it was at one moment while it goes on
-- changing. What `serde_json` writes for a value is a parameter.
pub mod Maps
pub mod Each
use postino.Prelude.{
  ℕ, ◌+◌, ◌-◌, Bool, true, false, ◌||◌, not, Option, none, some, List, [], ◌∷◌, ◌++◌, length, ltb,
  leb, if◌then◌else◌, is_some_and,
}
use postino.Prelude.Order.{Order, key_le}
use postino.Prelude.Map.{Map, keys, get, insert, remove}
use postino.Prelude.Map.Length.{has_key}
use postino.Prelude.Ranges.{at_most, range_after}
use postino.Prelude.Text.{Result, ok, err, codes}
use postino.Db.Captures.{Bytes, Budget, within, capture_part}

pub record Capture {ℓ} (K : Type ℓ) : Type ℓ where
  pub bound : Option K
  pub cursor : Option K
  pub early : Map K (Unit {0})
  pub parts : List Bytes
  pub out : Bytes
  pub filled : ℕ
  pub written : ℕ
  pub done : Bool
  pub broken : Bool

pub record Captured {ℓ κ} (K : Type ℓ) (V : Type κ) : Type (ℓ ⊔ κ) where
  pub map : Map K V
  pub capture : Option (Capture K)

-- `Captured::default`
abbrev pub nothing {ℓ κ} : {K : Type ℓ} {V : Type κ} → Captured K V
nothing = record { map = []; capture = none }

-- `keys().next_back()`
unfoldable pub last_of {ℓ} : {A : Type ℓ} → List A → Option A
last_of [] = none
last_of (a ∷ []) = some a
last_of (a ∷ b ∷ as_) = last_of (b ∷ as_)

-- What is left where the map has been changed at a key, if it has one.
unfoldable pub change {ℓ κ} :
    {K : Type ℓ} {V : Type κ} ⦃o : Order K⦄ → K → (V → V) → Map K V → Map K V
change k f m = elim (get k m) [ none ↦ m | some v ↦ insert k (f v) m ]

abbrev pub each {ℓ κ} : {K : Type ℓ} {V : Type κ} → (V → V) → Map K V → Map K V
each f [] = []
each f ((k, v) ∷ m) = (k, f v) ∷ each f m

module _ {ℓ} {K : Type ℓ} ⦃o : Order K⦄ where
  unfoldable pub size : Capture K → ℕ
  size c = c.filled + length c.out

  unfoldable pub passed : K → Capture K → Bool
  passed k c = c.done || not (is_some_and c.bound λ b. key_le k b) || at_most c.cursor k

  -- A full part is put away before more is written.
  unfoldable pub roll : Capture K → Capture K
  roll c =
      if leb capture_part (length c.out)
      then record c { parts = c.parts ++ c.out ∷ []; out = []; filled = c.filled + length c.out }
      else c

  -- What follows the comma; a failure cuts `out` back to where it was.
  unfoldable pub append : Capture K → Option Bytes → Capture K
  append c none = record c { broken = true }
  append c (some bytes) = record c {
    out = (if ltb 0 c.written then c.out ++ b',' ∷ [] else c.out) ++ bytes;
    written = c.written + 1;
  }

  unfoldable pub place : Option K → Capture K → Capture K
  place none c = c
  place (some k) c = record c { cursor = some k }

module _ {ℓ κ} {K : Type ℓ} {V : Type κ} ⦃o : Order K⦄ where
  -- `map.range((.., Included(bound)))`
  unfoldable pub up_to : K → Map K V → Map K V
  up_to b [] = []
  up_to b ((k, v) ∷ m) = if key_le k b then (k, v) ∷ up_to b m else []

  module _ (json : V → Option Bytes) where
    unfoldable pub write : V → Capture K → Capture K
    unfolding roll append
    write v c = append (roll c) (json v)

    -- One key of the in-order pass: skipped if it was written early.
    unfoldable pub visit : K → V → Capture K → Capture K
    unfolding write
    visit k v c = if has_key k c.early then record c { early = remove k c.early } else write v c

    -- The `while` loop of `capture_step`: the capture, and the last key of the run.
    unfoldable pub step_loop : Budget → ℕ → Map K V → Option K → Capture K → Capture K × Option K
    unfolding visit size
    step_loop budget start [] last c =
        (if within budget (size c - start) then record c { done = true } else c, last)
    step_loop budget start ((k, v) ∷ run) last c =
        let rest = step_loop budget start run (some k) (visit k v c) in
        if within budget (size c - start) then rest else (c, last)

    -- The body of `capture_step`, of a capture that there is.
    unfoldable pub advance : Budget → Map K V → Capture K → Capture K
    unfolding step_loop place up_to
    advance budget m c = if c.done then c else (elim c.bound [
      | none ↦ record c { done = true }
      | some b ↦
          let (c', last) = step_loop budget (size c) (up_to b (range_after c.cursor m)) none c in
          place last c'
    ])

    -- The body of `preserve`.
    unfoldable pub save : K → Map K V → Capture K → Capture K
    unfolding passed write
    save k m c =
        if passed k c || has_key k c.early
        then c
        else (let c' : Capture K = record c { early = insert k tt c.early } in
            elim (get k m) [ none ↦ c' | some v ↦ write v c' ])

    unfoldable pub preserve : K → Captured K V → Captured K V
    unfolding save
    preserve k c = record c {
      capture = elim c.capture [ none ↦ none | some p ↦ some (save k c.map p) ];
    }

    -- `get_mut`, and what its caller does with the value it is given.
    unfoldable pub get_mut : K → (V → V) → Captured K V → Captured K V
    unfolding preserve change
    get_mut k f c = let c' = preserve k c in record c' { map = change k f c'.map }

    unfoldable pub put : K → V → Captured K V → Captured K V
    unfolding preserve
    put k v c = let c' = preserve k c in record c' { map = insert k v c'.map }

    unfoldable pub take_key : K → Captured K V → Captured K V × Option V
    unfolding preserve
    take_key k c = let c' = preserve k c in (record c' { map = remove k c'.map }, get k c'.map)

    unfoldable pub capture_step : Budget → Captured K V → Captured K V × Bool
    unfolding advance
    capture_step budget c = (
      record c {
        capture = elim c.capture [ none ↦ none | some p ↦ some (advance budget c.map p) ];
      },
      elim c.capture [ none ↦ true | some p ↦ (advance budget c.map p).done ],
    )

    -- `values_mut`, and what its caller does with each value.
    unfoldable pub values_mut : (V → V) → Captured K V → Captured K V
    unfolding capture_step
    values_mut f c = let c' = (capture_step none c).0 in record c' { map = each f c'.map }

    unfoldable pub begin_capture : Bytes → Captured K V → Captured K V
    unfolding last_of
    begin_capture out c =
        let bound = last_of (keys c.map) in
        record c {
          capture = some (record {
            bound = bound;
            cursor = none;
            early = [];
            parts = [];
            out = out;
            filled = 0;
            written = 0;
            done = elim bound [ none ↦ true | some _ ↦ false ];
            broken = false;
          });
        }

    unfoldable pub end_capture : Captured K V → Captured K V × Result (List Bytes)
    unfolding capture_step
    end_capture c =
        let c' = (capture_step none c).0 in
        (
          record c' { capture = none },
          elim c'.capture [
            | none ↦ ok []
            | some p ↦
                if p.broken
                then err (codes "a value could not be serialized")
                else ok (p.parts ++ p.out ∷ [])
          ],
        )

    -- The parts that are ready, and whether that was the last of them.
    unfoldable pub drain_capture : Captured K V → Captured K V × Result (List Bytes × Bool)
    unfolding end_capture
    drain_capture c =
        let (c', parts) = end_capture c in
        elim c.capture [
          | none ↦ (c, ok ([], true))
          | some p ↦
              if p.done
              then (c', elim parts [ ok ps ↦ ok (ps, true) | err e ↦ err e ])
              else (record c { capture = some (record p { parts = [] }) }, ok (p.parts, false))
        ]

  unfoldable pub abandon_capture : Captured K V → Captured K V
  abandon_capture c = record c { capture = none }
