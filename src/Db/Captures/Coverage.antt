-- ===== src/Db/Captures/Coverage.antt =====
-- Which keys a capture has dealt with: src/db.rs, `Capture::passed`, `Db::preserve` and the pass of
-- `Db::capture_step`.
use Prim.Native.Nat.Ordering.{lt}
use postino.Prelude.{
  ◌≡◌, ap, ◌∙◌, inl, inr, Bool, Bool-cases, true, false, ◌||◌, Option, none, some, [], ◌∷◌, ◌++◌,
  arith,
}
use postino.Prelude.Order.{text_order, key_eq, cmp_text-IsOrder, cmp_text}
use postino.Prelude.Map.{Map, get, insert, remove, IsSorted, IsDistinct, get-insert, get-remove}
use postino.Prelude.Ranges.{at_most, get-snoc, IsDistinct-snoc, IsNext}
use postino.Prelude.Text.{Text}
use postino.Db.Value.{Entry}
use postino.Db.Captures.{contains}
use postino.Db.Captures.Output.{Pairs}
open cmp_text-IsOrder use {eq_of_cmp, cmp_refl, lt_of_gt, gt_of_lt, lt_trans}

-- A key that the capture has passed, or written or noted early.
abbrev pub reached : Bool → Option Text → Map Text (Unit {0}) → Text → Bool
reached done cursor early k = done || at_most cursor k || contains k early

-- `origin` is the keyspace when the capture began, `ws` the pairs written since, `m` the keyspace
-- now. What was reached is written as it was; what was not is unchanged and not written.
pub record Covers (origin : Map Text Entry) (ws : Pairs) (m : Map Text Entry) (done : Bool)
    (cursor : Option Text) (early : Map Text (Unit {0})) : Type 0 where
  pub sorted : IsSorted m
  pub distinct : IsDistinct ws
  pub old : (k : Text) → reached done cursor early k ≡ true → get k ws ≡ get k origin
  pub unwritten : (k : Text) → reached done cursor early k ≡ false → get k ws ≡ none
  pub unchanged : (k : Text) → reached done cursor early k ≡ false → get k m ≡ get k origin

at_most-lt :
    (cursor : Option Text) (j k : Text)
    → at_most cursor j ≡ true
    → at_most cursor k ≡ false
    → cmp_text j k ≡ lt
at_most-lt none j k h p = cc
at_most-lt (some c) j k h p =
    ground (arith, eq_of_cmp j c, lt_of_gt k c, lt_trans j c k, lt_of_gt c k, gt_of_lt c k)

module _ {origin : Map Text Entry} {ws : Pairs} {m : Map Text Entry} {done : Bool}
    {cursor : Option Text} {early : Map Text (Unit {0})}
    (v : Covers origin ws m done cursor early) where
  apart :
      (j k : Text)
      → reached done cursor early k ≡ true
      → reached done cursor early j ≡ false
      → key_eq j k ≡ false
  apart j k r h = elim (Bool-cases (key_eq j k)) [
    | inl same ↦ cc (ap (reached done cursor early) (eq_of_cmp j k (ground arith)))
    | inr other ↦ other
  ]

  -- The keyspace may change where the capture has been.
  pub change-Covers :
      (k : Text) (m' : Map Text Entry)
      → reached done cursor early k ≡ true
      → IsSorted m'
      → ((j : Text) → key_eq j k ≡ false → get j m' ≡ get j m)
      → Covers origin ws m' done cursor early
  change-Covers k m' r s same = record {
    sorted = s;
    distinct = v.distinct;
    old = v.old;
    unwritten = v.unwritten;
    unchanged = λ j h. same j (apart j k r h) ∙ v.unchanged j h;
  }

  -- A missing key is noted.
  pub note-Covers :
      (k : Text)
      → reached done cursor early k ≡ false
      → get k m ≡ none
      → Covers origin ws m done cursor (insert k tt early)
  note-Covers k r e = record {
    sorted = v.sorted;
    distinct = v.distinct;
    old = λ j h.
        ground (
          arith,
          v.old j,
          v.unwritten k r,
          v.unchanged k r,
          get-insert k j tt early,
          eq_of_cmp j k,
        );
    unwritten = λ j h. ground (arith, v.unwritten j, get-insert k j tt early);
    unchanged = λ j h. ground (arith, v.unchanged j, get-insert k j tt early);
  }

  -- A key that is about to change is written early.
  pub early-Covers :
      (k : Text) (e : Entry)
      → reached done cursor early k ≡ false
      → get k m ≡ some e
      → Covers origin (ws ++ (k, e) ∷ []) m done cursor (insert k tt early)
  early-Covers k e r h = record {
    sorted = v.sorted;
    distinct = IsDistinct-snoc k e ws v.distinct (v.unwritten k r);
    old = λ j p. ground (
      arith,
      v.old j,
      v.unwritten j,
      v.unwritten k r,
      v.unchanged k r,
      get-insert k j tt early,
      eq_of_cmp j k,
      get-snoc j k e ws,
    );
    unwritten = λ j p. ground (arith, v.unwritten j, get-insert k j tt early, get-snoc j k e ws);
    unchanged = λ j p. ground (arith, v.unchanged j, get-insert k j tt early);
  }

module _ {origin : Map Text Entry} {ws : Pairs} {m run : Map Text Entry} {cursor : Option Text}
    {early : Map Text (Unit {0})} (v : Covers origin ws m false cursor early) (k : Text) (e : Entry)
    (next : IsNext m cursor k e run) where
  -- The pass goes over a key that was written early.
  pub skip-Covers : contains k early ≡ true → Covers origin ws m false (some k) (remove k early)
  skip-Covers h = record {
    sorted = v.sorted;
    distinct = v.distinct;
    old = λ j p. ground (
      arith,
      v.old j,
      v.unwritten j,
      v.unchanged j,
      next.2 j,
      eq_of_cmp j k,
      get-remove k j early,
    );
    unwritten = λ j p.
        ground (
          arith,
          v.unwritten j,
          at_most-lt cursor j k,
          next.1,
          eq_of_cmp j k,
          get-remove k j early,
        );
    unchanged = λ j p.
        ground (
          arith,
          v.unchanged j,
          at_most-lt cursor j k,
          next.1,
          eq_of_cmp j k,
          get-remove k j early,
        );
  }

  -- The pass writes a key that was not.
  pub pass-Covers :
      contains k early ≡ false → Covers origin (ws ++ (k, e) ∷ []) m false (some k) early
  pass-Covers h = record {
    sorted = v.sorted;
    distinct = IsDistinct-snoc k e ws v.distinct (ground (arith, v.unwritten k, next.1));
    old = λ j p. ground (
      arith,
      v.old j,
      v.unwritten j,
      v.unchanged j,
      next.0,
      next.1,
      next.2 j,
      eq_of_cmp j k,
      get-snoc j k e ws,
    );
    unwritten = λ j p.
        ground (arith, v.unwritten j, at_most-lt cursor j k, next.1, cmp_refl k, get-snoc j k e ws);
    unchanged = λ j p. ground (arith, v.unchanged j, at_most-lt cursor j k, next.1);
  }

-- The pass ends when no key is left past the cursor.
pub finish-Covers :
    {origin : Map Text Entry} {ws : Pairs} {m : Map Text Entry} {cursor : Option Text}
    {early : Map Text (Unit {0})}
    → Covers origin ws m false cursor early
    → ((j : Text) → at_most cursor j ≡ false → get j m ≡ none)
    → Covers origin ws m true cursor early
finish-Covers {cursor} v nothing = record {
  sorted = v.sorted;
  distinct = v.distinct;
  old = λ j p. ground (arith, v.old j, v.unwritten j, v.unchanged j, nothing j);
  unwritten = λ j p. cc;
  unchanged = λ j p. cc;
}

-- Once every key is reached, the keyspace may become anything.
pub over-Covers :
    {origin : Map Text Entry} {ws : Pairs} {m : Map Text Entry} {done : Bool} {cursor : Option Text}
    {early : Map Text (Unit {0})} (m' : Map Text Entry)
    → Covers origin ws m done cursor early
    → done ≡ true
    → IsSorted m'
    → Covers origin ws m' done cursor early
over-Covers m' v over s = record {
  sorted = s;
  distinct = v.distinct;
  old = v.old;
  unwritten = v.unwritten;
  unchanged = λ j p. ground arith;
}
