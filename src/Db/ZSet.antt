-- ===== src/Db/ZSet.antt =====
-- src/db.rs, `Score` and `ZSet`: members ordered by score, with an index from member to score.
-- A 64-bit float is its sign and its other 63 bits; `total_cmp` compares those.
pub mod Laws
pub mod Rank
mod Tests
use Prim.Native.Nat.Ordering.{lt, eq, gt}
use postino.Prelude.{
  ℕ, zero, compare, Ordering, ◌≡◌, ◌↔◌, Bool, true, false, Option, none, some, List, [], ◌∷◌, arith,
  if◌then◌else◌, length, ◌==◌,
}
use postino.Prelude.Order.{Order, IsOrder, cmp_pair, pair_order, text_order, key_lt, and_then}
use postino.Prelude.Map.{Map, get, insert, remove, IsSorted}
use postino.Prelude.Text.{Text}

pub data F64 : Type 0 where
  negative : ℕ → F64
  positive : ℕ → F64

-- `f64::total_cmp`
abbrev pub cmp_score : F64 → F64 → Ordering
cmp_score (negative a) (negative b) = compare b a
cmp_score (negative a) (positive b) = lt
cmp_score (positive a) (negative b) = gt
cmp_score (positive a) (positive b) = compare a b

pub cmp_score-IsOrder : IsOrder cmp_score
cmp_score-IsOrder = ground arith

-- `Ord for Score`
instance abbrev pub score_order : Order F64
score_order = record { cmp = cmp_score; laws = cmp_score-IsOrder }

abbrev pub Ranked : Type 0
Ranked = F64 × Text

pub record ZSet : Type 0 where
  pub scores : Map Text F64
  pub order : Map Ranked (Unit {0})

abbrev pub empty : ZSet
empty = record { scores = []; order = [] }

-- `score == 0.0` holds of both zeros.
unfoldable pub one_zero : F64 → F64
one_zero (negative n) = if n == 0 then positive 0 else negative n
one_zero (positive n) = positive n

placed : ZSet → Text → F64 → Option F64 → ZSet × Bool
placed z member score (some old) = (
  record {
    order = insert (score, member) tt (remove (old, member) z.order);
    scores = insert member score z.scores;
  },
  false,
)
placed z member score none = (
  record { order = insert (score, member) tt z.order; scores = insert member score z.scores },
  true,
)

unfoldable pub insert_score : Text → F64 → ZSet → ZSet × Bool
unfolding placed one_zero
insert_score member score z = placed z member (one_zero score) (get member z.scores)

dropped : ZSet → Text → Option F64 → ZSet × Bool
dropped z member (some score) =
    (record { scores = remove member z.scores; order = remove (score, member) z.order }, true)
dropped z member none = (z, false)

unfoldable pub remove_member : Text → ZSet → ZSet × Bool
unfolding dropped
remove_member member z = dropped z member (get member z.scores)

unfoldable pub len : ZSet → ℕ
len z = length z.scores

-- `order.range(..bound).count()`
unfoldable pub count_below : Ranked → Map Ranked (Unit {0}) → ℕ
count_below bound [] = 0
count_below bound ((r, _) ∷ m) =
    if key_lt r bound then Prim.Native.Nat.suc (count_below bound m) else 0

unfoldable pub rank : Text → ZSet → Option ℕ
unfolding count_below
rank member z = elim (get member z.scores) [
  | none ↦ none
  | some score ↦ some (count_below (score, member) z.order)
]

-- The two indexes hold the same members with the same scores.
pub record IsValid (z : ZSet) : Type 0 where
  pub scores_sorted : IsSorted z.scores
  pub order_sorted : IsSorted z.order
  pub agree : (s : F64) (m : Text) → (get (s, m) z.order ≡ some tt) ↔ (get m z.scores ≡ some s)
