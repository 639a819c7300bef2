-- ===== src/Db/ZSet/Rank.antt =====
-- The rank of a member: src/db.rs, `ZSet::rank`.
use Prim.Native.Nat.Ordering.{lt}
use postino.Prelude.{ℕ, ◌≡◌, refl, some, [], ◌∷◌, arith, get_elem?}
use postino.Prelude.Order.{pair_order, text_order, cmp_pair}
use postino.Prelude.Map.{Map, Above, IsSorted, get}
use postino.Prelude.Text.{Text}
use postino.Db.ZSet.{F64, Ranked, ZSet, IsValid, count_below, rank, score_order}
open pair_order {A = F64} {B = Text} use {eq_of_cmp, gt_of_lt, cmp_refl}

Above-get :
    (r k : Ranked) (m : Map Ranked (Unit {0})) → Above r m → get k m ≡ some tt → cmp_pair r k ≡ lt
unfolding get
Above-get r k [] a e = cc
Above-get r k ((i, _) ∷ m) a e = ground (arith, Above-get r k m a.1, eq_of_cmp k i)

count_below-position :
    (k : Ranked) (m : Map Ranked (Unit {0}))
    → IsSorted m
    → get k m ≡ some tt
    → get_elem? m (count_below k m) ≡ some (k, tt)
unfolding get count_below
count_below-position k [] s e = cc
count_below-position k ((r, _) ∷ m) s e = ground (
  arith,
  count_below-position k m s.1,
  Above-get r k m s.0,
  eq_of_cmp k r,
  eq_of_cmp r k,
  gt_of_lt r k,
  cmp_refl k,
)

-- In a valid sorted set, the rank of a member with a score is its position in the order by score and
-- name.
pub rank-position :
    (z : ZSet) (member : Text) (score : F64)
    → IsValid z
    → get member z.scores ≡ some score
    → (n : ℕ) × (rank member z ≡ some n) × (get_elem? z.order n ≡ some ((score, member), tt))
unfolding rank
rank-position z member score v e =
    rw (e, rank)
      (
        count_below (score, member) z.order,
        refl,
        count_below-position (score, member) z.order v.order_sorted ((v.agree score member).1 e),
      )
