-- ===== src/Db/ZSet/Laws.antt =====
-- The two indexes of src/db.rs, `ZSet`, stay in step.
use postino.Prelude.{
  zero, suc, ◌⊎◌, ◌≡◌, ◌↔◌, refl, true, false, none, some, arith, inl, inr, Option-cases,
}
use postino.Prelude.Order.{pair_order, text_order, key_eq, cmp_text-IsOrder}
use postino.Prelude.Map.{
  get, insert, remove, get-insert, get-remove, insert-IsSorted, remove-IsSorted,
}
use postino.Prelude.Text.{Text}
use postino.Db.ZSet.{
  F64, negative, positive, ZSet, IsValid, insert_score, remove_member, placed, dropped, one_zero,
  score_order, cmp_score-IsOrder,
}
open cmp_text-IsOrder use {eq_of_cmp as text_eq, cmp_refl as text_refl}
open cmp_score-IsOrder use {eq_of_cmp as score_eq, cmp_refl as score_refl}

fresh_agree :
    (z : ZSet) (member : Text) (score : F64)
    → IsValid z
    → get member z.scores ≡ none
    → (s : F64) (m : Text)
    → (get (s, m) (insert (score, member) tt z.order) ≡ some tt)
      ↔ (get m (insert member score z.scores) ≡ some s)
fresh_agree z member score v e s m =
    rw (get-insert (score, member) (s, m) tt z.order, get-insert member m score z.scores)
      (ground (arith, v.agree s m, text_eq m member, score_eq s score, score_refl s))

known_agree :
    (z : ZSet) (member : Text) (score old : F64)
    → IsValid z
    → get member z.scores ≡ some old
    → (s : F64) (m : Text)
    → (get (s, m) (insert (score, member) tt (remove (old, member) z.order)) ≡ some tt)
      ↔ (get m (insert member score z.scores) ≡ some s)
known_agree z member score old v e s m =
    rw
      (
        get-insert (score, member) (s, m) tt (remove (old, member) z.order),
        get-remove (old, member) (s, m) z.order,
        get-insert member m score z.scores,
      )
      (ground
        (arith, v.agree s m, text_eq m member, score_eq s score, score_eq s old, score_refl s))

removed_agree :
    (z : ZSet) (member : Text) (old : F64)
    → IsValid z
    → get member z.scores ≡ some old
    → (s : F64) (m : Text)
    → (get (s, m) (remove (old, member) z.order) ≡ some tt)
      ↔ (get m (remove member z.scores) ≡ some s)
removed_agree z member old v e s m =
    rw (get-remove (old, member) (s, m) z.order, get-remove member m z.scores)
      (ground (arith, v.agree s m, text_eq m member, score_eq s old, score_refl s))

-- A float is kept as it is, but for the negative zero, which becomes the positive one.
one_zero-same :
    (score : F64)
    → ¬ (one_zero score ≡ negative 0)
      × ((one_zero score ≡ score) ⊎ ((score ≡ negative 0) × (one_zero score ≡ positive 0)))
unfolding one_zero
one_zero-same (negative zero) = ground arith
one_zero-same (negative (suc n)) = ground arith
one_zero-same (positive n) = ground arith

-- What an insertion leaves, for a score that is already without a negative zero.
placed-IsValid :
    (z : ZSet) (member : Text) (score : F64)
    → IsValid z
    → IsValid (placed z member score (get member z.scores)).0
      × (((placed z member score (get member z.scores)).1 ≡ true) ↔ (get member z.scores ≡ none))
      × ((placed z member score (get member z.scores)).0.scores ≡ insert member score z.scores)
unfolding placed
placed-IsValid z member score v = elim (Option-cases (get member z.scores)) [
  | inl e ↦ rw e (
    record {
      scores_sorted = insert-IsSorted member score z.scores v.scores_sorted;
      order_sorted = insert-IsSorted (score, member) tt z.order v.order_sorted;
      agree = fresh_agree z member score v e;
    },
    ground arith,
    refl,
  )
  | inr (old, e) ↦ rw e (
    record {
      scores_sorted = insert-IsSorted member score z.scores v.scores_sorted;
      order_sorted =
          insert-IsSorted (score, member) tt (remove (old, member) z.order)
            (remove-IsSorted (old, member) z.order v.order_sorted);
      agree = known_agree z member score old v e;
    },
    ground arith,
    refl,
  )
]

-- In a valid sorted set, setting a score keeps the indexes in step and says whether the member is
-- new. The member then has the score that was given, or the positive zero where that was the
-- negative one, which is never stored; each other member has the score it had.
pub insert_score-IsValid :
    (z : ZSet) (member : Text) (score : F64)
    → IsValid z
    → IsValid (insert_score member score z).0
      × (((insert_score member score z).1 ≡ true) ↔ (get member z.scores ≡ none))
      × ((stored : F64) × (get member (insert_score member score z).0.scores ≡ some stored)
          × ¬ (stored ≡ negative 0)
          × ((stored ≡ score) ⊎ ((score ≡ negative 0) × (stored ≡ positive 0))))
      × ((m : Text)
          → key_eq m member ≡ false
          → get m (insert_score member score z).0.scores ≡ get m z.scores)
unfolding insert_score
insert_score-IsValid z member score v =
    let (valid, new, scores) = placed-IsValid z member (one_zero score) v in
    (
      valid,
      new,
      (
        one_zero score,
        rw (scores, get-insert member member (one_zero score) z.scores)
            (ground (arith, text_refl member)),
        (one_zero-same score).0,
        (one_zero-same score).1,
      ),
      λ m other. rw (scores, get-insert member m (one_zero score) z.scores) (ground (arith, other)),
    )

-- In a valid sorted set, removing a member keeps the indexes in step and says whether there was one;
-- each member then has the score it has after that one is removed.
pub remove_member-IsValid :
    (z : ZSet) (member : Text)
    → IsValid z
    → IsValid (remove_member member z).0
      × (((remove_member member z).1 ≡ false) ↔ (get member z.scores ≡ none))
      × ((m : Text) → get m (remove_member member z).0.scores ≡ get m (remove member z.scores))
unfolding remove_member dropped
remove_member-IsValid z member v = elim (Option-cases (get member z.scores)) [
  | inl e ↦
      rw e
        (v, ground arith, λ m. rw (get-remove member m z.scores) (ground (arith, text_eq m member)))
  | inr (old, e) ↦ rw e (
    record {
      scores_sorted = remove-IsSorted member z.scores v.scores_sorted;
      order_sorted = remove-IsSorted (old, member) z.order v.order_sorted;
      agree = removed_agree z member old v e;
    },
    ground arith,
    λ m. refl,
  )
]
