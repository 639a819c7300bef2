-- ===== src/Db/ZSet/Tests.antt =====
-- Runs of src/db.rs, `ZSet`.
use postino.Prelude.{ℕ, ◌⊎◌, ◌≡◌, ◌↔◌, refl, true, false, none, some, [], ◌∷◌, get_elem?}
use postino.Prelude.Order.{text_order, pair_order, key_eq}
use postino.Prelude.Map.{get, insert, remove}
use postino.Prelude.Text.{Text, codes}
use postino.Db.ZSet.{
  F64, ZSet, negative, positive, empty, one_zero, insert_score, placed, remove_member, rank,
  count_below, IsValid,
}
use postino.Db.ZSet.Laws.{insert_score-IsValid, remove_member-IsValid}
use postino.Db.ZSet.Rank.{rank-position}

-- Two members, the second below the first.
abbrev two : ZSet
two = record {
  scores = (codes "a", positive 5) ∷ (codes "b", negative 3) ∷ [];
  order = ((negative 3, codes "b"), tt) ∷ ((positive 5, codes "a"), tt) ∷ [];
}

ranked : rank (codes "a") two ≡ some 1
unfolding rank count_below get
ranked = refl

moved :
    (insert_score (codes "a") (negative 0) two).0.order
    ≡ ((negative 3, codes "b"), tt) ∷ ((positive 0, codes "a"), tt) ∷ []
unfolding insert_score placed one_zero get insert remove
moved = refl

empty-IsValid : IsValid empty
unfolding get
empty-IsValid = record { scores_sorted = tt; order_sorted = tt; agree = λ s m. (λ h. cc, λ h. cc) }

-- The same two members, put in one after the other.
abbrev built : ZSet
built = (insert_score (codes "b") (negative 3) (insert_score (codes "a") (positive 5) empty).0).0

built-IsValid : IsValid built
built-IsValid =
    let a = insert_score-IsValid empty (codes "a") (positive 5) empty-IsValid in
    let b =
      insert_score-IsValid (insert_score (codes "a") (positive 5) empty).0 (codes "b") (negative 3)
        a.0 in
    b.0

insert_score-IsValid_example :
    IsValid (insert_score (codes "a") (negative 0) built).0
    × (((insert_score (codes "a") (negative 0) built).1 ≡ true)
        ↔ (get (codes "a") built.scores ≡ none))
    × ((stored : F64) × (get (codes "a") (insert_score (codes "a") (negative 0) built).0.scores
          ≡ some stored)
        × ¬ (stored ≡ negative 0)
        × ((stored ≡ negative 0) ⊎ ((negative 0 ≡ negative 0) × (stored ≡ positive 0))))
    × ((m : Text)
        → key_eq m (codes "a") ≡ false
        → get m (insert_score (codes "a") (negative 0) built).0.scores ≡ get m built.scores)
insert_score-IsValid_example = insert_score-IsValid built (codes "a") (negative 0) built-IsValid

remove_member-IsValid_example :
    IsValid (remove_member (codes "a") built).0
    × (((remove_member (codes "a") built).1 ≡ false) ↔ (get (codes "a") built.scores ≡ none))
    × ((m : Text)
        → get m (remove_member (codes "a") built).0.scores
          ≡ get m (remove (codes "a") built.scores))
remove_member-IsValid_example = remove_member-IsValid built (codes "a") built-IsValid

built-a : get (codes "a") built.scores ≡ some (positive 5)
unfolding insert_score placed one_zero get insert remove
built-a = refl

rank-position_example :
    (n : ℕ) × (rank (codes "a") built ≡ some n)
    × (get_elem? built.order n ≡ some ((positive 5, codes "a"), tt))
rank-position_example = rank-position built (codes "a") (positive 5) built-IsValid built-a
