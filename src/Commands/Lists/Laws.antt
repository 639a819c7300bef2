-- ===== src/Commands/Lists/Laws.antt =====
-- What is pushed, popped, read, trimmed and removed, of a list.
use Prim.Native.Nat.{zero, suc}
use postino.Prelude.{
  ℕ, ◌+◌, ◌-◌, ◌≤◌, ◌≡◌, refl, sym, ap, ◌∙◌, Bool, true, false, some, List, [], ◌∷◌, ◌++◌, length,
  drop, take, arith, if◌then◌else◌, append-nil, append_assoc, Bool-cases, Option-cases, inl, inr,
}
use postino.Prelude.Order.{key_eq, text_order}
use postino.Prelude.Text.{Text, u64_size}
use postino.Prelude.Int.{ℤ, pos, negsuc}
use postino.Commands.Args.{range_bounds}
use postino.Commands.Lists.{
  push_all, pop_back, pop, pop_loop, ltrim_items, lrange_items, rem_front, rem_back, lrem_items,
}

abbrev pub reversed : List Text → List Text
reversed [] = []
reversed (x ∷ xs) = reversed xs ++ x ∷ []

pop_back-snoc : (l : List Text) (x : Text) → pop_back (l ++ x ∷ []) ≡ some (x, l)
unfolding pop_back
pop_back-snoc [] x = refl
pop_back-snoc (y ∷ l) x = rw (pop_back-snoc l x) refl

take-nil : (n : ℕ) → take {A = Text} n [] ≡ []
take-nil zero = refl
take-nil (suc n) = refl

drop-take : (a n : ℕ) (l : List Text) → drop a (take n l) ≡ take (n - a) (drop a l)
drop-take zero n l = let e : n ≡ n - 0 = omega arith in ap (λ k. take k l) e
drop-take (suc a) zero l =
    let e : 0 ≡ 0 - suc a = omega arith in ap (λ k. take k (drop (suc a) l)) e
drop-take (suc a) (suc n) [] = sym (take-nil (suc n - suc a))
drop-take (suc a) (suc n) (x ∷ l) =
    let e : n - a ≡ suc n - suc a = omega arith in drop-take a n l ∙ ap (λ k. take k (drop a l)) e

-- LTRIM leaves what LRANGE reads with the same bounds.
pub ltrim_items-lrange_items :
    (start stop : ℤ) (l : List Text) → ltrim_items start stop l ≡ lrange_items start stop l
unfolding ltrim_items lrange_items
ltrim_items-lrange_items start stop l = elim (Option-cases (range_bounds start stop (length l))) [
  | inl outside ↦ rw (ltrim_items, lrange_items, outside) refl
  | inr ((a, b), within) ↦ rw (ltrim_items, lrange_items, within) (drop-take a (b + 1) l)
]

rem_front-length :
    (max : ℕ) (value : Text) (l : List Text)
    → (length (rem_front max value l).0 + (rem_front max value l).1 ≡ length l)
      × ((rem_front max value l).1 ≤ max)
unfolding rem_front
rem_front-length max value [] = (omega arith, omega arith)
rem_front-length zero value (x ∷ l) = (omega arith, omega arith)
rem_front-length (suc m) value (x ∷ l) = elim (Bool-cases (key_eq x value)) [
  | inl same ↦ let h = rem_front-length m value l in (ground (arith, same), ground (arith, same))
  | inr other ↦
      let h = rem_front-length (suc m) value l in (ground (arith, other), ground (arith, other))
]

rem_back-length :
    (max : ℕ) (value : Text) (l : List Text)
    → (length (rem_back max value l).0 + (rem_back max value l).1 ≡ length l)
      × ((rem_back max value l).1 ≤ max)
unfolding rem_back
rem_back-length max value [] = (omega arith, omega arith)
rem_back-length max value (x ∷ l) =
    let h = rem_back-length max value l in (ground arith, ground arith)

-- How many items LREM may remove: any number where the limit is 0.
abbrev pub most : ℤ → ℕ
most (pos zero) = u64_size - 1
most (pos (suc n)) = suc n
most (negsuc n) = suc n

-- LREM answers how many items are gone, and that is within the limit.
pub lrem_items-length :
    (limit : ℤ) (value : Text) (l : List Text)
    → (length (lrem_items limit value l).0 + (lrem_items limit value l).1 ≡ length l)
      × ((lrem_items limit value l).1 ≤ most limit)
unfolding lrem_items
lrem_items-length (pos zero) value l = rem_front-length (u64_size - 1) value l
lrem_items-length (pos (suc n)) value l = rem_front-length (suc n) value l
lrem_items-length (negsuc n) value l = rem_back-length (suc n) value l

pop-push :
    (left : Bool) (x : Text) (l : List Text)
    → pop left (if left then x ∷ l else l ++ x ∷ []) ≡ some (x, l)
pop-push true x l = refl
pop-push false x l = pop_back-snoc l x

pop_one :
    (left : Bool) (x : Text) (l : List Text) (k : ℕ)
    → pop_loop left (suc k) (if left then x ∷ l else l ++ x ∷ [])
      ≡ (x ∷ (pop_loop left k l).0, (pop_loop left k l).1)
unfolding pop_loop
pop_one left x l k = rw (pop_loop, pop-push left x l) refl

-- What popping gives after more was pushed.
pop_more :
    (left : Bool) (xs l : List Text) (k : ℕ)
    → pop_loop left (length xs + k) (push_all left xs l)
      ≡ (reversed xs ++ (pop_loop left k l).0, (pop_loop left k l).1)
unfolding push_all
pop_more left [] l k = let e : 0 + k ≡ k = omega arith in ap (λ n. pop_loop left n l) e
pop_more left (x ∷ xs) l k =
    let e : suc (length xs) + k ≡ length xs + suc k = omega arith in
    let l' = if left then x ∷ l else l ++ x ∷ [] in
    ap (λ n. pop_loop left n (push_all left xs l')) e
    ∙ pop_more left xs l' (suc k)
    ∙ rw (pop_one left x l k) (rw (append_assoc (reversed xs)) refl)

-- Popping from one end as many items as were pushed there gives them back, the last first, and the list as
-- it was.
pub pop_loop-push_all :
    (left : Bool) (xs l : List Text)
    → pop_loop left (length xs) (push_all left xs l) ≡ (reversed xs, l)
unfolding pop_loop
pop_loop-push_all left xs l =
    let e : length xs ≡ length xs + 0 = omega arith in
    ap (λ n. pop_loop left n (push_all left xs l)) e
    ∙ pop_more left xs l 0
    ∙ ap (λ ys. (ys, l)) (append-nil (reversed xs))
