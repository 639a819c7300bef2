-- ===== src/Prelude/Ranges.antt =====
-- Maps read from a key on, and pairs written one after another.
use Prim.Native.Nat.Ordering.{lt}
use mathlib.Core.Path.{◌≡◌, refl}
use mathlib.Core.Bool.{Bool, true, false}
use mathlib.Core.List.{List, [], ◌∷◌, ◌++◌}
use mathlib.Core.Option.{Option, none, some}
use native.Mathlib.Omega.{arith}
use postino.Prelude.Tests.{if◌then◌else◌, is_some_and}
use postino.Prelude.Order.{Order, key_eq, key_lt, key_le}
use postino.Prelude.Map.{Map, get, after, Above, IsSorted, IsDistinct, get-Above, Above-trans}

-- `key <= cursor`, for a cursor that may not be set
abbrev pub at_most {ℓ} : {K : Type ℓ} ⦃o : Order K⦄ → Option K → K → Bool
at_most cursor k = is_some_and cursor λ c. key_le k c

module _ {ℓ κ} {K : Type ℓ} {V : Type κ} ⦃o : Order K⦄ where
  pub get-append :
      (k : K) (ps qs : List (K × V))
      → get k (ps ++ qs) ≡ elim (get k ps) [ none ↦ get k qs | some v ↦ some v ]
  unfolding get
  get-append k [] qs = refl
  get-append k ((j, v) ∷ ps) qs = ground (arith, get-append k ps qs)

  pub get-snoc :
      (k j : K) (v : V) (ps : List (K × V))
      → get k (ps ++ (j, v) ∷ [])
        ≡ elim (get k ps) [ none ↦ (if key_eq k j then some v else none) | some w ↦ some w ]
  unfolding get
  get-snoc k j v ps = get-append k ps ((j, v) ∷ [])

  pub IsDistinct-snoc :
      (k : K) (v : V) (ps : List (K × V))
      → IsDistinct ps
      → get k ps ≡ none
      → IsDistinct (ps ++ (k, v) ∷ [])
  unfolding get
  IsDistinct-snoc k v [] d h = (refl, tt)
  IsDistinct-snoc k v ((j, w) ∷ ps) d h =
      ground
        (arith, IsDistinct-snoc k v ps d.1, get-snoc j k v ps, o.eq_of_cmp j k, o.cmp_refl k, d.0)

  unfoldable pub range_after : Option K → Map K V → Map K V
  range_after none m = m
  range_after (some c) m = after c m

  after_self : (k : K) (m : Map K V) → Above k m → after k m ≡ m
  unfolding after
  after_self k [] a = refl
  after_self k ((j, w) ∷ m) a = ground (arith, a.0)

  -- What the head of a range says of the map: it is there, past the cursor, nothing lies between,
  -- and the rest is the range after it.
  abbrev pub IsNext : Map K V → Option K → K → V → Map K V → Type (ℓ ⊔ κ)
  IsNext m cursor k v run =
      (get k m ≡ some v)
      × (at_most cursor k ≡ false)
      × ((j : K) → at_most cursor j ≡ false → key_lt j k ≡ true → get j m ≡ none)
      × (after k m ≡ run)

  Above-after :
      (j c k : K) (v : V) (m run : Map K V) → Above j m → after c m ≡ (k, v) ∷ run → o.cmp j k ≡ lt
  unfolding after
  Above-after j c k v [] run a e = cc
  Above-after j c k v ((i, w) ∷ m) run a e = ground (arith, Above-after j c k v m run a.1, a.0)

  after-Above : (j c : K) (m : Map K V) → Above j m → Above j (after c m)
  unfolding after
  after-Above j c [] a = tt
  after-Above j c ((i, w) ∷ m) a = ground (arith, after-Above j c m a.1, a.0, a.1)

  pub after-IsSorted : (c : K) (m : Map K V) → IsSorted m → IsSorted (after c m)
  unfolding after
  after-IsSorted c [] s = tt
  after-IsSorted c ((i, w) ∷ m) s = ground (arith, after-IsSorted c m s.1, s.0, s.1)

  pub get-after :
      (j c : K) (m : Map K V)
      → IsSorted m
      → get j (after c m) ≡ (if key_lt c j then get j m else none)
  unfolding get after
  get-after j c [] s = ground arith
  get-after j c ((i, w) ∷ m) s = ground (
    arith,
    get-after j c m s.1,
    o.eq_of_cmp j i,
    o.gt_of_lt j i,
    o.lt_of_gt j i,
    o.lt_trans c i j,
    Above-trans j i m,
    get-Above j m,
    o.gt_of_lt c j,
    o.lt_of_gt c j,
    o.eq_of_cmp c j,
    o.cmp_refl c,
    o.eq_of_cmp c i,
    o.lt_of_gt c i,
    o.lt_trans j c i,
    o.lt_trans j i c,
    s.0,
  )

  after-after :
      (c k : K) (v : V) (m run : Map K V) → IsSorted m → after c m ≡ (k, v) ∷ run → after k m ≡ run
  unfolding after
  after-after c k v [] run s e = cc
  after-after c k v ((i, w) ∷ m) run s e = ground (
    arith,
    after-after c k v m run s.1,
    Above-after i c k v m run s.0,
    after_self i m s.0,
    o.gt_of_lt i k,
    o.cmp_refl i,
  )

  not_between :
      (j k : K) (v : V) (run : Map K V)
      → IsSorted ((k, v) ∷ run)
      → key_lt j k ≡ true
      → get j ((k, v) ∷ run) ≡ none
  unfolding get
  not_between j k v run s h = ground (arith, get-Above j run, Above-trans j k run, s.0)

  after-IsNext :
      (c k : K) (v : V) (m run : Map K V)
      → IsSorted m
      → after c m ≡ (k, v) ∷ run
      → IsNext m (some c) k v run
  after-IsNext c k v m run s e =
      let there = rw e at (get-after k c m s) in
      let sorted = rw e at (after-IsSorted c m s) in
      (
        unfold get in ground (arith, there, o.cmp_refl k),
        unfold get in ground (arith, there, o.cmp_refl k, o.gt_of_lt c k),
        λ j past below. ground (
          arith,
          rw e at (get-after j c m s),
          not_between j k v run sorted below,
          o.lt_of_gt j c,
        ),
        after-after c k v m run s e,
      )

  pub range_after-IsNext :
      (cursor : Option K) (k : K) (v : V) (m run : Map K V)
      → IsSorted m
      → range_after cursor m ≡ (k, v) ∷ run
      → IsNext m cursor k v run
  unfolding range_after
  range_after-IsNext (some c) k v m run s e = after-IsNext c k v m run s e
  range_after-IsNext none k v [] run s e = cc
  range_after-IsNext none k v ((i, w) ∷ m) run s e =
      unfold get after in
      (
        ground (arith, o.cmp_refl k),
        refl,
        λ j past below. ground (arith, not_between j i w m s),
        ground (arith, o.cmp_refl i, after_self i m s.0),
      )

  pub range_after-nil :
      (cursor : Option K) (m : Map K V)
      → IsSorted m
      → range_after cursor m ≡ []
      → (j : K) → at_most cursor j ≡ false
      → get j m ≡ none
  unfolding range_after get
  range_after-nil none m s e j past = ground arith
  range_after-nil (some c) m s e j past =
      ground (arith, rw e at (get-after j c m s), o.lt_of_gt j c)
