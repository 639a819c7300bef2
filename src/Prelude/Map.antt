-- ===== src/Prelude/Map.antt =====
-- The standard library's `BTreeMap`: an association list in the order of its keys. A `BTreeSet` is
-- a map into `Unit`, and so is a `HashSet`, whose order nothing here reads.
pub mod Length
pub mod Count
use Prim.Native.Nat.Ordering.{lt, eq, gt}
use mathlib.Core.Path.{◌≡◌, refl}
use mathlib.Core.List.{List, [], ◌∷◌}
use mathlib.Core.Option.{Option, none, some}
use native.Mathlib.Omega.{arith}
use postino.Prelude.Tests.{if◌then◌else◌}
use postino.Prelude.Order.{Order, key_eq, key_lt}

abbrev pub Map {ℓ κ} : Type ℓ → Type κ → Type (ℓ ⊔ κ)
Map K V = List (K × V)

-- `map.keys()`
abbrev pub keys {ℓ κ} : {K : Type ℓ} {V : Type κ} → Map K V → List K
keys [] = []
keys ((k, v) ∷ m) = k ∷ keys m

module _ {ℓ κ} {K : Type ℓ} {V : Type κ} ⦃o : Order K⦄ where
  unfoldable pub get : K → Map K V → Option V
  get k [] = none
  get k ((j, w) ∷ m) = if key_eq k j then some w else get k m

  unfoldable pub insert : K → V → Map K V → Map K V
  insert k v [] = (k, v) ∷ []
  insert k v ((j, w) ∷ m) = elim (o.cmp k j) [
    | eq ↦ (k, v) ∷ m
    | lt ↦ (k, v) ∷ (j, w) ∷ m
    | gt ↦ (j, w) ∷ insert k v m
  ]

  unfoldable pub remove : K → Map K V → Map K V
  remove k [] = []
  remove k ((j, w) ∷ m) = if key_eq k j then remove k m else (j, w) ∷ remove k m

  -- `pairs.collect()`: a later pair replaces an earlier one with its key.
  unfoldable pub collect : List (K × V) → Map K V → Map K V
  collect [] m = m
  collect ((k, v) ∷ ps) m = collect ps (insert k v m)

  -- `map.range((Excluded(k), Unbounded))`
  unfoldable pub after : K → Map K V → Map K V
  after k [] = []
  after k ((j, w) ∷ m) = if key_lt k j then (j, w) ∷ m else after k m

  -- Every key is above `k`.
  abbrev pub Above : K → Map K V → Type 0
  Above k [] = Unit
  Above k ((j, w) ∷ m) = (o.cmp k j ≡ lt) × Above k m

  abbrev pub IsSorted : Map K V → Type 0
  IsSorted [] = Unit
  IsSorted ((k, v) ∷ m) = Above k m × IsSorted m

  pub get-insert :
      (k j : K) (v : V) (m : Map K V)
      → get j (insert k v m) ≡ (if key_eq j k then some v else get j m)
  unfolding get insert
  get-insert k j v [] = refl
  get-insert k j v ((i, w) ∷ m) = ground (
    arith,
    get-insert k j v m,
    o.eq_of_cmp k i,
    o.eq_of_cmp j k,
    o.eq_of_cmp j i,
    o.cmp_refl k,
    o.cmp_refl j,
    o.cmp_refl i,
  )

  pub get-remove :
      (k j : K) (m : Map K V) → get j (remove k m) ≡ (if key_eq j k then none else get j m)
  unfolding get remove
  get-remove k j [] = ground arith
  get-remove k j ((i, w) ∷ m) = ground (
    arith,
    get-remove k j m,
    o.eq_of_cmp k i,
    o.eq_of_cmp j k,
    o.eq_of_cmp j i,
    o.cmp_refl k,
    o.cmp_refl j,
    o.cmp_refl i,
  )

  pub Above-trans : (k j : K) (m : Map K V) → o.cmp k j ≡ lt → Above j m → Above k m
  Above-trans k j [] h a = tt
  Above-trans k j ((i, w) ∷ m) h a = (o.lt_trans k j i h a.0, Above-trans k j m h a.1)

  pub get-Above : (k : K) (m : Map K V) → Above k m → get k m ≡ none
  unfolding get
  get-Above k [] a = refl
  get-Above k ((i, w) ∷ m) a = ground (arith, get-Above k m a.1)

  pub insert-Above :
      (j k : K) (v : V) (m : Map K V) → o.cmp j k ≡ lt → Above j m → Above j (insert k v m)
  unfolding insert
  insert-Above j k v [] h a = (h, tt)
  insert-Above j k v ((i, w) ∷ m) h a = ground (arith, insert-Above j k v m h a.1)

  pub insert-IsSorted : (k : K) (v : V) (m : Map K V) → IsSorted m → IsSorted (insert k v m)
  unfolding insert
  insert-IsSorted k v [] s = (tt, tt)
  insert-IsSorted k v ((i, w) ∷ m) s = ground (
    arith,
    insert-IsSorted k v m s.1,
    insert-Above i k v m,
    o.lt_of_gt k i,
    o.eq_of_cmp k i,
    Above-trans k i m,
    s.0,
    s.1,
  )

  remove-Above : (j k : K) (m : Map K V) → Above j m → Above j (remove k m)
  unfolding remove
  remove-Above j k [] a = tt
  remove-Above j k ((i, w) ∷ m) a = ground (arith, remove-Above j k m a.1)

  pub remove-IsSorted : (k : K) (m : Map K V) → IsSorted m → IsSorted (remove k m)
  unfolding remove
  remove-IsSorted k [] s = tt
  remove-IsSorted k ((i, w) ∷ m) s = ground (arith, remove-IsSorted k m s.1, remove-Above i k m s.0)

  pub collect-IsSorted : (ps m : Map K V) → IsSorted m → IsSorted (collect ps m)
  unfolding collect
  collect-IsSorted [] m s = s
  collect-IsSorted ((k, v) ∷ ps) m s = collect-IsSorted ps (insert k v m) (insert-IsSorted k v m s)

  tails_agree :
      (i j : K) (v w : V) (m n : Map K V)
      → i ≡ j
      → Above i m
      → Above j n
      → ((k : K) → get k ((i, v) ∷ m) ≡ get k ((j, w) ∷ n))
      → (k : K) → get k m ≡ get k n
  unfolding get
  tails_agree i j v w m n p a b e k =
      ground (arith, e k, o.eq_of_cmp k i, o.eq_of_cmp k j, get-Above i m a, get-Above j n b)

  heads_agree :
      (i j : K) (v w : V) (m n : Map K V)
      → Above i m
      → Above j n
      → ((k : K) → get k ((i, v) ∷ m) ≡ get k ((j, w) ∷ n))
      → (i ≡ j) × (v ≡ w)
  unfolding get
  heads_agree i j v w m n a b e = ground (
    arith,
    e i,
    e j,
    o.cmp_refl i,
    o.cmp_refl j,
    o.eq_of_cmp i j,
    o.eq_of_cmp j i,
    o.gt_of_lt i j,
    o.lt_of_gt i j,
    get-Above i n,
    get-Above j m,
    Above-trans i j n,
    Above-trans j i m,
  )

  -- Two sorted maps with the same readings are the same list.
  pub Map-ext : (m n : Map K V) → IsSorted m → IsSorted n → ((k : K) → get k m ≡ get k n) → m ≡ n
  unfolding get
  Map-ext [] [] s t e = refl
  Map-ext [] ((j, w) ∷ n) s t e = ground (arith, e j, o.cmp_refl j)
  Map-ext ((i, v) ∷ m) [] s t e = ground (arith, e i, o.cmp_refl i)
  Map-ext ((i, v) ∷ m) ((j, w) ∷ n) s t e =
      let (p, q) = heads_agree i j v w m n s.0 t.0 e in
      let rest = Map-ext m n s.1 t.1 (tails_agree i j v w m n p s.0 t.0 e) in cc (p, q, rest)

  pub get-collect-none : (k : K) (ps m : Map K V) → get k ps ≡ none → get k (collect ps m) ≡ get k m
  unfolding get collect
  get-collect-none k [] m h = refl
  get-collect-none k ((j, v) ∷ ps) m h =
      ground (arith, get-collect-none k ps (insert j v m), get-insert j k v m)

  -- No key twice.
  abbrev pub IsDistinct : List (K × V) → Type κ
  IsDistinct [] = Unit
  IsDistinct ((k, v) ∷ ps) = (get k ps ≡ none) × IsDistinct ps

  pub get-collect :
      (k : K) (ps m : Map K V)
      → IsDistinct ps
      → get k (collect ps m) ≡ elim (get k ps) [ none ↦ get k m | some v ↦ some v ]
  unfolding get collect
  get-collect k [] m d = refl
  get-collect k ((j, v) ∷ ps) m d =
      ground (arith, get-collect k ps (insert j v m) d.1, get-insert j k v m, o.eq_of_cmp k j, d.0)
