-- ===== src/Prelude/Map/Count.antt =====
-- How many values of a map pass a test, and which keys a set has, after a change.
use Prim.Native.Nat.{ℕ, ◌+◌}
use mathlib.Core.Path.{◌≡◌, refl}
use mathlib.Core.Bool.{Bool, true, false, not, ◌&&◌, ◌||◌}
use mathlib.Core.List.{[], ◌∷◌}
use mathlib.Core.Option.{none, some}
use native.Mathlib.Omega.{arith}
use postino.Prelude.Order.{Order, key_eq}
use postino.Prelude.Map.{Map, get, insert, remove, get-Above, IsSorted, get-insert, get-remove}
use postino.Prelude.Map.Length.{has_key}

abbrev pub bit : Bool → ℕ
bit true = 1
bit false = 0

abbrev pub count {ℓ κ} : {K : Type ℓ} {V : Type κ} → (V → Bool) → Map K V → ℕ
count test [] = 0
count test ((k, v) ∷ m) = bit (test v) + count test m

module _ {ℓ κ} {K : Type ℓ} {V : Type κ} ⦃o : Order K⦄ where
  pub count-insert :
      (test : V → Bool) (k : K) (v : V) (m : Map K V)
      → IsSorted m
      → get k m ≡ none
      → count test (insert k v m) ≡ count test m + bit (test v)
  unfolding insert get
  count-insert test k v [] s h = ground arith
  count-insert test k v ((j, w) ∷ m) s h = ground (arith, count-insert test k v m s.1)

  count-remove_absent :
      (test : V → Bool) (k : K) (m : Map K V)
      → get k m ≡ none
      → count test (remove k m) ≡ count test m
  unfolding remove get
  count-remove_absent test k [] h = refl
  count-remove_absent test k ((j, w) ∷ m) h = ground (arith, count-remove_absent test k m)

  pub count-remove :
      (test : V → Bool) (k : K) (v : V) (m : Map K V)
      → IsSorted m
      → get k m ≡ some v
      → count test m ≡ count test (remove k m) + bit (test v)
  unfolding remove get
  count-remove test k v [] s h = cc
  count-remove test k v ((j, w) ∷ m) s h = ground (
    arith,
    count-remove test k v m s.1,
    count-remove_absent test k m,
    get-Above j m s.0,
    o.eq_of_cmp k j,
  )

module _ {ℓ} {K : Type ℓ} ⦃o : Order K⦄ where
  pub has_key-insert :
      (j k : K) (s : Map K (Unit {0})) → has_key j (insert k tt s) ≡ (key_eq j k || has_key j s)
  has_key-insert j k s = ground (arith, get-insert k j tt s)

  pub has_key-remove :
      (j k : K) (s : Map K (Unit {0})) → has_key j (remove k s) ≡ (not (key_eq j k) && has_key j s)
  has_key-remove j k s = ground (arith, get-remove k j s)
