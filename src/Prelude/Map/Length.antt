-- ===== src/Prelude/Map/Length.antt =====
-- How an insertion and a removal change the length of a map.
use Prim.Native.Nat.{◌+◌}
use mathlib.Core.Path.{◌≡◌, refl}
use mathlib.Core.Bool.{Bool, true}
use mathlib.Core.List.{[], ◌∷◌}
use mathlib.Core.Option.{none}
use native.Mathlib.Omega.{arith}
use postino.Prelude.Tests.{if◌then◌else◌, is_some_and}
use postino.Prelude.Lists.{length}
use postino.Prelude.Order.{Order}
use postino.Prelude.Map.{Map, get, insert, remove, get-Above, Above-trans, IsSorted}

abbrev pub has_key {ℓ κ} : {K : Type ℓ} {V : Type κ} ⦃o : Order K⦄ → K → Map K V → Bool
has_key k m = is_some_and (get k m) λ _. true

module _ {ℓ κ} {K : Type ℓ} {V : Type κ} ⦃o : Order K⦄ where
  pub length-insert :
      (k : K) (v : V) (m : Map K V)
      → IsSorted m
      → length (insert k v m) ≡ length m + (if has_key k m then 0 else 1)
  unfolding insert get
  length-insert k v [] s = refl
  length-insert k v ((j, w) ∷ m) s =
      ground (
        arith,
        length-insert k v m s.1,
        get-Above k m,
        Above-trans k j m,
        s.0,
        s.1,
        o.eq_of_cmp k j,
      )

  length-remove_absent : (k : K) (m : Map K V) → get k m ≡ none → length (remove k m) ≡ length m
  unfolding remove get
  length-remove_absent k [] a = refl
  length-remove_absent k ((j, w) ∷ m) a = ground (arith, length-remove_absent k m)

  pub length-remove :
      (k : K) (m : Map K V)
      → IsSorted m
      → length (remove k m) + (if has_key k m then 1 else 0) ≡ length m
  unfolding remove get
  length-remove k [] s = refl
  length-remove k ((j, w) ∷ m) s =
      ground
        (arith, length-remove k m s.1, length-remove_absent k m, get-Above j m s.0, o.eq_of_cmp k j)
