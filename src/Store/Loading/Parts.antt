-- ===== src/Store/Loading/Parts.antt =====
-- src/store.rs, the loops of `Store::from_snapshot`: what the effects of one kind leave of one part of
-- the store.
use postino.Prelude.{◌≡◌, refl, ◌∙◌, ap, some, List, [], ◌∷◌, arith, map}
use postino.Prelude.Order.{Order}
use postino.Prelude.Map.{Map, get, insert, collect, IsSorted, IsDistinct}
use postino.Captured.{each}
use postino.Captured.Maps.{collect_self, each-IsSorted, IsSorted-IsDistinct}
use postino.Store.Effects.{Effect, Store, Outside}
use postino.Store.Rename.{apply}
use postino.Store.Loading.{values, apply_all}

-- Each value of the list goes in under its key, as `f` leaves it.
abbrev pub with_keys : {K V : Type 0} ⦃o : Order K⦄ → (V → K) → (V → V) → List V → Map K V → Map K V
with_keys key f [] m = m
with_keys key f (v ∷ vs) m = with_keys key f vs (insert (key v) (f v) m)

module _ {K V : Type 0} ⦃o : Order K⦄ (key : V → K) (f : V → V) where
  with_keys-values :
      (ps m : Map K V)
      → IsDistinct ps
      → ((k : K) (v : V) → get k ps ≡ some v → key v ≡ k)
      → with_keys key f (values ps) m ≡ collect (each f ps) m
  unfolding collect get
  with_keys-values [] m d h = refl
  with_keys-values ((k, v) ∷ ps) m d h =
      let rest =
        with_keys-values ps (insert (key v) (f v) m) d.1
          (λ j x e. h j x (ground (arith, d.0, e, o.eq_of_cmp j k))) in
      rest ∙ ap (λ i. collect (each f ps) (insert i (f v) m)) (h k v (ground (arith, o.cmp_refl k)))

  -- The values of a map, put in again under their keys, make that map, each value as `f` leaves it.
  pub with_keys-map :
      (m : Map K V)
      → IsSorted m
      → ((k : K) (v : V) → get k m ≡ some v → key v ≡ k)
      → with_keys key f (values m) [] ≡ each f m
  with_keys-map m s h =
      with_keys-values m [] (IsSorted-IsDistinct m s) h
      ∙ collect_self (each f m) (each-IsSorted f m s)

pub each_same : {K V : Type 0} (m : Map K V) → each (λ v. v) m ≡ m
each_same [] = refl
each_same ((k, v) ∷ m) = ap (λ n. (k, v) ∷ n) (each_same m)

module _ (out : Outside) {A X : Type 0} (part : Store → A) (effect : X → Effect) where
  -- A part that no effect of the kind changes.
  pub part-same :
      ((x : X) (s : Store) → part (apply out (effect x) s) ≡ part s)
      → (xs : List X) (s : Store) → part (apply_all out (map effect xs) s) ≡ part s
  unfolding apply_all
  part-same h [] s = refl
  part-same h (x ∷ xs) s = part-same h xs (apply out (effect x) s) ∙ h x s

module _ (out : Outside) {K V : Type 0} ⦃o : Order K⦄ (part : Store → Map K V) where
  -- A part into which each effect puts one value.
  pub part-with_keys :
      (effect : V → Effect) (key : V → K) (f : V → V)
      → ((v : V) (s : Store) → part (apply out (effect v) s) ≡ insert (key v) (f v) (part s))
      → (vs : List V) (s : Store)
      → part (apply_all out (map effect vs) s) ≡ with_keys key f vs (part s)
  unfolding apply_all
  part-with_keys effect key f h [] s = refl
  part-with_keys effect key f h (v ∷ vs) s =
      part-with_keys effect key f h vs (apply out (effect v) s) ∙ ap (with_keys key f vs) (h v s)
