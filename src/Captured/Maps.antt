-- ===== src/Captured/Maps.antt =====
-- What a map holds after one value, or each of them, is changed in place.
use postino.Prelude.{
  ◌≡◌, refl, sym, subst, ◌∙◌, ◌⊎◌, Bool-cases, true, false, Option-cases, inl, inr, none, some, [],
  ◌∷◌, if◌then◌else◌, arith,
}
use postino.Prelude.Order.{Order, key_eq}
use postino.Prelude.Map.{
  Map, get, insert, remove, collect, Above, IsSorted, IsDistinct, get-insert, get-Above,
  get-collect, insert-IsSorted, remove-IsSorted, get-remove, collect-IsSorted, Map-ext,
}
use postino.Captured.{change, each}

pub key_eq_sym {ℓ} : {K : Type ℓ} ⦃o : Order K⦄ (j k : K) → key_eq j k ≡ key_eq k j
key_eq_sym ⦃o⦄ j k = ground (arith, o.eq_of_cmp j k, o.eq_of_cmp k j, o.cmp_refl j, o.cmp_refl k)

module _ {ℓ κ} {K : Type ℓ} {V : Type κ} ⦃o : Order K⦄ where
  pub get-change :
      (k j : K) (f : V → V) (m : Map K V)
      → get j (change k f m)
        ≡ (if key_eq j k then elim (get k m) [ none ↦ none | some v ↦ some (f v) ] else get j m)
  unfolding change
  get-change k j f m = elim (Option-cases (get k m)) [
    | inl e ↦ ground (arith, e, o.eq_of_cmp j k)
    | inr (v, e) ↦ ground (arith, e, get-insert k j (f v) m)
  ]

  pub change_absent : (k : K) (f : V → V) (m : Map K V) → get k m ≡ none → change k f m ≡ m
  unfolding change
  change_absent k f m h = ground arith

  pub change_present :
      (k : K) (f : V → V) (m : Map K V) (v : V) → get k m ≡ some v → change k f m ≡ insert k (f v) m
  unfolding change
  change_present k f m v h = ground arith

  pub change-IsSorted : (k : K) (f : V → V) (m : Map K V) → IsSorted m → IsSorted (change k f m)
  unfolding change
  change-IsSorted k f m s = elim (Option-cases (get k m)) [
    | inl e ↦ ground (arith, e, s)
    | inr (v, e) ↦ ground (arith, e, insert-IsSorted k (f v) m s)
  ]

  -- What is read after a change is what was there, changed at its key.
  pub change-cases :
      (k j : K) (f : V → V) (m : Map K V) (w : V)
      → get j (change k f m) ≡ some w
      → ((key_eq k j ≡ true) × ((u : V) × (get j m ≡ some u) × (f u ≡ w)))
        ⊎ ((key_eq k j ≡ false) × (get j m ≡ some w))
  change-cases k j f m w h = elim (Bool-cases (key_eq j k)) [
    | inl same ↦ elim (Option-cases (get k m)) [
      | inl e ↦ absurd (ground (arith, get-change k j f m))
      | inr (u, e) ↦ inl (
        key_eq_sym k j ∙ same,
        (
          u,
          subst (λ i. get i m ≡ some u) (sym (o.eq_of_cmp j k (ground arith))) e,
          ground (arith, get-change k j f m),
        ),
      )
    ]
    | inr other ↦ inr (key_eq_sym k j ∙ other, ground (arith, get-change k j f m))
  ]

  pub get-each :
      (k : K) (f : V → V) (m : Map K V)
      → get k (each f m) ≡ elim (get k m) [ none ↦ none | some v ↦ some (f v) ]
  unfolding get
  get-each k f [] = refl
  get-each k f ((j, v) ∷ m) = ground (arith, get-each k f m)

  pub each-cases :
      (k : K) (f : V → V) (m : Map K V) (w : V)
      → get k (each f m) ≡ some w
      → (u : V) × (get k m ≡ some u) × (f u ≡ w)
  each-cases k f m w h = elim (Option-cases (get k m)) [
    | inl e ↦ absurd (ground (arith, get-each k f m))
    | inr (u, e) ↦ (u, e, ground (arith, get-each k f m))
  ]

  each-Above : (k : K) (f : V → V) (m : Map K V) → Above k m → Above k (each f m)
  each-Above k f [] a = tt
  each-Above k f ((j, v) ∷ m) a = (a.0, each-Above k f m a.1)

  pub each-IsSorted : (f : V → V) (m : Map K V) → IsSorted m → IsSorted (each f m)
  each-IsSorted f [] s = tt
  each-IsSorted f ((k, v) ∷ m) s = (each-Above k f m s.0, each-IsSorted f m s.1)

  -- A sorted map has no key twice, and putting its pairs together again gives it back.
  pub IsSorted-IsDistinct : (m : Map K V) → IsSorted m → IsDistinct m
  IsSorted-IsDistinct [] s = tt
  IsSorted-IsDistinct ((k, v) ∷ m) s = (get-Above k m s.0, IsSorted-IsDistinct m s.1)

  pub collect_self : (m : Map K V) → IsSorted m → collect m [] ≡ m
  unfolding get
  collect_self m s =
      Map-ext (collect m []) m (collect-IsSorted m [] tt) s
        (λ k. ground (arith, get-collect k m [] (IsSorted-IsDistinct m s)))

  -- Taking a key out before it is put in changes nothing.
  pub insert-remove :
      (k : K) (v : V) (m : Map K V) → IsSorted m → insert k v (remove k m) ≡ insert k v m
  insert-remove k v m s =
      Map-ext (insert k v (remove k m)) (insert k v m)
        (insert-IsSorted k v (remove k m) (remove-IsSorted k m s)) (insert-IsSorted k v m s)
        (λ j. ground (arith, get-insert k j v (remove k m), get-insert k j v m, get-remove k j m))

  pub remove_absent : (k : K) (m : Map K V) → get k m ≡ none → remove k m ≡ m
  unfolding get remove
  remove_absent k [] h = refl
  remove_absent k ((j, v) ∷ m) h = ground (arith, remove_absent k m)
