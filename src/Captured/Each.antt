-- ===== src/Captured/Each.antt =====
-- What holds of every value of a map, after a change of the map.
use postino.Prelude.{◌≡◌, sym, subst, Bool-cases, inl, inr, some, arith}
use postino.Prelude.Order.{Order, key_eq}
use postino.Prelude.Map.{Map, get, insert, remove, get-insert, get-remove}
use postino.Captured.{change, each}
use postino.Captured.Maps.{change-cases, each-cases}

module _ {ℓ κ μ} {K : Type ℓ} {V : Type κ} ⦃o : Order K⦄ (P : V → Type μ) where
  abbrev pub Each : Map K V → Type (ℓ ⊔ κ ⊔ μ)
  Each m = (k : K) (v : V) → get k m ≡ some v → P v

  module _ (m : Map K V) (w : Each m) where
    pub Each-insert : (k : K) (x : V) → P x → Each (insert k x m)
    Each-insert k x h j v e = elim (Bool-cases (key_eq j k)) [
      | inl same ↦ let here : x ≡ v = ground (arith, get-insert k j x m) in subst P here h
      | inr other ↦ w j v (ground (arith, get-insert k j x m))
    ]

    pub Each-remove : (k : K) → Each (remove k m)
    Each-remove k j v e = w j v (ground (arith, get-remove k j m))

    pub Each-each : (f : V → V) → ((v : V) → P v → P (f v)) → Each (each f m)
    Each-each f keep k v h = let (u, e, p) = each-cases k f m v h in subst P p (keep u (w k u e))

    -- The change need keep it only at its key.
    pub Each-change :
        (k : K) (f : V → V) → ((v : V) → get k m ≡ some v → P v → P (f v)) → Each (change k f m)
    Each-change k f keep j v h = elim (change-cases k j f m v h) [
      | inl (same, (u, e, p)) ↦
          let here = subst (λ i. get i m ≡ some u) (sym (o.eq_of_cmp k j (ground arith))) e in
          subst P p (keep u here (w j u e))
      | inr (other, e) ↦ w j v e
    ]
