-- ===== src/Prelude/Search.antt =====
-- `str::starts_with`, `str::ends_with` and `str::contains`, over code points.
use mathlib.Core.Path.{◌≡◌, refl, ap, sym, subst}
use mathlib.Core.Logic.{◌↔◌, inl, inr}
use mathlib.Core.Bool.{Bool, true, false, ◌&&◌, ◌||◌}
use mathlib.Core.List.{[], ◌∷◌, ◌++◌}
use native.Mathlib.Omega.{arith}
use postino.Prelude.Tests.{◌==◌, Bool-cases}
use postino.Prelude.Text.{Text}
use postino.Prelude.Order.{key_eq, text_order, cmp_text-IsOrder}
open cmp_text-IsOrder use {cmp_refl, eq_of_cmp}

unfoldable pub starts_with : Text → Text → Bool
starts_with [] t = true
starts_with (c ∷ s) [] = false
starts_with (c ∷ s) (d ∷ t) = (c == d) && starts_with s t

unfoldable pub ends_with : Text → Text → Bool
ends_with s [] = key_eq s []
ends_with s (d ∷ t) = key_eq s (d ∷ t) || ends_with s t

unfoldable pub has : Text → Text → Bool
unfolding starts_with
has s [] = starts_with s []
has s (d ∷ t) = starts_with s (d ∷ t) || has s t

pub starts_with_iff : (s t : Text) → (starts_with s t ≡ true) ↔ ((r : Text) × (t ≡ s ++ r))
unfolding starts_with
starts_with_iff [] t = (λ _. (t, refl), λ _. refl)
starts_with_iff (c ∷ s) [] = (λ h. cc, λ h. cc (h.1))
starts_with_iff (c ∷ s) (d ∷ t) = (
  λ h. let (r, e) = (starts_with_iff s t).0 (ground arith) in (r, ground arith),
  λ h. ground (arith, (starts_with_iff s t).1 (h.0, ground arith)),
)

pub key_eq_iff : (s t : Text) → (key_eq s t ≡ true) ↔ (s ≡ t)
key_eq_iff s t = (
  λ h. eq_of_cmp s t (ground arith),
  λ e. subst (λ u. key_eq s u ≡ true) e (ground (arith, cmp_refl s)),
)

pub ends_with_iff : (s t : Text) → (ends_with s t ≡ true) ↔ ((r : Text) × (t ≡ r ++ s))
unfolding ends_with
ends_with_iff s [] =
    (λ h. ([], sym ((key_eq_iff s []).0 h)), λ h. (key_eq_iff s []).1 (nil_of h.0 h.1))
  where
    nil_of : (r : Text) → [] ≡ r ++ s → s ≡ []
    nil_of [] e = sym e
    nil_of (c ∷ r) e = cc
ends_with_iff s (d ∷ t) = (to (key_eq_iff s (d ∷ t)) (ends_with_iff s t), from (ends_with_iff s t))
  where
    to :
        ((key_eq s (d ∷ t) ≡ true) ↔ (s ≡ d ∷ t))
        → ((ends_with s t ≡ true) ↔ ((r : Text) × (t ≡ r ++ s)))
        → (key_eq s (d ∷ t) || ends_with s t) ≡ true
        → (r : Text) × (d ∷ t ≡ r ++ s)
    to k ih h = elim (Bool-cases (key_eq s (d ∷ t))) [
      | inl same ↦ ([], sym (k.0 same))
      | inr other ↦ let (r, e) = ih.0 (ground arith) in (d ∷ r, ap (◌∷◌ d) e)
    ]

    from :
        ((ends_with s t ≡ true) ↔ ((r : Text) × (t ≡ r ++ s)))
        → (r : Text) × (d ∷ t ≡ r ++ s)
        → (key_eq s (d ∷ t) || ends_with s t) ≡ true
    from ih ([], e) = ground (arith, (key_eq_iff s (d ∷ t)).1 (sym e))
    from ih (c ∷ r, e) = ground (arith, ih.1 (r, ground arith))

pub has_iff :
    (s t : Text)
    → (has s t ≡ true) ↔ ((r : Text) × (v : Text) × (t ≡ r ++ v) × (starts_with s v ≡ true))
unfolding has
has_iff s [] = (λ h. ([], [], refl, h), λ (r, v, e, h). nil_of r v e h)
  where
    nil_of : (r v : Text) → [] ≡ r ++ v → starts_with s v ≡ true → starts_with s [] ≡ true
    nil_of [] v e h = rw e h
    nil_of (c ∷ r) v e h = cc
has_iff s (d ∷ t) = (to (has_iff s t), from (has_iff s t))
  where
    to :
        ((has s t ≡ true) ↔ ((r : Text) × (v : Text) × (t ≡ r ++ v) × (starts_with s v ≡ true)))
        → (starts_with s (d ∷ t) || has s t) ≡ true
        → (r : Text) × (v : Text) × (d ∷ t ≡ r ++ v) × (starts_with s v ≡ true)
    to ih h = elim (Bool-cases (starts_with s (d ∷ t))) [
      | inl here ↦ ([], d ∷ t, refl, here)
      | inr later ↦ let (r, v, e, p) = ih.0 (ground arith) in (d ∷ r, v, ap (◌∷◌ d) e, p)
    ]

    from :
        ((has s t ≡ true) ↔ ((r : Text) × (v : Text) × (t ≡ r ++ v) × (starts_with s v ≡ true)))
        → (r : Text) × (v : Text) × (d ∷ t ≡ r ++ v) × (starts_with s v ≡ true)
        → (starts_with s (d ∷ t) || has s t) ≡ true
    from ih ([], v, e, p) = rw (e, p) refl
    from ih (c ∷ r, v, e, p) = ground (arith, ih.1 (r, v, ground arith, p))
