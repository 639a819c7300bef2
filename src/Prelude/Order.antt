-- ===== src/Prelude/Order.antt =====
-- Total orders as instances (the trait `Ord`), for numbers, texts and pairs.
use Prim.Native.Nat.{ℕ, compare, Ordering}
use Prim.Native.Nat.Ordering.{lt, eq, gt}
use mathlib.Core.Path.{◌≡◌, refl}
use mathlib.Core.Bool.{Bool, true, false}
use mathlib.Core.List.{List, [], ◌∷◌}
use native.Mathlib.Omega.{arith}

-- What the keyed collections rely on.
pub record IsOrder {ℓ} {K : Type ℓ} (cmp : K → K → Ordering) : Type ℓ where
  pub lt_trans : (x y z : K) → cmp x y ≡ lt → cmp y z ≡ lt → cmp x z ≡ lt
  pub lt_of_gt : (x y : K) → cmp x y ≡ gt → cmp y x ≡ lt
  pub cmp_refl : (x : K) → cmp x x ≡ eq
  pub gt_of_lt : (x y : K) → cmp x y ≡ lt → cmp y x ≡ gt
  pub eq_of_cmp : (x y : K) → cmp x y ≡ eq → x ≡ y

pub record Order {ℓ} (K : Type ℓ) : Type ℓ where
  pub cmp : K → K → Ordering
  pub laws : IsOrder cmp
  pub open laws use *

-- `a <= b` and `a < b` by the order at hand
abbrev pub key_le {ℓ} : {K : Type ℓ} ⦃o : Order K⦄ → K → K → Bool
key_le ⦃o⦄ a b = elim (o.cmp a b) [ gt ↦ false | _ ↦ true ]

abbrev pub key_lt {ℓ} : {K : Type ℓ} ⦃o : Order K⦄ → K → K → Bool
key_lt ⦃o⦄ a b = elim (o.cmp a b) [ lt ↦ true | _ ↦ false ]

abbrev pub key_eq {ℓ} : {K : Type ℓ} ⦃o : Order K⦄ → K → K → Bool
key_eq ⦃o⦄ a b = elim (o.cmp a b) [ eq ↦ true | _ ↦ false ]

pub compare-IsOrder : IsOrder compare
compare-IsOrder = ground arith

instance abbrev pub nat_order : Order ℕ
nat_order = record { cmp = compare; laws = compare-IsOrder }

abbrev pub and_then : Ordering → Ordering → Ordering
and_then eq second = second
and_then first _ = first

-- Texts are lists of code points; `str` compares by bytes of UTF-8, which is the order of the code
-- points.
abbrev pub cmp_text : List ℕ → List ℕ → Ordering
cmp_text [] [] = eq
cmp_text [] (d ∷ t) = lt
cmp_text (c ∷ s) [] = gt
cmp_text (c ∷ s) (d ∷ t) = and_then (compare c d) (cmp_text s t)

cmp_text_refl : (s : List ℕ) → cmp_text s s ≡ eq
cmp_text_refl [] = refl
cmp_text_refl (c ∷ s) = ground (arith, cmp_text_refl s)

cmp_text-eq : (s t : List ℕ) → cmp_text s t ≡ eq → s ≡ t
cmp_text-eq [] [] h = refl
cmp_text-eq [] (d ∷ t) h = cc
cmp_text-eq (c ∷ s) [] h = cc
cmp_text-eq (c ∷ s) (d ∷ t) h = ground (arith, cmp_text-eq s t)

cmp_text-lt : (s t : List ℕ) → cmp_text s t ≡ lt → cmp_text t s ≡ gt
cmp_text-lt [] [] h = cc
cmp_text-lt [] (d ∷ t) h = refl
cmp_text-lt (c ∷ s) [] h = cc
cmp_text-lt (c ∷ s) (d ∷ t) h = ground (arith, cmp_text-lt s t)

cmp_text-gt : (s t : List ℕ) → cmp_text s t ≡ gt → cmp_text t s ≡ lt
cmp_text-gt [] [] h = cc
cmp_text-gt [] (d ∷ t) h = cc
cmp_text-gt (c ∷ s) [] h = refl
cmp_text-gt (c ∷ s) (d ∷ t) h = ground (arith, cmp_text-gt s t)

cmp_text_trans : (s t u : List ℕ) → cmp_text s t ≡ lt → cmp_text t u ≡ lt → cmp_text s u ≡ lt
cmp_text_trans [] [] u h k = cc
cmp_text_trans [] (d ∷ t) [] h k = cc
cmp_text_trans [] (d ∷ t) (e ∷ u) h k = refl
cmp_text_trans (c ∷ s) [] u h k = cc
cmp_text_trans (c ∷ s) (d ∷ t) [] h k = cc
cmp_text_trans (c ∷ s) (d ∷ t) (e ∷ u) h k = ground (arith, cmp_text_trans s t u)

pub cmp_text-IsOrder : IsOrder cmp_text
cmp_text-IsOrder = record {
  cmp_refl = cmp_text_refl;
  eq_of_cmp = cmp_text-eq;
  gt_of_lt = cmp_text-lt;
  lt_of_gt = cmp_text-gt;
  lt_trans = cmp_text_trans;
}

instance abbrev pub text_order : Order (List ℕ)
text_order = record { cmp = cmp_text; laws = cmp_text-IsOrder }

module _ {ℓ κ} {A : Type ℓ} {B : Type κ} ⦃a : Order A⦄ ⦃b : Order B⦄ where
  abbrev pub cmp_pair : A × B → A × B → Ordering
  cmp_pair x y = and_then (a.cmp x.0 y.0) (b.cmp x.1 y.1)

  pub cmp_pair-IsOrder : IsOrder {K = A × B} cmp_pair
  cmp_pair-IsOrder = record {
    cmp_refl = λ x. ground (arith, a.cmp_refl x.0, b.cmp_refl x.1);
    eq_of_cmp = λ x y. ground (arith, a.eq_of_cmp x.0 y.0, b.eq_of_cmp x.1 y.1);
    gt_of_lt = λ x y.
        ground (arith, a.eq_of_cmp x.0 y.0, a.cmp_refl x.0, a.gt_of_lt x.0 y.0, b.gt_of_lt x.1 y.1);
    lt_of_gt = λ x y.
        ground (arith, a.eq_of_cmp x.0 y.0, a.cmp_refl x.0, a.lt_of_gt x.0 y.0, b.lt_of_gt x.1 y.1);
    lt_trans = λ x y z. ground (
      arith,
      a.eq_of_cmp x.0 y.0,
      a.eq_of_cmp y.0 z.0,
      a.cmp_refl x.0,
      a.lt_trans x.0 y.0 z.0,
      b.lt_trans x.1 y.1 z.1,
    );
  }

  instance abbrev pub pair_order : Order (A × B)
  pair_order = record { cmp = cmp_pair; laws = cmp_pair-IsOrder }
