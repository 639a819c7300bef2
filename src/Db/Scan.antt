-- ===== src/Db/Scan.antt =====
-- The keys that start with one of several prefixes: src/db.rs, `Db::with_prefixes`.
use Prim.Native.Nat.Ordering.{lt}
use postino.Prelude.{
  ◌≡◌, ◌∙◌, refl, sym, ap, Bool, true, false, ◌&&◌, Option, none, some, List, [], ◌∷◌, ◌++◌, arith,
  if◌then◌else◌, Bool-cases, inl, inr, concat, map,
}
use postino.Prelude.Order.{text_order, key_lt, key_le, cmp_text}
use postino.Prelude.Map.{Map, Above, IsSorted}
use postino.Prelude.Text.{Text}
use postino.Prelude.Search.{starts_with}
use postino.Db.Value.{Entry}
use postino.Db.{Db}

-- Whether a key stands before the start of the range: `Excluded(after)` or `Included(prefix)`.
unfoldable pub before_start : Text → Option Text → Text → Bool
before_start prefix none k = key_lt k prefix
before_start prefix (some after) k = if key_le prefix after then key_le k after else key_lt k prefix

unfoldable pub skip_while : (Text → Bool) → Map Text Entry → Map Text Entry
skip_while test [] = []
skip_while test ((k, e) ∷ m) = if test k then skip_while test m else (k, e) ∷ m

unfoldable pub take_while : (Text → Bool) → Map Text Entry → Map Text Entry
take_while test [] = []
take_while test ((k, e) ∷ m) = let rest = take_while test m in if test k then (k, e) ∷ rest else []

-- One prefix's run of keys.
unfoldable pub run_of : Text → Option Text → Map Text Entry → Map Text Entry
unfolding skip_while take_while before_start
run_of prefix after m = take_while (starts_with prefix) (skip_while (before_start prefix after) m)

unfoldable pub with_prefixes : List Text → Option Text → Db → List (Text × Entry)
unfolding run_of
with_prefixes [] after db = []
with_prefixes (prefix ∷ prefixes) after db =
    run_of prefix after db.keys ++ with_prefixes prefixes after db

-- The keys that pass a test, each looked at.
abbrev pub filter : (Text → Bool) → Map Text Entry → Map Text Entry
filter test [] = []
filter test ((k, e) ∷ m) = if test k then (k, e) ∷ filter test m else filter test m

abbrev pub wanted : Text → Option Text → Text → Bool
wanted prefix none k = starts_with prefix k
wanted prefix (some after) k = starts_with prefix k && key_lt after k

starts_with-le : (p k : Text) → starts_with p k ≡ true → key_lt k p ≡ false
unfolding starts_with
starts_with-le [] [] h = refl
starts_with-le [] (c ∷ k) h = refl
starts_with-le (d ∷ p) [] h = cc
starts_with-le (d ∷ p) (c ∷ k) h = ground (arith, starts_with-le p k)

-- Once a key from the prefix on does not start with it, no later key does.
starts_with-later :
    (p k j : Text)
    → key_lt k p ≡ false
    → starts_with p k ≡ false
    → cmp_text k j ≡ lt
    → starts_with p j ≡ false
unfolding starts_with
starts_with-later [] k j h n l = cc
starts_with-later (d ∷ p) k [] h n l = refl
starts_with-later (d ∷ p) [] (b ∷ j) h n l = cc
starts_with-later (d ∷ p) (c ∷ k) (b ∷ j) h n l = ground (arith, starts_with-later p k j)

filter-none :
    (test : Text → Bool) (k : Text) (m : Map Text Entry)
    → ((j : Text) → cmp_text k j ≡ lt → test j ≡ false)
    → Above k m
    → filter test m ≡ []
filter-none test k [] h a = refl
filter-none test k ((j, e) ∷ m) h a = rw (h j a.0) (filter-none test k m h a.1)

-- What the start of a range and the keys looked for have to do with each other.
record IsStart (p : Text) (start test : Text → Bool) : Type 0 where
  none_before : (k : Text) → start k ≡ true → test k ≡ false
  not_below : (k : Text) → start k ≡ false → key_lt k p ≡ false
  same_test : (k : Text) → start k ≡ false → test k ≡ starts_with p k
  onwards : (k j : Text) → start k ≡ false → cmp_text k j ≡ lt → start j ≡ false

module _ (p : Text) (start test : Text → Bool) (w : IsStart p start test) where
  -- From the start on, the run ends where the last key stood that starts with the prefix.
  take_while-filter :
      (k : Text) (e : Entry) (m : Map Text Entry)
      → start k ≡ false
      → Above k m
      → IsSorted m
      → take_while (starts_with p) ((k, e) ∷ m) ≡ filter test ((k, e) ∷ m)
  unfolding take_while
  take_while-filter k e [] h a s = rw (w.same_test k h) refl
  take_while-filter k e ((j, f) ∷ m) h a s = elim (Bool-cases (starts_with p k)) [
    | inl here ↦
        rw (w.same_test k h, here)
          (ap (◌∷◌ (k, e)) (take_while-filter j f m (w.onwards k j h a.0) s.0 s.1))
    | inr over ↦
        let none_later = λ (i : Text) (l : cmp_text k i ≡ lt).
          w.same_test i (w.onwards k i h l) ∙ starts_with-later p k i (w.not_below k h) over l in
        rw (w.same_test k h, over) (sym (filter-none test k ((j, f) ∷ m) none_later a))
  ]

  run-filter :
      (m : Map Text Entry)
      → IsSorted m
      → take_while (starts_with p) (skip_while start m) ≡ filter test m
  unfolding skip_while take_while
  run-filter [] s = refl
  run-filter ((k, e) ∷ m) s = elim (Bool-cases (start k)) [
    | inl t ↦ rw (t, w.none_before k t) (run-filter m s.1)
    | inr n ↦ rw n (take_while-filter k e m n s.0 s.1)
  ]

before_start-IsStart :
    (p : Text) (after : Option Text) → IsStart p (before_start p after) (wanted p after)
unfolding before_start
before_start-IsStart p none = record {
  none_before = λ k h. ground (arith, starts_with-le p k);
  not_below = λ k h. h;
  same_test = λ k h. refl;
  onwards = λ k j h l. ground (arith, text_order.lt_trans k j p);
}
before_start-IsStart p (some after) = record {
  none_before = λ k h. ground (arith, text_order.gt_of_lt after k, starts_with-le p k);
  not_below = λ k h. ground (arith, text_order.lt_trans k p after, text_order.eq_of_cmp p after);
  same_test = λ k h. ground (
    arith,
    text_order.lt_of_gt k after,
    text_order.lt_of_gt p after,
    text_order.lt_of_gt k p,
    text_order.lt_trans after p k,
    text_order.eq_of_cmp k p,
  );
  onwards = λ k j h l. ground (
    arith,
    text_order.lt_trans k j after,
    text_order.eq_of_cmp j after,
    text_order.lt_trans k j p,
  );
}

-- Where the keys are in order, the scan gives for each prefix, in turn, the keys after `after` that
-- start with it, in their order and each with its entry.
pub with_prefixes-filter :
    (prefixes : List Text) (after : Option Text) (db : Db)
    → IsSorted db.keys
    → with_prefixes prefixes after db
      ≡ concat (map (λ prefix. filter (wanted prefix after) db.keys) prefixes)
unfolding with_prefixes run_of
with_prefixes-filter [] after db s = refl
with_prefixes-filter (prefix ∷ prefixes) after db s =
    rw
      (
        run-filter prefix (before_start prefix after) (wanted prefix after)
            (before_start-IsStart prefix after) db.keys s,
        with_prefixes-filter prefixes after db s,
      )
      refl
