-- ===== src/Scope/Search.antt =====
-- A search of a scope's prefixes misses no key that the scope may read: src/scope.rs, `search_prefixes`.
use postino.Prelude.{
  ◌≡◌, ◌∙◌, refl, ap, Bool, true, ◌||◌, Option, none, some, List, [], ◌∷◌, ◌++◌, arith,
  if◌then◌else◌, if_cases, Option-cases, inl, inr, map, any,
}
use postino.Prelude.Order.{text_order}
use postino.Prelude.Text.{Text}
use postino.Prelude.Search.{starts_with}
use postino.Glob.{new, matches}
use postino.Glob.Prefix.{literal_prefix, literal_prefix-starts_with}
use postino.Scope.{
  scope, put_in_order, sorted, last, keep_starts, search_loop, search_prefixes, can_write, can_read,
  is_any, is_limited,
}

starts_with_trans :
    (a b t : Text) → starts_with a b ≡ true → starts_with b t ≡ true → starts_with a t ≡ true
unfolding starts_with
starts_with_trans [] b t h k = refl
starts_with_trans (c ∷ a) [] t h k = cc
starts_with_trans (c ∷ a) (d ∷ b) [] h k = cc
starts_with_trans (c ∷ a) (d ∷ b) (e ∷ t) h k = ground (arith, starts_with_trans a b t)

-- Of two texts that a third starts with, one starts with the other.
starts_with-either :
    (a b t : Text)
    → starts_with a t ≡ true
    → starts_with b t ≡ true
    → (starts_with a b || starts_with b a) ≡ true
unfolding starts_with
starts_with-either [] b t h k = refl
starts_with-either (c ∷ a) [] t h k = refl
starts_with-either (c ∷ a) (d ∷ b) [] h k = cc
starts_with-either (c ∷ a) (d ∷ b) (e ∷ t) h k = ground (arith, starts_with-either a b t)

any-append :
    {A : Type 0} (test : A → Bool) (xs ys : List A)
    → any test (xs ++ ys) ≡ (any test xs || any test ys)
any-append test [] ys = refl
any-append test (x ∷ xs) ys = ground (arith, any-append test xs ys)

any-put_in_order :
    (test : Text → Bool) (t : Text) (ts : List Text)
    → any test (put_in_order t ts) ≡ (test t || any test ts)
unfolding put_in_order
any-put_in_order test t [] = refl
any-put_in_order test t (s ∷ ts) = ground (arith, any-put_in_order test t ts)

any-sorted : (test : Text → Bool) (ts : List Text) → any test (sorted ts) ≡ any test ts
unfolding sorted
any-sorted test [] = refl
any-sorted test (t ∷ ts) =
    any-put_in_order test t (sorted ts) ∙ ap (λ b. test t || b) (any-sorted test ts)

module _ (key : Text) where
  -- The key starts with the text.
  abbrev starts : Text → Bool
  starts s = starts_with s key

  any-last :
      (kept : List Text) (k : Text) → last kept ≡ some k → starts k ≡ true → any starts kept ≡ true
  unfolding last
  any-last [] k e h = cc
  any-last (t ∷ []) k e h = ground arith
  any-last (t ∷ s ∷ ts) k e h = ground (arith, any-last (s ∷ ts) k)

  keep_starts-covers :
      (kept more : List Text)
      → (any starts kept || any starts more) ≡ true
      → any starts (keep_starts kept more) ≡ true
  unfolding keep_starts
  keep_starts-covers kept [] h = ground arith
  keep_starts-covers kept (s ∷ more) h = elim (Option-cases (last kept)) [
    | inl e ↦
        rw e (
          keep_starts-covers (kept ++ s ∷ []) more
            (ground (arith, any-append starts kept (s ∷ []))))
    | inr (k, e) ↦ rw e (
        if_cases (λ r. any starts r ≡ true) (starts_with k s) _ _
          (λ t.
            keep_starts-covers kept more
              (ground (arith, any-last kept k e, starts_with_trans k s key t)))
          (λ n.
            keep_starts-covers (kept ++ s ∷ []) more
              (ground (arith, any-append starts kept (s ∷ [])))))
  ]

  search_loop-covers :
      (prefix : Text) (runs own : List Text)
      → starts prefix ≡ true
      → (any starts runs || any starts own) ≡ true
      → any starts (search_loop prefix runs own) ≡ true
  unfolding search_loop
  search_loop-covers prefix runs [] p h = ground arith
  search_loop-covers prefix runs (s ∷ own) p h =
      if_cases (λ r. any starts r ≡ true) (starts_with s prefix) _ _ (λ t. ground arith)
        (λ n.
          search_loop-covers prefix (if starts_with prefix s then runs ++ s ∷ [] else runs) own p
            (ground (arith, any-append starts runs (s ∷ []), starts_with-either s prefix key)))

  -- A pattern that matches the key has a start that the key starts with.
  any-literal_prefix :
      (patterns : List Text)
      → any (λ g. matches g key) (map new patterns) ≡ true
      → any starts (map literal_prefix patterns) ≡ true
  any-literal_prefix [] h = cc
  any-literal_prefix (p ∷ patterns) h =
      ground (arith, any-literal_prefix patterns, literal_prefix-starts_with p key)

  any-map_append :
      (ps qs : List Text)
      → any starts (map literal_prefix (ps ++ qs))
        ≡ (any starts (map literal_prefix ps) || any starts (map literal_prefix qs))
  any-map_append [] qs = refl
  any-map_append (p ∷ ps) qs = ground (arith, any-map_append ps qs)

  -- The starts of a scope's patterns cover each key that the scope may read.
  starts-cover :
      (keys read : List Text)
      → (any (λ g. matches g key) (map new keys) || any (λ g. matches g key) (map new read)) ≡ true
      → any starts (keep_starts [] (sorted (map literal_prefix (keys ++ read)))) ≡ true
  starts-cover keys read h = keep_starts-covers [] (sorted (map literal_prefix (keys ++ read))) (
      any-sorted starts (map literal_prefix (keys ++ read))
      ∙ any-map_append keys read
      ∙ ground (arith, any-literal_prefix keys, any-literal_prefix read))

  only : (prefix : Text) → starts prefix ≡ true → any starts (prefix ∷ []) ≡ true
  only prefix p = ground arith

-- Each key that a scope may read and that starts with the prefix searched for starts with one of the
-- runs that the search visits.
pub search_prefixes-covers :
    (keys read channels : List Text) (prefix key : Text)
    → can_read key (scope keys read channels) ≡ true
    → starts_with prefix key ≡ true
    → any (λ run. starts_with run key) (search_prefixes prefix (scope keys read channels)) ≡ true
unfolding can_read can_write scope search_prefixes
search_prefixes-covers keys read channels prefix key h p =
    if_cases {A = Option (List Text)}
      (λ o.
        any (λ run. starts_with run key)
          (elim o [ none ↦ prefix ∷ [] | some own ↦ search_loop prefix [] own ])
        ≡ true)
      (is_limited (any is_any keys) (keep_starts [] (sorted (map literal_prefix (keys ++ read))))) _
      _
      (λ t.
        search_loop-covers key prefix []
          (keep_starts [] (sorted (map literal_prefix (keys ++ read)))) p
          (starts-cover key keys read (ground arith)))
      (λ _. only key prefix p)
