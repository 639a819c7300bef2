-- ===== src/Commands/Walk/Listing.antt =====
-- KEYS lists exactly the keys that it should.
use postino.Prelude.{
  ℕ, ◌+◌, ◌≡◌, refl, sym, ap, ◌∙◌, Bool, true, false, not, ◌&&◌, Option, none, some, List, [], ◌∷◌,
  ◌++◌, ◌==◌, any, map, concat, arith, if◌then◌else◌, is_some_and, append-nil, append_assoc, subst,
  Option-cases, Bool-cases, inl, inr,
}
use postino.Prelude.Order.{text_order, key_eq}
use postino.Prelude.Map.{Map, Above, IsSorted, get}
use postino.Prelude.Text.{Text}
use postino.Prelude.Search.{starts_with}
use postino.Db.{Db, read}
use postino.Db.Value.{Entry, expired}
use postino.Db.Scan.{with_prefixes, filter, wanted, with_prefixes-filter}
use postino.Glob.{Glob, new, matches}
use postino.Glob.Atoms.{atoms}
use postino.Glob.Prefix.{literal_prefix, literal_prefix-starts_with}
use postino.Scope.{Scope, scope, search_prefixes, can_read}
use postino.Scope.Listing.{with_prefixes-search_prefixes}
use postino.Commands.Walk.{walk_loop, walk, list_key, list_keys, walk_whole}

-- Each entry is what the map holds under its key.
abbrev AllHeld : Map Text Entry → List (Text × Entry) → Type 0
AllHeld m [] = Unit
AllHeld m ((k, e) ∷ es) = (get k m ≡ some e) × AllHeld m es

AllHeld-append :
    (m es fs : List (Text × Entry)) → AllHeld m es → AllHeld m fs → AllHeld m (es ++ fs)
AllHeld-append m [] fs a b = b
AllHeld-append m ((k, e) ∷ es) fs a b = (a.0, AllHeld-append m es fs a.1 b)

AllHeld-if :
    (b : Bool) (m es fs : List (Text × Entry))
    → AllHeld m es
    → AllHeld m fs
    → AllHeld m (if b then es else fs)
AllHeld-if true m es fs a c = a
AllHeld-if false m es fs a c = c

AllHeld-filter :
    (test : Text → Bool) (m es : List (Text × Entry)) → AllHeld m es → AllHeld m (filter test es)
AllHeld-filter test m [] a = tt
AllHeld-filter test m ((k, e) ∷ es) a =
    let rest = AllHeld-filter test m es a.1 in
    AllHeld-if (test k) m ((k, e) ∷ filter test es) (filter test es) (a.0, rest) rest

AllHeld-cons :
    (k : Text) (e : Entry) (m es : Map Text Entry)
    → Above k es
    → AllHeld m es
    → AllHeld ((k, e) ∷ m) es
unfolding get
AllHeld-cons k e m [] above a = tt
AllHeld-cons k e m ((j, f) ∷ es) above a = (
  ground (arith, a.0, above.0, text_order.eq_of_cmp j k, text_order.cmp_refl k),
  AllHeld-cons k e m es above.1 a.1,
)

AllHeld-self : (m : Map Text Entry) → IsSorted m → AllHeld m m
unfolding get
AllHeld-self [] s = tt
AllHeld-self ((k, e) ∷ m) s =
    (ground (arith, text_order.cmp_refl k), AllHeld-cons k e m m s.0 (AllHeld-self m s.1))

AllHeld-runs :
    (prefixes : List Text) (after : Option Text) (m : Map Text Entry)
    → IsSorted m
    → AllHeld m (concat (map (λ p. filter (wanted p after) m) prefixes))
AllHeld-runs [] after m s = tt
AllHeld-runs (p ∷ ps) after m s =
    AllHeld-append m (filter (wanted p after) m) _
      (AllHeld-filter (wanted p after) m m (AllHeld-self m s)) (AllHeld-runs ps after m s)

module _ (s : Scope) (now : ℕ) (pattern : Glob) where
  abbrev passes : Text → Entry → Bool
  passes k e = not (expired e now) && can_read k s && matches pattern k

  abbrev listed : List (Text × Entry) → List Text
  listed [] = []
  listed ((k, e) ∷ es) = if passes k e then k ∷ listed es else listed es

  walk_loop-listed :
      (most looked : ℕ) (es : List (Text × Entry)) (found : List Text)
      → (walk_loop s most now (list_key pattern) looked es found).1 ≡ none
      → (walk_loop s most now (list_key pattern) looked es found).0 ≡ found ++ listed es
  unfolding walk_loop
  walk_loop-listed most looked [] found h = sym (append-nil found)
  walk_loop-listed most looked ((k, e) ∷ es) found h =
      elim (Bool-cases (not (expired e now) && can_read k s)) [
        | inr hidden ↦ elim (Bool-cases (looked + 1 == most)) [
          | inl over ↦ absurd (ground (arith, hidden, over))
          | inr more ↦ ground (arith, hidden, more, walk_loop-listed most (looked + 1) es found)
        ]
        | inl seen ↦ elim (Bool-cases (looked + 1 == most)) [
          | inl over ↦ absurd (ground (arith, seen, over))
          | inr more ↦ elim (Bool-cases (matches pattern k)) [
            | inl hit ↦ ground (
              arith,
              seen,
              more,
              hit,
              walk_loop-listed most (looked + 1) es (found ++ k ∷ []),
              append_assoc found (k ∷ []) (listed es),
            )
            | inr miss ↦
                ground (arith, seen, more, miss, walk_loop-listed most (looked + 1) es found)
          ]
        ]
      ]

  any-listed :
      (k : Text) (m : Map Text Entry) (es : List (Text × Entry))
      → AllHeld m es
      → any (key_eq k) (listed es)
        ≡ (is_some_and (get k es) (λ _. true) && is_some_and (get k m) (passes k))
  unfolding get
  any-listed k m [] a = refl
  any-listed k m ((j, e) ∷ es) a = elim (Bool-cases (key_eq k j)) [
    | inr other ↦ ground (arith, other, any-listed k m es a.1)
    | inl same ↦
        let p : j ≡ k = sym (text_order.eq_of_cmp k j (ground (arith, same))) in
        let held : get k m ≡ some e = subst (λ i. get i m ≡ some e) p a.0 in
        let q : passes j e ≡ passes k e = ap (λ i. passes i e) p in
        ground (arith, same, held, q, any-listed k m es a.1)
  ]

source-new : (pattern : Text) → (new pattern).source ≡ pattern
unfolding new
source-new pattern = elim (Option-cases (atoms pattern)) [
  | inl bad ↦ rw (new, bad) refl
  | inr (xs, good) ↦ rw (new, good) refl
]

read_passes :
    (s : Scope) (now : ℕ) (pattern : Glob) (k : Text) (db : Db) (o : Option Entry)
    → (can_read k s ≡ true → matches pattern k ≡ true → o ≡ get k db.keys)
    → (is_some_and o (λ _. true) && is_some_and (get k db.keys) (passes s now pattern k))
      ≡ (is_some_and (read k now db) (λ _. true) && (can_read k s && matches pattern k))
unfolding read
read_passes s now pattern k db o h = ground arith

-- Where the keys are in order and KEYS looks at no more of them than it may, what it lists is exactly the
-- keys that can be read at that time, that are the scope's to read and that the pattern matches.
pub list_keys-lists :
    (keys read_only channels : List Text) (now : ℕ) (pattern : Text) (db : Db) (k : Text)
    → IsSorted db.keys
    → (list_keys (scope keys read_only channels) now (new pattern) db).1 ≡ none
    → any (key_eq k) (list_keys (scope keys read_only channels) now (new pattern) db).0 ≡ (
        is_some_and (read k now db) (λ _. true)
        && (can_read k (scope keys read_only channels) && matches (new pattern) k))
unfolding list_keys walk
list_keys-lists keys read_only channels now pattern db k sorted whole =
    let s = scope keys read_only channels in
    let start = literal_prefix (new pattern).source in
    let es = with_prefixes (search_prefixes start s) none db in
    let held : AllHeld db.keys es =
      subst (AllHeld db.keys) (sym (with_prefixes-filter (search_prefixes start s) none db sorted))
        (AllHeld-runs (search_prefixes start s) none db.keys sorted) in
    ap (any (key_eq k)) (walk_loop-listed s now (new pattern) (walk_whole + 1) 0 es [] whole)
    ∙ any-listed s now (new pattern) k db.keys es held
    ∙ read_passes s now (new pattern) k db (get k es) (λ readable hit.
      with_prefixes-search_prefixes keys read_only channels start none k db sorted readable
        (subst (λ t. starts_with (literal_prefix t) k ≡ true) (sym (source-new pattern))
          (literal_prefix-starts_with pattern k hit))
        refl)
