-- ===== src/Scope/Listing.antt =====
-- A scan of the keyspace over the runs of a scope finds each key that the scope may read:
-- src/scope.rs, `search_prefixes`, with src/db.rs, `Db::with_prefixes`.
use postino.Prelude.{
  ◌≡◌, ◌∙◌, refl, sym, ap, Bool, true, Option, none, some, List, [], ◌∷◌, arith, if◌then◌else◌,
  Bool-cases, Option-cases, inl, inr, map, any, concat,
}
use postino.Prelude.Order.{key_lt, key_eq, text_order}
use postino.Prelude.Map.{Map, get, IsSorted}
use postino.Prelude.Ranges.{get-append}
use postino.Prelude.Text.{Text}
use postino.Prelude.Search.{starts_with}
use postino.Db.Value.{Entry}
use postino.Db.{Db}
use postino.Db.Scan.{with_prefixes, filter, wanted, with_prefixes-filter}
use postino.Scope.{scope, search_prefixes, can_read}
use postino.Scope.Search.{search_prefixes-covers}

abbrev pub is_past : Option Text → Text → Bool
is_past none key = true
is_past (some after) key = key_lt after key

wanted-is_past :
    (p : Text) (after : Option Text) (key : Text)
    → is_past after key ≡ true
    → wanted p after key ≡ starts_with p key
wanted-is_past p none key h = refl
wanted-is_past p (some a) key h = ground arith

get-filter :
    (test : Text → Bool) (key : Text) (m : Map Text Entry)
    → get key (filter test m) ≡ (if test key then get key m else none)
unfolding get
get-filter test key [] = ground arith
get-filter test key ((j, e) ∷ m) = elim (Bool-cases (key_eq key j)) [
  | inl same ↦
      let q : j ≡ key = sym (text_order.eq_of_cmp key j (ground arith)) in
      rw q (ground (arith, get-filter test key m, text_order.cmp_refl key))
  | inr other ↦ ground (arith, get-filter test key m)
]

get-runs :
    (prefixes : List Text) (after : Option Text) (key : Text) (m : Map Text Entry)
    → is_past after key ≡ true
    → get key (concat (map (λ p. filter (wanted p after) m) prefixes))
      ≡ (if any (λ p. starts_with p key) prefixes then get key m else none)
unfolding get
get-runs [] after key m h = refl
get-runs (p ∷ prefixes) after key m h =
    get-append key (filter (wanted p after) m)
      (concat (map (λ q. filter (wanted q after) m) prefixes))
    ∙ rw (get-filter (wanted p after) key m, wanted-is_past p after key h)
        (elim (Bool-cases (starts_with p key)) [
          | inl t ↦ rw t (elim (Option-cases (get key m)) [
            | inl e ↦ rw e (get-runs prefixes after key m h ∙ ground (arith, e))
            | inr (v, e) ↦ rw e refl
          ])
          | inr n ↦ rw n (get-runs prefixes after key m h)
        ])

-- Where the keys are in order, scanning the runs that a search of a scope visits, from a cursor on,
-- finds what the keyspace holds under each key past the cursor that starts with the prefix searched
-- for and that the scope may read.
pub with_prefixes-search_prefixes :
    (keys read channels : List Text) (prefix : Text) (after : Option Text) (key : Text) (db : Db)
    → IsSorted db.keys
    → can_read key (scope keys read channels) ≡ true
    → starts_with prefix key ≡ true
    → is_past after key ≡ true
    → get key (with_prefixes (search_prefixes prefix (scope keys read channels)) after db)
      ≡ get key db.keys
with_prefixes-search_prefixes keys read channels prefix after key db s h p n =
    let runs = search_prefixes prefix (scope keys read channels) in
    ap (get key) (with_prefixes-filter runs after db s)
    ∙ get-runs runs after key db.keys n
    ∙ rw (search_prefixes-covers keys read channels prefix key h p) refl
