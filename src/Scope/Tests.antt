-- ===== src/Scope/Tests.antt =====
-- Runs of src/scope.rs, among them those of its own tests.
use postino.Prelude.{◌≡◌, refl, true, false, none, [], ◌∷◌, List, any, arith}
use postino.Prelude.Map.{get, IsSorted}
use postino.Prelude.Text.{Text, codes, ok, utf8_len}
use postino.Prelude.Search.{starts_with}
use postino.Prelude.Order.{text_order}
use postino.Db.Value.{string, lasting}
use postino.Db.{Db}
use postino.Db.Scan.{with_prefixes}
use postino.Glob.Prefix.{literal_prefix}
use postino.Glob.{new, matches}
use postino.Scope.{
  scope, search_prefixes, search_loop, sorted, put_in_order, last, keep_starts, can_read, can_write,
}
use postino.Scope.Access.{permit, permit-allows, MayPublish, MayTouch}
use postino.Commands.Names.{key_args, key_spec, find_spec, key_table, split_words, name_of}
use postino.Scope.Search.{search_prefixes-covers}
use postino.Scope.Listing.{with_prefixes-search_prefixes}

abbrev patterns : List Text
patterns = codes "dave:*" ∷ codes "shared:*" ∷ codes "dave:x*" ∷ []

-- The last pattern's keys are among those of the first.
merged : search_prefixes [] (scope patterns [] []) ≡ codes "dave:" ∷ codes "shared:" ∷ []
unfolding search_prefixes search_loop scope sorted put_in_order keep_starts last literal_prefix
    starts_with
merged = refl

abbrev db : Db
db = record {
  keys = (codes "anna:1", lasting (string [])) ∷ (codes "dave:1", lasting (string [])) ∷ [];
  deadlines = [];
  capture = none;
  captures = 0;
}

readable : can_read (codes "dave:1") (scope patterns [] []) ≡ true
unfolding can_read can_write scope new matches
readable = refl

begins : starts_with (codes "da") (codes "dave:1") ≡ true
unfolding starts_with
begins = refl

db-IsSorted : IsSorted db.keys
db-IsSorted = ground arith

search_prefixes-covers_example :
    any
      (λ run. starts_with run (codes "dave:1"))
      (search_prefixes (codes "da") (scope patterns [] []))
    ≡ true
search_prefixes-covers_example =
    search_prefixes-covers patterns [] [] (codes "da") (codes "dave:1") readable begins

with_prefixes-search_prefixes_example :
    get
      (codes "dave:1")
      (with_prefixes (search_prefixes (codes "da") (scope patterns [] [])) none db)
    ≡ get (codes "dave:1") db.keys
with_prefixes-search_prefixes_example =
    with_prefixes-search_prefixes patterns [] [] (codes "da") none (codes "dave:1") db db-IsSorted
      readable begins refl

reading :
    permit
      (λ t. t)
      (record { admin = false; scope = scope patterns [] [] })
      (codes "GET" ∷ codes "dave:1" ∷ [])
    ≡ ok tt
unfolding permit scope key_args key_spec find_spec key_table split_words name_of utf8_len can_read
    can_write new matches
reading = refl

permit-allows_example :
    let argv = codes "GET" ∷ codes "dave:1" ∷ [] in
    MayPublish argv (scope patterns [] []) × MayTouch argv (scope patterns [] [])
permit-allows_example =
    permit-allows (λ t. t) (record { admin = false; scope = scope patterns [] [] })
      (codes "GET" ∷ codes "dave:1" ∷ []) reading
