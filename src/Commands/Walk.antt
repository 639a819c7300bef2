-- ===== src/Commands/Walk.antt =====
-- src/commands.rs, `walk`, and the commands KEYS and DBSIZE, which walk the keyspace.
pub mod Listing
pub mod Refusals
use postino.Prelude.{
  ℕ, ◌+◌, Bool, true, false, not, ◌&&◌, Option, none, some, List, [], ◌∷◌, ◌++◌, length, ◌==◌,
  if◌then◌else◌,
}
use postino.Prelude.Text.{Text, codes, to_text}
use postino.Db.{Db}
use postino.Db.Value.{Entry, expired}
use postino.Db.Captures.{Json}
use postino.Db.Scan.{with_prefixes}
use postino.Glob.{Glob, client, matches}
use postino.Glob.Prefix.{literal_prefix}
use postino.Scope.{Scope, search_prefixes, can_read, is_all}
use postino.Commands.Reply.{bulk_list, Reply, bulk, int_reply, collect_within}
use postino.Commands.Exec.{Ctx, Method, pure, raise, lift, gets, either, arg, exactly, ◌>>=◌, ◌>>◌}

abbrev pub walk_whole : ℕ
walk_whole = 10000

unfoldable pub too_long : Text → Text
too_long command =
    codes "ERR "
    ++ (command
        ++ (codes " in a batch looks at "
            ++ (to_text walk_whole
                ++ codes " keys at most, while every other request waits; send it alone")))

module _ {S : Type 0} (s : Scope) (most now : ℕ) (visit : Text → Entry → S → S × Bool) where
  -- The caller's closure on an entry, where it is called.
  abbrev pub visited : Text → Entry → S → S × Bool
  visited k e state = if not (expired e now) && can_read k s then visit k e state else (state, true)

  -- The rounds of `walk`: what the closure leaves, and the key at which the walk paused.
  unfoldable pub walk_loop : ℕ → List (Text × Entry) → S → S × Option Text
  unfolding expired can_read
  walk_loop looked [] state = (state, none)
  walk_loop looked ((k, e) ∷ es) state =
      let (state', goes) = visited k e state in
      elim goes [
        | false ↦ (state', none)
        | true ↦ elim (looked + 1 == most) [
          | true ↦ (state', some k)
          | false ↦ walk_loop (looked + 1) es state'
        ]
      ]

  unfoldable pub walk : Text → Option Text → Db → S → S × Option Text
  unfolding walk_loop with_prefixes search_prefixes
  walk prefix after db state = walk_loop 0 (with_prefixes (search_prefixes prefix s) after db) state

-- The closures of KEYS and DBSIZE.
abbrev pub list_key : Glob → Text → Entry → List Text → List Text × Bool
list_key pattern k e found = (if matches pattern k then found ++ k ∷ [] else found, true)

abbrev count_key : Text → Entry → ℕ → ℕ × Bool
count_key k e n = (n + 1, true)

-- What KEYS lists for a pattern.
unfoldable pub list_keys : Scope → ℕ → Glob → Db → List Text × Option Text
unfolding walk literal_prefix matches
list_keys s now pattern db =
    walk s (walk_whole + 1) now (list_key pattern) (literal_prefix pattern.source) none db []

module _ (json : Json) (ctx : Ctx) (argv : List Text) where
  unfoldable pub keys : Method Reply
  unfolding exactly lift client gets list_keys either raise collect_within too_long ◌>>=◌
  keys = do
    exactly argv 2
    pattern ← lift (client (arg argv 1))
    listing ← gets (λ x. list_keys ctx.access.scope ctx.now pattern x.db)
    either listing.1 (lift (collect_within (bulk_list listing.0)))
        (λ _. raise (too_long (codes "KEYS") ++ codes ", or page through the keys with SCAN"))

  unfoldable pub dbsize : Method Reply
  unfolding gets walk either raise too_long pure is_all ◌>>=◌
  dbsize =
      if is_all ctx.access.scope
      then (do n ← gets (λ x. length x.db.keys); pure (int_reply n))
      else (do
        counted ←
            gets (λ x. walk ctx.access.scope (walk_whole + 1) ctx.now count_key [] none x.db 0)
        either counted.1 (pure (int_reply counted.0)) (λ _. raise (too_long (codes "DBSIZE"))))
