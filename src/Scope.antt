-- ===== src/Scope.antt =====
-- src/scope.rs: what a client may reach in the keyspace and on channels.
pub mod Search
pub mod Listing
pub mod Access
mod Tests
use postino.Prelude.{
  ℕ, Bool, true, false, not, ◌&&◌, ◌||◌, Option, none, some, List, [], ◌∷◌, ◌++◌, if◌then◌else◌,
  is_some_and, map, any, all, ◌==◌,
}
use postino.Prelude.Order.{key_le, key_eq, text_order}
use postino.Prelude.Text.{Text, codes}
use postino.Prelude.Search.{starts_with}
use postino.Glob.{Glob, new, matches}
use postino.Glob.Prefix.{literal_prefix}

pub record Scope : Type 0 where
  pub keys : List Text
  pub read : List Text
  pub channels : List Text
  pub all_keys : Bool
  pub all_channels : Bool
  pub key_globs : List Glob
  pub read_globs : List Glob
  pub channel_globs : List Glob
  pub prefixes : Option (List Text)

-- `sort_unstable`, on texts, of which equal ones are the same.
unfoldable pub put_in_order : Text → List Text → List Text
put_in_order t [] = t ∷ []
put_in_order t (s ∷ ts) = if key_le t s then t ∷ s ∷ ts else s ∷ put_in_order t ts

unfoldable pub sorted : List Text → List Text
unfolding put_in_order
sorted [] = []
sorted (t ∷ ts) = put_in_order t (sorted ts)

unfoldable pub last : List Text → Option Text
last [] = none
last (t ∷ []) = some t
last (_ ∷ s ∷ ts) = last (s ∷ ts)

-- The loop of `new`: a start is kept unless it starts with the last one kept.
unfoldable pub keep_starts : List Text → List Text → List Text
unfolding last
keep_starts kept [] = kept
keep_starts kept (start ∷ starts) =
    if is_some_and (last kept) (λ k. starts_with k start)
    then keep_starts kept starts
    else keep_starts (kept ++ start ∷ []) starts

abbrev pub is_any : Text → Bool
is_any p = key_eq p (codes "*")

abbrev is_empty_text : Text → Bool
is_empty_text [] = true
is_empty_text (_ ∷ _) = false

-- Whether the starts say where every reachable key begins.
abbrev pub is_limited : Bool → List Text → Bool
is_limited all_keys prefixes = not all_keys && all (λ p. not (is_empty_text p)) prefixes

unfoldable pub scope : List Text → List Text → List Text → Scope
unfolding sorted keep_starts
scope keys read channels =
    let all_keys = any is_any keys in
    let prefixes = keep_starts [] (sorted (map literal_prefix (keys ++ read))) in
    record {
      keys = keys;
      read = read;
      channels = channels;
      all_keys = all_keys;
      all_channels = any is_any channels;
      key_globs = map new keys;
      read_globs = map new read;
      channel_globs = map new channels;
      prefixes = if is_limited all_keys prefixes then some prefixes else none;
    }

-- The loop of `search_prefixes`.
unfoldable pub search_loop : Text → List Text → List Text → List Text
search_loop prefix runs [] = runs
search_loop prefix runs (start ∷ own) =
    if starts_with start prefix
    then prefix ∷ []
    else search_loop prefix (if starts_with prefix start then runs ++ start ∷ [] else runs) own

unfoldable pub search_prefixes : Text → Scope → List Text
unfolding search_loop
search_prefixes prefix s = elim s.prefixes [
  | none ↦ prefix ∷ []
  | some own ↦ search_loop prefix [] own
]

unfoldable pub everything : Scope
unfolding scope
everything = scope (codes "*" ∷ []) [] (codes "*" ∷ [])

unfoldable pub agent : Text → Scope
unfolding scope
agent name = let own = (name ++ codes ":*") ∷ codes "shared:*" ∷ [] in scope own [] own

unfoldable pub is_all : Scope → Bool
is_all s = s.all_keys && s.all_channels

unfoldable pub can_write : Text → Scope → Bool
can_write key s = s.all_keys || any (λ g. matches g key) s.key_globs

unfoldable pub can_read : Text → Scope → Bool
unfolding can_write
can_read key s = can_write key s || any (λ g. matches g key) s.read_globs

unfoldable pub can_use_channel : Text → Scope → Bool
can_use_channel channel s = s.all_channels || any (λ g. matches g channel) s.channel_globs

-- `str::strip_prefix`
unfoldable pub strip_prefix : Text → Text → Option Text
strip_prefix [] t = some t
strip_prefix (c ∷ p) [] = none
strip_prefix (c ∷ p) (d ∷ t) = if c == d then strip_prefix p t else none

abbrev keyspace : Text
keyspace = codes "__keyspace__:"

abbrev keyevent : Text
keyevent = codes "__keyevent__:"

unfoldable pub can_subscribe : Text → Scope → Bool
unfolding strip_prefix can_read can_use_channel
can_subscribe channel s = elim (strip_prefix keyspace channel) [
  | some key ↦ can_read key s
  | none ↦ starts_with keyevent channel || can_use_channel channel s
]

unfoldable pub can_receive : Text → Text → Scope → Bool
unfolding strip_prefix can_read can_use_channel
can_receive channel message s = elim (strip_prefix keyspace channel) [
  | some key ↦ can_read key s
  | none ↦ if starts_with keyevent channel then can_read message s else can_use_channel channel s
]
