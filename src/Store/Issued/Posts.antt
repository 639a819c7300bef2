-- ===== src/Store/Issued/Posts.antt =====
-- What a change of a room does to the ids of its posts: src/store.rs, the effects on rooms.
use postino.Prelude.{ℕ, ◌≡◌, ◌≢◌, Option-cases, inl, inr, true, none, some, List, [], ◌∷◌, arith}
use postino.Prelude.Order.{key_le, text_order}
use postino.Prelude.Map.{Map, keys, get, IsSorted}
use postino.Prelude.Text.{Text}
use postino.Id.{EntryId, id_order, cmp_id-IsOrder}
use postino.Captured.{last_of}
use postino.Store.Rooms.{Room, Post, Status}
use postino.Store.Changes.{max, add_post, ask_post, drop_post, drop_all_posts}
use postino.Store.Rename.{rename_room, rename_post}
use postino.Store.Issued.{Within, Within-insert, Within-remove, Within-each}
open cmp_id-IsOrder use {eq_of_cmp, cmp_refl}

-- The last key of a sorted map is its largest.
pub last_of-Within :
    {V : Type 0} (m : Map EntryId V) (b : EntryId)
    → IsSorted m
    → last_of (keys m) ≡ some b
    → Within b m
unfolding last_of get
last_of-Within [] b s h id v e = absurd (ground arith)
last_of-Within ((k, x) ∷ []) b s h id v e = ground (arith, eq_of_cmp id k, cmp_refl k)
last_of-Within ((k, x) ∷ (j, y) ∷ m) b s h id v e = ground (
  arith,
  last_of-Within ((j, y) ∷ m) b s.1 h id v,
  last_of-Within ((j, y) ∷ m) b s.1 h j y,
  s.0.0,
  eq_of_cmp id k,
  cmp_refl j,
)

last_of-some : {A : Type 0} (a : A) (xs : List A) → last_of (a ∷ xs) ≢ none
unfolding last_of
last_of-some a [] h = ground arith
last_of-some a (b ∷ xs) h = last_of-some b xs h

pub last_of-nil :
    {V : Type 0} (m : Map EntryId V) (last : EntryId) → last_of (keys m) ≡ none → Within last m
unfolding get
last_of-nil [] last h id v e = absurd (ground arith)
last_of-nil ((k, x) ∷ m) last h id v e = absurd (last_of-some k (keys m) h)

-- What a change of a room does to its posts.
pub drop_all_posts-Within :
    (ids : List EntryId) (last : EntryId) (r : Room)
    → Within last r.posts
    → Within last (drop_all_posts ids r).posts
unfolding drop_all_posts drop_post
drop_all_posts-Within [] last r w = w
drop_all_posts-Within (id ∷ ids) last r w =
    drop_all_posts-Within ids last (drop_post id r) (Within-remove last r.posts w id)

pub ask_post-Within :
    (id : EntryId) (status : Status) (at : ℕ) (last : EntryId) (r : Room)
    → Within last r.posts
    → Within last (ask_post id status at r).posts
unfolding ask_post
ask_post-Within id status at last r w = elim (Option-cases (get id r.posts)) [
  | inl e ↦ rw (e, ask_post) w
  | inr (p, e) ↦ elim (Option-cases p.ask) [
    | inl f ↦ rw (e, f, ask_post) w
    | inr (a, f) ↦ rw (e, f, ask_post) (Within-insert last r.posts w id _ (w id p e))
  ]
]

pub add_post-Within :
    (p : Post) (last : EntryId)
    → key_le p.id last ≡ true
    → (r : Room) → Within last r.posts
    → Within last (add_post p r).posts
unfolding add_post
add_post-Within p last l r w = Within-insert last r.posts w p.id p l

pub rename_room-Within :
    (from to : Text) (last : EntryId) (r : Room)
    → Within last r.posts
    → Within last (rename_room from to r).posts
unfolding rename_room
rename_room-Within from to last r w = Within-each last r.posts w (rename_post from to)

-- `max` is not before its second argument either.
pub le_max' : (a b id : EntryId) → key_le id b ≡ true → key_le id (max a b) ≡ true
le_max' a b id h = ground arith
