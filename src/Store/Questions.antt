-- ===== src/Store/Questions.antt =====
-- src/store.rs, `Room::open`: the ids that a room keeps of its open questions are those of its posts
-- that are open questions.
pub mod Kept
use postino.Prelude.{
  ℕ, ◌≡◌, refl, ◌∙◌, subst, ap, Bool, Bool-cases, Option-cases, inl, inr, true, false, none, some,
  List, [], ◌∷◌, arith, is_some_and, if◌then◌else◌,
}
use postino.Prelude.Order.{key_eq, key_le, key_lt, text_order}
use postino.Prelude.Map.{Map, get, insert, remove, IsSorted, get-insert, get-remove, get-Above}
use postino.Prelude.Map.Length.{has_key}
use postino.Prelude.Map.Count.{has_key-insert, has_key-remove}
use postino.Prelude.Text.{Text}
use postino.Id.{EntryId, id_order, cmp_id-IsOrder}
use postino.Captured.{each}
use postino.Captured.Maps.{get-each}
use postino.Store.Messages.{Ids}
use postino.Store.Rooms.{Room, Post, Ask, Status, is_open_question, is_opened}
use postino.Store.Changes.{open_ids, add_post, ask_post, answer_with, drop_post, drop_all_posts}
use postino.Store.Rename.{rename_post, rename_room}
open cmp_id-IsOrder use {eq_of_cmp, cmp_refl}

abbrev pub IsAsked : Room → Type 0
IsAsked r = (id : EntryId) → has_key id r.open_ ≡ is_some_and (get id r.posts) is_open_question

-- The posts of a room are in order, each under its id.
abbrev pub IsKeyed : Map EntryId Post → Type 0
IsKeyed ps = IsSorted ps × ((id : EntryId) (p : Post) → get id ps ≡ some p → p.id ≡ id)

pub open_ids-IsAsked :
    (ps : Map EntryId Post)
    → IsKeyed ps
    → (id : EntryId) → has_key id (open_ids ps) ≡ is_some_and (get id ps) is_open_question
unfolding open_ids get
open_ids-IsAsked [] k id = refl
open_ids-IsAsked ((j, p) ∷ ps) k id =
    let same : p.id ≡ j = k.1 j p (ground (arith, cmp_refl j)) in
    let rest =
      open_ids-IsAsked ps
        (k.0.1, λ i q e. k.1 i q (ground (arith, e, get-Above j ps k.0.0, eq_of_cmp i j))) id in
    elim (Bool-cases (is_open_question p)) [
      | inl asks ↦ ground (
        arith,
        asks,
        rest,
        has_key-insert id p.id (open_ids ps),
        ap (key_eq id) same,
        get-Above j ps k.0.0,
        eq_of_cmp id j,
      )
      | inr plain ↦ ground (arith, plain, rest, get-Above j ps k.0.0, eq_of_cmp id j)
    ]

pub add_post-IsAsked :
    (p : Post) (r : Room) → get p.id r.posts ≡ none → IsAsked r → IsAsked (add_post p r)
unfolding add_post
add_post-IsAsked p r new v id = ground (
  arith,
  new,
  v id,
  has_key-insert id p.id r.open_,
  get-insert p.id id p r.posts,
  eq_of_cmp id p.id,
)

pub ask_post-IsAsked :
    (id : EntryId) (status : Status) (at : ℕ) (r : Room)
    → IsAsked r
    → IsAsked (ask_post id status at r)
unfolding ask_post is_open_question answer_with
ask_post-IsAsked id status at r v j = elim (Option-cases (get id r.posts)) [
  | inl e ↦ rw (e, ask_post) (v j)
  | inr (p, e) ↦ elim (Option-cases p.ask) [
    | inl f ↦ rw (e, f, ask_post) (v j)
    | inr (a, f) ↦ ground (
      arith,
      e,
      f,
      v j,
      has_key-insert j id r.open_,
      has_key-remove j id r.open_,
      get-insert id j (record p { ask = some (answer_with status at a) }) r.posts,
      eq_of_cmp j id,
    )
  ]
]

pub drop_all_posts-IsAsked :
    (ids : List EntryId) (r : Room) → IsAsked r → IsAsked (drop_all_posts ids r)
unfolding drop_all_posts drop_post
drop_all_posts-IsAsked [] r v = v
drop_all_posts-IsAsked (id ∷ ids) r v =
    drop_all_posts-IsAsked ids (drop_post id r)
      (λ j. ground (arith, v j, has_key-remove j id r.open_, get-remove id j r.posts))

is_open_question-rename_post :
    (from to : Text) (p : Post) → is_open_question (rename_post from to p) ≡ is_open_question p
unfolding is_open_question rename_post
is_open_question-rename_post from to p = ground arith

pub rename_room-IsAsked : (from to : Text) (r : Room) → IsAsked r → IsAsked (rename_room from to r)
unfolding rename_room
rename_room-IsAsked from to r v j = elim (Option-cases (get j r.posts)) [
  | inl e ↦ ground (arith, e, v j, get-each j (rename_post from to) r.posts)
  | inr (p, e) ↦ ground (
    arith,
    e,
    v j,
    get-each j (rename_post from to) r.posts,
    is_open_question-rename_post from to p,
  )
]
