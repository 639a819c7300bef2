-- ===== src/Store/Rooms.antt =====
-- src/store.rs: rooms, their posts, and what a member reads of them.
use postino.Prelude.{
  ℕ, Bool, true, false, not, ◌&&◌, ◌||◌, Option, none, some, List, [], ◌∷◌, length, any,
  is_some_and, if◌then◌else◌,
}
use postino.Prelude.Order.{key_eq, key_lt, text_order}
use postino.Prelude.Map.{Map, get}
use postino.Prelude.Ranges.{range_after}
use postino.Prelude.Text.{Text}
use postino.Id.{EntryId, id_order}
use postino.Store.Messages.{Ids}

pub data Role : Type 0 where
  owner member : Role

pub record Member : Type 0 where
  pub role : Role
  pub joined : ℕ
  pub cursor : Option EntryId

pub data Kind : Type 0 where
  note question answer event : Kind

pub data Status : Type 0 where
  opened resolved withdrawn expired : Status

pub record Ask : Type 0 where
  pub to : List Text
  pub options : List Text
  pub expires : ℕ
  pub status : Status
  pub closed : Option ℕ

pub record Post : Type 0 where
  pub id : EntryId
  pub from : Text
  pub kind : Kind
  pub body : Text
  pub created : ℕ
  pub reply_to : Option EntryId
  pub about : Option Text
  pub choice : Option Text
  pub ask : Option Ask
  pub key : Option Text

-- An entry of a room's board.
pub record Entry : Type 0 where
  pub value : Text
  pub by : Text
  pub at : ℕ
  pub version : ℕ

pub record Room : Type 0 where
  pub name : Text
  pub topic : Text
  pub created : ℕ
  pub created_by : Text
  pub private : Bool
  pub closed : Option ℕ
  pub members : Map Text Member
  pub board : Map Text Entry
  pub posts : Map EntryId Post
  pub open_ : Ids

unfoldable pub is_opened : Status → Bool
is_opened opened = true
is_opened _ = false

unfoldable pub is_open_question : Post → Bool
unfolding is_opened
is_open_question p = is_some_and p.ask λ a. is_opened a.status

unfoldable pub is_answer : Kind → Bool
is_answer answer = true
is_answer _ = false

unfoldable pub is_owner_role : Role → Bool
is_owner_role owner = true
is_owner_role member = false

-- `posts.values().filter(..)`
unfoldable pub posts_where : (Post → Bool) → Map EntryId Post → List Post
posts_where test [] = []
posts_where test ((_, p) ∷ ps) = if test p then p ∷ posts_where test ps else posts_where test ps

-- `set.iter().filter_map(|id| posts.get(id))`
unfoldable pub look_up : Ids → Map EntryId Post → List Post
look_up [] posts = []
look_up ((id, _) ∷ ids) posts = elim (get id posts) [
  | none ↦ look_up ids posts
  | some p ↦ p ∷ look_up ids posts
]

-- `map.range(k..)`
unfoldable pub from_on : EntryId → Map EntryId Post → Map EntryId Post
from_on k [] = []
from_on k ((j, p) ∷ ps) = if key_lt j k then from_on k ps else (j, p) ∷ ps

abbrev pub says {ℓ} : {A : Type ℓ} → (A → Bool) → List A → List A
says test [] = []
says test (a ∷ xs) = if test a then a ∷ says test xs else says test xs

module _ (room : Room) where
  unfoldable pub open_questions : List Post
  unfolding look_up
  open_questions = look_up room.open_ room.posts

  unfoldable pub is_open : Bool
  is_open = elim room.closed [ none ↦ true | some _ ↦ false ]

  unfoldable pub is_owner : Text → Bool
  unfolding is_owner_role
  is_owner agent = is_some_and (get agent room.members) λ m. is_owner_role m.role

  unfoldable pub answers : EntryId → List Post
  unfolding posts_where from_on is_answer
  answers q =
      posts_where (λ p. is_answer p.kind && is_some_and p.reply_to λ r. key_eq r q)
        (from_on q room.posts)

  unfoldable pub waiting_on : Post → List Text
  unfolding answers
  waiting_on q = elim q.ask [
    | none ↦ []
    | some ask ↦ says (λ name. not (any (λ a. key_eq a.from name) (answers q.id))) ask.to
  ]

  unfoldable pub unread : Text → ℕ
  unfolding posts_where
  unread agent =
      let cursor : Option EntryId = elim (get agent room.members) [
        | none ↦ none
        | some m ↦ m.cursor
      ] in
      length (posts_where (λ p. not (key_eq p.from agent)) (range_after cursor room.posts))

  -- The questions that `agent` has answered.
  unfoldable pub answered : Text → List Post
  unfolding posts_where is_answer
  answered agent = posts_where (λ p. is_answer p.kind && key_eq p.from agent) room.posts

  unfoldable pub awaits : Text → Post → Bool
  unfolding answered is_opened
  awaits agent p =
      is_some_and p.ask (λ a. is_opened a.status && any (λ n. key_eq n agent) a.to)
      && not (any (λ a. is_some_and a.reply_to λ r. key_eq r p.id) (answered agent))

  unfoldable pub waiting_for : Text → ℕ
  unfolding awaits posts_where
  waiting_for agent = length (posts_where (awaits agent) room.posts)

  unfoldable pub keeps : Post → Bool
  unfolding is_open_question is_answer
  keeps p =
      is_open_question p
      || (is_answer p.kind
          && is_some_and p.reply_to λ q. is_some_and (get q room.posts) is_open_question)
