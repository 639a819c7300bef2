-- ===== src/Store/Issued/Next.antt =====
-- src/store.rs, `Store::next_id`: the next id is of no message, broadcast or post.
use postino.Prelude.{
  ℕ, ◌<◌, ◌≡◌, ◌≢◌, Option-cases, inl, inr, true, none, some, List, [], ◌∷◌, arith,
}
use postino.Prelude.Order.{key_lt, text_order}
use postino.Prelude.Map.{Map, get}
use postino.Prelude.Text.{Text, u64_size}
use postino.Id.{EntryId, id_order, max_id, next_after, IsWord}
use postino.Id.Laws.{next_after-least, next_after-none}
use postino.Store.Rooms.{Room}
use postino.Store.Effects.{Store, Effect, Outside, empty}
use postino.Store.Rename.{apply}
use postino.Store.Loading.{apply_all}
use postino.Store.Issued.Effects.{IsOrdered, apply-IsIssued}
use postino.Store.Reads.{next_id}
use postino.Store.Issued.{Within, IsIssued}

-- A key that comes after all of a map is not in it.
pub new-Within :
    {V : Type 0} (m : Map EntryId V) (last id : EntryId)
    → Within last m
    → key_lt last id ≡ true
    → get id m ≡ none
new-Within m last id w l = elim (Option-cases (get id m)) [
  | inl e ↦ e
  | inr (v, e) ↦ absurd (ground (arith, w id v e))
]

-- Where `last_id` is not the largest id, the next id is after it, and of no message, broadcast or
-- post.
pub next_id-new :
    (s : Store) (now : ℕ)
    → IsIssued s
    → IsWord s.last_id
    → now < u64_size
    → s.last_id ≢ max_id
    → (key_lt s.last_id (next_id now s) ≡ true)
      × (get (next_id now s) s.messages.map ≡ none)
      × (get (next_id now s) s.broadcasts ≡ none)
      × ((name : Text) (r : Room)
          → get name s.rooms.map ≡ some r
          → get (next_id now s) r.posts ≡ none)
unfolding next_id
next_id-new s now v w n free = elim (Option-cases (next_after s.last_id now)) [
  | inl e ↦ absurd (free ((next_after-none s.last_id now w n).0 e))
  | inr (id, e) ↦
      let above : key_lt s.last_id id ≡ true =
        ground (arith, (next_after-least s.last_id now w n e).1) in
      rw (e, next_id)
        (
          above,
          new-Within s.messages.map s.last_id id v.messages above,
          new-Within s.broadcasts s.last_id id v.broadcasts above,
          λ name r h. new-Within r.posts s.last_id id (v.posts name r h) above,
        )
]

pub empty-IsIssued : IsIssued empty
unfolding get
empty-IsIssued = record {
  messages = λ id v h. absurd (ground arith);
  broadcasts = λ id v h. absurd (ground arith);
  posts = λ name r h. absurd (ground arith);
}

module _ (out : Outside) where
  -- Each room that comes as a whole has its posts in order.
  abbrev pub AllOrdered : List Effect → Type 0
  AllOrdered [] = Unit
  AllOrdered (e ∷ es) = IsOrdered out e × AllOrdered es

  pub apply_all-IsIssued :
      (es : List Effect) (s : Store) → AllOrdered es → IsIssued s → IsIssued (apply_all out es s)
  unfolding apply_all
  apply_all-IsIssued [] s o v = v
  apply_all-IsIssued (e ∷ es) s o v =
      apply_all-IsIssued es (apply out e s) o.1 (apply-IsIssued out e s o.0 v)

  -- The state after effects on the empty one.
  abbrev pub reached : List Effect → Store
  reached es = apply_all out es empty

  -- After any effects on the empty state, of which those that bring a whole room have its posts in
  -- order, where `last_id` and the clock are machine words and `last_id` is not the largest id, the
  -- next id is after `last_id` and of no message, broadcast or post.
  pub next_id-apply_all :
      (es : List Effect) (now : ℕ)
      → AllOrdered es
      → IsWord (reached es).last_id
      → now < u64_size
      → (reached es).last_id ≢ max_id
      → (key_lt (reached es).last_id (next_id now (reached es)) ≡ true)
        × (get (next_id now (reached es)) (reached es).messages.map ≡ none)
        × (get (next_id now (reached es)) (reached es).broadcasts ≡ none)
        × ((name : Text) (r : Room)
            → get name (reached es).rooms.map ≡ some r
            → get (next_id now (reached es)) r.posts ≡ none)
  next_id-apply_all es now o =
      next_id-new (reached es) now (apply_all-IsIssued es empty o empty-IsIssued)
