-- ===== src/Store/Loading/Ids.antt =====
-- src/store.rs, `Store::from_snapshot`: the last id, which what is put in again does not raise.
use postino.Prelude.{
  ◌≡◌, refl, List, ap, ◌∙◌, Bool-cases, Option-cases, inl, inr, true, some, [], ◌∷◌, arith, map,
}
use postino.Prelude.Order.{Order, key_eq, key_le, text_order}
use postino.Prelude.Map.{Map, keys, get, insert, IsDistinct}
use postino.Id.{EntryId, id_order, cmp_id-IsOrder}
use postino.Captured.{last_of}
use postino.Store.Rooms.{Room}
use postino.Store.Effects.{Effect, message, broadcast, room, Store, Outside}
use postino.Store.Changes.{max}
use postino.Store.Apply.{apply_message, apply_broadcast, apply_room}
use postino.Store.Messages.{Message, Broadcast}
use postino.Store.Rename.{apply}
use postino.Store.Issued.{Within}
use postino.Store.Loading.{read_back, read_room, values, add_agents, apply_all, Saved}
open cmp_id-IsOrder use {eq_of_cmp, cmp_refl}

max_within : (a b : EntryId) → key_le b a ≡ true → max a b ≡ a
max_within a b h = ground (arith, eq_of_cmp a b, eq_of_cmp b a, h)

-- The last of the keys of a map is one of them.
last_of-get :
    {V : Type 0} (m : Map EntryId V) (b : EntryId)
    → last_of (keys m) ≡ some b
    → (v : V) × (get b m ≡ some v)
unfolding last_of get
last_of-get [] b h = absurd (ground arith)
last_of-get ((k, v) ∷ []) b h = (v, ground (arith, cmp_refl k))
last_of-get ((k, v) ∷ (j, w) ∷ m) b h =
    let (x, e) = last_of-get ((j, w) ∷ m) b (ground (arith, h)) in
    elim (Bool-cases (key_eq b k)) [
      | inl same ↦ (v, ground (arith, same))
      | inr other ↦ (x, ground (arith, other, e))
    ]

module _ (out : Outside) where
  -- Effects that each leave a last id as it is, one after another.
  pub last_id-apply_all :
      {K V : Type 0} ⦃o : Order K⦄ (effect : V → Effect) (last : EntryId) (ps : Map K V) (s : Store)
      → IsDistinct ps
      → ((k : K) (v : V)
          → get k ps ≡ some v
          → (t : Store) → t.last_id ≡ last
          → (apply out (effect v) t).last_id ≡ last)
      → s.last_id ≡ last
      → (apply_all out (map effect (values ps)) s).last_id ≡ last
  unfolding apply_all get
  last_id-apply_all effect last [] s d h e = e
  last_id-apply_all ⦃o⦄ effect last ((k, v) ∷ ps) s d h e =
      last_id-apply_all effect last ps (apply out (effect v) s) d.1
        (λ j x f. h j x (ground (arith, d.0, f, o.eq_of_cmp j k)))
        (h k v (ground (arith, o.cmp_refl k)) s e)

  pub last_id-message :
      (last : EntryId) (m : Message) (t : Store)
      → key_le m.id last ≡ true
      → t.last_id ≡ last
      → (apply out (message m) t).last_id ≡ last
  unfolding apply apply_message
  last_id-message last m t h e = ap (λ l. max l m.id) e ∙ max_within last m.id h

  pub last_id-broadcast :
      (last : EntryId) (b : Broadcast) (t : Store)
      → key_le b.id last ≡ true
      → t.last_id ≡ last
      → (apply out (broadcast b) t).last_id ≡ last
  unfolding apply apply_broadcast
  last_id-broadcast last b t h e = ap (λ l. max l b.id) e ∙ max_within last b.id h

  pub last_id-room :
      (last : EntryId) (r : Room) (t : Store)
      → Within last r.posts
      → t.last_id ≡ last
      → (apply out (room (read_room r)) t).last_id ≡ last
  unfolding apply apply_room read_room
  last_id-room last r t w e = elim (Option-cases (last_of (keys r.posts))) [
    | inl none_there ↦ rw (none_there, apply_room) e
    | inr (b, f) ↦
        let (p, g) = last_of-get r.posts b f in
        rw (f, apply_room) (ap (λ l. max l b) e ∙ max_within last b (w b p g))
  ]

-- Reading the agents back leaves it too.
pub last_id-add_agents : (rest : List Saved) (s : Store) → (add_agents rest s).last_id ≡ s.last_id
unfolding add_agents
last_id-add_agents [] s = refl
last_id-add_agents (a ∷ rest) s =
    last_id-add_agents rest (record s { agents = insert a.name (read_back a) s.agents })
