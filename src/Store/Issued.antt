-- ===== src/Store/Issued.antt =====
-- src/store.rs, `last_id`: no message, broadcast or post has a later id, so that the next id is new.
pub mod Posts
pub mod Kept
pub mod Effects
pub mod Next
use postino.Prelude.{
  ◌≡◌, refl, subst, Bool, Bool-cases, inl, inr, true, false, none, some, [], ◌∷◌, arith,
  if◌then◌else◌,
}
use postino.Prelude.Order.{key_eq, key_le, key_lt, text_order}
use postino.Prelude.Map.{Map, get, insert, remove, get-insert, get-remove}
use postino.Prelude.Text.{Text}
use postino.Id.{EntryId, id_order, cmp_id-IsOrder}
use postino.Captured.{change, each}
use postino.Captured.Maps.{get-change, change-cases, each-cases, get-each}
use postino.Captured.Each.{Each-insert, Each-remove, Each-each, Each-change}
use postino.Store.Rooms.{Room}
use postino.Store.Effects.{Store}
use postino.Store.Changes.{max}
open cmp_id-IsOrder use {eq_of_cmp}

-- No key of the map is after `last`.
abbrev pub Within : {V : Type 0} → EntryId → Map EntryId V → Type 0
Within {V} last m = (id : EntryId) (v : V) → get id m ≡ some v → key_le id last ≡ true

-- And so for the posts of each room.
abbrev pub Posted : EntryId → Map Text Room → Type 0
Posted last rooms = (name : Text) (r : Room) → get name rooms ≡ some r → Within last r.posts

pub record IsIssued (s : Store) : Type 0 where
  pub messages : Within s.last_id s.messages.map
  pub broadcasts : Within s.last_id s.broadcasts
  pub posts : Posted s.last_id s.rooms.map

pub le_max : (a b id : EntryId) → key_le id a ≡ true → key_le id (max a b) ≡ true
le_max a b id h = ground arith

pub max_le : (a b : EntryId) → key_le b (max a b) ≡ true
max_le a b = ground arith

module _ {V : Type 0} (last : EntryId) (m : Map EntryId V) (w : Within last m) where
  pub Within-max : (b : EntryId) → Within (max last b) m
  Within-max b id v h = le_max last b id (w id v h)

  pub Within-insert : (k : EntryId) (x : V) → key_le k last ≡ true → Within last (insert k x m)
  Within-insert k x l id v h = elim (Bool-cases (key_eq id k)) [
    | inl same ↦ ground (arith, l, same)
    | inr other ↦ w id v (ground (arith, get-insert k id x m))
  ]

  pub Within-remove : (k : EntryId) → Within last (remove k m)
  Within-remove k id v h = w id v (ground (arith, get-remove k id m))

  pub Within-each : (f : V → V) → Within last (each f m)
  Within-each f id v h = let (u, e, p) = each-cases id f m v h in w id u e

  pub Within-change : (k : EntryId) (f : V → V) → Within last (change k f m)
  Within-change k f id v h = elim (change-cases k id f m v h) [
    | inl (same, (u, e, p)) ↦ w id u e
    | inr (other, e) ↦ w id v e
  ]

module _ (last : EntryId) (rooms : Map Text Room) (w : Posted last rooms) where
  pub Posted-max : (b : EntryId) → Posted (max last b) rooms
  Posted-max b name r h = Within-max last r.posts (w name r h) b

  pub Posted-each :
      (f : Room → Room)
      → ((r : Room) → Within last r.posts → Within last (f r).posts)
      → Posted last (each f rooms)
  Posted-each f keep = Each-each (λ r. Within last r.posts) rooms w f keep

  pub Posted-change :
      (k : Text) (f : Room → Room)
      → ((r : Room) → Within last r.posts → Within last (f r).posts)
      → Posted last (change k f rooms)
  Posted-change k f keep = Each-change (λ r. Within last r.posts) rooms w k f (λ r e. keep r)

  pub Posted-insert : (k : Text) (x : Room) → Within last x.posts → Posted last (insert k x rooms)
  Posted-insert k x l = Each-insert (λ r. Within last r.posts) rooms w k x l

  pub Posted-remove : (k : Text) → Posted last (remove k rooms)
  Posted-remove k = Each-remove (λ r. Within last r.posts) rooms w k
