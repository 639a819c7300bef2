-- ===== src/Store/Tests.antt =====
-- The theorems on src/store.rs at concrete inputs, and what the definitions compute there.
use postino.Store.Rooms.{Room, Post, question, opened}
use postino.Store.Apply.{apply_message, apply_room}
use postino.Db
use postino.Db.Value.{string, lasting}
use postino.Store.Issued.Next.{reached, next_id-apply_all, empty-IsIssued}
use postino.Store.Questions.Kept.{AllAsked, apply-AllAsked}
use postino.Store.Rename.{rename_agent, reindex}
use postino.Prelude.Order.{key_lt}
use postino.Prelude.Map.{get, insert, remove}
use postino.Captured.{last_of}
use postino.Store.Issued.Effects.{apply-IsIssued}
use postino.Prelude.{true, false, refl, arith, ℕ, ◌+◌, List, ◌≡◌, none, some, [], ◌∷◌, any}
use postino.Prelude.Order.{key_eq, text_order}
use postino.Prelude.Text.{Text, codes}
use postino.Id.{EntryId, id_order}
use postino.Store.Messages.{Message, queued, acked}
use postino.Store.Effects.{
  Effect, lease, settle, rename, message, room, post, Store, Outside, empty, agent, drop,
}
use postino.Store.Apply.Invariant.{IsTracked}
use postino.Store.Rename.{apply, retrack}
use postino.Store.Rename.Preserved.{apply-IsTracked}
use postino.Store.Reads.{message_by_key, next_id, counts, leases_due, expired_due, settled_before}
use postino.Store.Reads.Inboxes.{scan, counts-scan}
use postino.Store.Reads.Falling.{past, lease_end, expiry_time, settle_time, leases_due_complete}
use postino.Store.Loading.{SnapshotOwned, apply_all, from_snapshot}
use postino.Store.Loading.Recovery.{recovered-retrack, from_snapshot-IsTracked}

abbrev nowhere : Outside
nowhere = record {
  room = λ _. none;
  message = λ _. some (b'm' ∷ []);
  keys = record { key = λ _. none; entry = λ _. none };
  other = λ at argv d. d;
}

abbrev id_at : ℕ → EntryId
id_at n = record { ms = n; seq = 0 }

abbrev letter : ℕ → Text → Text → Message
letter n from to = record {
  id = id_at n;
  from = from;
  to = to;
  body = codes "hello";
  created = n;
  expires = n + 100;
  thread = id_at n;
  reply_to = none;
  key = some (codes "once");
  state = queued;
  deliveries = 0;
  lease = none;
  settled = none;
}

abbrev ann : Text
ann = codes "ann"

abbrev bob : Text
bob = codes "bob"

abbrev kept : SnapshotOwned
kept = record {
  last_id = id_at 9;
  agents = record { name = ann; created = 1; last_seen = 2; cursor = none } ∷ [];
  messages = letter 5 ann bob ∷ letter 6 bob ann ∷ letter 7 ann bob ∷ [];
  broadcasts = [];
  rooms = [];
  keys = [];
}

abbrev loaded : Store
loaded = from_snapshot nowhere kept

abbrev later_on : List Effect
later_on =
    lease (id_at 5) (codes "c") (codes "t") 10 20 ∷ settle (id_at 7) acked 30 ∷ rename ann bob ∷ []

abbrev then_ : Store
then_ = apply nowhere (lease (id_at 5) (codes "c") (codes "t") 10 20) loaded

then-IsTracked : IsTracked then_
then-IsTracked =
    apply-IsTracked nowhere (lease (id_at 5) (codes "c") (codes "t") 10 20) loaded
      (from_snapshot-IsTracked nowhere kept)

apply-IsTracked_example : IsTracked (apply nowhere (rename bob ann) then_)
apply-IsTracked_example = apply-IsTracked nowhere (rename bob ann) then_ then-IsTracked

recovered-retrack_example :
    retrack (apply_all nowhere later_on (from_snapshot nowhere kept))
    ≡ apply_all nowhere later_on (from_snapshot nowhere kept)
recovered-retrack_example = recovered-retrack nowhere kept later_on

counts-scan_example : counts then_ bob ≡ scan bob then_.messages.map
counts-scan_example = counts-scan then_ then-IsTracked bob

leases_due_complete_example :
    (any (key_eq (id_at 5)) (leases_due then_ 20) ≡ past lease_end 20 (id_at 5) then_)
    × (any (key_eq (id_at 5)) (expired_due then_ 20) ≡ past expiry_time 20 (id_at 5) then_)
    × (any (key_eq (id_at 5)) (settled_before then_ 20) ≡ past settle_time 20 (id_at 5) then_)
leases_due_complete_example = leases_due_complete then_ then-IsTracked 20 (id_at 5)

abbrev moved : List Effect
moved = message (letter 5 ann bob) ∷ message (letter 7 bob ann) ∷ rename ann bob ∷ []

next_id-apply_all_example :
    (key_lt (reached nowhere moved).last_id (next_id 7 (reached nowhere moved)) ≡ true)
    × (get (next_id 7 (reached nowhere moved)) (reached nowhere moved).messages.map ≡ none)
    × (get (next_id 7 (reached nowhere moved)) (reached nowhere moved).broadcasts ≡ none)
    × ((name : Text) (r : Room)
        → get name (reached nowhere moved).rooms.map ≡ some r
        → get (next_id 7 (reached nowhere moved)) r.posts ≡ none)
unfolding apply_all apply apply_message rename_agent retrack reindex
next_id-apply_all_example =
    next_id-apply_all nowhere moved 7 (tt, (tt, (tt, tt))) (ground arith) (ground arith)
      (λ e. absurd (ground arith))

abbrev asked : Post
asked = record {
  id = id_at 8;
  from = ann;
  kind = question;
  body = codes "which one?";
  created = 8;
  reply_to = none;
  about = none;
  choice = none;
  ask = some (record { to = bob ∷ []; options = []; expires = 99; status = opened; closed = none });
  key = none;
}

abbrev lobby : Room
lobby = record {
  name = codes "lobby";
  topic = [];
  created = 1;
  created_by = ann;
  private = false;
  closed = none;
  members = [];
  board = [];
  posts = [];
  open_ = [];
}

-- A state with something in each part that is written.
abbrev full : Store
full = from_snapshot nowhere (record kept {
  broadcasts =
      record { id = id_at 4; from = ann; body = codes "all"; created = 4; expires = 90; key = none }
      ∷ [];
  rooms = lobby ∷ [];
  keys = (codes "k", lasting (string (codes "v"))) ∷ [];
})

abbrev with_room : Store
with_room = apply nowhere (room lobby) empty

with_room-AllAsked : AllAsked with_room
unfolding get
with_room-AllAsked =
    apply-AllAsked nowhere (room lobby) empty (tt, λ id p h. absurd (ground arith)) empty-IsIssued
      (λ k v h. absurd (ground arith))

apply-AllAsked_example : AllAsked (apply nowhere (post (codes "lobby") asked) with_room)
unfolding apply apply_room last_of
apply-AllAsked_example =
    apply-AllAsked nowhere (post (codes "lobby") asked) with_room refl
      (apply-IsIssued nowhere (room lobby) empty tt empty-IsIssued) with_room-AllAsked

-- After a rename two messages in one inbox may have the same sender and the same key. To drop the
-- first of them takes the key from the second, which stays.
abbrev merged : Store
merged =
    apply_all nowhere
      (message (letter 5 ann bob)
        ∷ message (letter 6 (codes "cyd") bob)
        ∷ agent (codes "cyd") 7
        ∷ rename (codes "cyd") ann
        ∷ drop (id_at 5 ∷ [])
        ∷ [])
      empty

lost_key : message_by_key merged bob ann (codes "once") ≡ none
unfolding message_by_key get apply_all apply insert remove
lost_key = refl

still_there : get (id_at 6) merged.messages.map ≡ some (letter 6 ann bob)
unfolding get apply_all apply insert remove
still_there = refl
