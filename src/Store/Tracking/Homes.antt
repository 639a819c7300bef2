-- ===== src/Store/Tracking/Homes.antt =====
-- Each message is in the inbox of an agent that is there: src/store.rs, the inboxes that
-- `Store::apply` keeps beside what `track` does.
use postino.Prelude.{
  Option, ℕ, ◌≡◌, refl, Bool, Option-cases, inl, inr, true, false, some, [], ◌∷◌, arith,
  is_some_and,
}
use postino.Prelude.Order.{key_eq, text_order, cmp_text-IsOrder}
use postino.Prelude.Map.{Map, get, insert, IsSorted, get-insert, get-Above}
use postino.Prelude.Map.Length.{has_key}
use postino.Prelude.Map.Count.{count, has_key-insert, has_key-remove}
use postino.Prelude.Text.{Text}
use postino.Id.{EntryId, id_order, cmp_id-IsOrder}
use postino.Captured.{change}
use postino.Captured.Maps.{get-change}
use postino.Store.Messages
use postino.Store.Messages.{Message, Agent, Ids}
use postino.Store.Tracking.{Tracked, track, track_agent}
use postino.Store.Tracking.Agrees.{
  Messages, InboxAgrees, held, sent, is_queued, is_leased, is_dead, is_done,
}
use postino.Store.Changes.{enter, receive, discard}
open cmp_id-IsOrder use {eq_of_cmp, cmp_refl}

-- The agent is there, and has the id in its inbox.
abbrev pub homed : Map Text Agent → Text → EntryId → Bool
homed agents a id = is_some_and (get a agents) λ r. has_key id r.inbox

abbrev pub Housed : Messages → Map Text Agent → Type 0
Housed ms agents = (id : EntryId) (m : Message) → get id ms ≡ some m → homed agents m.to id ≡ true

pub homed-track :
    (add : Bool) (m : Message) (t : Tracked) (a : Text) (id : EntryId)
    → homed (track add m t).agents a id ≡ homed t.agents a id
unfolding track track_agent
homed-track add m t a id =
    ground
      (arith, get-change m.to a (track_agent add m) t.agents, cmp_text-IsOrder.eq_of_cmp a m.to)

pub homed-enter :
    (name : Text) (at : ℕ) (agents : Map Text Agent) (a : Text) (id : EntryId)
    → homed agents a id ≡ true
    → homed (enter name at agents) a id ≡ true
unfolding enter
homed-enter name at agents a id h =
    ground
      (arith, get-insert name a (Messages.new name at) agents, cmp_text-IsOrder.eq_of_cmp a name)

pub homed-receive :
    (name : Text) (id : EntryId) (agents : Map Text Agent) (a : Text) (j : EntryId)
    → homed agents a j ≡ true
    → homed (change name (receive id) agents) a j ≡ true
unfolding receive
homed-receive name id agents a j h = elim (Option-cases (get name agents)) [
  | inl e ↦
      ground (arith, e, get-change name a (receive id) agents, cmp_text-IsOrder.eq_of_cmp a name)
  | inr (r, e) ↦ ground (
    arith,
    e,
    get-change name a (receive id) agents,
    cmp_text-IsOrder.eq_of_cmp a name,
    has_key-insert j id r.inbox,
  )
]

-- An agent that is entered receives the id.
pub received :
    (name : Text) (at : ℕ) (id : EntryId) (agents : Map Text Agent)
    → homed (change name (receive id) (enter name at agents)) name id ≡ true
unfolding receive enter Messages.new
received name at id agents = elim (Option-cases (get name agents)) [
  | inl e ↦ ground (
    arith,
    e,
    get-change name name (receive id) (insert name (Messages.new name at) agents),
    get-insert name name (Messages.new name at) agents,
    cmp_text-IsOrder.cmp_refl name,
    has_key-insert id id [],
    cmp_refl id,
  )
  | inr (r, e) ↦ ground (
    arith,
    e,
    get-change name name (receive id) agents,
    cmp_text-IsOrder.cmp_refl name,
    has_key-insert id id r.inbox,
    cmp_refl id,
  )
]

pub homed-discard :
    (name : Text) (id : EntryId) (agents : Map Text Agent) (a : Text) (j : EntryId)
    → key_eq j id ≡ false
    → homed agents a j ≡ true
    → homed (change name (discard id) agents) a j ≡ true
unfolding discard
homed-discard name id agents a j o h = elim (Option-cases (get name agents)) [
  | inl e ↦
      ground (arith, e, get-change name a (discard id) agents, cmp_text-IsOrder.eq_of_cmp a name)
  | inr (r, e) ↦ ground (
    arith,
    e,
    get-change name a (discard id) agents,
    cmp_text-IsOrder.eq_of_cmp a name,
    has_key-remove j id r.inbox,
  )
]

-- What `track` keeps does not depend on the rest of an agent.
pub keep-InboxAgrees :
    {ms : Messages} {a : Text} (r : Agent) (name : Text) (cursor : Option EntryId) (inbox : Ids)
    → InboxAgrees ms a r
    → InboxAgrees ms a (record r { name = name; cursor = cursor; inbox = inbox })
keep-InboxAgrees r name cursor inbox v = record {
  queued_sorted = v.queued_sorted;
  settled_sorted = v.settled_sorted;
  senders_sorted = v.senders_sorted;
  queued_ids = v.queued_ids;
  settled_ids = v.settled_ids;
  count_queued = v.count_queued;
  count_leased = v.count_leased;
  count_dead = v.count_dead;
  count_settled = v.count_settled;
  count_sent = v.count_sent;
}

pub count_none :
    (test : Message → Bool) (ms : Messages)
    → IsSorted ms
    → ((id : EntryId) (m : Message) → get id ms ≡ some m → test m ≡ false)
    → count test ms ≡ 0
unfolding get
count_none test [] s h = refl
count_none test ((k, m) ∷ ms) s h = ground (
  arith,
  h k m (ground (arith, cmp_refl k)),
  count_none test ms s.1 (λ id x e. h id x (ground (arith, get-Above k ms s.0, eq_of_cmp id k))),
)

-- A new agent, of whom no message is.
pub new-InboxAgrees :
    (ms : Messages) (name : Text) (at : ℕ)
    → IsSorted ms
    → ((id : EntryId) (m : Message) → get id ms ≡ some m → key_eq m.to name ≡ false)
    → InboxAgrees ms name (Messages.new name at)
unfolding Messages.new get
new-InboxAgrees ms name at s h = record {
  queued_sorted = tt;
  settled_sorted = tt;
  senders_sorted = tt;
  queued_ids = λ id. elim (Option-cases (get id ms)) [
    | inl e ↦ ground (arith, e)
    | inr (m, e) ↦ ground (arith, e, h id m e)
  ];
  settled_ids = λ id. elim (Option-cases (get id ms)) [
    | inl e ↦ ground (arith, e)
    | inr (m, e) ↦ ground (arith, e, h id m e)
  ];
  count_queued =
      ground (arith, count_none (held name is_queued) ms s (λ id m e. ground (arith, h id m e)));
  count_leased =
      ground (arith, count_none (held name is_leased) ms s (λ id m e. ground (arith, h id m e)));
  count_dead =
      ground (arith, count_none (held name is_dead) ms s (λ id m e. ground (arith, h id m e)));
  count_settled =
      ground (arith, count_none (held name is_done) ms s (λ id m e. ground (arith, h id m e)));
  count_sent =
      λ from. ground (arith, count_none (sent name from) ms s (λ id m e. ground (arith, h id m e)));
}
