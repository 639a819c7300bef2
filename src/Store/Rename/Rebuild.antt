-- ===== src/Store/Rename/Rebuild.antt =====
-- src/store.rs, `retrack`: the rebuilt inboxes and due indexes agree with the messages.
use postino.Prelude.{◌≡◌, refl, sym, subst, ◌∙◌, true, none, some, [], ◌∷◌, arith}
use postino.Prelude.Order.{text_order}
use postino.Prelude.Map.{Map, get, insert, collect, IsSorted, IsDistinct, get-insert}
use postino.Prelude.Text.{Text}
use postino.Id.{EntryId, id_order, cmp_id-IsOrder}
use postino.Captured.{each}
use postino.Captured.Maps.{get-each, each-cases, each-IsSorted, IsSorted-IsDistinct, collect_self}
use postino.Store.Messages.{Message, Agent, no_due}
use postino.Store.Tracking.{Tracked, track, track_all, cleared}
use postino.Store.Tracking.Agrees.{Messages, InboxAgrees}
use postino.Store.Tracking.Steps.{Tracks, come-Tracks}
use postino.Store.Tracking.Homes.{homed, homed-track}
open cmp_id-IsOrder use {eq_of_cmp, cmp_refl}

track_all-Tracks :
    (ps acc : Messages) (t : Tracked)
    → Tracks acc t
    → IsDistinct ps
    → ((k : EntryId) (m : Message) → get k ps ≡ some m → (m.id ≡ k) × (get k acc ≡ none))
    → Tracks (collect ps acc) (track_all ps t)
unfolding track_all collect get
track_all-Tracks [] acc t v d h = v
track_all-Tracks ((k, m) ∷ ps) acc t v d h =
    let (same, fresh) = h k m (ground (arith, cmp_refl k)) in
    let come =
      subst (λ i. Tracks (insert i m acc) (track true m t)) same
        (come-Tracks v m (subst (λ i. get i acc ≡ none) (sym same) fresh)) in
    track_all-Tracks ps (insert k m acc) (track true m t) come d.1
      (λ j x e. ground (arith, h j x, get-insert k j m acc, eq_of_cmp j k, d.0, e))

pub cleared-InboxAgrees : (a : Text) (r : Agent) → InboxAgrees [] a (cleared r)
unfolding get cleared
cleared-InboxAgrees a r = record {
  queued_sorted = tt;
  settled_sorted = tt;
  senders_sorted = tt;
  queued_ids = λ id. refl;
  settled_ids = λ id. refl;
  count_queued = refl;
  count_leased = refl;
  count_dead = refl;
  count_settled = refl;
  count_sent = λ from. refl;
}

empty-Tracks :
    (agents : Map Text Agent)
    → IsSorted agents
    → Tracks [] (record { agents = each cleared agents; due = no_due })
unfolding get cleared
empty-Tracks agents s = record {
  sorted = tt;
  ids = λ k m h. absurd (ground arith);
  agents_sorted = each-IsSorted cleared agents s;
  inboxes = λ a r h.
      let (u, e, p) = each-cases a cleared agents r h in
      subst (InboxAgrees [] a) p (cleared-InboxAgrees a u);
  due = record {
    leases_sorted = tt;
    expiry_sorted = tt;
    settled_sorted = tt;
    leases = λ t id. refl;
    expiry = λ t id. refl;
    settled = λ t id. refl;
  };
}

pub rebuilt-Tracks :
    (ms : Messages) (agents : Map Text Agent)
    → IsSorted ms
    → ((k : EntryId) (m : Message) → get k ms ≡ some m → m.id ≡ k)
    → IsSorted agents
    → Tracks ms (track_all ms (record { agents = each cleared agents; due = no_due }))
unfolding get
rebuilt-Tracks ms agents s ids t =
    subst (λ n. Tracks n (track_all ms (record { agents = each cleared agents; due = no_due })))
      (collect_self ms s)
      (track_all-Tracks ms [] (record { agents = each cleared agents; due = no_due })
        (empty-Tracks agents t) (IsSorted-IsDistinct ms s) (λ k m e. (ids k m e, refl)))

homed-track_all :
    (ps : Messages) (t : Tracked) (a : Text) (id : EntryId)
    → homed (track_all ps t).agents a id ≡ homed t.agents a id
unfolding track_all
homed-track_all [] t a id = refl
homed-track_all ((k, m) ∷ ps) t a id =
    homed-track_all ps (track true m t) a id ∙ homed-track true m t a id

pub homed-rebuilt :
    (ms : Messages) (agents : Map Text Agent) (a : Text) (id : EntryId)
    → homed (track_all ms (record { agents = each cleared agents; due = no_due })).agents a id
      ≡ homed agents a id
unfolding cleared
homed-rebuilt ms agents a id =
    homed-track_all ms (record { agents = each cleared agents; due = no_due }) a id
    ∙ ground (arith, get-each a cleared agents)
