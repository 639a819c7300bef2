-- ===== src/Store/Rename/Unique.antt =====
-- src/store.rs, `retrack`: the messages leave only one choice for the inboxes and the due indexes, so
-- that rebuilding what is in step changes nothing.
use postino.Prelude.{ℕ, ◌≡◌, refl, sym, ap, ◌∙◌, Option-cases, inl, inr, true, some, [], ◌∷◌, arith}
use postino.Prelude.Order.{Order, text_order, pair_order, nat_order, cmp_text-IsOrder}
use postino.Prelude.Map.{Map, get, IsSorted, Map-ext}
use postino.Prelude.Map.Length.{has_key}
use postino.Prelude.Text.{Text}
use postino.Id.{id_order}
use postino.Captured.{each}
use postino.Captured.Maps.{get-each, get-change}
use postino.Store.Messages.{Message, Agent, Due, Ids, Counts, no_due}
use postino.Store.Tracking.{Tracked, track, track_all, track_agent, cleared}
use postino.Store.Tracking.Agrees.{Messages, InboxAgrees, DueAgrees}
use postino.Store.Tracking.Steps.{Tracks}
use postino.Store.Effects.{Store, tracked, with_tracked}
use postino.Store.Apply.Invariant.{IsTracked}
use postino.Store.Rename.{retrack}
use postino.Store.Rename.Rebuild.{rebuilt-Tracks}

-- Two sets in order with the same elements are the same.
set_ext {ℓ} :
    {K : Type ℓ} ⦃o : Order K⦄ (s t : Map K (Unit {0}))
    → IsSorted s
    → IsSorted t
    → ((k : K) → has_key k s ≡ has_key k t)
    → s ≡ t
set_ext s t p q e = Map-ext s t p q (λ k. ground (arith, e k))

-- An agent put together again from what is cleared in it and the rest.
unfoldable restore : Agent → Ids → Ids → Counts → Map Text ℕ → Agent
restore r q s c n = record r { queued = q; settled = s; counts = c; senders = n }

restored : (r : Agent) → restore (cleared r) r.queued r.settled r.counts r.senders ≡ r
unfolding restore cleared
restored r = refl

counts_eq :
    (c d : Counts)
    → c.queued ≡ d.queued
    → c.leased ≡ d.leased
    → c.dead ≡ d.dead
    → c.settled ≡ d.settled
    → c ≡ d
counts_eq c d q l x s = ground arith

InboxAgrees-unique :
    {ms : Messages} {a : Text} (r r' : Agent)
    → InboxAgrees ms a r
    → InboxAgrees ms a r'
    → cleared r ≡ cleared r'
    → r ≡ r'
InboxAgrees-unique r r' v w e =
    let q =
      set_ext r.queued r'.queued v.queued_sorted w.queued_sorted
        (λ id. v.queued_ids id ∙ sym (w.queued_ids id)) in
    let s =
      set_ext r.settled r'.settled v.settled_sorted w.settled_sorted
        (λ id. v.settled_ids id ∙ sym (w.settled_ids id)) in
    let n =
      Map-ext r.senders r'.senders v.senders_sorted w.senders_sorted
        (λ from. v.count_sent from ∙ sym (w.count_sent from)) in
    let c : r.counts ≡ r'.counts =
      counts_eq r.counts r'.counts (v.count_queued ∙ sym w.count_queued)
        (v.count_leased ∙ sym w.count_leased) (v.count_dead ∙ sym w.count_dead)
        (v.count_settled ∙ sym w.count_settled) in
    cc (restored r, restored r', e, q, s, c, n)

DueAgrees-unique : {ms : Messages} (d d' : Due) → DueAgrees ms d → DueAgrees ms d' → d ≡ d'
DueAgrees-unique d d' v w =
    let l =
      set_ext d.leases d'.leases v.leases_sorted w.leases_sorted
        (λ k. v.leases k.0 k.1 ∙ sym (w.leases k.0 k.1)) in
    let x =
      set_ext d.expiry d'.expiry v.expiry_sorted w.expiry_sorted
        (λ k. v.expiry k.0 k.1 ∙ sym (w.expiry k.0 k.1)) in
    let s =
      set_ext d.settled d'.settled v.settled_sorted w.settled_sorted
        (λ k. v.settled k.0 k.1 ∙ sym (w.settled k.0 k.1)) in
    ground (arith, l, x, s)

-- What tracking leaves of an agent.
cleared-track :
    (m : Message) (t : Tracked) (a : Text)
    → get a (each cleared (track true m t).agents) ≡ get a (each cleared t.agents)
unfolding track track_agent cleared
cleared-track m t a = ground (
  arith,
  get-each a cleared (track true m t).agents,
  get-each a cleared t.agents,
  get-change m.to a (track_agent true m) t.agents,
  cmp_text-IsOrder.eq_of_cmp a m.to,
)

cleared-track_all :
    (ms : Messages) (t : Tracked) (a : Text)
    → get a (each cleared (track_all ms t).agents) ≡ get a (each cleared t.agents)
unfolding track_all
cleared-track_all [] t a = refl
cleared-track_all ((k, m) ∷ ms) t a = cleared-track_all ms (track true m t) a ∙ cleared-track m t a

cleared-twice :
    (agents : Map Text Agent) (a : Text)
    → get a (each cleared (each cleared agents)) ≡ get a (each cleared agents)
unfolding cleared
cleared-twice agents a =
    ground (arith, get-each a cleared (each cleared agents), get-each a cleared agents)

agents_unique :
    {ms : Messages} (t u : Tracked)
    → Tracks ms t
    → Tracks ms u
    → ((a : Text) → get a (each cleared t.agents) ≡ get a (each cleared u.agents))
    → t.agents ≡ u.agents
agents_unique t u v w e = Map-ext t.agents u.agents v.agents_sorted w.agents_sorted (λ a.
    elim (Option-cases (get a t.agents)) [
      | inl p ↦ ground (arith, p, e a, get-each a cleared t.agents, get-each a cleared u.agents)
      | inr (r, p) ↦ elim (Option-cases (get a u.agents)) [
        | inl q ↦
            absurd
              (ground (arith, p, q, e a, get-each a cleared t.agents, get-each a cleared u.agents))
        | inr (r', q) ↦
            p
            ∙ ap some (
                InboxAgrees-unique r r' (v.inboxes a r p) (w.inboxes a r' q) (
                  ground
                    (arith, p, q, e a, get-each a cleared t.agents, get-each a cleared u.agents)))
            ∙ sym q
      ]
    ])

tracked_eq : (t u : Tracked) → t.agents ≡ u.agents → t.due ≡ u.due → t ≡ u
tracked_eq t u p q = cc

Tracks-unique :
    {ms : Messages} (t u : Tracked)
    → Tracks ms t
    → Tracks ms u
    → ((a : Text) → get a (each cleared t.agents) ≡ get a (each cleared u.agents))
    → t ≡ u
Tracks-unique t u v w e =
    tracked_eq t u (agents_unique t u v w e) (DueAgrees-unique t.due u.due v.due w.due)

-- In a state whose inboxes and due indexes are in step with the messages, rebuilding them changes
-- nothing.
pub retrack-IsTracked : (s : Store) → IsTracked s → retrack s ≡ s
unfolding retrack
retrack-IsTracked s v =
    let start : Tracked = record { agents = each cleared s.agents; due = no_due } in
    ap (with_tracked s) (
      Tracks-unique (track_all s.messages.map start) (tracked s)
        (rebuilt-Tracks s.messages.map s.agents v.tracks.sorted v.tracks.ids v.tracks.agents_sorted)
        v.tracks (λ a. cleared-track_all s.messages.map start a ∙ cleared-twice s.agents a))
