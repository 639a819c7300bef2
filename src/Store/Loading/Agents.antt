-- ===== src/Store/Loading/Agents.antt =====
-- src/store.rs, `Store::from_snapshot`: what is written of an agent, through the effects that enter the
-- messages.
use postino.Prelude.{
  ◌≡◌, ◌≢◌, refl, sym, ap, ◌∙◌, Bool, false, Option-cases, Option, inl, inr, true, none, some, List,
  [], ◌∷◌, arith, map,
}
use postino.Prelude.Order.{text_order, cmp_text-IsOrder}
use postino.Prelude.Map.{Map, get, insert, IsSorted, IsDistinct}
use postino.Prelude.Text.{Text}
use postino.Id.{EntryId, id_order, cmp_id-IsOrder}
use postino.Captured.{change}
use postino.Captured.Maps.{get-change, get-each}
use postino.Store.Messages.{Message, Agent}
use postino.Store.Tracking.{Tracked, track, track_agent}
use postino.Store.Tracking.Agrees.{Messages}
use postino.Store.Effects.{message, Store, Outside, tracked}
use postino.Store.Changes.{enter, receive, replaced, addressed}
use postino.Store.Apply.{apply_message}
use postino.Store.Rename.{apply}
use postino.Store.Loading.{Saved, saved, read_back, values, add_agents, apply_all}
use postino.Store.Loading.Parts.{with_keys, with_keys-map}

-- What is written of the agent of that name, if there is one.
abbrev pub saved_of : Text → Map Text Agent → Option Saved
saved_of a agents = elim (get a agents) [ none ↦ none | some r ↦ some (saved r) ]

saved_of-change :
    (a name : Text) (f : Agent → Agent) (agents : Map Text Agent)
    → ((r : Agent) → saved (f r) ≡ saved r)
    → saved_of a (change name f agents) ≡ saved_of a agents
saved_of-change a name f agents h = elim (Option-cases (get name agents)) [
  | inl e ↦ ground (arith, e, get-change name a f agents, cmp_text-IsOrder.eq_of_cmp a name)
  | inr (r, e) ↦
      ground (arith, e, h r, get-change name a f agents, cmp_text-IsOrder.eq_of_cmp a name)
]

saved_of-track :
    (add : Bool) (m : Message) (t : Tracked) (a : Text)
    → saved_of a (track add m t).agents ≡ saved_of a t.agents
unfolding track track_agent saved
saved_of-track add m t a = saved_of-change a m.to (track_agent add m) t.agents (λ r. refl)

saved_of-replaced :
    (m : Message) (t : Tracked) (ms : Messages) (a : Text)
    → saved_of a (replaced m t ms).agents ≡ saved_of a t.agents
unfolding replaced
saved_of-replaced m t ms a = elim (Option-cases (get m.id ms)) [
  | inl e ↦ rw (e, replaced) refl
  | inr (old, e) ↦ rw (e, replaced) (saved_of-track false old t a)
]

saved_of-addressed :
    (m : Message) (t : Tracked) (a : Text)
    → saved_of m.to t.agents ≢ none
    → saved_of a (addressed m t).agents ≡ saved_of a t.agents
unfolding addressed enter receive saved
saved_of-addressed m t a there =
    saved_of-change a m.to (receive m.id) (enter m.to m.created t.agents) (λ r. refl)
    ∙ elim (Option-cases (get m.to t.agents)) [
      | inl e ↦ absurd (there (ground (arith, e)))
      | inr (r, e) ↦ ground (arith, e)
    ]

module _ (out : Outside) where
  -- A message to an agent that is there.
  saved_of-message :
      (m : Message) (s : Store) (a : Text)
      → saved_of m.to s.agents ≢ none
      → saved_of a (apply out (message m) s).agents ≡ saved_of a s.agents
  unfolding apply apply_message
  saved_of-message m s a there =
      let t = replaced m (tracked s) s.messages.map in
      saved_of-track true m (addressed m t) a
      ∙ saved_of-addressed m t a
          (λ e. there (sym (saved_of-replaced m (tracked s) s.messages.map m.to) ∙ e))
      ∙ saved_of-replaced m (tracked s) s.messages.map a

  pub saved_of-messages :
      (ps : Messages) (s : Store) (a : Text)
      → IsDistinct ps
      → ((k : EntryId) (m : Message) → get k ps ≡ some m → saved_of m.to s.agents ≢ none)
      → saved_of a (apply_all out (map message (values ps)) s).agents ≡ saved_of a s.agents
  unfolding apply_all get
  saved_of-messages [] s a d h = refl
  saved_of-messages ((k, m) ∷ ps) s a d h =
      let here = h k m (ground (arith, cmp_id-IsOrder.cmp_refl k)) in
      saved_of-messages ps (apply out (message m) s) a d.1 (λ j x e none_yet.
        h j x (ground (arith, d.0, e, cmp_id-IsOrder.eq_of_cmp j k))
          (sym (saved_of-message m s x.to here) ∙ none_yet))
      ∙ saved_of-message m s a here

agents-add_agents :
    (rs : List Agent) (s : Store)
    → (add_agents (map saved rs) s).agents
      ≡ with_keys (λ r. r.name) (λ r. read_back (saved r)) rs s.agents
unfolding add_agents saved
agents-add_agents [] s = refl
agents-add_agents (r ∷ rs) s =
    agents-add_agents rs (record s { agents = insert r.name (read_back (saved r)) s.agents })

-- The agents that are read back are those that were written.
pub saved_of-add_agents :
    (agents : Map Text Agent) (s : Store) (a : Text)
    → s.agents ≡ []
    → IsSorted agents
    → ((name : Text) (r : Agent) → get name agents ≡ some r → r.name ≡ name)
    → saved_of a (add_agents (map saved (values agents)) s).agents ≡ saved_of a agents
unfolding saved read_back
saved_of-add_agents agents s a none_yet sorted names =
    ap (saved_of a) (
      agents-add_agents (values agents) s
      ∙ ap (with_keys (λ r. r.name) (λ r. read_back (saved r)) (values agents)) none_yet
      ∙ with_keys-map (λ r. r.name) (λ r. read_back (saved r)) agents sorted names)
    ∙ elim (Option-cases (get a agents)) [
      | inl e ↦ ground (arith, e, get-each a (λ r. read_back (saved r)) agents)
      | inr (r, e) ↦ ground (arith, e, get-each a (λ r. read_back (saved r)) agents)
    ]
