-- ===== src/Store/Tracking.antt =====
-- src/store.rs, `track`: what one message adds to its inbox and to the due indexes, or takes from
-- them.
pub mod Agrees
pub mod Inboxes
pub mod Dues
pub mod Steps
pub mod Homes
use postino.Prelude.{
  ℕ, zero, suc, ◌+◌, ◌-◌, Bool, true, false, Option, none, some, [], ◌∷◌, if◌then◌else◌,
}
use postino.Prelude.Order.{Order, text_order, pair_order, nat_order}
use postino.Prelude.Map.{Map, get, insert, remove}
use postino.Prelude.Text.{Text}
use postino.Id.{EntryId, id_order}
use postino.Captured.{change}
use postino.Store.Messages.{
  State, queued, leased, acked, dead, expired, is_pending, Message, Counts, Ids, Agent, Times, Due,
  no_due, no_counts,
}

-- `set.insert(k)` or, with `add` false, `set.remove(&k)`
abbrev pub flip {ℓ} : {K : Type ℓ} ⦃o : Order K⦄ → Bool → K → Map K (Unit {0}) → Map K (Unit {0})
flip true k s = insert k tt s
flip false k s = remove k s

-- `counter += 1` or `counter.saturating_sub(1)`
abbrev pub step : Bool → ℕ → ℕ
step true n = n + 1
step false n = n - 1

-- `message.settled.unwrap_or(message.created)`
unfoldable pub settled_at : Message → ℕ
settled_at m = elim m.settled [ some at ↦ at | none ↦ m.created ]

unfoldable pub track_due : Bool → Message → Due → Due
unfolding settled_at
track_due add m due = elim m.state [
  | leased ↦ record due {
    leases = elim m.lease [ some l ↦ flip add (l.until, m.id) due.leases | none ↦ due.leases ];
    expiry = flip add (m.expires, m.id) due.expiry;
  }
  | queued ↦ record due { expiry = flip add (m.expires, m.id) due.expiry }
  | _ ↦ record due { settled = flip add (settled_at m, m.id) due.settled }
]

unfoldable pub track_counts : Bool → State → Counts → Counts
track_counts add queued c = record c { queued = step add c.queued }
track_counts add leased c = record c { leased = step add c.leased }
track_counts add dead c = record c { dead = step add c.dead }
track_counts add acked c = record c { settled = step add c.settled }
track_counts add expired c = record c { settled = step add c.settled }

-- The entry of a sender, which is there only while it is not zero.
unfoldable pub put_sent : Bool → Text → ℕ → Map Text ℕ → Map Text ℕ
put_sent true from sent senders = insert from (sent + 1) senders
put_sent false from (suc (suc n)) senders = insert from (suc n) senders
put_sent false from _ senders = remove from senders

unfoldable pub track_senders : Bool → Text → Map Text ℕ → Map Text ℕ
unfolding put_sent
track_senders add from senders =
    put_sent add from (elim (get from senders) [ none ↦ 0 | some n ↦ n ]) senders

-- What `track` does to the addressee.
unfoldable pub track_agent : Bool → Message → Agent → Agent
unfolding track_counts track_senders is_pending
track_agent add m a = record a {
  counts = track_counts add m.state a.counts;
  senders = if is_pending m.state then track_senders add m.from a.senders else a.senders;
  queued = elim m.state [ queued ↦ flip add m.id a.queued | _ ↦ a.queued ];
  settled = elim m.state [ queued ↦ a.settled | leased ↦ a.settled | _ ↦ flip add m.id a.settled ];
}

-- The agents, by name, and the due indexes.
pub record Tracked : Type 0 where
  pub agents : Map Text Agent
  pub due : Due

unfoldable pub track : Bool → Message → Tracked → Tracked
unfolding track_due track_agent change
track add m t = record {
  agents = change m.to (track_agent add m) t.agents;
  due = track_due add m t.due;
}

-- Of `retrack`: what it clears in an agent, and its loop over the messages.
unfoldable pub cleared : Agent → Agent
cleared a = record a { queued = []; settled = []; counts = no_counts; senders = [] }

unfoldable pub track_all : Map EntryId Message → Tracked → Tracked
unfolding track
track_all [] t = t
track_all ((_, m) ∷ ms) t = track_all ms (track true m t)
