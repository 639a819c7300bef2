-- ===== src/Store/Tracking/Steps.antt =====
-- `track` and the messages, step by step: the agreement of all inboxes and of the due indexes with the
-- messages, and that it is kept when a message comes or goes.
use postino.Prelude.{◌≡◌, inl, inr, true, false, none, some, arith, subst}
use postino.Prelude.Order.{text_order}
use postino.Prelude.Map.{
  get, insert, remove, IsSorted, get-insert, get-remove, insert-IsSorted, remove-IsSorted,
}
use postino.Prelude.Text.{Text}
use postino.Id.{EntryId, id_order, cmp_id-IsOrder}
use postino.Captured.Maps.{change-cases, change-IsSorted}
use postino.Store.Messages.{Message, Agent}
use postino.Store.Tracking.{Tracked, track, track_agent}
use postino.Store.Tracking.Agrees.{Messages, InboxAgrees, DueAgrees}
use postino.Store.Tracking.Inboxes.{
  insert-Adds, remove-Adds, come-InboxAgrees, go-InboxAgrees, came-InboxAgrees, gone-InboxAgrees,
}
use postino.Store.Tracking.Dues.{come-DueAgrees, go-DueAgrees}
open cmp_id-IsOrder use {eq_of_cmp}

pub record Tracks (ms : Messages) (t : Tracked) : Type 0 where
  pub sorted : IsSorted ms
  pub ids : (k : EntryId) (m : Message) → get k ms ≡ some m → m.id ≡ k
  pub agents_sorted : IsSorted t.agents
  pub inboxes : (a : Text) (r : Agent) → get a t.agents ≡ some r → InboxAgrees ms a r
  pub due : DueAgrees ms t.due

module _ {ms : Messages} {t : Tracked} (v : Tracks ms t) (m : Message) where
  pub come-Tracks : get m.id ms ≡ none → Tracks (insert m.id m ms) (track true m t)
  unfolding track
  come-Tracks fresh = record {
    sorted = insert-IsSorted m.id m ms v.sorted;
    ids = λ k x h. ground (arith, get-insert m.id k m ms, v.ids k x, eq_of_cmp k m.id);
    agents_sorted = change-IsSorted m.to (track_agent true m) t.agents v.agents_sorted;
    inboxes = λ a r h. elim (change-cases m.to a (track_agent true m) t.agents r h) [
      | inl (same, (u, e, p)) ↦
          subst (InboxAgrees _ a) p
            (come-InboxAgrees (insert-Adds m ms v.sorted fresh) a u same (v.inboxes a u e))
      | inr (other, e) ↦
          came-InboxAgrees (insert-Adds m ms v.sorted fresh) a r other (v.inboxes a r e)
    ];
    due = come-DueAgrees (insert-Adds m ms v.sorted fresh) t.due v.due;
  }

  pub go-Tracks : get m.id ms ≡ some m → Tracks (remove m.id ms) (track false m t)
  unfolding track
  go-Tracks here = record {
    sorted = remove-IsSorted m.id ms v.sorted;
    ids = λ k x h. ground (arith, get-remove m.id k ms, v.ids k x);
    agents_sorted = change-IsSorted m.to (track_agent false m) t.agents v.agents_sorted;
    inboxes = λ a r h. elim (change-cases m.to a (track_agent false m) t.agents r h) [
      | inl (same, (u, e, p)) ↦
          subst (InboxAgrees _ a) p
            (go-InboxAgrees (remove-Adds m ms v.sorted here) a u same (v.inboxes a u e))
      | inr (other, e) ↦
          gone-InboxAgrees (remove-Adds m ms v.sorted here) a r other (v.inboxes a r e)
    ];
    due = go-DueAgrees (remove-Adds m ms v.sorted here) t.due v.due;
  }
