-- ===== src/Store/Reads/Inboxes.antt =====
-- src/store.rs, `counts`, `queued`, `settled` and `pending_from`: what is kept of an inbox answers what
-- a scan of the messages would.
use postino.Prelude.{
  ◌+◌, ◌≡◌, refl, Bool, Option-cases, inl, inr, false, none, [], ◌∷◌, arith, is_some_and, any,
}
use postino.Prelude.Order.{key_eq, text_order}
use postino.Prelude.Map.{get}
use postino.Prelude.Map.Count.{count}
use postino.Prelude.Text.{Text}
use postino.Id.{EntryId, id_order}
use postino.Store.Messages.{Message, Counts}
use postino.Store.Tracking.Agrees.{
  Messages, held, sent, is_queued, is_leased, is_dead, is_done, is_over,
}
use postino.Store.Tracking.Homes.{count_none}
use postino.Store.Effects.{Store}
use postino.Store.Apply.Invariant.{IsTracked, no_message}
use postino.Store.Apply.Forgetting.{any-keys}
use postino.Store.Reads
use postino.Store.Reads.{counts, pending_from}

-- The counts of an inbox, by looking at every message.
pub scan : Text → Messages → Counts
scan a ms = record {
  queued = count (held a is_queued) ms;
  leased = count (held a is_leased) ms;
  dead = count (held a is_dead) ms;
  settled = count (held a is_over) ms;
}

count_over :
    (a : Text) (ms : Messages)
    → count (held a is_over) ms ≡ count (held a is_done) ms + count (held a is_dead) ms
count_over a [] = refl
count_over a ((k, m) ∷ ms) = ground (arith, count_over a ms)

module _ (s : Store) (v : IsTracked s) (a : Text) where
  absent :
      (test : Message → Bool)
      → get a s.agents ≡ none
      → ((m : Message) → key_eq m.to a ≡ false → test m ≡ false)
      → count test s.messages.map ≡ 0
  absent test e h =
      count_none test s.messages.map v.tracks.sorted (λ id m g. h m (no_message v a e id m g))

  -- Where the inboxes are in step with the messages, the counts that are kept of one, dead letters
  -- with the handled messages, are what looking at every message gives.
  pub counts-scan : counts s a ≡ scan a s.messages.map
  unfolding counts scan
  counts-scan = elim (Option-cases (get a s.agents)) [
    | inl e ↦ ground (
      arith,
      e,
      absent (held a is_queued) e (λ m o. ground arith),
      absent (held a is_leased) e (λ m o. ground arith),
      absent (held a is_dead) e (λ m o. ground arith),
      absent (held a is_over) e (λ m o. ground arith),
    )
    | inr (r, e) ↦
        let w = v.tracks.inboxes a r e in
        ground (
          arith,
          e,
          w.count_queued,
          w.count_leased,
          w.count_dead,
          w.count_settled,
          count_over a s.messages.map,
        )
  ]

  pub pending_from-count :
      (from : Text) → pending_from s a from ≡ count (sent a from) s.messages.map
  unfolding pending_from
  pending_from-count from = elim (Option-cases (get a s.agents)) [
    | inl e ↦ ground (arith, e, absent (sent a from) e (λ m o. ground arith))
    | inr (r, e) ↦ ground (arith, e, (v.tracks.inboxes a r e).count_sent from)
  ]

  -- The ids that wait in an inbox are those of the queued messages to it, and the handled ones
  -- those of the handled messages.
  pub queued-settled :
      (id : EntryId)
      → (any (key_eq id) (Reads.queued s a)
          ≡ is_some_and (get id s.messages.map) (held a is_queued))
        × (any (key_eq id) (Reads.settled s a)
            ≡ is_some_and (get id s.messages.map) (held a is_over))
  unfolding Reads.queued Reads.settled
  queued-settled id = elim (Option-cases (get a s.agents)) [
    | inl e ↦ elim (Option-cases (get id s.messages.map)) [
      | inl g ↦ ground (arith, e, g)
      | inr (m, g) ↦ ground (arith, e, g, no_message v a e id m g)
    ]
    | inr (r, e) ↦ ground (
      arith,
      e,
      any-keys id r.queued,
      any-keys id r.settled,
      (v.tracks.inboxes a r e).queued_ids id,
      (v.tracks.inboxes a r e).settled_ids id,
    )
  ]
