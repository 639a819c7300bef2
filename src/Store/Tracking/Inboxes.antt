-- ===== src/Store/Tracking/Inboxes.antt =====
-- `track` keeps the inboxes in agreement with the messages, whether a message comes or goes.
use postino.Prelude.{
  ℕ, zero, suc, ◌+◌, ◌≡◌, sym, subst, Bool, Bool-cases, inl, inr, true, false, none, some,
  if◌then◌else◌, arith,
}
use postino.Prelude.Order.{key_eq, text_order, pair_order, nat_order, cmp_text-IsOrder}
use postino.Prelude.Map.{
  Map, get, insert, remove, IsSorted, get-insert, get-remove, insert-IsSorted, remove-IsSorted,
}
use postino.Prelude.Map.Count.{count, count-insert, count-remove, has_key-insert, has_key-remove}
use postino.Prelude.Text.{Text}
use postino.Id.{id_order, cmp_id-IsOrder}
use postino.Store.Messages.{Message, Agent}
use postino.Store.Tracking.{track_agent, track_counts, track_senders, put_sent}
use postino.Store.Tracking.Agrees.{
  Messages, InboxAgrees, Adds, held, sent, positive, is_queued, is_leased, is_dead, is_done,
}
open cmp_id-IsOrder use {eq_of_cmp, cmp_refl}

pub insert-Adds :
    (m : Message) (ms : Messages) → IsSorted ms → get m.id ms ≡ none → Adds m ms (insert m.id m ms)
insert-Adds m ms s h = record {
  new = h;
  gets = λ id. get-insert m.id id m ms;
  counts = λ test. count-insert test m.id m ms s h;
}

pub remove-Adds :
    (m : Message) (ms : Messages) → IsSorted ms → get m.id ms ≡ some m → Adds m (remove m.id ms) ms
remove-Adds m ms s h = record {
  new = ground (arith, get-remove m.id m.id ms, cmp_refl m.id);
  gets = λ id. ground (arith, get-remove m.id id ms, eq_of_cmp id m.id, h);
  counts = λ test. count-remove test m.id m ms s h;
}

get-track_senders-true :
    (from f : Text) (senders : Map Text ℕ) (n : ℕ)
    → get from senders ≡ positive n
    → get f (track_senders true from senders)
      ≡ (if key_eq f from then some (n + 1) else get f senders)
unfolding track_senders put_sent
get-track_senders-true from f senders zero h = ground (arith, get-insert from f 1 senders)
get-track_senders-true from f senders (suc n) h =
    ground (arith, get-insert from f (suc n + 1) senders)

get-track_senders-false :
    (from f : Text) (senders : Map Text ℕ) (n : ℕ)
    → get from senders ≡ positive (n + 1)
    → get f (track_senders false from senders)
      ≡ (if key_eq f from then positive n else get f senders)
unfolding track_senders put_sent
get-track_senders-false from f senders zero h = ground (arith, get-remove from f senders)
get-track_senders-false from f senders (suc n) h = ground (arith, get-insert from f (suc n) senders)

put_sent-IsSorted :
    (add : Bool) (from : Text) (n : ℕ) (senders : Map Text ℕ)
    → IsSorted senders
    → IsSorted (put_sent add from n senders)
unfolding put_sent
put_sent-IsSorted true from n senders s = insert-IsSorted from (n + 1) senders s
put_sent-IsSorted false from zero senders s = remove-IsSorted from senders s
put_sent-IsSorted false from (suc zero) senders s = remove-IsSorted from senders s
put_sent-IsSorted false from (suc (suc n)) senders s = insert-IsSorted from (suc n) senders s

track_senders-IsSorted :
    (add : Bool) (from : Text) (senders : Map Text ℕ)
    → IsSorted senders
    → IsSorted (track_senders add from senders)
unfolding track_senders
track_senders-IsSorted add from senders s = put_sent-IsSorted add from _ senders s

module _ {m : Message} {ms ms' : Messages} (d : Adds m ms ms') (a : Text) (r : Agent)
    (here : key_eq m.to a ≡ true) where
  pub come-InboxAgrees : InboxAgrees ms a r → InboxAgrees ms' a (track_agent true m r)
  unfolding track_agent track_counts
  come-InboxAgrees v = record {
    queued_sorted =
        ground (arith, insert-IsSorted m.id tt r.queued v.queued_sorted, v.queued_sorted);
    settled_sorted =
        ground (arith, insert-IsSorted m.id tt r.settled v.settled_sorted, v.settled_sorted);
    senders_sorted =
        ground
          (arith, track_senders-IsSorted true m.from r.senders v.senders_sorted, v.senders_sorted);
    queued_ids = λ id. ground (
      arith,
      v.queued_ids id,
      d.gets id,
      has_key-insert id m.id r.queued,
      eq_of_cmp id m.id,
      d.new,
    );
    settled_ids = λ id. ground (
      arith,
      v.settled_ids id,
      d.gets id,
      has_key-insert id m.id r.settled,
      eq_of_cmp id m.id,
      d.new,
    );
    count_queued = ground (arith, v.count_queued, d.counts (held a is_queued));
    count_leased = ground (arith, v.count_leased, d.counts (held a is_leased));
    count_dead = ground (arith, v.count_dead, d.counts (held a is_dead));
    count_settled = ground (arith, v.count_settled, d.counts (held a is_done));
    count_sent = λ from. elim (Bool-cases (key_eq from m.from)) [
      | inl same ↦
          subst (λ f. get f (track_agent true m r).senders ≡ positive (count (sent a f) ms'))
            (sym (cmp_text-IsOrder.eq_of_cmp from m.from (ground arith)))
            (ground (
              arith,
              v.count_sent m.from,
              d.counts (sent a m.from),
              cmp_text-IsOrder.cmp_refl m.from,
              get-track_senders-true m.from m.from r.senders (count (sent a m.from) ms),
            ))
      | inr other ↦ ground (
        arith,
        v.count_sent from,
        v.count_sent m.from,
        d.counts (sent a from),
        d.counts (sent a m.from),
        cmp_text-IsOrder.eq_of_cmp m.from from,
        cmp_text-IsOrder.cmp_refl from,
        cmp_text-IsOrder.cmp_refl m.from,
        get-track_senders-true m.from from r.senders (count (sent a m.from) ms),
      )
    ];
  }

  pub go-InboxAgrees : InboxAgrees ms' a r → InboxAgrees ms a (track_agent false m r)
  unfolding track_agent track_counts
  go-InboxAgrees v = record {
    queued_sorted = ground (arith, remove-IsSorted m.id r.queued v.queued_sorted, v.queued_sorted);
    settled_sorted =
        ground (arith, remove-IsSorted m.id r.settled v.settled_sorted, v.settled_sorted);
    senders_sorted =
        ground
          (arith, track_senders-IsSorted false m.from r.senders v.senders_sorted, v.senders_sorted);
    queued_ids = λ id. ground (
      arith,
      v.queued_ids id,
      d.gets id,
      has_key-remove id m.id r.queued,
      eq_of_cmp id m.id,
      d.new,
    );
    settled_ids = λ id. ground (
      arith,
      v.settled_ids id,
      d.gets id,
      has_key-remove id m.id r.settled,
      eq_of_cmp id m.id,
      d.new,
    );
    count_queued = ground (arith, v.count_queued, d.counts (held a is_queued));
    count_leased = ground (arith, v.count_leased, d.counts (held a is_leased));
    count_dead = ground (arith, v.count_dead, d.counts (held a is_dead));
    count_settled = ground (arith, v.count_settled, d.counts (held a is_done));
    count_sent = λ from. elim (Bool-cases (key_eq from m.from)) [
      | inl same ↦
          subst (λ f. get f (track_agent false m r).senders ≡ positive (count (sent a f) ms))
            (sym (cmp_text-IsOrder.eq_of_cmp from m.from (ground arith)))
            (ground (
              arith,
              v.count_sent m.from,
              d.counts (sent a m.from),
              cmp_text-IsOrder.cmp_refl m.from,
              get-track_senders-false m.from m.from r.senders (count (sent a m.from) ms),
            ))
      | inr other ↦ ground (
        arith,
        v.count_sent from,
        v.count_sent m.from,
        d.counts (sent a from),
        d.counts (sent a m.from),
        cmp_text-IsOrder.eq_of_cmp m.from from,
        cmp_text-IsOrder.cmp_refl from,
        cmp_text-IsOrder.cmp_refl m.from,
        get-track_senders-false m.from from r.senders (count (sent a m.from) ms),
      )
    ];
  }

module _ {m : Message} {ms ms' : Messages} (d : Adds m ms ms') where
  -- An inbox that the message is not addressed to stays as it is.
  module _ (a : Text) (r : Agent) (other : key_eq m.to a ≡ false) where
    pub came-InboxAgrees : InboxAgrees ms a r → InboxAgrees ms' a r
    came-InboxAgrees v = record {
      queued_sorted = v.queued_sorted;
      settled_sorted = v.settled_sorted;
      senders_sorted = v.senders_sorted;
      queued_ids = λ id. ground (arith, v.queued_ids id, d.gets id, eq_of_cmp id m.id, d.new);
      settled_ids = λ id. ground (arith, v.settled_ids id, d.gets id, eq_of_cmp id m.id, d.new);
      count_queued = ground (arith, v.count_queued, d.counts (held a is_queued));
      count_leased = ground (arith, v.count_leased, d.counts (held a is_leased));
      count_dead = ground (arith, v.count_dead, d.counts (held a is_dead));
      count_settled = ground (arith, v.count_settled, d.counts (held a is_done));
      count_sent = λ from. ground (arith, v.count_sent from, d.counts (sent a from));
    }

    pub gone-InboxAgrees : InboxAgrees ms' a r → InboxAgrees ms a r
    gone-InboxAgrees v = record {
      queued_sorted = v.queued_sorted;
      settled_sorted = v.settled_sorted;
      senders_sorted = v.senders_sorted;
      queued_ids = λ id. ground (arith, v.queued_ids id, d.gets id, eq_of_cmp id m.id, d.new);
      settled_ids = λ id. ground (arith, v.settled_ids id, d.gets id, eq_of_cmp id m.id, d.new);
      count_queued = ground (arith, v.count_queued, d.counts (held a is_queued));
      count_leased = ground (arith, v.count_leased, d.counts (held a is_leased));
      count_dead = ground (arith, v.count_dead, d.counts (held a is_dead));
      count_settled = ground (arith, v.count_settled, d.counts (held a is_done));
      count_sent = λ from. ground (arith, v.count_sent from, d.counts (sent a from));
    }
