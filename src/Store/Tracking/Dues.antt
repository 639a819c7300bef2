-- ===== src/Store/Tracking/Dues.antt =====
-- `track` keeps the due indexes in agreement with the messages, whether a message comes or goes.
use postino.Prelude.{
  ℕ, ◌≡◌, Bool, Bool-cases, Option-cases, inl, inr, Option-cases, true, false, not, ◌&&◌, ◌||◌,
  ◌==◌, is_some_and, arith,
}
use postino.Prelude.Order.{key_eq, text_order, pair_order, nat_order}
use postino.Prelude.Map.{get, insert-IsSorted, remove-IsSorted}
use postino.Prelude.Map.Count.{has_key-insert, has_key-remove}
use postino.Id.{EntryId, id_order, cmp_id-IsOrder}
use postino.Store.Messages.{is_pending, Message, Due}
use postino.Store.Tracking.{track_due, settled_at}
use postino.Store.Tracking.Agrees.{Messages, DueAgrees, Adds, lease_ends, expires_at, settles_at}
open cmp_id-IsOrder use {eq_of_cmp, cmp_refl}

key_eq-pair :
    (t u : ℕ) (i j : EntryId) → key_eq {K = ℕ × EntryId} (t, i) (u, j) ≡ ((u == t) && key_eq i j)
key_eq-pair t u i j = ground arith

-- What a test says of the messages once `m` has come.
some-Adds :
    {m : Message} {ms ms' : Messages}
    → Adds m ms ms'
    → (test : Message → Bool) (id : EntryId)
    → (is_some_and (get id ms') test ≡ (key_eq id m.id && test m || is_some_and (get id ms) test))
      × (is_some_and (get id ms) test ≡ (not (key_eq id m.id) && is_some_and (get id ms') test))
some-Adds {m} {ms} d test id = elim (Bool-cases (key_eq id m.id)) [
  | inl same ↦ ground (arith, rw same at (d.gets id), d.new, eq_of_cmp id m.id)
  | inr other ↦ ground (arith, rw other at (d.gets id))
]

module _ {m : Message} {ms ms' : Messages} (d : Adds m ms ms') where
  pub come-DueAgrees : (due : Due) → DueAgrees ms due → DueAgrees ms' (track_due true m due)
  unfolding track_due is_pending
  come-DueAgrees due v = record {
    leases_sorted = elim (Option-cases m.lease) [
      | inl e ↦ ground (arith, e, v.leases_sorted)
      | inr (l, e) ↦
          ground (
            arith,
            e,
            insert-IsSorted (l.until, m.id) tt due.leases v.leases_sorted,
            v.leases_sorted,
          )
    ];
    expiry_sorted =
        ground
          (arith, insert-IsSorted (m.expires, m.id) tt due.expiry v.expiry_sorted, v.expiry_sorted);
    settled_sorted = ground (
      arith,
      insert-IsSorted (settled_at m, m.id) tt due.settled v.settled_sorted,
      v.settled_sorted,
    );
    leases = λ t id. elim (Option-cases m.lease) [
      | inl e ↦ ground (
        arith,
        e,
        v.leases t id,
        (some-Adds d (lease_ends t) id).0,
        d.gets id,
        d.new,
        eq_of_cmp id m.id,
      )
      | inr (l, e) ↦ ground (
        arith,
        e,
        v.leases t id,
        (some-Adds d (lease_ends t) id).0,
        has_key-insert (t, id) (l.until, m.id) due.leases,
        key_eq-pair t (l.until) id m.id,
      )
    ];
    expiry = λ t id. ground (
      arith,
      d.gets id,
      d.new,
      eq_of_cmp id m.id,
      v.expiry t id,
      (some-Adds d (expires_at t) id).0,
      has_key-insert (t, id) (m.expires, m.id) due.expiry,
      key_eq-pair t (m.expires) id m.id,
    );
    settled = λ t id. ground (
      arith,
      d.gets id,
      d.new,
      eq_of_cmp id m.id,
      v.settled t id,
      (some-Adds d (settles_at t) id).0,
      has_key-insert (t, id) (settled_at m, m.id) due.settled,
      key_eq-pair t (settled_at m) id m.id,
    );
  }

  pub go-DueAgrees : (due : Due) → DueAgrees ms' due → DueAgrees ms (track_due false m due)
  unfolding track_due is_pending
  go-DueAgrees due v = record {
    leases_sorted = elim (Option-cases m.lease) [
      | inl e ↦ ground (arith, e, v.leases_sorted)
      | inr (l, e) ↦
          ground
            (arith, e, remove-IsSorted (l.until, m.id) due.leases v.leases_sorted, v.leases_sorted)
    ];
    expiry_sorted =
        ground
          (arith, remove-IsSorted (m.expires, m.id) due.expiry v.expiry_sorted, v.expiry_sorted);
    settled_sorted = ground (
      arith,
      remove-IsSorted (settled_at m, m.id) due.settled v.settled_sorted,
      v.settled_sorted,
    );
    leases = λ t id. elim (Option-cases m.lease) [
      | inl e ↦ ground (
        arith,
        e,
        v.leases t id,
        (some-Adds d (lease_ends t) id).0,
        (some-Adds d (lease_ends t) id).1,
        d.gets id,
        d.new,
        eq_of_cmp id m.id,
      )
      | inr (l, e) ↦ ground (
        arith,
        e,
        v.leases t id,
        (some-Adds d (lease_ends t) id).0,
        (some-Adds d (lease_ends t) id).1,
        has_key-remove (t, id) (l.until, m.id) due.leases,
        key_eq-pair t (l.until) id m.id,
      )
    ];
    expiry = λ t id. ground (
      arith,
      d.gets id,
      d.new,
      eq_of_cmp id m.id,
      v.expiry t id,
      (some-Adds d (expires_at t) id).0,
      (some-Adds d (expires_at t) id).1,
      has_key-remove (t, id) (m.expires, m.id) due.expiry,
      key_eq-pair t (m.expires) id m.id,
    );
    settled = λ t id. ground (
      arith,
      d.gets id,
      d.new,
      eq_of_cmp id m.id,
      v.settled t id,
      (some-Adds d (settles_at t) id).0,
      (some-Adds d (settles_at t) id).1,
      has_key-remove (t, id) (settled_at m, m.id) due.settled,
      key_eq-pair t (settled_at m) id m.id,
    );
  }
