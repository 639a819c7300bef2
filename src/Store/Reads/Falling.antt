-- ===== src/Store/Reads/Falling.antt =====
-- src/store.rs, `leases_due`, `expired_due` and `settled_before`: the sweep is given the messages that
-- have fallen due, all of them and no other.
use Prim.Native.Nat.Ordering.{lt}
use postino.Prelude.{
  ℕ, ◌≡◌, sym, subst, Bool, Option-cases, Bool-cases, inl, inr, true, none, some, [], ◌∷◌, arith,
  is_some_and, any, leb, ◌==◌, Bool-eq_of_iff, if◌then◌else◌, Option,
}
use postino.Prelude.Order.{key_eq, text_order, pair_order, nat_order}
use postino.Prelude.Map.{get, IsSorted, Above}
use postino.Prelude.Map.Length.{has_key}
use mathlib.Core.Option
use postino.Id.{EntryId, id_order, cmp_id-IsOrder}
use postino.Store.Messages.{Message, Times, is_pending}
use postino.Store.Tracking.{settled_at}
use postino.Store.Tracking.Agrees.{is_leased, is_over}
use postino.Store.Effects.{Store}
use postino.Store.Apply.Invariant.{IsTracked}
use postino.Store.Reads.{due_by, leases_due, expired_due, settled_before}
open cmp_id-IsOrder use {eq_of_cmp, cmp_refl}

due_by-has_key :
    (now : ℕ) (id : EntryId) (ts : Times)
    → any (key_eq id) (due_by now ts) ≡ true
    → (t : ℕ) × (leb t now ≡ true) × (has_key (t, id) ts ≡ true)
unfolding due_by get
due_by-has_key now id [] h = absurd (ground arith)
due_by-has_key now id (((at, j), u) ∷ ts) h = elim (Bool-cases (leb at now)) [
  | inr late ↦ absurd (ground arith)
  | inl early ↦ elim (Bool-cases (key_eq id j)) [
    | inl same ↦ (at, early, ground (arith, cmp_refl id))
    | inr other ↦ let (t, l, k) = due_by-has_key now id ts (ground arith) in (t, l, ground arith)
  ]
]

Above-has_key :
    (k j : ℕ × EntryId) (ts : Times) → Above k ts → has_key j ts ≡ true → pair_order.cmp k j ≡ lt
unfolding get
Above-has_key k j [] a h = absurd (ground arith)
Above-has_key k j ((i, u) ∷ ts) a h = elim (Bool-cases (key_eq j i)) [
  | inl same ↦
      subst (λ x. pair_order.cmp k x ≡ lt) (sym (pair_order.eq_of_cmp j i (ground arith))) a.0
  | inr other ↦ Above-has_key k j ts a.1 (ground arith)
]

has_key-due_by :
    (now t : ℕ) (id : EntryId) (ts : Times)
    → IsSorted ts
    → leb t now ≡ true
    → has_key (t, id) ts ≡ true
    → any (key_eq id) (due_by now ts) ≡ true
unfolding due_by get
has_key-due_by now t id [] s l h = absurd (ground arith)
has_key-due_by now t id (((at, j), u) ∷ ts) s l h = elim (Bool-cases (has_key (t, id) ts)) [
  | inl later ↦
      ground
        (arith, has_key-due_by now t id ts s.1 l later, Above-has_key (at, j) (t, id) ts s.0 later)
  | inr here ↦ ground arith
]

-- When the lease on a message ends, when it expires and when it was handled, if ever.
pub lease_end : Message → Option ℕ
lease_end m = if is_leased m.state then Option.map (λ l. l.until) m.lease else none

pub expiry_time : Message → Option ℕ
expiry_time m = if is_pending m.state then some m.expires else none

pub settle_time : Message → Option ℕ
settle_time m = if is_over m.state then some (settled_at m) else none

-- The message with the id is there, and its time is not after `now`.
abbrev pub past : (Message → Option ℕ) → ℕ → EntryId → Store → Bool
past time now id s = is_some_and (get id s.messages.map) λ m. is_some_and (time m) λ t. leb t now

due_by-past :
    (time : Message → Option ℕ) (ts : Times) (s : Store)
    → IsSorted ts
    → ((t : ℕ) (id : EntryId)
        → has_key (t, id) ts
          ≡ is_some_and (get id s.messages.map) λ m. is_some_and (time m) λ u. u == t)
    → (now : ℕ) (id : EntryId) → any (key_eq id) (due_by now ts) ≡ past time now id s
due_by-past time ts s sorted h now id = Bool-eq_of_iff _ _ (
  λ p. let (t, l, k) = due_by-has_key now id ts p in ground (arith, h t id),
  λ p. elim (Option-cases (get id s.messages.map)) [
    | inl e ↦ absurd (ground (arith, e))
    | inr (m, e) ↦ elim (Option-cases (time m)) [
      | inl f ↦ absurd (ground (arith, e, f))
      | inr (t, f) ↦
          has_key-due_by now t id ts sorted (ground (arith, e, f)) (ground (arith, e, f, h t id))
    ]
  ],
)

module _ (s : Store) (v : IsTracked s) (now : ℕ) (id : EntryId) where
  leases_due-past : any (key_eq id) (leases_due s now) ≡ past lease_end now id s
  unfolding leases_due lease_end
  leases_due-past =
      due_by-past lease_end s.due.leases s v.tracks.due.leases_sorted
        (λ t j. ground (arith, v.tracks.due.leases t j)) now id

  expired_due-past : any (key_eq id) (expired_due s now) ≡ past expiry_time now id s
  unfolding expired_due expiry_time is_pending
  expired_due-past =
      due_by-past expiry_time s.due.expiry s v.tracks.due.expiry_sorted
        (λ t j. ground (arith, v.tracks.due.expiry t j)) now id

  settled_before-past : any (key_eq id) (settled_before s now) ≡ past settle_time now id s
  unfolding settled_before settle_time
  settled_before-past =
      due_by-past settle_time s.due.settled s v.tracks.due.settled_sorted
        (λ t j. ground (arith, v.tracks.due.settled t j)) now id

  -- Where the due indexes are in step with the messages, the sweep is given the messages that have
  -- fallen due by now, all of them and no other: those whose lease has ended, those that have expired
  -- and those that were handled.
  pub leases_due_complete :
      (any (key_eq id) (leases_due s now) ≡ past lease_end now id s)
      × (any (key_eq id) (expired_due s now) ≡ past expiry_time now id s)
      × (any (key_eq id) (settled_before s now) ≡ past settle_time now id s)
  leases_due_complete = (leases_due-past, expired_due-past, settled_before-past)
