-- ===== src/Store/Rename/Taking.antt =====
-- src/store.rs, `rename`: the agent that takes the other name has both inboxes, and with them the
-- messages to it.
use postino.Prelude.{
  ◌≡◌, refl, ap, sym, subst, ◌∙◌, Bool-cases, Option-cases, inl, inr, true, false, some, [], ◌∷◌,
  arith, is_some_and, ◌||◌,
}
use postino.Prelude.Order.{key_eq, text_order, cmp_text-IsOrder}
use postino.Prelude.Map.{
  Map, get, insert, remove, IsSorted, get-insert, get-remove, insert-IsSorted, remove-IsSorted,
}
use postino.Prelude.Map.Length.{has_key}
use postino.Prelude.Map.Count.{has_key-insert}
use postino.Prelude.Text.{Text}
use postino.Id.{EntryId, id_order}
use postino.Captured.{each}
use postino.Captured.Maps.{each-cases}
use postino.Store.Messages.{Message, Agent, Ids}
use postino.Store.Tracking.Agrees.{Messages}
use postino.Store.Tracking.Homes.{homed, Housed}
use postino.Store.Rename.{extend, renamed, rename_message, take_over}

has_key-extend :
    (id : EntryId) (ids s : Ids) → has_key id (extend ids s) ≡ (has_key id ids || has_key id s)
unfolding extend get
has_key-extend id [] s = refl
has_key-extend id ((j, u) ∷ ids) s =
    ground (arith, has_key-extend id ids (insert j u s), has_key-insert id j s)

pub rename_message-id : (from to : Text) (m : Message) → (rename_message from to m).id ≡ m.id
unfolding rename_message
rename_message-id from to m = refl

module _ (from to : Text) (a : Agent) (agents : Map Text Agent) where
  pub take_over-IsSorted : IsSorted agents → IsSorted (take_over from to a agents)
  unfolding take_over
  take_over-IsSorted s =
      insert-IsSorted to _ (remove to (remove from agents))
        (remove-IsSorted to (remove from agents) (remove-IsSorted from agents s))

  -- What is in the inbox of the one or of the other is in the inbox of `to` after.
  homed-to :
      (id : EntryId)
      → (has_key id a.inbox || homed (remove from agents) to id) ≡ true
      → homed (take_over from to a agents) to id ≡ true
  unfolding take_over
  homed-to id h = elim (Option-cases (get to (remove from agents))) [
    | inl e ↦ ground (
      arith,
      e,
      get-insert to to (record a { name = to }) (remove to (remove from agents)),
      cmp_text-IsOrder.cmp_refl to,
    )
    | inr (r, e) ↦ ground (
      arith,
      e,
      get-insert to to (record a { inbox = extend r.inbox a.inbox; name = to })
          (remove to (remove from agents)),
      cmp_text-IsOrder.cmp_refl to,
      has_key-extend id r.inbox a.inbox,
    )
  ]

  homed-other :
      (name : Text) (id : EntryId)
      → key_eq name from ≡ false
      → key_eq name to ≡ false
      → homed (take_over from to a agents) name id ≡ homed agents name id
  unfolding take_over
  homed-other name id f t =
      ap (λ o. is_some_and o λ r. has_key id r.inbox)
        (get-insert to name _ (remove to (remove from agents))
          ∙ ground (arith, get-remove to name (remove from agents), get-remove from name agents))

  homed-take_over :
      (name : Text) (id : EntryId)
      → get from agents ≡ some a
      → homed agents name id ≡ true
      → homed (take_over from to a agents) (renamed from to name) id ≡ true
  homed-take_over name id e h = elim (Bool-cases (key_eq name from)) [
    | inl same ↦
        let h' =
          subst (λ n. homed agents n id ≡ true)
            (cmp_text-IsOrder.eq_of_cmp name from (ground arith)) h in
        rw same (homed-to id (ground arith))
    | inr other ↦ elim (Bool-cases (key_eq name to)) [
      | inl there ↦
          let name-to = cmp_text-IsOrder.eq_of_cmp name to (ground arith) in
          rw other (
            subst (λ n. homed (take_over from to a agents) n id ≡ true) (sym name-to)
              (homed-to id (
                ground (
                  arith,
                  subst (λ n. get n (remove from agents) ≡ get n agents) name-to
                      (ground (arith, get-remove from name agents)),
                  subst (λ n. homed agents n id ≡ true) name-to h,
                ))))
      | inr apart ↦ rw other (homed-other name id other apart ∙ h)
    ]
  ]

  pub rename_message-Housed :
      (ms : Messages)
      → get from agents ≡ some a
      → Housed ms agents
      → Housed (each (rename_message from to) ms) (take_over from to a agents)
  unfolding rename_message
  rename_message-Housed ms e v = λ id m h.
      let (x, g, p) = each-cases id (rename_message from to) ms m h in
      subst (λ y. homed (take_over from to a agents) y.to id ≡ true) p
        (homed-take_over x.to id e (v id x g))
