-- ===== src/Store/Apply/Forgetting.antt =====
-- src/store.rs, `Effect::Drop` and `Effect::Forget`: an agent goes with all the messages to it.
use postino.Prelude.{
  ◌≡◌, refl, Bool-cases, Option-cases, inl, inr, true, some, List, [], ◌∷◌, arith, any, subst,
}
use postino.Prelude.Order.{key_eq, text_order, cmp_text-IsOrder}
use postino.Prelude.Map.{keys, get, remove, get-remove, remove-IsSorted}
use postino.Prelude.Map.Length.{has_key}
use postino.Prelude.Text.{Text}
use postino.Id.{EntryId, id_order}
use postino.Captured.{values_mut}
use postino.Store.Messages.{Ids, Agent}
use postino.Store.Tracking.Steps.{Tracks}
use postino.Store.Tracking.Homes.{homed}
use postino.Store.Effects.{Store, Outside}
use postino.Store.Apply.{remove_messages, forget_agent}
use postino.Store.Apply.Invariant.{IsTracked}
use postino.Store.Apply.Kept.{LeftOver, remove_messages-IsTracked}

pub any-keys : (id : EntryId) (s : Ids) → any (key_eq id) (keys s) ≡ has_key id s
unfolding get
any-keys id [] = refl
any-keys id ((j, u) ∷ s) = ground (arith, any-keys id s)

module _ (out : Outside) where
  pub drop-IsTracked :
      (ids : List EntryId) (s : Store) → IsTracked s → IsTracked (remove_messages out ids s)
  drop-IsTracked ids s v =
      remove_messages-IsTracked out ids s v.tracks (λ id m e. ground (arith, v.housed id m e))

  remove_agent-Tracks :
      (name : Text) (s : Store)
      → IsTracked s
      → Tracks s.messages.map (record { agents = remove name s.agents; due = s.due })
  remove_agent-Tracks name s v = record {
    sorted = v.tracks.sorted;
    ids = v.tracks.ids;
    agents_sorted = remove-IsSorted name s.agents v.tracks.agents_sorted;
    inboxes = λ a r h. v.tracks.inboxes a r (ground (arith, get-remove name a s.agents));
    due = v.tracks.due;
  }

  agent-LeftOver :
      (name : Text) (r : Agent) (s : Store)
      → get name s.agents ≡ some r
      → IsTracked s
      → LeftOver out (keys r.inbox) (record s { agents = remove name s.agents })
  agent-LeftOver name r s e v = λ id m h. elim (Bool-cases (key_eq m.to name)) [
    | inl same ↦ ground (
      arith,
      any-keys id r.inbox,
      subst (λ n. homed s.agents n id ≡ true) (cmp_text-IsOrder.eq_of_cmp m.to name (ground arith))
          (v.housed id m h),
      e,
    )
    | inr other ↦ ground (arith, v.housed id m h, get-remove name m.to s.agents)
  ]

  pub forget_agent-IsTracked :
      (name : Text) (s : Store) → IsTracked s → IsTracked (forget_agent out name s)
  unfolding forget_agent values_mut
  forget_agent-IsTracked name s v = elim (Option-cases (get name s.agents)) [
    | inl e ↦ rw (e, forget_agent) v
    | inr (r, e) ↦
        rw (e, forget_agent)
          (remove_messages-IsTracked out (keys r.inbox) (record s { agents = remove name s.agents })
            (remove_agent-Tracks name s v) (agent-LeftOver name r s e v))
  ]
