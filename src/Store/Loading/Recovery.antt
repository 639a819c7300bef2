-- ===== src/Store/Loading/Recovery.antt =====
-- src/store.rs, `Store::from_snapshot` and the replay of a journal: the recovered state is in step, and
-- what a snapshot holds comes back.
use postino.Prelude.{◌≡◌, refl, sym, subst, Bool-cases, inl, inr, some, List, [], ◌∷◌, arith, map}
use postino.Prelude.Order.{key_eq, text_order}
use postino.Prelude.Map.{get, insert, get-insert, insert-IsSorted}
use postino.Prelude.Text.{Text}
use postino.Id.{EntryId, id_order, cmp_id-IsOrder}
use postino.Store.Tracking.{cleared}
use postino.Store.Tracking.Agrees.{InboxAgrees}
use postino.Store.Effects.{Effect, message, broadcast, room, Store, Outside, empty}
use postino.Store.Apply.Invariant.{IsTracked}
use postino.Store.Rename.{apply, retrack}
use postino.Store.Rename.Rebuild.{cleared-InboxAgrees}
use postino.Store.Rename.Preserved.{apply-IsTracked}
use postino.Store.Rename.Unique.{retrack-IsTracked}
use postino.Store.Loading.{Saved, read_back, SnapshotOwned, add_agents, apply_all, from_snapshot}
open cmp_id-IsOrder use {eq_of_cmp, cmp_refl}

empty-IsTracked : (last : EntryId) → IsTracked (record empty { last_id = last })
unfolding get
empty-IsTracked last = record {
  tracks = record {
    sorted = tt;
    ids = λ k m h. absurd (ground arith);
    agents_sorted = tt;
    inboxes = λ a r h. absurd (ground arith);
    due = record {
      leases_sorted = tt;
      expiry_sorted = tt;
      settled_sorted = tt;
      leases = λ t id. refl;
      expiry = λ t id. refl;
      settled = λ t id. refl;
    };
  };
  housed = λ id m h. absurd (ground arith);
}

-- An agent that is read back goes in while there is no message.
add_agent-InStep :
    (a : Saved) (s : Store)
    → s.messages.map ≡ []
    → IsTracked s
    → IsTracked (record s { agents = insert a.name (read_back a) s.agents })
unfolding read_back get cleared
add_agent-InStep a s none_yet v = record {
  tracks = record {
    sorted = v.tracks.sorted;
    ids = v.tracks.ids;
    agents_sorted = insert-IsSorted a.name (read_back a) s.agents v.tracks.agents_sorted;
    inboxes = λ b r h. elim (Bool-cases (key_eq b a.name)) [
      | inl same ↦
          subst (λ ms. InboxAgrees ms b r) (sym none_yet)
            (subst (InboxAgrees [] b) (ground (arith, get-insert a.name b (read_back a) s.agents))
              (cleared-InboxAgrees b (read_back a)))
      | inr other ↦
          v.tracks.inboxes b r (ground (arith, get-insert a.name b (read_back a) s.agents))
    ];
    due = v.tracks.due;
  };
  housed = λ id m h. absurd (ground (arith, subst (λ ms. get id ms ≡ some m) none_yet h));
}

add_agents-IsTracked :
    (rest : List Saved) (s : Store)
    → s.messages.map ≡ []
    → IsTracked s
    → IsTracked (add_agents rest s)
unfolding add_agents
add_agents-IsTracked [] s e v = v
add_agents-IsTracked (a ∷ rest) s e v =
    add_agents-IsTracked rest (record s { agents = insert a.name (read_back a) s.agents }) e
      (add_agent-InStep a s e v)

module _ (out : Outside) where
  apply_all-IsTracked :
      (es : List Effect) (s : Store) → IsTracked s → IsTracked (apply_all out es s)
  unfolding apply_all
  apply_all-IsTracked [] s v = v
  apply_all-IsTracked (e ∷ es) s v =
      apply_all-IsTracked es (apply out e s) (apply-IsTracked out e s v)

  pub from_snapshot-IsTracked : (snap : SnapshotOwned) → IsTracked (from_snapshot out snap)
  unfolding from_snapshot
  from_snapshot-IsTracked snap =
      let start : Store = record empty { last_id = snap.last_id } in
      let v = add_agents-IsTracked snap.agents start refl (empty-IsTracked snap.last_id) in
      let w = apply_all-IsTracked (map message snap.messages) (add_agents snap.agents start) v in
      let x = apply_all-IsTracked (map broadcast snap.broadcasts) _ w in
      let y = apply_all-IsTracked (map room snap.rooms) _ x in
      record { tracks = y.tracks; housed = y.housed }

  -- Whatever snapshot was loaded and whatever effects were replayed after it, rebuilding the
  -- inboxes and the due indexes from the messages changes nothing.
  pub recovered-retrack :
      (snap : SnapshotOwned) (es : List Effect)
      → let s = apply_all out es (from_snapshot out snap) in retrack s ≡ s
  recovered-retrack snap es =
      retrack-IsTracked (apply_all out es (from_snapshot out snap))
        (apply_all-IsTracked es (from_snapshot out snap) (from_snapshot-IsTracked snap))
