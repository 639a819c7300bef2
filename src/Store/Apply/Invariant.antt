-- ===== src/Store/Apply/Invariant.antt =====
-- What src/store.rs keeps in step with the messages, and the effects on messages that keep it so.
use postino.Prelude.{
  ℕ, ◌≡◌, ap, sym, subst, ◌∙◌, Bool-cases, Option-cases, inl, inr, true, false, none, some, arith,
}
use postino.Prelude.Order.{key_eq, text_order, cmp_text-IsOrder}
use postino.Prelude.Map.{get, insert, remove, get-insert, get-remove, insert-IsSorted}
use postino.Prelude.Text.{Text}
use postino.Id.{EntryId, id_order, cmp_id-IsOrder}
use postino.Captured.{change}
use postino.Captured.Maps.{change-cases, change-IsSorted, insert-remove, remove_absent}
use postino.Store.Messages
use postino.Store.Messages.{Message, Agent, is_pending}
use postino.Store.Tracking.{Tracked, track}
use postino.Store.Tracking.Agrees.{Messages, InboxAgrees}
use postino.Store.Tracking.Steps.{Tracks, come-Tracks, go-Tracks}
use postino.Store.Tracking.Homes.{
  homed, Housed, homed-track, homed-enter, homed-receive, keep-InboxAgrees, new-InboxAgrees,
}
use postino.Store.Effects.{Store, tracked}
use postino.Store.Changes.{enter, receive, replaced, addressed}
open cmp_id-IsOrder use {eq_of_cmp, cmp_refl}

-- The inboxes and the due indexes agree with the messages, each of which is in an inbox.
pub record InStep (ms : Messages) (t : Tracked) : Type 0 where
  pub tracks : Tracks ms t
  pub housed : Housed ms t.agents

abbrev pub IsTracked : Store → Type 0
IsTracked s = InStep s.messages.map (tracked s)

-- No message is to an agent that is not there.
pub no_message :
    {ms : Messages} {t : Tracked} (v : InStep ms t) (name : Text)
    → get name t.agents ≡ none
    → (id : EntryId) (m : Message) → get id ms ≡ some m
    → key_eq m.to name ≡ false
no_message {t} v name h id m e = elim (Bool-cases (key_eq m.to name)) [
  | inl same ↦ absurd (
      ground (
        arith,
        v.housed id m e,
        subst (λ n. get n t.agents ≡ none)
            (sym (cmp_text-IsOrder.eq_of_cmp m.to name (ground arith))) h,
      ))
  | inr other ↦ other
]

-- A change of an agent that `track` does not read.
pub touch-Tracks :
    {ms : Messages} {t : Tracked} (name : Text) (f : Agent → Agent)
    → ((a : Text) (r : Agent) → InboxAgrees ms a r → InboxAgrees ms a (f r))
    → Tracks ms t
    → Tracks ms (record t { agents = change name f t.agents })
touch-Tracks {ms} {t} name f keep v = record {
  sorted = v.sorted;
  ids = v.ids;
  agents_sorted = change-IsSorted name f t.agents v.agents_sorted;
  inboxes = λ a r h. elim (change-cases name a f t.agents r h) [
    | inl (same, (u, e, p)) ↦ subst (InboxAgrees ms a) p (keep a u (v.inboxes a u e))
    | inr (other, e) ↦ v.inboxes a r e
  ];
  due = v.due;
}

pub enter-InStep :
    {ms : Messages} {t : Tracked} (name : Text) (at : ℕ)
    → InStep ms t
    → InStep ms (record t { agents = enter name at t.agents })
unfolding enter
enter-InStep {ms} {t} name at v = elim (Option-cases (get name t.agents)) [
  | inr (r, e) ↦ rw (e, enter) v
  | inl e ↦
      rw (e, enter)
        (record {
          tracks = record {
            sorted = v.tracks.sorted;
            ids = v.tracks.ids;
            agents_sorted =
                insert-IsSorted name (Messages.new name at) t.agents v.tracks.agents_sorted;
            inboxes = λ a r h. elim (Bool-cases (key_eq a name)) [
              | inl same ↦
                  let same' = cmp_text-IsOrder.eq_of_cmp a name (ground arith) in
                  subst (λ b. InboxAgrees ms b r) (sym same')
                    (subst (InboxAgrees ms name)
                      (ground (arith, get-insert name a (Messages.new name at) t.agents))
                      (new-InboxAgrees ms name at v.tracks.sorted (no_message v name e)))
              | inr other ↦
                  v.tracks.inboxes a r
                    (ground (arith, get-insert name a (Messages.new name at) t.agents))
            ];
            due = v.tracks.due;
          };
          housed = λ id m h.
              rw
                (← ap
                  (λ o.
                    homed
                      (elim o [
                        | none ↦ insert name (Messages.new name at) t.agents
                        | some _ ↦ t.agents
                      ])
                      m.to id)
                  e)
                (homed-enter name at t.agents m.to id (v.housed id m h));
        })
]

-- A message goes.
pub go_Tracks :
    {ms : Messages} {t : Tracked} (v : Tracks ms t) (id : EntryId) (m : Message)
    → get id ms ≡ some m
    → Tracks (remove id ms) (track false m t)
go_Tracks {ms} {t} v id m e =
    let same = v.ids id m e in
    subst (λ k. Tracks (remove k ms) (track false m t)) same
      (go-Tracks v m (subst (λ k. get k ms ≡ some m) (sym same) e))

go_InStep :
    {ms : Messages} {t : Tracked} (v : InStep ms t) (id : EntryId) (m : Message)
    → get id ms ≡ some m
    → InStep (remove id ms) (track false m t)
go_InStep {ms} {t} v id m e = record {
  tracks = go_Tracks v.tracks id m e;
  housed =
      λ j x h. homed-track false m t x.to j ∙ v.housed j x (ground (arith, get-remove id j ms));
}

-- Once the old message of its id is gone.
pub replaced-InStep :
    {ms : Messages} {t : Tracked} (m : Message)
    → InStep ms t
    → InStep (remove m.id ms) (replaced m t ms)
unfolding replaced
replaced-InStep {ms} {t} m v = elim (Option-cases (get m.id ms)) [
  | inl e ↦ rw (e, replaced, remove_absent m.id ms e) v
  | inr (old, e) ↦ let same = v.tracks.ids m.id old e in rw (e, replaced) (go_InStep v m.id old e)
]

-- The addressee is there and receives the id of a message that has not come yet.
pub addressed-InStep :
    {ms : Messages} {t : Tracked} (m : Message) → InStep ms t → InStep ms (addressed m t)
unfolding addressed
addressed-InStep {ms} {t} m v =
    let w = enter-InStep m.to m.created v in
    record {
      tracks =
          touch-Tracks m.to (receive m.id)
            (λ a r. keep-InboxAgrees r r.name r.cursor (insert m.id tt r.inbox)) w.tracks;
      housed = λ id x h.
          homed-receive m.to m.id (enter m.to m.created t.agents) x.to id (w.housed id x h);
    }

-- A message comes, to an agent that has it in its inbox.
pub come_InStep :
    {ms : Messages} {t : Tracked} (m : Message)
    → InStep ms t
    → get m.id ms ≡ none
    → homed t.agents m.to m.id ≡ true
    → InStep (insert m.id m ms) (track true m t)
come_InStep {ms} {t} m v fresh home = record {
  tracks = come-Tracks v.tracks m fresh;
  housed = λ j x h. homed-track true m t x.to j ∙ elim (Bool-cases (key_eq j m.id)) [
    | inl same ↦
        let same' = eq_of_cmp j m.id (ground arith) in
        subst (λ n. homed t.agents n j ≡ true) (ground (arith, get-insert m.id j m ms))
          (subst (λ k. homed t.agents m.to k ≡ true) (sym same') home)
    | inr other ↦ v.housed j x (ground (arith, get-insert m.id j m ms))
  ];
}

-- A message goes and comes back changed.
back_InStep :
    {ms : Messages} {t : Tracked} (v : InStep ms t) (m m' : Message)
    → get m'.id ms ≡ some m
    → m'.to ≡ m.to
    → InStep (insert m'.id m' ms) (track true m' (track false m t))
back_InStep {ms} {t} v m m' e to_same =
    subst (λ n. InStep n (track true m' (track false m t)))
      (insert-remove m'.id m' ms v.tracks.sorted)
      (come_InStep m' (go_InStep v m'.id m e)
        (ground (arith, get-remove m'.id m'.id ms, cmp_refl m'.id))
        (homed-track false m t m'.to m'.id
          ∙ subst (λ n. homed t.agents n m'.id ≡ true) (sym to_same) (v.housed m'.id m e)))

pub again_InStep :
    {ms : Messages} {t : Tracked} (v : InStep ms t) (id : EntryId) (m m' : Message)
    → get id ms ≡ some m
    → m'.id ≡ id
    → m'.to ≡ m.to
    → InStep (insert id m' ms) (track true m' (track false m t))
again_InStep {ms} {t} v id m m' e same to_same =
    subst (λ k. InStep (insert k m' ms) (track true m' (track false m t))) same
      (back_InStep v m m' (subst (λ k. get k ms ≡ some m) (sym same) e) to_same)
