-- ===== src/Db/Captures/Passes.antt =====
-- A capture follows the keyspace: saving a key before it changes, and the passes of `capture_step`.
use postino.Prelude.{
  ℕ, ◌-◌, ◌≡◌, ◌∙◌, refl, Bool, Bool-cases, Option-cases, inl, inr, true, false, Option, none, some,
  List, [], ◌∷◌, ◌++◌, arith,
}
use postino.Prelude.Order.{text_order}
use postino.Prelude.Order.{cmp_text-IsOrder}
use postino.Prelude.Map.{Map, get, insert, get-insert}
use postino.Prelude.Ranges.{range_after, range_after-IsNext, range_after-nil}
use postino.Prelude.Text.{Text}
use postino.Db.Value.{Entry}
use postino.Db.Captures.{
  Bytes, Json, Capture, Budget, within, contains, passed, roll, append, write, visit, step_loop,
  place, advance, save, size,
}
use postino.Db.Captures.Output.{Pairs, Holds, write-Holds}
use postino.Db.Captures.Coverage.{
  Covers, reached, note-Covers, early-Covers, skip-Covers, pass-Covers, finish-Covers,
}
open cmp_text-IsOrder use {cmp_refl}

write-same :
    (json : Json) (k : Text) (e : Entry) (c : Capture)
    → ((write json k e c).done ≡ c.done)
      × ((write json k e c).cursor ≡ c.cursor)
      × ((write json k e c).early ≡ c.early)
unfolding write roll append
write-same json k e c = ground arith

reached-insert :
    (done : Bool) (cursor : Option Text) (early : Map Text (Unit {0})) (k : Text)
    → reached done cursor (insert k tt early) k ≡ true
reached-insert done cursor early k = ground (arith, get-insert k k tt early, cmp_refl k)

pub save-reached :
    (json : Json) (m : Map Text Entry) (k : Text) (c : Capture)
    → let c' = save json k m c in reached c'.done c'.cursor c'.early k ≡ true
unfolding save passed
save-reached json m k c = elim (Bool-cases (reached c.done c.cursor c.early k)) [
  | inl there ↦ rw (there, save) there
  | inr new ↦
      rw (new, save)
        (elim (Option-cases (get k m)) [
          | inl e ↦ rw e (reached-insert c.done c.cursor c.early k)
          | inr (x, e) ↦
              let (d, u, l) = write-same json k x (record c { early = insert k tt c.early }) in
              rw (e, d, u, l) (reached-insert c.done c.cursor c.early k)
        ])
]

-- `origin` is the keyspace when the capture began, after `head`; `drained` is what was handed out.
module _ (json : Json) (head : Bytes) (drained : List Bytes) (origin : Map Text Entry) where
  abbrev pub Follows : Map Text Entry → Capture → Type 0
  Follows m c =
      (ws : Pairs) × Holds json head drained ws c × Covers origin ws m c.done c.cursor c.early

  write_early :
      (m : Map Text Entry) (ws : Pairs) (k : Text) (e : Entry) (c : Capture)
      → Holds json head drained ws c
      → Covers origin (ws ++ (k, e) ∷ []) m c.done c.cursor c.early
      → Follows m (write json k e c)
  write_early m ws k e c h v =
      let (d, u, l) = write-same json k e c in
      (ws ++ (k, e) ∷ [], write-Holds json head drained ws k e c h, rw (d, u, l) v)

  -- Saving a key leaves it reached, and the capture still follows the keyspace.
  pub save-Follows :
      (m : Map Text Entry) (k : Text) (c : Capture) → Follows m c → Follows m (save json k m c)
  unfolding save passed
  save-Follows m k c (ws, h, v) = elim (Bool-cases (reached c.done c.cursor c.early k)) [
    | inl there ↦ rw there (ws, h, v)
    | inr new ↦ rw new (elim (Option-cases (get k m)) [
      | inl e ↦ rw e (ws, h, note-Covers v k new e)
      | inr (x, e) ↦ rw e (
          write_early m ws k x (record c { early = insert k tt c.early }) h
            (early-Covers v k x new e))
    ])
  ]

  abbrev or_else : Option Text → Option Text → Option Text
  or_else none cursor = cursor
  or_else (some k) cursor = some k

  place-Follows :
      (m : Map Text Entry) (ws : Pairs) (last : Option Text) (c : Capture)
      → Holds json head drained ws c
      → Covers origin ws m c.done (or_else last c.cursor) c.early
      → Follows m (place last c)
  unfolding place
  place-Follows m ws none c h v = (ws, h, v)
  place-Follows m ws (some k) c h v = (ws, h, v)

  -- One key of a pass.
  visit-Follows :
      (m run : Map Text Entry) (ws : Pairs) (k : Text) (e : Entry) (cursor : Option Text)
      (c : Capture)
      → c.done ≡ false
      → Holds json head drained ws c
      → Covers origin ws m false cursor c.early
      → range_after cursor m ≡ (k, e) ∷ run
      → (ws' : Pairs) × Holds json head drained ws' (visit json k e c)
        × Covers origin ws' m false (some k) (visit json k e c).early
        × ((visit json k e c).done ≡ false)
        × (range_after (some k) m ≡ run)
  unfolding visit range_after
  visit-Follows m run ws k e cursor c open_ h v r =
      let next = range_after-IsNext cursor k e m run v.sorted r in
      elim (Bool-cases (contains k c.early)) [
        | inl seen ↦ rw seen (ws, h, skip-Covers v k e next seen, open_, next.3)
        | inr new ↦
            let (d, u, l) = write-same json k e c in
            rw new (
              ws ++ (k, e) ∷ [],
              write-Holds json head drained ws k e c h,
              rw l (pass-Covers v k e next new),
              rw d open_,
              next.3,
            )
      ]

  step_loop-Follows :
      (budget : Budget) (start : ℕ) (m run : Map Text Entry) (ws : Pairs) (last : Option Text)
      (c : Capture)
      → c.done ≡ false
      → Holds json head drained ws c
      → Covers origin ws m false (or_else last c.cursor) c.early
      → range_after (or_else last c.cursor) m ≡ run
      → let (c', last') = step_loop json budget start run last c in Follows m (place last' c')
  unfolding step_loop
  step_loop-Follows budget start m [] ws last c o h v r =
      elim (Bool-cases (within budget (size c - start))) [
        | inl more ↦ rw more (
            place-Follows m ws last (record c { done = true }) h
              (finish-Covers v (range_after-nil (or_else last c.cursor) m v.sorted r)))
        | inr spent ↦ rw spent (place-Follows m ws last c h (rw o v))
      ]
  step_loop-Follows budget start m ((k, e) ∷ run) ws last c o h v r =
      elim (Bool-cases (within budget (size c - start))) [
        | inl more ↦
            let (ws', h', v', o', r') =
              visit-Follows m run ws k e (or_else last c.cursor) c o h v r in
            rw more
              (step_loop-Follows budget start m run ws' (some k) (visit json k e c) o' h' v' r')
        | inr spent ↦ rw spent (place-Follows m ws last c h (rw o v))
      ]

  -- A pass, whatever its budget, keeps the capture in step with the keyspace.
  pub advance-Follows :
      (budget : Budget) (m : Map Text Entry) (c : Capture)
      → Follows m c
      → Follows m (advance json budget m c)
  unfolding advance
  advance-Follows budget m c (ws, h, v) = elim (Bool-cases c.done) [
    | inl over ↦ rw over (ws, h, rw (← over) v)
    | inr o ↦ simp o (
        step_loop-Follows budget (size c) m (range_after c.cursor m) ws none c o h (rw (← o) v)
          refl)
  ]

step_loop-done :
    (json : Json) (start : ℕ) (run : Map Text Entry) (last : Option Text) (c : Capture)
    → (step_loop json none start run last c).0.done ≡ true
unfolding step_loop
step_loop-done json start [] last c = refl
step_loop-done json start ((k, e) ∷ run) last c =
    step_loop-done json start run (some k) (visit json k e c)

place-done : (last : Option Text) (c : Capture) → (place last c).done ≡ c.done
unfolding place
place-done none c = refl
place-done (some k) c = refl

-- With no budget the pass goes through to the end.
pub advance-done :
    (json : Json) (m : Map Text Entry) (c : Capture) → (advance json none m c).done ≡ true
unfolding advance
advance-done json m c = elim (Bool-cases c.done) [
  | inl over ↦ ground arith
  | inr o ↦ simp o (place-done _ _ ∙ step_loop-done json (size c) (range_after c.cursor m) none c)
]
