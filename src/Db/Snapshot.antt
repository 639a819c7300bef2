-- ===== src/Db/Snapshot.antt =====
-- A snapshot of the keyspace taken while it changes: src/db.rs, the methods of `Db` while a capture
-- is in progress.
pub mod Changes
use Changes.{Op, run_op, run_ops}
use postino.Prelude.{
  ◌≡◌, refl, ap, ◌∙◌, Bool-cases, Option-cases, inl, inr, Option, none, some, List, [], ◌∷◌, ◌++◌,
  arith, if◌then◌else◌, concat, concat-snoc, concat-append, append-nil, append_assoc, true, false,
  Bool,
}
use postino.Prelude.Order.{text_order}
use postino.Prelude.Map.{
  Map, IsSorted, IsDistinct, get, collect, collect-IsSorted, get-collect, Map-ext,
}
use postino.Prelude.Text.{Text, Result, ok, err, codes, ◌>>=◌}
use postino.Db.Value.{Entry}
use postino.Db.Captures.{Bytes, Json, Capture, advance}
use postino.Db.Captures.Output.{Pairs, Holds, members, output}
use postino.Db.Captures.Coverage.{Covers}
use postino.Db.Captures.Passes.{Follows, advance-Follows, advance-done}
use postino.Db.{Db, begin_capture, end_capture, capture_step}
use Changes.{Captures, captured, run_ops-Captures}

-- What reading the pairs into a map gives, once every key is reached.
collect-origin :
    {origin m : Map Text Entry} {ws : Pairs} {cursor : Option Text} {early : Map Text (Unit {0})}
    {done : Bool}
    → Covers origin ws m done cursor early
    → done ≡ true
    → IsSorted origin
    → collect ws [] ≡ origin
unfolding get
collect-origin {origin} {ws} v over s =
    Map-ext (collect ws []) origin (collect-IsSorted ws [] tt) s
      (λ k. get-collect k ws [] v.distinct ∙ ground (arith, v.old k))

-- How a capture ends: with all the members after `head` and the closing brace, or with the error.
abbrev pub Ends : Bytes → List Bytes → Option Bytes → Result (List Bytes) → Type 0
Ends head drained (some b) r =
    (parts : List Bytes) × (r ≡ ok parts) × (concat (drained ++ parts) ≡ head ++ (b ++ b'}' ∷ []))
Ends head drained none r = r ≡ err (codes "a key could not be serialized")

-- The end of a capture whose pass is over.
abbrev close : Capture → Result (List Bytes)
close c =
    if c.broken
    then err (codes "a key could not be serialized")
    else ok (c.parts ++ (c.out ++ b'}' ∷ []) ∷ [])

closed :
    (json : Json) (head : Bytes) (drained : List Bytes) (b : Bytes) (c : Capture)
    → head ++ b ≡ output drained c
    → concat (drained ++ (c.parts ++ (c.out ++ b'}' ∷ []) ∷ [])) ≡ head ++ (b ++ b'}' ∷ [])
closed json head drained b c e =
    rw (concat-append drained, concat-snoc c.parts, ← append_assoc head b, e) (simp append_assoc)

close-Ends :
    (json : Json) (head : Bytes) (drained : List Bytes) (ws : Pairs) (c : Capture)
    → Holds json head drained ws c
    → Ends head drained (members json ws) (close c)
close-Ends json head drained ws c h = elim (Bool-cases c.broken) [
  | inl broken ↦ rw (h.1 broken, broken) refl
  | inr intact ↦ elim (Option-cases (members json ws)) [
    | inl o ↦ absurd (cc ((h.0 intact).0, ap (λ r. do b ← r; some (head ++ b)) o))
    | inr (b, o) ↦
        rw (o, intact)
          (
            c.parts ++ (c.out ++ b'}' ∷ []) ∷ [],
            refl,
            closed json head drained b c (ground (arith, rw o at ((h.0 intact).0))),
          )
  ]
]

begin_capture-Captures :
    (json : Json) (head : Bytes) (db : Db)
    → IsSorted db.keys
    → Captures json head db.keys [] (begin_capture json head db).0
unfolding begin_capture get members
begin_capture-Captures json head db s = (
  _,
  refl,
  (
    [],
    (λ _. (rw append-nil refl, refl), λ broken. cc),
    record {
      sorted = s;
      distinct = tt;
      old = λ k h. cc;
      unwritten = λ k h. refl;
      unchanged = λ k h. refl;
    },
  ),
)

step-advance :
    (json : Json) (db : Db) {c : Capture}
    → db.capture ≡ some c
    → (capture_step json none db).0.capture ≡ some (advance json none db.keys c)
unfolding capture_step
step-advance json db {c} e =
    captured db e (λ (r : Db × Bool). r.0.capture ≡ some (advance json none db.keys c)) _ _ refl

end_capture-close :
    (json : Json) (db : Db) {c : Capture}
    → db.capture ≡ some c
    → (end_capture json db).1 ≡ close (advance json none db.keys c)
unfolding end_capture
end_capture-close json db e = rw (step-advance json db e, end_capture) refl

end_capture-Ends :
    (json : Json) (head : Bytes) (origin : Map Text Entry) (drained : List Bytes) (db : Db)
    → IsSorted origin
    → Captures json head origin drained db
    → (ws : Pairs) × IsDistinct ws
      × (collect ws [] ≡ origin)
      × Ends head drained (members json ws) (end_capture json db).1
end_capture-Ends json head origin drained db s (c, e, f) =
    let (ws, h, v) = advance-Follows json head drained origin none db.keys c f in
    let over = advance-done json db.keys c in
    (
      ws,
      v.distinct,
      collect-origin v over s,
      rw (end_capture-close json db e)
          (close-Ends json head drained ws (advance json none db.keys c) h),
    )

-- Whatever is done to a keyspace whose keys are in order, also any number of partial passes, while a snapshot of it is being
-- taken: the snapshot ends as the text before the keys, then one member for each of the keys that the
-- keyspace held when the snapshot began, with the entry that it had then, and the closing brace, the
-- parts that were handed out early included; or, if one of these cannot be serialized, with the
-- error. The keys written are distinct, and collected in a map they are that keyspace.
pub snapshot-origin :
    (json : Json) (head : Bytes) (db : Db) (ops : List Op)
    → IsSorted db.keys
    → let (db', drained) = run_ops json ops (begin_capture json head db).0 in
      (ws : Pairs) × IsDistinct ws
      × (collect ws [] ≡ db.keys)
      × Ends head drained (members json ws) (end_capture json db').1
snapshot-origin json head db ops s =
    let p =
      run_ops-Captures json head db.keys [] ops (begin_capture json head db).0
        (begin_capture-Captures json head db s) in
    end_capture-Ends json head db.keys (run_ops json ops (begin_capture json head db).0).1
      (run_ops json ops (begin_capture json head db).0).0 s p
