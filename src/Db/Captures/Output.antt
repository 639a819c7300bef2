-- ===== src/Db/Captures/Output.antt =====
-- What the bytes of a capture say: src/db.rs, `Capture::write`.
use postino.Prelude.{
  ◌+◌, ◌≡◌, ◌≢◌, refl, ap, true, false, Option, none, some, List, [], ◌∷◌, ◌++◌, arith, length,
  length-append, concat, concat-snoc, append_assoc, append-nil, ltb, lt→ltb, leb, Bool-cases,
  Option-cases, inl, inr,
}
use postino.Prelude.Text.{Text, ◌>>=◌}
use postino.Db.Value.{Entry}
use postino.Db.Captures.{Bytes, Json, Capture, roll, append, member, write, capture_part}

abbrev pub Pairs : Type 0
Pairs = List (Text × Entry)

-- The members of a JSON object: its pairs, with a comma between two.
abbrev pub glue : Pairs → Bytes → Bytes → Bytes
glue [] first rest = first
glue (_ ∷ _) first rest = first ++ b',' ∷ rest

unfoldable pub members : Json → Pairs → Option Bytes
members json [] = some []
members json ((k, e) ∷ ps) = do
  first ← member json k e
  rest ← members json ps
  some (glue ps first rest)

-- All that was written, handed out or not.
abbrev pub output : List Bytes → Capture → Bytes
output drained c = concat drained ++ (concat c.parts ++ c.out)

-- The bytes are `head` and the members `ws`, unless one of these could not be serialized.
abbrev pub Holds : Json → Bytes → List Bytes → Pairs → Capture → Type 0
Holds json head drained ws c =
    (c.broken ≡ false
      → ((do b ← members json ws; some (head ++ b)) ≡ some (output drained c))
        × (c.written ≡ length ws))
    × (c.broken ≡ true → members json ws ≡ none)

abbrev comma : Pairs → Bytes → Bytes
comma [] b = b
comma (_ ∷ _) b = b ++ b',' ∷ []

regroup :
    (p q : Pairs) (m r l r' : Option Bytes)
    → r' ≡ (do b ← r; last ← l; some (comma p b ++ last))
    → p ≢ []
    → q ≢ []
    → (do first ← m; rest ← r'; some (glue q first rest)) ≡ (do
      b ← (do first ← m; rest ← r; some (glue p first rest))
      last ← l
      some ((b ++ b',' ∷ []) ++ last))
regroup [] q m r l r' h n n' = absurd (n refl)
regroup p [] m r l r' h n n' = absurd (n' refl)
regroup (_ ∷ _) (_ ∷ _) none r l r' h n n' = refl
regroup (_ ∷ _) (_ ∷ _) (some a) none l r' h n n' = rw h refl
regroup (_ ∷ _) (_ ∷ _) (some a) (some b) none r' h n n' = rw h refl
regroup (_ ∷ _) (_ ∷ _) (some a) (some b) (some c) r' h n n' =
    rw h (ap {B = Option Bytes} some (simp append_assoc))

regroup_one :
    (m l : Option Bytes) (n : Bytes)
    → (do first ← m; rest ← (do a ← l; b ← some n; some a); some (first ++ b',' ∷ rest))
      ≡ (do b ← (do a ← m; b ← some n; some a); last ← l; some ((b ++ b',' ∷ []) ++ last))
regroup_one none l n = refl
regroup_one (some a) none n = refl
regroup_one (some a) (some b) n = ap {B = Option Bytes} some (simp append_assoc)

members-snoc :
    (json : Json) (ws : Pairs) (k : Text) (e : Entry)
    → members json (ws ++ (k, e) ∷ [])
      ≡ (do b ← members json ws; last ← member json k e; some (comma ws b ++ last))
unfolding members
members-snoc json [] k e = ground arith
members-snoc json ((j, d) ∷ []) k e = regroup_one (member json j d) (member json k e) []
members-snoc json ((j, d) ∷ q ∷ ws) k e =
    regroup (q ∷ ws) (q ∷ ws ++ (k, e) ∷ []) (member json j d) (members json (q ∷ ws))
      (member json k e) (members json (q ∷ ws ++ (k, e) ∷ [])) (members-snoc json (q ∷ ws) k e)
      (λ h. cc) (λ h. cc)

output-roll : (drained : List Bytes) (c : Capture) → output drained (roll c) ≡ output drained c
unfolding roll
output-roll drained c = elim (Bool-cases (leb capture_part (length c.out))) [
  | inl full ↦ rw (full, roll) (simp (concat-snoc c.parts c.out, append-nil))
  | inr room ↦ rw (room, roll) refl
]

roll-same : (c : Capture) → ((roll c).broken ≡ c.broken) × ((roll c).written ≡ c.written)
unfolding roll
roll-same c = ground arith

-- What `append` does to the bytes: a comma unless the pair is the first, then the pair.
grown :
    (head b bytes : Bytes) (drained : List Bytes) (ws : Pairs) (c : Capture)
    → head ++ b ≡ output drained c
    → c.written ≡ length ws
    → head ++ (comma ws b ++ bytes) ≡ output drained (append c (some bytes))
unfolding append
grown head b bytes drained [] c e n =
    rw n (rw (← append_assoc head b bytes) (rw e (simp append_assoc)))
grown head b bytes drained (_ ∷ ws) c e n =
    let later : ltb 0 c.written ≡ true = rw n (lt→ltb _ _ (omega arith)) in
    rw (later, append_assoc b, ← append_assoc head b (b',' ∷ bytes)) (rw e (simp append_assoc))

bind-none : (o : Option Bytes) → ◌>>=◌ {B = Bytes} o (λ _. none) ≡ none
bind-none none = refl
bind-none (some b) = refl

module _ (json : Json) (head : Bytes) (drained : List Bytes) (ws : Pairs) (k : Text) (e : Entry)
    (c : Capture) (h : Holds json head drained ws c) where
  append-some :
      (bytes b : Bytes)
      → member json k e ≡ some bytes
      → members json ws ≡ some b
      → c.broken ≡ false
      → ((do b ← members json (ws ++ (k, e) ∷ []); some (head ++ b))
          ≡ some (output drained (append c (some bytes))))
        × (c.written + 1 ≡ length (ws ++ (k, e) ∷ []))
  append-some bytes b m o intact =
      let (text, count) = h.0 intact in
      (
        rw (members-snoc json ws k e, o, m)
            (ap {B = Option Bytes} some
              (grown head b bytes drained ws c (ground (arith, rw o at text)) count)),
        omega (arith, count, length-append {0} ws ((k, e) ∷ [])),
      )

  intact_some : c.broken ≡ false → members json ws ≡ none → ⊥
  intact_some intact o = cc ((h.0 intact).0, ap (λ r. do b ← r; some (head ++ b)) o)

  append-Holds : Holds json head drained (ws ++ (k, e) ∷ []) (append c (member json k e))
  unfolding append
  append-Holds = elim (Option-cases (member json k e)) [
    | inl failed ↦ rw failed (
      λ intact. cc,
      λ broken. rw (members-snoc json ws k e, failed) (bind-none (members json ws)),
    )
    | inr (bytes, m) ↦ rw m (
      λ intact. elim (Option-cases (members json ws)) [
        | inl o ↦ absurd (intact_some intact o)
        | inr (b, o) ↦ unfold append in append-some bytes b m o intact
      ],
      λ broken. rw (members-snoc json ws k e, h.1 broken) refl,
    )
  ]

-- Writing one pair keeps the bytes a list of members, with that pair at its end.
pub write-Holds :
    (json : Json) (head : Bytes) (drained : List Bytes) (ws : Pairs) (k : Text) (e : Entry)
    (c : Capture)
    → Holds json head drained ws c
    → Holds json head drained (ws ++ (k, e) ∷ []) (write json k e c)
unfolding write
write-Holds json head drained ws k e c h = append-Holds json head drained ws k e (roll c) (
  λ intact. rw (output-roll drained c, (roll-same c).1) (h.0 (rw (roll-same c).0 at intact)),
  λ broken. h.1 (rw (roll-same c).0 at broken),
)
