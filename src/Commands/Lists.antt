-- ===== src/Commands/Lists.antt =====
-- src/commands.rs: LPUSH, LPOP, LLEN, LRANGE, LINDEX, LREM and LTRIM, and the same from the right.
pub mod Refusals
pub mod Laws
use Prim.Native.Nat.{zero, suc}
use postino.Prelude.{
  ℕ, ◌+◌, ◌-◌, Bool, true, false, not, ◌&&◌, ◌||◌, Option, none, some, List, [], ◌∷◌, ◌++◌, length,
  ltb, leb, ◌==◌, drop, take, if◌then◌else◌, is_some_and, get_elem?,
}
use postino.Prelude.Order.{key_eq, text_order}
use postino.Prelude.Search.{starts_with, ends_with}
use postino.Prelude.Text.{Text, Result, ok, err, codes, u64_size}
use postino.Prelude.Int.{ℤ, pos, negsuc, ◌+ℤ◌, ltb_ℤ, leb_ℤ, above, below}
use postino.Db.Captures.{Json}
use postino.Commands.Args.{int, count, range_bounds}
use postino.Commands.Reply.{
  bulk_list, Reply, replies, bulk, nil, array, bulks, ok_reply, int_reply, collect_within,
}
use postino.Commands.Exec.{
  Ctx, Method, pure, lift, ◌>>=◌, ◌>>◌, either, demand, wrong_args, arg, arity, exactly, touch,
  room_for,
}
use postino.Commands.Exec.Typed.{list_kind, look, typed_mut, made}
use postino.Commands.Strings.{bulk_or_nil}
use postino.Commands.Hashes.{prune_key, removed_from}

abbrev items_of : Option (List Text) → List Text
items_of none = []
items_of (some l) = l

-- `push_front` or `push_back` of each item in turn.
unfoldable pub push_all : Bool → List Text → List Text → List Text
push_all left [] l = l
push_all left (x ∷ xs) l = push_all left xs (if left then x ∷ l else l ++ x ∷ [])

unfoldable pub pop_back : List Text → Option (Text × List Text)
pop_back [] = none
pop_back (x ∷ xs) = elim (pop_back xs) [ none ↦ some (x, []) | some (y, ys) ↦ some (y, x ∷ ys) ]

abbrev pub pop : Bool → List Text → Option (Text × List Text)
pop true [] = none
pop true (x ∷ xs) = some (x, xs)
pop false l = pop_back l

-- The items popped, at most so many, and what is left.
unfoldable pub pop_loop : Bool → ℕ → List Text → List Text × List Text
unfolding pop_back
pop_loop left zero l = ([], l)
pop_loop left (suc n) l = elim (pop left l) [
  | none ↦ ([], l)
  | some (x, l') ↦ let (xs, rest) = pop_loop left n l' in (x ∷ xs, rest)
]

-- The position that an index means, from the end where it is below 0.
abbrev index_of : ℤ → ℕ → ℤ
index_of index len = if ltb_ℤ index (pos 0) then pos len +ℤ index else index

abbrev item_at : List Text → ℤ → Option Text
item_at l (pos i) = get_elem? l i
item_at l (negsuc n) = none

-- The loops of LREM, from the front and from the back: what is left, and how many were removed.
unfoldable pub rem_front : ℕ → Text → List Text → List Text × ℕ
rem_front max value [] = ([], 0)
rem_front zero value (x ∷ xs) = (x ∷ xs, 0)
rem_front (suc m) value (x ∷ xs) = elim (key_eq x value) [
  | true ↦ let (l, n) = rem_front m value xs in (l, n + 1)
  | false ↦ let (l, n) = rem_front (suc m) value xs in (x ∷ l, n)
]

unfoldable pub rem_back : ℕ → Text → List Text → List Text × ℕ
rem_back max value [] = ([], 0)
rem_back max value (x ∷ xs) =
    let (l, n) = rem_back max value xs in
    if ltb n max && key_eq x value then (l, n + 1) else (x ∷ l, n)

unfoldable pub lrem_items : ℤ → Text → List Text → List Text × ℕ
unfolding rem_front rem_back
lrem_items (pos zero) value l = rem_front (u64_size - 1) value l
lrem_items (pos (suc n)) value l = rem_front (suc n) value l
lrem_items (negsuc n) value l = rem_back (suc n) value l

-- What LTRIM leaves.
unfoldable pub ltrim_items : ℤ → ℤ → List Text → List Text
unfolding range_bounds
ltrim_items start stop l = elim (range_bounds start stop (length l)) [
  | none ↦ []
  | some (a, b) ↦ drop a (take (b + 1) l)
]

-- What LRANGE reads.
unfoldable pub lrange_items : ℤ → ℤ → List Text → List Text
unfolding range_bounds
lrange_items start stop l = elim (range_bounds start stop (length l)) [
  | none ↦ []
  | some (a, b) ↦ take (b + 1 - a) (drop a l)
]

-- How many items LPOP is asked for.
abbrev wanted_of : Option Text → Result (Option ℕ)
wanted_of none = ok none
wanted_of (some c) = elim (count c) [ ok n ↦ ok (some n) | err e ↦ err e ]

abbrev popped_reply : Option ℕ → List Text → Reply
popped_reply (some _) xs = bulks xs
popped_reply none xs = elim (pop_back xs) [ none ↦ nil | some (x, _) ↦ bulk x ]

module _ (json : Json) (ctx : Ctx) (argv : List Text) where
  -- `LPUSH`, `RPUSH`, `LPUSHX` and `RPUSHX`
  unfoldable pub lpush : Text → Method Reply
  unfolding arity look room_for made push_all touch starts_with ends_with pure ◌>>=◌
  lpush name = do
    arity argv 3
    let items = drop 2 argv
    let left = starts_with (codes "L") name
    current ← look list_kind ctx (arg argv 1)
    if ends_with (codes "X") name && not (is_some_and current (λ _. true))
        then pure (int_reply 0)
        else (do
          room_for ctx (length (items_of current)) (length items)
          len ←
              made list_kind ctx (arg argv 1) json
                λ l. (push_all left items l, length (push_all left items l))
          touch ctx (arg argv 1) (codes (if left then "lpush" else "rpush"))
          pure (int_reply len))

  -- `LPOP` and `RPOP`
  unfoldable pub lpop : Text → Method Reply
  unfolding demand lift count typed_mut pop_loop either prune_key touch pure pop_back ◌>>=◌
  lpop name = do
    demand (leb 2 (length argv) && leb (length argv) 3) (wrong_args name)
    wanted ← lift (wanted_of (get_elem? argv 2))
    let left = key_eq name (codes "LPOP")
    popped ←
        typed_mut list_kind ctx (arg argv 1) json false λ l.
          let (xs, rest) = pop_loop left (elim wanted [ none ↦ 1 | some n ↦ n ]) l in (rest, xs)
    either popped (pure nil) λ xs. do
      prune_key json ctx (arg argv 1)
      if ltb 0 (length xs)
          then touch ctx (arg argv 1) (codes (if left then "lpop" else "rpop"))
          else pure tt
      pure (popped_reply wanted xs)

  unfoldable pub llen : Method Reply
  unfolding exactly look pure ◌>>=◌
  llen = do
    exactly argv 2
    held ← look list_kind ctx (arg argv 1)
    pure (int_reply (length (items_of held)))

  unfoldable pub lrange : Method Reply
  unfolding exactly lift int look lrange_items collect_within ◌>>=◌
  lrange = do
    exactly argv 4
    start ← lift (int (arg argv 2))
    stop ← lift (int (arg argv 3))
    held ← look list_kind ctx (arg argv 1)
    lift (collect_within (bulk_list (lrange_items start stop (items_of held))))

  unfoldable pub lindex : Method Reply
  unfolding exactly lift int look pure ◌>>=◌
  lindex = do
    exactly argv 3
    index ← lift (int (arg argv 2))
    held ← look list_kind ctx (arg argv 1)
    pure (bulk_or_nil (item_at (items_of held) (index_of index (length (items_of held)))))

  unfoldable pub lrem : Method Reply
  unfolding exactly lift int typed_mut lrem_items either removed_from pure ◌>>=◌
  lrem = do
    exactly argv 4
    limit ← lift (int (arg argv 2))
    removed ← typed_mut list_kind ctx (arg argv 1) json false (lrem_items limit (arg argv 3))
    either removed (pure (int_reply 0)) λ n. removed_from json ctx (arg argv 1) (codes "lrem") n

  unfoldable pub ltrim : Method Reply
  unfolding exactly lift int typed_mut ltrim_items either prune_key touch pure ◌>>=◌
  ltrim = do
    exactly argv 4
    start ← lift (int (arg argv 2))
    stop ← lift (int (arg argv 3))
    changed ←
        typed_mut list_kind ctx (arg argv 1) json false
          λ l. (ltrim_items start stop l, not (length (ltrim_items start stop l) == length l))
    either changed (pure ok_reply) λ changed. do
      prune_key json ctx (arg argv 1)
      if changed then touch ctx (arg argv 1) (codes "ltrim") else pure tt
      pure ok_reply
