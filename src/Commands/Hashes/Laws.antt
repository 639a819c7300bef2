-- ===== src/Commands/Hashes/Laws.antt =====
-- How many fields HSET and HDEL say they have added and removed.
use postino.Prelude.{◌+◌, ◌≡◌, List, [], ◌∷◌, length, arith}
use postino.Prelude.Order.{text_order}
use postino.Prelude.Map.{insert, remove, IsSorted, insert-IsSorted, remove-IsSorted}
use postino.Prelude.Map.Length.{length-insert, length-remove}
use postino.Prelude.Text.{Text}
use postino.Commands.Hashes.{Hash, insert_all, remove_all}

-- HSET answers how many fields are new: by so many the hash is larger.
pub length-insert_all :
    (ps : List (Text × Text)) (h : Hash)
    → IsSorted h
    → length (insert_all ps h).0 ≡ length h + (insert_all ps h).1
unfolding insert_all
length-insert_all [] h s = omega arith
length-insert_all ((f, v) ∷ ps) h s =
    let rest = length-insert_all ps (insert f v h) (insert-IsSorted f v h s) in
    omega (arith, rest, length-insert f v h s)

-- HDEL answers how many fields are gone: by so many the hash is smaller.
pub length-remove_all :
    (fs : List Text) (h : Hash)
    → IsSorted h
    → length (remove_all fs h).0 + (remove_all fs h).1 ≡ length h
unfolding remove_all
length-remove_all [] h s = omega arith
length-remove_all (f ∷ fs) h s =
    let rest = length-remove_all fs (remove f h) (remove-IsSorted f h s) in
    omega (arith, rest, length-remove f h s)
