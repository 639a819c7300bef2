-- ===== src/Db/Stream/Trim.antt =====
-- What trimming a stream leaves: src/db.rs, `Stream::trim_to` and `Stream::trim_before`.
use postino.Prelude.{
  ℕ, zero, suc, ◌-◌, ◌+◌, ◌≤◌, ◌≡◌, refl, [], ◌∷◌, ◌++◌, arith, if◌then◌else◌, length, drop, take,
  none, length-drop, take-append-drop,
}
use postino.Prelude.Order.{key_lt}
use postino.Prelude.Map.{Map, IsSorted, get, get-Above, Above-trans}
use postino.Id.{EntryId, id_order}
use postino.Db.Stream.{
  Stream, Fields, max_of, popped, pop_times, drop_oldest, trim_to, trim_before, count_before,
}

-- The newest id that was deleted, over a run of deleted entries.
unfoldable pub newest : EntryId → Map EntryId Fields → EntryId
newest d [] = d
newest d ((id, _) ∷ m) = newest (max_of d id) m

abbrev trimmed : ℕ → Map EntryId Fields → Stream → Stream
trimmed n es s = record s { entries = drop n es; max_deleted = newest s.max_deleted (take n es) }

pop_times-nil : (n : ℕ) (s : Stream) → s.entries ≡ [] → pop_times n s ≡ s
unfolding pop_times popped
pop_times-nil zero s e = refl
pop_times-nil (suc n) s e = ground (arith, pop_times-nil n s e)

pop_times-eq :
    (n : ℕ) (s : Stream) (es : Map EntryId Fields) → s.entries ≡ es → pop_times n s ≡ trimmed n es s
unfolding pop_times popped newest
pop_times-eq zero s es e = ground arith
pop_times-eq (suc n) s [] e = ground (arith, pop_times-nil n s e)
pop_times-eq (suc n) s ((id, f) ∷ es) e =
    rw (e, popped)
      (pop_times-eq n (record s { entries = es; max_deleted = max_of s.max_deleted id }) es refl)

get-drop_before :
    (min id : EntryId) (m : Map EntryId Fields)
    → IsSorted m
    → get id (drop (count_before min m) m) ≡ (if key_lt id min then none else get id m)
unfolding get count_before
get-drop_before min id [] s = ground arith
get-drop_before min id ((j, f) ∷ m) s =
    ground (arith, get-drop_before min id m s.1, Above-trans id j m, get-Above id m)

count_before-le : (min : EntryId) (m : Map EntryId Fields) → count_before min m ≤ length m
unfolding count_before
count_before-le min [] = omega arith
count_before-le min ((j, f) ∷ m) = ground (arith, count_before-le min m)

-- Trimming to `keep` drops as many of the first entries as it answers and leaves the others, which are
-- at most `keep`; the largest deleted id moves up to that of what went, and the last id stays.
pub trim_to-keeps_newest :
    (keep : ℕ) (s : Stream)
    → ((trim_to keep s).1 + length (trim_to keep s).0.entries ≡ length s.entries)
      × (length (trim_to keep s).0.entries ≤ keep)
      × (take (trim_to keep s).1 s.entries ++ (trim_to keep s).0.entries ≡ s.entries)
      × ((trim_to keep s).0.max_deleted ≡ newest s.max_deleted (take (trim_to keep s).1 s.entries))
      × ((trim_to keep s).0.last_id ≡ s.last_id)
unfolding trim_to drop_oldest
trim_to-keeps_newest keep s = rw (pop_times-eq (length s.entries - keep) s s.entries refl) (
  omega (arith, length-drop {0} (length s.entries - keep) s.entries),
  omega (arith, length-drop {0} (length s.entries - keep) s.entries),
  take-append-drop (length s.entries - keep) s.entries,
  refl,
  refl,
)

-- Where the entries are in the order of their ids, trimming before `min` keeps exactly those from
-- `min` on, each as it was, answers how many went, and moves the largest deleted id up to theirs.
pub trim_before-keeps_later :
    (min : EntryId) (s : Stream)
    → IsSorted s.entries
    → ((id : EntryId)
        → get id (trim_before min s).0.entries ≡ (if key_lt id min then none else get id s.entries))
      × ((trim_before min s).1 + length (trim_before min s).0.entries ≡ length s.entries)
      × ((trim_before min s).0.max_deleted
          ≡ newest s.max_deleted (take (trim_before min s).1 s.entries))
unfolding trim_before drop_oldest
trim_before-keeps_later min s v = rw (pop_times-eq (count_before min s.entries) s s.entries refl) (
  λ id. get-drop_before min id s.entries v,
  omega (
    arith,
    length-drop {0} (count_before min s.entries) s.entries,
    count_before-le min s.entries,
  ),
  refl,
)
