-- ===== src/Db/Stream/Tests.antt =====
-- Runs of src/db.rs, `Stream`: what trimming leaves.
use postino.Prelude.{ℕ, ◌≡◌, ◌≤◌, ◌+◌, ◌++◌, none, [], ◌∷◌, length, take, if◌then◌else◌, arith}
use postino.Prelude.Order.{key_lt}
use postino.Prelude.Map.{get, IsSorted}
use postino.Id.{EntryId, id_order, zero_id}
use postino.Db.Stream.{Stream, trim_to, trim_before}
use postino.Db.Stream.Trim.{newest, trim_to-keeps_newest, trim_before-keeps_later}

abbrev at : ℕ → EntryId
at n = record { ms = n; seq = 0 }

abbrev three : Stream
three = record {
  entries = (at 1, []) ∷ (at 2, []) ∷ (at 5, []) ∷ [];
  last_id = at 5;
  added = 4;
  max_deleted = zero_id;
  groups = [];
}

three-IsSorted : IsSorted three.entries
three-IsSorted = ground arith

trim_to-keeps_newest_example :
    ((trim_to 1 three).1 + length (trim_to 1 three).0.entries ≡ length three.entries)
    × (length (trim_to 1 three).0.entries ≤ 1)
    × (take (trim_to 1 three).1 three.entries ++ (trim_to 1 three).0.entries ≡ three.entries)
    × ((trim_to 1 three).0.max_deleted
        ≡ newest three.max_deleted (take (trim_to 1 three).1 three.entries))
    × ((trim_to 1 three).0.last_id ≡ three.last_id)
trim_to-keeps_newest_example = trim_to-keeps_newest 1 three

trim_before-keeps_later_example :
    ((id : EntryId)
      → get id (trim_before (at 3) three).0.entries
        ≡ (if key_lt id (at 3) then none else get id three.entries))
    × ((trim_before (at 3) three).1 + length (trim_before (at 3) three).0.entries
        ≡ length three.entries)
    × ((trim_before (at 3) three).0.max_deleted
        ≡ newest three.max_deleted (take (trim_before (at 3) three).1 three.entries))
trim_before-keeps_later_example = trim_before-keeps_later (at 3) three three-IsSorted
