-- ===== src/Db/Value.antt =====
-- src/db.rs, `Value` and `Entry`: what a key holds, and until when.
use postino.Prelude.{ℕ, Bool, true, false, Option, List, [], ◌∷◌, leb, is_some_and, none, length}
use postino.Prelude.Map.{Map}
use postino.Prelude.Text.{Text, codes}
use postino.Db.ZSet.{ZSet}
use postino.Db.Stream.{Stream}

pub data Value : Type 0 where
  string : Text → Value
  list : List Text → Value
  hash : Map Text Text → Value
  set : Map Text (Unit {0}) → Value
  zset : ZSet → Value
  stream : Stream → Value

unfoldable pub type_name : Value → Text
type_name (string _) = codes "string"
type_name (list _) = codes "list"
type_name (hash _) = codes "hash"
type_name (set _) = codes "set"
type_name (zset _) = codes "zset"
type_name (stream _) = codes "stream"

-- What freeing a value costs.
unfoldable pub elements : Value → ℕ
elements (string _) = 1
elements (list l) = length l
elements (hash h) = length h
elements (set s) = length s
elements (zset z) = length z.scores
elements (stream s) = length s.entries

unfoldable pub is_nil {ℓ} : {A : Type ℓ} → List A → Bool
is_nil [] = true
is_nil (_ ∷ _) = false

unfoldable pub is_empty_collection : Value → Bool
unfolding is_nil
is_empty_collection (list l) = is_nil l
is_empty_collection (hash h) = is_nil h
is_empty_collection (set s) = is_nil s
is_empty_collection (zset z) = is_nil z.scores
is_empty_collection (string _) = false
is_empty_collection (stream _) = false

pub record Entry : Type 0 where
  pub value : Value
  pub expires : Option ℕ

-- `Entry::new`
abbrev pub lasting : Value → Entry
lasting value = record { value = value; expires = none }

unfoldable pub expired : Entry → ℕ → Bool
expired e now = is_some_and e.expires λ at. leb at now
