-- ===== src/Commands/Reply.antt =====
-- src/commands.rs, `Reply` and `Outcome`: what a command answers, how large that may be, and what of
-- it goes into the journal.
pub mod Limits
use postino.Prelude.{
  ℕ, ◌+◌, ◌-◌, ◌*◌, ◌/◌, ◌%◌, ◌^◌, Bool, true, false, not, ◌&&◌, ◌||◌, Option, none, some, List, [],
  ◌∷◌, ◌++◌, length, ltb, leb, if◌then◌else◌,
}
use postino.Prelude.Text.{Text, Result, ok, err, codes, utf8_len}
use postino.Prelude.Results.{◌>>=◌, ◌>>◌}
use postino.Prelude.Int.{ℤ, pos, i64_limit}

mutual
  pub data Reply : Type 0 where
    simple bulk error : Text → Reply
    int : ℤ → Reply
    nil : Reply
    array : Replies → Reply
    map : Fields → Reply

  -- `Vec<Reply>`
  pub data Replies : Type 0 where
    end : Replies
    more : Reply → Replies → Replies

  -- `Vec<(String, Reply)>`
  pub data Fields : Type 0 where
    no_fields : Fields
    field : Text → Reply → Fields → Fields

abbrev pub ok_reply : Reply
ok_reply = simple (codes "OK")

-- About how many bytes a reply takes.
unfoldable mutual
  unfolding utf8_len

  pub size : Reply → ℕ
  size (simple s) = utf8_len s + 4
  size (bulk s) = utf8_len s + 4
  size (error s) = utf8_len s + 4
  size (int n) = 8
  size nil = 4
  size (array items) = sizes items + 2
  size (map pairs) = field_sizes pairs + 2

  pub sizes : Replies → ℕ
  sizes end = 0
  sizes (more r rs) = size r + sizes rs

  pub field_sizes : Fields → ℕ
  field_sizes no_fields = 0
  field_sizes (field k v rest) = utf8_len k + 4 + size v + field_sizes rest

abbrev pub replies : List Reply → Replies
replies [] = end
replies (r ∷ rs) = more r (replies rs)

-- `texts.map(Reply::Bulk)`
abbrev pub bulk_list : List Text → List Reply
bulk_list [] = []
bulk_list (t ∷ ts) = bulk t ∷ bulk_list ts

abbrev texts : List Text → Replies
texts [] = end
texts (t ∷ ts) = more (bulk t) (texts ts)

unfoldable pub bulks : List Text → Reply
bulks items = array (texts items)

-- `Reply::int`, of a number that an `i64` holds or its largest value.
abbrev pub int_reply : ℕ → Reply
int_reply n = int (pos (if ltb n i64_limit then n else i64_limit - 1))

abbrev pub bool_reply : Bool → Reply
bool_reply b = int (pos (if b then 1 else 0))

unfoldable pub is_error : Reply → Bool
is_error (error _) = true
is_error _ = false

abbrev pub max_reply_bytes : ℕ
max_reply_bytes = 64 * 2 ^ 20

abbrev pub too_large : Text
too_large =
    codes "ERR the reply would exceed 64 MiB; read less at a time, with a range, COUNT, or SCAN"

unfoldable pub within_reply : ℕ → Result (Unit {0})
within_reply bytes = if ltb max_reply_bytes bytes then err too_large else ok tt

-- The loop of `collect_within`.
unfoldable pub collect_loop : ℕ → List Reply → Result Replies
unfolding within_reply size
collect_loop bytes [] = ok end
collect_loop bytes (item ∷ items) = do
  within_reply (bytes + size item)
  rest ← collect_loop (bytes + size item) items
  ok (more item rest)

unfoldable pub collect_within : List Reply → Result Reply
unfolding collect_loop
collect_within items = do rs ← collect_loop 0 items; ok (array rs)

pub record Block : Type 0 where
  pub retry : List Text
  pub timeout_ms : ℕ

pub record Outcome : Type 0 where
  pub reply : Reply
  pub dirty : Bool
  pub propagate : Option (List (List Text))
  pub events : List (Text × Text)
  pub block : Option Block

unfoldable pub outcome_of : Reply → Outcome
outcome_of reply = record {
  reply = reply;
  dirty = false;
  propagate = none;
  events = [];
  block = none;
}

-- `Outcome::journal`
unfoldable pub journal : List Text → Outcome → List (List Text)
unfolding is_error
journal argv o =
    if not o.dirty || is_error o.reply
    then []
    else elim o.propagate [ some commands ↦ commands | none ↦ argv ∷ [] ]
