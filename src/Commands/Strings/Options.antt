-- ===== src/Commands/Strings/Options.antt =====
-- src/commands.rs: the options of SET and GETEX.
use postino.Prelude.{
  ℕ, Bool, true, false, not, ◌&&◌, ◌||◌, Option, none, some, List, [], ◌∷◌, ◌++◌, if◌then◌else◌,
  is_some_and,
}
use postino.Prelude.Order.{key_eq, text_order}
use postino.Prelude.Text.{Text, Result, ok, err, codes}
use postino.Prelude.Search.{starts_with, ends_with}
use postino.Prelude.Results.{◌>>=◌, ◌>>◌, guard}
use postino.Prelude.Int.{ℤ, pos, leb_ℤ}
use postino.Commands.Names.{upper, among}
use postino.Commands.Args.{int, ok_or, expiry_at}
use postino.Commands.Exec.Typed.{syntax}

pub record SetOptions : Type 0 where
  pub nx : Bool
  pub xx : Bool
  pub get : Bool
  pub keep : Bool
  pub ifeq : Option Text
  pub expires : Option ℕ

abbrev pub no_options : SetOptions
no_options = record {
  nx = false;
  xx = false;
  get = false;
  keep = false;
  ifeq = none;
  expires = none;
}

-- `ERR invalid expire time in '..' command`
abbrev pub invalid_time : Text → Text
invalid_time name = codes "ERR invalid expire time in '" ++ (name ++ codes "' command")

abbrev pub time_words : List Text
time_words = codes "EX" ∷ codes "PX" ∷ codes "EXAT" ∷ codes "PXAT" ∷ []

-- When the amount of time after `word` is over.
unfoldable pub time_at : Text → ℕ → Text → ℤ → Result ℕ
unfolding expiry_at starts_with ends_with
time_at command now word amount =
    let unit = if starts_with (codes "E") word then 1000 else 1 in
    ok_or (expiry_at now amount unit (ends_with (codes "AT") word)) (invalid_time command)

-- An option that is one word.
abbrev pub set_flag : Text → SetOptions → Option SetOptions
set_flag word o =
    if key_eq word (codes "NX")
    then some (record o { nx = true })
    else if key_eq word (codes "XX")
    then some (record o { xx = true })
    else if key_eq word (codes "GET")
    then some (record o { get = true })
    else if key_eq word (codes "KEEPTTL")
    then some (record o { keep = true })
    else none

-- An option with the word after it.
unfoldable pub set_value : ℕ → Text → Text → SetOptions → Result SetOptions
unfolding int time_at
set_value now word value o =
    if among word time_words
    then (do
      n ← int value
      guard (not (leb_ℤ n (pos 0))) (invalid_time (codes "set"))
      at ← time_at (codes "set") now word n
      ok (record o { expires = some at }))
    else if key_eq word (codes "IFEQ")
    then ok (record o { ifeq = some value })
    else err syntax

-- The loop of `set` over the words after the value.
unfoldable pub set_options : ℕ → List Text → SetOptions → Result SetOptions
unfolding set_value upper
set_options now [] o = ok o
set_options now (w ∷ []) o = ok_or (set_flag (upper w) o) syntax
set_options now (w ∷ v ∷ ws) o = elim (set_flag (upper w) o) [
  | some o' ↦ set_options now (v ∷ ws) o'
  | none ↦ elim (set_value now (upper w) v o) [ ok o' ↦ set_options now ws o' | err e ↦ err e ]
]

-- Options that exclude each other.
abbrev pub conflicts : SetOptions → Bool
conflicts o =
    let ifeq = is_some_and o.ifeq λ _. true in
    o.nx && o.xx || o.nx && ifeq || o.xx && ifeq || o.keep && is_some_and o.expires λ _. true

-- Nothing to look at first.
abbrev pub is_plain : SetOptions → Bool
is_plain o = not (o.nx || o.xx || o.get || o.keep || is_some_and o.ifeq λ _. true)

-- The loop of `getex` over the words after the key: the new time, `none` for none.
unfoldable pub getex_options : ℕ → List Text → Option (Option ℕ) → Result (Option (Option ℕ))
unfolding int time_at upper
getex_options now [] o = ok o
getex_options now (w ∷ []) o =
    if key_eq (upper w) (codes "PERSIST") then ok (some none) else err syntax
getex_options now (w ∷ v ∷ ws) o = elim (key_eq (upper w) (codes "PERSIST")) [
  | true ↦ getex_options now (v ∷ ws) (some none)
  | false ↦ elim (int v) [
    | err e ↦ err e
    | ok n ↦
        elim (do
          guard (not (leb_ℤ n (pos 0))) (invalid_time (codes "getex"))
          guard (among (upper w) time_words) syntax
          time_at (codes "getex") now (upper w) n) [
            | ok at ↦ getex_options now ws (some (some at))
            | err e ↦ err e
          ]
  ]
]
