-- ===== src/Commands/Strings/Counting.antt =====
-- What INCR and its kin answer, and what can be read after.
use postino.Prelude.{
  ◌≡◌, refl, ap, ◌∙◌, true, false, some, [], ◌∷◌, arith, if◌then◌else◌, Option-cases, inl, inr,
}
use postino.Prelude.Order.{text_order, key_eq}
use postino.Prelude.Map.{get, insert}
use postino.Prelude.Text.{Text, ok}
use postino.Prelude.Int.{ℤ, ◌+ℤ◌, fits, checked, int_text}
use postino.Prelude.Int.Decimal.{parse_i64-int_text}
use postino.Db.{read}
use postino.Db.Value.{Entry, string, expired}
use postino.Db.Captures.{Json}
use postino.Db.Reads.{put-keys, alive}
use postino.Scope.{sorted, put_in_order}
use postino.Commands.Args.{int}
use postino.Commands.Reply.{Reply}
use postino.Commands.Exec.{
  Exec, Ctx, admits_all, admit_all, admit, demand, dedup, raise, pure, gets, lift, change, either,
  touch, modify, ◌>>=◌,
}
use postino.Commands.Exec.Typed.{look, typed_ref, require}
use postino.Commands.Strings.{incr, write_string_keep_ttl}
use postino.Commands.Strings.Laws.{insert-read}

int-int_text : (z : ℤ) → fits z ≡ true → int (int_text z) ≡ ok z
unfolding int
int-int_text z h = rw (int, parse_i64-int_text z h) refl

module _ (json : Json) (ctx : Ctx) (key : Text) (x : Exec) (e : Entry)
    (there : read key ctx.now x.db ≡ some e) where
  -- A key that is there needs no room.
  admits-there : admits_all ctx (key ∷ []) x.db ≡ true
  unfolding admits_all read sorted put_in_order dedup
  admits-there = elim (Option-cases (get key x.db.keys)) [
    | inl absent ↦ absurd (ground (arith, there, absent))
    | inr (_, held) ↦ ground (arith, held)
  ]

  -- It is alive.
  alive-there : expired e ctx.now ≡ false
  unfolding read
  alive-there = ground (arith, there)

  abbrev pub written : Text → Entry
  written value = record { value = string value; expires = e.expires }

  written-alive : (value : Text) → alive ctx.now (some (written value)) ≡ some (written value)
  unfolding expired
  written-alive value = ground (arith, alive-there)

  write-done :
      (value : Text)
      → ((write_string_keep_ttl json ctx key value x).0 ≡ ok tt)
        × ((write_string_keep_ttl json ctx key value x).1.db.keys
            ≡ insert key (written value) x.db.keys)
  unfolding write_string_keep_ttl gets admit admit_all demand raise pure change ◌>>=◌
  write-done value = (
    ground (arith, there, admits-there),
    ground (arith, there, admits-there, put-keys json key (written value) x.db),
  )

  module _ (z by next : ℤ) (small : fits z ≡ true) (number : e.value ≡ string (int_text z))
      (sum : checked (z +ℤ by) ≡ some next) where
    incr-done :
        ((incr json ctx key by x).0 ≡ ok (Reply.int next))
        × ((incr json ctx key by x).1.db.keys ≡ insert key (written (int_text next)) x.db.keys)
    unfolding incr look typed_ref lift require either raise pure touch modify ◌>>=◌
    incr-done =
        let parsed = int-int_text z small in
        let (done, keys) = write-done (int_text next) in
        (
          ground (arith, there, number, parsed, sum, done),
          ground (arith, there, number, parsed, sum, done, keys),
        )

    -- Where a key holds the text of an integer and the sum is one of 64 bits, counting answers the sum. The
    -- key then reads as its text, with the time of expiry that it had, and every other key as before.
    pub incr-read :
        ((incr json ctx key by x).0 ≡ ok (Reply.int next))
        × ((j : Text)
            → read j ctx.now (incr json ctx key by x).1.db ≡ (
                if key_eq j key
                then some (record { value = string (int_text next); expires = e.expires })
                else read j ctx.now x.db))
    incr-read =
        let (answer, keys) = incr-done in
        (
          answer,
          λ j.
              insert-read json ctx key (written (int_text next)) j x.db
                (incr json ctx key by x).1.db keys
              ∙ ap (λ o. if key_eq j key then o else read j ctx.now x.db)
                  (written-alive (int_text next)),
        )
