-- ===== src/Util/Checks.antt =====
-- src/util.rs: the names and keys that clients may use, and times as text. A time is a count of
-- milliseconds since the epoch, so that no number here is negative and `div_euclid` is division.
use postino.Prelude.{
  ℕ, ◌+◌, ◌-◌, ◌*◌, ◌/◌, ◌%◌, Bool, false, ◌&&◌, ◌||◌, [], ◌∷◌, ◌++◌, length, ltb, leb, ◌==◌,
  if◌then◌else◌, all, replicate,
}
use postino.Prelude.Text.{Text, to_text}

-- `is_ascii_alphanumeric`
unfoldable pub alphanumeric : ℕ → Bool
alphanumeric c =
    (leb b'0' c && leb c b'9') || (leb b'A' c && leb c b'Z') || (leb b'a' c && leb c b'z')

unfoldable pub name_char : ℕ → Bool
unfolding alphanumeric
name_char c = alphanumeric c || (c == b'-') || (c == b'_') || (c == b'.')

-- Of a text with a character beyond ASCII the length is counted in characters here; such a text is
-- refused either way.
unfoldable pub valid_name : Text → Bool
unfolding name_char
valid_name [] = false
valid_name (c ∷ name) = leb (length (c ∷ name)) 64 && alphanumeric c && all name_char (c ∷ name)

-- `is_ascii_graphic`
unfoldable pub graphic : ℕ → Bool
graphic c = leb b'!' c && leb c b'~'

unfoldable pub valid_key : Text → Bool
unfolding graphic
valid_key [] = false
valid_key (c ∷ key) = leb (length (c ∷ key)) 128 && all graphic (c ∷ key)

-- The year from March on that a day of an era is in, and the day of that year.
unfoldable pub year_of_era : ℕ → ℕ
year_of_era doe = (doe - doe / 1460 + doe / 36524 - doe / 146096) / 365

unfoldable pub day_of_year : ℕ → ℕ
unfolding year_of_era
day_of_year doe = let yoe = year_of_era doe in doe - (365 * yoe + yoe / 4 - yoe / 100)

-- The month from March on.
unfoldable pub month_index : ℕ → ℕ
month_index doy = (5 * doy + 2) / 153

unfoldable pub civil_from_days : ℕ → ℕ × ℕ × ℕ
unfolding year_of_era day_of_year month_index
civil_from_days days =
    let z = days + 719468 in
    let doe = z % 146097 in
    let doy = day_of_year doe in
    let mp = month_index doy in
    let month = if ltb mp 10 then mp + 3 else mp - 9 in
    (
      year_of_era doe + z / 146097 * 400 + (if leb month 2 then 1 else 0),
      month,
      doy - (153 * mp + 2) / 5 + 1,
    )

-- `{n:0width}`
unfoldable pub padded : ℕ → ℕ → Text
padded width n = let text = to_text n in replicate (width - length text) b'0' ++ text

unfoldable pub iso8601 : ℕ → Text
unfolding civil_from_days padded
iso8601 ms =
    let secs = ms / 1000 in
    let (year, month, day) = civil_from_days (secs / 86400) in
    let rem = secs % 86400 in
    padded 4 year
    ++ b'-' ∷ padded 2 month
    ++ b'-' ∷ padded 2 day
    ++ b'T' ∷ padded 2 (rem / 3600)
    ++ b':' ∷ padded 2 (rem % 3600 / 60)
    ++ b':' ∷ padded 2 (rem % 60)
    ++ b'.' ∷ padded 3 (ms % 1000)
    ++ b'Z' ∷ []
