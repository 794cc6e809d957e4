-- ===== src/Admin/Validate/Time.antt =====
-- Times of the wire: `ParseFixUtcTimestampNs` and the tolerance of SendingTime(52). A text is the
-- list of its character codes.
use nimblefix.Common.{
  ℕ, zero, suc, ◌+◌, ◌-◌, ◌*◌, ◌/◌, ◌%◌, ◌^◌, min, max, Bool, true, false, not, ◌&&◌, ◌||◌, Option,
  none, some, List, [], ◌∷◌, ◌==◌, ltb, leb, if◌then◌else◌, take, drop, length, get_or,
}
use nimblefix.Schedule.Dates.{days_in_month, validate_date_parts}

abbrev pub is_digit : ℕ → Bool
is_digit c = leb 48 c && leb c 57

-- The loop of `ParseDecimal` and that of the fraction, on at most nine digits.
unfoldable pub decimal_from : ℕ → List ℕ → Option ℕ
decimal_from parsed [] = some parsed
decimal_from parsed (c ∷ text) =
    let rest = decimal_from (parsed * 10 + (c - 48)) text in if is_digit c then rest else none

unfoldable pub parse_decimal : List ℕ → ℕ → ℕ → Option ℕ
unfolding decimal_from
parse_decimal text offset width =
    if ltb (length text) (offset + width)
    then none
    else decimal_from 0 (take width (drop offset text))

-- The part after the seconds, in nanoseconds: empty, or a dot and one to nine digits.
unfoldable pub fractional_ns : List ℕ → Option ℕ
unfolding decimal_from
fractional_ns [] = some 0
fractional_ns (c ∷ fractional) =
    if not (c == 46)
    then none
    else if length fractional == 0 || ltb 9 (length fractional)
    then none
    else elim (decimal_from 0 fractional) [
      | none ↦ none
      | some parsed ↦ some (parsed * 10 ^ (9 - length fractional))
    ]

-- The days from 0000-01-01 to the first day of a year, and of a month.
abbrev pub days_before_year : ℕ → ℕ
days_before_year year = 365 * year + (year + 3) / 4 - (year + 99) / 100 + (year + 399) / 400

abbrev pub days_before_month : ℕ → ℕ → ℕ
days_before_month year zero = 0
days_before_month year (suc zero) = 0
days_before_month year (suc (suc m)) = days_before_month year (suc m) + days_in_month year (suc m)

-- The nanoseconds from 1970 to a civil time, as a signed 64-bit count; none when it is negative.
unfoldable pub epoch_ns : ℕ → ℕ → ℕ → ℕ → ℕ → Option ℕ
unfolding days_in_month
epoch_ns year month day second_of_day fraction =
    let days = days_before_year year + days_before_month year month + (day - 1) in
    let ns = (days * 86_400 + second_of_day) * 1_000_000_000 + fraction in
    let origin = 719_528 * 86_400 * 1_000_000_000 in
    if ltb ns origin
    then none
    else if ltb ((ns - origin) % 2 ^ 64) (2 ^ 63)
    then some ((ns - origin) % 2 ^ 64)
    else none

-- The checks on the numbers that were read.
unfoldable pub timestamp_from :
    Option ℕ → Option ℕ → Option ℕ → Option ℕ → Option ℕ → Option ℕ → List ℕ → Option ℕ
unfolding fractional_ns epoch_ns validate_date_parts
timestamp_from (some year) (some month) (some day) (some hour) (some minute) (some second) tail =
    if ltb 23 hour || ltb 59 minute || ltb 60 second then none else elim (fractional_ns tail) [
      | none ↦ none
      | some fraction ↦
          if not (validate_date_parts year month day)
          then none
          else epoch_ns year month day (hour * 3600 + minute * 60 + second) fraction
    ]
timestamp_from _ _ _ _ _ _ tail = none

unfoldable pub parse_fix_utc_timestamp_ns : List ℕ → Option ℕ
unfolding parse_decimal timestamp_from
parse_fix_utc_timestamp_ns text =
    if ltb (length text) 17
      || not (get_or text 8 0 == 45)
      || not (get_or text 11 0 == 58)
      || not (get_or text 14 0 == 58)
    then none
    else timestamp_from (parse_decimal text 0 4) (parse_decimal text 4 2) (parse_decimal text 6 2)
        (parse_decimal text 9 2) (parse_decimal text 12 2) (parse_decimal text 15 2) (drop 17 text)

unfoldable pub sending_time_outside_threshold : List ℕ → ℕ → ℕ → Bool
unfolding parse_fix_utc_timestamp_ns
sending_time_outside_threshold sending_time timestamp_ns threshold_seconds =
    if threshold_seconds == 0 || length sending_time == 0
    then false
    else elim (parse_fix_utc_timestamp_ns sending_time) [
      | none ↦ false
      | some parsed ↦
          ltb (threshold_seconds * 1_000_000_000)
            (max parsed timestamp_ns - min parsed timestamp_ns)
    ]

-- `a > b` on texts.
unfoldable pub is_later : List ℕ → List ℕ → Bool
is_later [] b = false
is_later (x ∷ a) [] = true
is_later (x ∷ a) (y ∷ b) =
    let rest = is_later a b in if ltb y x then true else if ltb x y then false else rest
