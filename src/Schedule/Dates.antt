-- ===== src/Schedule/Dates.antt =====
-- Blackout dates as numbers and as texts: `ParseBlackoutDate` and `BlackoutDateToString` of
-- src/runtime/session_schedule.cpp. A text is the list of its character codes.
pub mod RoundTrip
use nimblefix.Common.{
  ℕ, zero, suc, ◌+◌, ◌-◌, ◌*◌, ◌/◌, ◌%◌, ◌^◌, ◌≤◌, Bool, true, false, not, ◌&&◌, ◌||◌, Option, none,
  some, List, [], ◌∷◌, ◌++◌, ◌==◌, ltb, leb, if◌then◌else◌, take, drop, length, get_or,
}
use nimblefix.Status.{Result, ok, err, invalid_argument}

unfoldable pub is_leap_year : ℕ → Bool
is_leap_year year = ((year % 4 == 0) && not (year % 100 == 0)) || (year % 400 == 0)

-- `kDaysByMonth`.
abbrev pub days_by_month : List ℕ
days_by_month = 31 ∷ 28 ∷ 31 ∷ 30 ∷ 31 ∷ 30 ∷ 31 ∷ 31 ∷ 30 ∷ 31 ∷ 30 ∷ 31 ∷ []

unfoldable pub days_in_month : ℕ → ℕ → ℕ
unfolding is_leap_year
days_in_month year month =
    if month == 0 || ltb 12 month
    then 0
    else if month == 2 && is_leap_year year
    then 29
    else get_or days_by_month (month - 1) 0

unfoldable pub validate_date_parts : ℕ → ℕ → ℕ → Bool
unfolding days_in_month
validate_date_parts year month day =
    if month == 0 || ltb 12 month || day == 0 || ltb 31 day
    then false
    else leb day (days_in_month year month)

-- `DateParts`.
abbrev pub year_of : ℕ → ℕ
year_of date = date / 10000

abbrev pub month_of : ℕ → ℕ
month_of date = (date / 100) % 100

abbrev pub day_of : ℕ → ℕ
day_of date = date % 100

-- `std::from_chars` on digits, after the value `value`, within 32 bits; none unless it ends at the
-- end of the text.
unfoldable pub parse_from : ℕ → List ℕ → Option ℕ
parse_from value [] = some value
parse_from value (c ∷ text) =
    let rest = parse_from (value * 10 + (c - 48)) text in
    if leb 48 c && leb c 57 && ltb (value * 10 + (c - 48)) (2 ^ 32) then rest else none

unfoldable pub parse_digits : List ℕ → Option ℕ
unfolding parse_from
parse_digits [] = none
parse_digits (c ∷ text) = parse_from 0 (c ∷ text)

-- The end of `ParseBlackoutDate`: the three numbers, if all were read.
unfoldable pub date_from : Option ℕ → Option ℕ → Option ℕ → Result ℕ
unfolding validate_date_parts
date_from (some year) (some month) (some day) =
    if validate_date_parts year month day
    then ok ((year * 10000 + month * 100 + day) % 2 ^ 32)
    else err invalid_argument
date_from _ _ _ = err invalid_argument

-- `text.substr(first, count)`.
abbrev pub substr : ℕ → ℕ → List ℕ → List ℕ
substr first count text = take count (drop first text)

unfoldable pub parse_blackout_date : List ℕ → Result ℕ
unfolding parse_digits date_from
parse_blackout_date text =
    if length text == 10 && get_or text 4 0 == 45 && get_or text 7 0 == 45
    then date_from (parse_digits (substr 0 4 text)) (parse_digits (substr 5 2 text))
        (parse_digits (substr 8 2 text))
    else if length text == 8
    then date_from (parse_digits (substr 0 4 text)) (parse_digits (substr 4 2 text))
        (parse_digits (substr 6 2 text))
    else err invalid_argument

-- `out << n`: the decimal digits of a 32-bit number, at most ten.
unfoldable pub decimal : ℕ → ℕ → List ℕ
decimal zero n = []
decimal (suc fuel) n =
    let shorter = decimal fuel (n / 10) in
    if ltb n 10 then (48 + n) ∷ [] else shorter ++ ((48 + n % 10) ∷ [])

abbrev pub zeros : ℕ → List ℕ
zeros zero = []
zeros (suc n) = 48 ∷ zeros n

-- `std::setfill('0') << std::setw(width)`.
unfoldable pub padded : ℕ → List ℕ → List ℕ
padded width text = zeros (width - length text) ++ text

unfoldable pub blackout_date_to_string : ℕ → List ℕ
unfolding decimal padded
blackout_date_to_string date =
    padded 4 (decimal 10 (year_of date))
    ++ (45 ∷ padded 2 (decimal 10 (month_of date)) ++ (45 ∷ padded 2 (decimal 10 (day_of date))))
