-- ===== src/Schedule/Dates/RoundTrip.antt =====
-- Printing and parsing blackout dates.
use native.Mathlib.Nat.{mul-le-mul_right, pow-suc, pow-le-pow_right}
use nimblefix.Common.{
  ℕ, zero, suc, ◌+◌, ◌-◌, ◌*◌, ◌/◌, ◌%◌, ◌^◌, ◌≤◌, ◌<◌, ◌≡◌, refl, ap, Bool-cases, inl, inr, arith,
  Bool, true, ◌&&◌, Option, none, some, List, [], ◌∷◌, ◌==◌, take, length, get_or,
}
use nimblefix.Status.{ok}
use nimblefix.Schedule.Dates.{
  validate_date_parts, year_of, month_of, day_of, parse_from, substr, parse_digits, date_from,
  parse_blackout_date, decimal, padded, blackout_date_to_string,
}

two_digits : (n : ℕ) → n < 100 → padded 2 (decimal 10 n) ≡ (48 + n / 10) ∷ (48 + n % 10) ∷ []
unfolding padded decimal
two_digits n h = ground arith

four_digits :
    (n : ℕ)
    → n < 10000
    → padded 4 (decimal 10 n)
      ≡ (48 + n / 1000) ∷ (48 + n / 100 % 10) ∷ (48 + n / 10 % 10) ∷ (48 + n % 10) ∷ []
unfolding padded decimal
four_digits n h = ground arith

parse-two_digits : (n : ℕ) → n < 100 → parse_digits ((48 + n / 10) ∷ (48 + n % 10) ∷ []) ≡ some n
unfolding parse_digits parse_from
parse-two_digits n h = ground arith

parse-four_digits :
    (n : ℕ)
    → n < 10000
    → parse_digits ((48 + n / 1000) ∷ (48 + n / 100 % 10) ∷ (48 + n / 10 % 10) ∷ (48 + n % 10) ∷ [])
      ≡ some n
unfolding parse_digits parse_from
parse-four_digits n h = ground arith

-- What is read back from a valid date.
date_from-parts :
    (date : ℕ)
    → year_of date < 10000
    → validate_date_parts (year_of date) (month_of date) (day_of date) ≡ true
    → date_from (some (year_of date)) (some (month_of date)) (some (day_of date)) ≡ ok date
unfolding date_from
date_from-parts date h valid = rw valid (ap ok (omega arith))

-- A date with valid parts and a year of at most four digits is read back from its text.
pub parse_blackout_date-to_string :
    (date : ℕ)
    → year_of date < 10000
    → validate_date_parts (year_of date) (month_of date) (day_of date) ≡ true
    → parse_blackout_date (blackout_date_to_string date) ≡ ok date
unfolding parse_blackout_date blackout_date_to_string
parse_blackout_date-to_string date h valid =
    rw
      (
        four_digits (year_of date) h,
        two_digits (month_of date) (omega arith),
        two_digits (day_of date) (omega arith),
        parse-four_digits (year_of date) h,
        parse-two_digits (month_of date) (omega arith),
        parse-two_digits (day_of date) (omega arith),
      )
      (date_from-parts date h valid)

digit_step : (value c : ℕ) → c ≤ 57 → value * 10 + (c - 48) + 1 ≤ (value + 1) * 10
digit_step value c h = omega arith

regroup : (n x y p : ℕ) → n < x * p → x * p ≤ y * 10 * p → n < y * (p * 10)
regroup n x y p h g = omega arith

parse_from-lt :
    (value : ℕ) (text : List ℕ) (n : ℕ)
    → parse_from value text ≡ some n
    → n < (value + 1) * 10 ^ length text
unfolding parse_from
parse_from-lt value [] n h = ground arith
parse_from-lt value (c ∷ text) n h =
    let digit : (parse_from (value * 10 + (c - 48)) text ≡ some n) × (c ≤ 57) = ground arith in
    let rest = parse_from-lt (value * 10 + (c - 48)) text n (digit.0) in
    let scaled = mul-le-mul_right (10 ^ length text) (digit_step value c (digit.1)) in
    rw (pow-suc 10 (length text))
      (regroup n (value * 10 + (c - 48) + 1) (value + 1) (10 ^ length text) rest scaled)

valid_month :
    (year month day : ℕ) → validate_date_parts year month day ≡ true → (month < 13) × (day < 32)
unfolding validate_date_parts
valid_month year month day h = ground arith

-- A date that is read has valid parts, and its year has four digits.
abbrev pub IsDate : ℕ → Type 0
IsDate date =
    (year_of date < 10000)
    × (validate_date_parts (year_of date) (month_of date) (day_of date) ≡ true)

date_from-IsDate :
    (year month day : Option ℕ) (date : ℕ)
    → ((n : ℕ) → year ≡ some n → n < 10000)
    → date_from year month day ≡ ok date
    → IsDate date
unfolding date_from
date_from-IsDate (some year) (some month) (some day) date small h =
    elim (Bool-cases (validate_date_parts year month day)) [
      | inl valid ↦
          let less = small year refl in
          let parts = valid_month year month day valid in
          let same : (year * 10000 + month * 100 + day) % 2 ^ 32 ≡ date = ground arith in
          let e : (year_of date ≡ year) × (month_of date ≡ month) × (day_of date ≡ day) =
            (omega arith, omega arith, omega arith) in
          rw (e.0, e.1, e.2) (less, valid)
      | inr bad ↦ absurd (ground arith)
    ]
date_from-IsDate none month day date small h = absurd (ground arith)
date_from-IsDate (some year) none day date small h = absurd (ground arith)
date_from-IsDate (some year) (some month) none date small h = absurd (ground arith)

parse_digits-lt : (text : List ℕ) (n : ℕ) → length text ≤ 4 → parse_digits text ≡ some n → n < 10000
unfolding parse_digits
parse_digits-lt [] n h e = absurd (ground arith)
parse_digits-lt (c ∷ text) n h e =
    let bound = parse_from-lt 0 (c ∷ text) n e in
    let most = pow-le-pow_right {n = 10} (omega arith) h in ground arith

length-take_le : (n : ℕ) (text : List ℕ) → length (take n text) ≤ n
length-take_le zero text = omega arith
length-take_le (suc n) [] = omega arith
length-take_le (suc n) (c ∷ text) = let rest = length-take_le n text in omega arith

abbrev is_dashed : List ℕ → Bool
is_dashed text = length text == 10 && get_or text 4 0 == 45 && get_or text 7 0 == 45

-- A date that is read from any text has a year of at most four digits, a month of that year and a
-- day of that month.
pub parse_blackout_date-IsDate :
    (text : List ℕ) (date : ℕ) → parse_blackout_date text ≡ ok date → IsDate date
unfolding parse_blackout_date
parse_blackout_date-IsDate text date h =
    let small : (n : ℕ) → parse_digits (take 4 text) ≡ some n → n < 10000 =
      λ n e. parse_digits-lt (take 4 text) n (length-take_le 4 text) e in
    elim (Bool-cases (is_dashed text)) [
      | inl dashed ↦
          date_from-IsDate (parse_digits (take 4 text)) (parse_digits (substr 5 2 text))
            (parse_digits (substr 8 2 text)) date small (ground arith)
      | inr e ↦ elim (Bool-cases (length text == 8)) [
        | inl compact ↦
            date_from-IsDate (parse_digits (take 4 text)) (parse_digits (substr 4 2 text))
              (parse_digits (substr 6 2 text)) date small (ground arith)
        | inr f ↦ absurd (ground arith)
      ]
    ]
