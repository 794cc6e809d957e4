-- ===== src/Schedule/Blackouts.antt =====
-- The blackout calendar is a set of dates in rising order.
use nimblefix.Common.{
  ℕ, suc, ◌<◌, ◌≤◌, ◌≡◌, inl, inr, refl, ◌∙◌, ap, arith, Bool, true, false, not, ◌&&◌, ◌||◌, List,
  [], ◌∷◌, ◌==◌, ltb, if◌then◌else◌, Bool-cases,
}
use nimblefix.Schedule.Calendar.{
  lower_bound, insert_at, erase_at, stands_at, add_date, add_dates, remove_date, clear,
  is_blackout_date, CalendarCall, adds, removes, adds_all, clears, calendar_step, calendar_run,
}

-- The calendar as a set: whether `date` is a blackout date.
abbrev pub is_listed : ℕ → List ℕ → Bool
is_listed date [] = false
is_listed date (d ∷ dates) = d == date || is_listed date dates

-- What a call does to the membership of `date`.
unfoldable pub set_step : ℕ → CalendarCall → Bool → Bool
set_step date (adds added) member = added == date || member
set_step date (removes removed) member = not (removed == date) && member
set_step date (adds_all more) member = is_listed date more || member
set_step date clears member = false

unfoldable pub set_run : ℕ → List CalendarCall → Bool → Bool
set_run date [] member = member
set_run date (call ∷ calls) member = set_run date calls (set_step date call member)

-- Dates in rising order, all after `low`.
unfoldable pub RisesFrom : ℕ → List ℕ → Type 0
RisesFrom low [] = Unit
RisesFrom low (d ∷ dates) = (low ≤ d) × RisesFrom (suc d) dates

add_date_step :
    (x d : ℕ) (dates : List ℕ)
    → add_date x (d ∷ dates)
      ≡ (if ltb d x then d ∷ add_date x dates else if d == x then d ∷ dates else x ∷ d ∷ dates)
unfolding add_date lower_bound stands_at insert_at
add_date_step x d dates = ground arith

remove_date_step :
    (x d : ℕ) (dates : List ℕ)
    → remove_date x (d ∷ dates)
      ≡ (if ltb d x then d ∷ remove_date x dates else if d == x then dates else d ∷ dates)
unfolding remove_date lower_bound stands_at erase_at
remove_date_step x d dates = ground arith

is_blackout_date_step :
    (x d : ℕ) (dates : List ℕ)
    → is_blackout_date x (d ∷ dates) ≡ (if ltb d x then is_blackout_date x dates else d == x)
unfolding is_blackout_date lower_bound stands_at
is_blackout_date_step x d dates = ground arith

RisesFrom-le :
    (low high : ℕ) (dates : List ℕ) → low ≤ high → RisesFrom high dates → RisesFrom low dates
unfolding RisesFrom
RisesFrom-le low high [] h g = tt
RisesFrom-le low high (d ∷ dates) h g = (omega (arith, g.0), g.1)

is_listed-below :
    (low x : ℕ) (dates : List ℕ) → RisesFrom low dates → x < low → is_listed x dates ≡ false
unfolding RisesFrom
is_listed-below low x [] h g = refl
is_listed-below low x (d ∷ dates) h g =
    let first = h.0 in
    let rest = is_listed-below (suc d) x dates (h.1) (omega arith) in ground arith

is_blackout_date-is_listed :
    (low x : ℕ) (dates : List ℕ)
    → RisesFrom low dates
    → is_blackout_date x dates ≡ is_listed x dates
unfolding RisesFrom is_blackout_date lower_bound stands_at
is_blackout_date-is_listed low x [] h = refl
is_blackout_date-is_listed low x (d ∷ dates) h =
    let rest = is_blackout_date-is_listed (suc d) x dates (h.1) in
    is_blackout_date_step x d dates ∙ (elim (Bool-cases (ltb d x)) [
      | inl e ↦ ground arith
      | inr e ↦ ground (arith, is_listed-below (suc d) x dates (h.1))
    ])

-- The dates rise, and `x` is listed as `member` says.
abbrev Lists : ℕ → ℕ → List ℕ → Bool → Type 0
Lists low x dates member = RisesFrom low dates × (is_listed x dates ≡ member)

add_date-Lists :
    (low added x : ℕ) (dates : List ℕ)
    → RisesFrom low dates
    → low ≤ added
    → Lists low x (add_date added dates) (added == x || is_listed x dates)
unfolding RisesFrom add_date lower_bound stands_at insert_at
add_date-Lists low added x [] h g = ((g, tt), refl)
add_date-Lists low added x (d ∷ dates) h g =
    let first = h.0 in
    elim (Bool-cases (ltb d added)) [
      | inl e ↦
          let rest = add_date-Lists (suc d) added x dates (h.1) (ground arith) in
          let listed = rest.1 in rw (add_date_step added d dates, e) ((first, rest.0), ground arith)
      | inr e ↦ elim (Bool-cases (d == added)) [
        | inl f ↦ rw (add_date_step added d dates, e, f) (h, ground arith)
        | inr f ↦ rw (add_date_step added d dates, e, f) ((g, (ground arith, h.1)), refl)
      ]
    ]

remove_date-Lists :
    (low removed x : ℕ) (dates : List ℕ)
    → RisesFrom low dates
    → Lists low x (remove_date removed dates) (not (removed == x) && is_listed x dates)
unfolding RisesFrom remove_date lower_bound stands_at erase_at
remove_date-Lists low removed x [] h = (tt, ground arith)
remove_date-Lists low removed x (d ∷ dates) h =
    let first = h.0 in
    elim (Bool-cases (ltb d removed)) [
      | inl e ↦
          let rest = remove_date-Lists (suc d) removed x dates (h.1) in
          let listed = rest.1 in
          rw (remove_date_step removed d dates, e) ((first, rest.0), ground arith)
      | inr e ↦ elim (Bool-cases (d == removed)) [
        | inl f ↦
            rw (remove_date_step removed d dates, e, f)
              (
                RisesFrom-le low (suc d) dates (omega arith) (h.1),
                ground (arith, is_listed-below (suc d) x dates (h.1)),
              )
        | inr f ↦
            rw (remove_date_step removed d dates, e, f)
              (h, ground (arith, is_listed-below (suc d) x dates (h.1)))
      ]
    ]

swap_or : (a b c : Bool) → (b || (a || c)) ≡ ((a || b) || c)
swap_or true true c = refl
swap_or true false c = refl
swap_or false b c = refl

add_dates-Lists :
    (x : ℕ) (more dates : List ℕ)
    → RisesFrom 0 dates
    → Lists 0 x (add_dates more dates) (is_listed x more || is_listed x dates)
unfolding add_dates
add_dates-Lists x [] dates h = (h, refl)
add_dates-Lists x (added ∷ more) dates h =
    let one = add_date-Lists 0 added x dates h (omega arith) in
    let rest = add_dates-Lists x more (add_date added dates) (one.0) in
    let listed = rest.1 in
    let listed_one = one.1 in
    (rest.0, rw (listed, listed_one) (swap_or (added == x) (is_listed x more) (is_listed x dates)))

calendar_step-Lists :
    (x : ℕ) (call : CalendarCall) (dates : List ℕ)
    → RisesFrom 0 dates
    → Lists 0 x (calendar_step call dates) (set_step x call (is_listed x dates))
unfolding calendar_step set_step clear RisesFrom
calendar_step-Lists x (adds added) dates h = add_date-Lists 0 added x dates h (omega arith)
calendar_step-Lists x (removes removed) dates h = remove_date-Lists 0 removed x dates h
calendar_step-Lists x (adds_all more) dates h = add_dates-Lists x more dates h
calendar_step-Lists x clears dates h = (tt, refl)

calendar_run-Lists :
    (x : ℕ) (calls : List CalendarCall) (dates : List ℕ)
    → RisesFrom 0 dates
    → Lists 0 x (calendar_run calls dates) (set_run x calls (is_listed x dates))
unfolding calendar_run set_run
calendar_run-Lists x [] dates h = (h, refl)
calendar_run-Lists x (call ∷ calls) dates h =
    let one = calendar_step-Lists x call dates h in
    let rest = calendar_run-Lists x calls (calendar_step call dates) (one.0) in
    (rest.0, rest.1 ∙ ap (set_run x calls) (one.1))

-- After any calls on an empty blackout calendar its dates rise strictly, and the binary search
-- finds exactly the dates that were added and not removed or cleared since.
pub is_blackout_date-calendar_run :
    (x : ℕ) (calls : List CalendarCall)
    → RisesFrom 0 (calendar_run calls [])
      × (is_blackout_date x (calendar_run calls []) ≡ set_run x calls false)
unfolding RisesFrom
is_blackout_date-calendar_run x calls =
    let run = calendar_run-Lists x calls [] tt in
    (run.0, is_blackout_date-is_listed 0 x (calendar_run calls []) (run.0) ∙ run.1)
