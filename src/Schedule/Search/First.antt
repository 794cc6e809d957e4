-- ===== src/Schedule/Search/First.antt =====
-- The next start over all windows of a schedule is the first instant at which it is open.
use nimblefix.Common.{
  ℕ, ◌+◌, ◌*◌, ◌^◌, ◌≤◌, ◌<◌, ◌≡◌, ◌⊎◌, inl, inr, refl, ◌∙◌, ap, subst, arith, Bool, true, false,
  ◌&&◌, none, some, List, [], ◌∷◌, All, ltb, leb, Bool-cases, if◌then◌else◌,
}
use nimblefix.Status.{ok}
use nimblefix.Schedule.{
  SessionWindowSpec, SessionScheduleConfig, validate_session_schedule, build_window_specs,
}
use nimblefix.Schedule.Validated.{IsInRange, AllInRange, build_window_specs-AllInRange}
use nimblefix.Schedule.Window.{Zone, is_within_window, next_window_start}
use nimblefix.Schedule.Position.{zones}
use nimblefix.Schedule.Opening.{next_window_start-opens, next_window_start-first}
use nimblefix.Schedule.Search.{
  keep_earlier, earliest_start_from, earliest_window_start, is_within_some, is_within_any,
  is_within, next_start,
}

-- A window in UTC.
abbrev pub IsUtc : SessionWindowSpec → Type 0
IsUtc window = window.use_local_time ≡ false

module _ (here : Zone) (now t : ℕ) (small : now + 20 * 86400 * 1_000_000_000 < 2 ^ 64) where
  -- Whether `t` is an instant before `opening`, from `now` on, at which a window is open.
  abbrev is_missed : ℕ → Bool → Bool
  is_missed opening held = leb now t && ltb t opening && held

  -- A start `r` of the windows, or the value `e` found before, that misses nothing.
  abbrev IsFound : List SessionWindowSpec → ℕ → ℕ → Type 0
  IsFound windows e r =
      (r ≤ e)
      × (now ≤ r)
      × ((is_within_some (zones here) windows r ≡ true) ⊎ (r ≡ e))
      × (is_missed r (is_within_some (zones here) windows t) ≡ false)

  missed_one :
      (window : SessionWindowSpec) (opening : ℕ)
      → IsUtc window
      → IsInRange window
      → next_window_start (zones here) window now ≡ some opening
      → is_missed opening (is_within_window (zones here) window t) ≡ false
  missed_one window opening utc range e = elim (Bool-cases (leb now t && ltb t opening)) [
    | inl inside ↦
        let shut =
          next_window_start-first here window now opening t utc range small e (ground arith)
            (ground arith) in
        rw shut (ground arith)
    | inr outside ↦ ground arith
  ]

  found_place :
      (window : SessionWindowSpec) (windows : List SessionWindowSpec) (opening e r : ℕ)
      → is_within_window (zones here) window opening ≡ true
      → (is_within_some (zones here) windows r ≡ true)
        ⊎ (r ≡ (if ltb opening e then opening else e))
      → (is_within_some (zones here) (window ∷ windows) r ≡ true) ⊎ (r ≡ e)
  unfolding is_within_some
  found_place window windows opening e r opens (inl p) = inl (ground arith)
  found_place window windows opening e r opens (inr p) = elim (Bool-cases (ltb opening e)) [
    | inl less ↦ let same : r ≡ opening = ground arith in inl (rw (same, opens) refl)
    | inr more ↦ inr (ground arith)
  ]

  IsFound-more :
      (window : SessionWindowSpec) (windows : List SessionWindowSpec) (opening e r : ℕ)
      → is_within_window (zones here) window opening ≡ true
      → is_missed opening (is_within_window (zones here) window t) ≡ false
      → IsFound windows (if ltb opening e then opening else e) r
      → IsFound (window ∷ windows) e r
  unfolding is_within_some
  IsFound-more window windows opening e r opens missed (below, above, place, rest) =
      (ground arith, above, found_place window windows opening e r opens place, ground arith)

  -- The next start of one window, as the search meets it.
  first_opening :
      (window : SessionWindowSpec)
      → IsUtc window
      → IsInRange window
      → (opening : ℕ) × (next_window_start (zones here) window now ≡ some opening)
        × (now ≤ opening)
        × (is_within_window (zones here) window opening ≡ true)
        × (is_missed opening (is_within_window (zones here) window t) ≡ false)
  first_opening window utc range =
      let o = next_window_start-opens here window now utc range small in
      (o.0, o.1, o.2, o.3, missed_one window (o.0) utc range (o.1))

  search_step :
      (window : SessionWindowSpec) (windows : List SessionWindowSpec) (e opening : ℕ)
      → next_window_start (zones here) window now ≡ some opening
      → earliest_start_from (zones here) (some e) (window ∷ windows) now
        ≡ earliest_start_from (zones here) (some (if ltb opening e then opening else e)) windows now
  unfolding earliest_start_from
  search_step window windows e opening h =
      rw h (ap (λ o. earliest_start_from (zones here) o windows now) (ground arith))

  search_from :
      (windows : List SessionWindowSpec) (e : ℕ)
      → All IsUtc windows
      → All IsInRange windows
      → now ≤ e
      → (r : ℕ) × (earliest_start_from (zones here) (some e) windows now ≡ some r)
        × IsFound windows e r
  unfolding earliest_start_from is_within_some
  search_from [] e utc range h = (e, refl, (omega arith, h, inr refl, ground arith))
  search_from (window ∷ windows) e utc range h =
      let o = first_opening window (utc.0) (range.0) in
      let kept = if ltb (o.0) e then o.0 else e in
      let later = o.2 in
      let rest = search_from windows kept (utc.1) (range.1) (ground arith) in
      (
        rest.0,
        search_step window windows e (o.0) (o.1) ∙ rest.1,
        IsFound-more window windows (o.0) e (rest.0) (o.3) (o.4) (rest.2),
      )

  start_step :
      (window : SessionWindowSpec) (windows : List SessionWindowSpec) (opening : ℕ)
      → next_window_start (zones here) window now ≡ some opening
      → earliest_window_start (zones here) (window ∷ windows) now
        ≡ earliest_start_from (zones here) (some opening) windows now
  unfolding earliest_window_start earliest_start_from
  start_step window windows opening h =
      ap (λ o. earliest_start_from (zones here) (keep_earlier none o) windows now) h

  found_here :
      (window : SessionWindowSpec) (windows : List SessionWindowSpec) (opening r : ℕ)
      → is_within_window (zones here) window opening ≡ true
      → (is_within_some (zones here) windows r ≡ true) ⊎ (r ≡ opening)
      → is_within_some (zones here) (window ∷ windows) r ≡ true
  unfolding is_within_some
  found_here window windows opening r opens (inl p) = ground arith
  found_here window windows opening r opens (inr p) = rw (p, opens) refl

  search_every :
      (windows : List SessionWindowSpec)
      → All IsUtc windows
      → All IsInRange windows
      → (r : ℕ) × (earliest_window_start (zones here) windows now ≡ some r)
        × (now ≤ r)
        × (is_within_any (zones here) windows r ≡ true)
        × (is_missed r (is_within_any (zones here) windows t) ≡ false)
  unfolding earliest_window_start is_within_any is_within_some
  search_every [] utc range = (now, refl, omega arith, refl, ground arith)
  search_every (window ∷ windows) utc range =
      let o = first_opening window (utc.0) (range.0) in
      let rest = search_from windows (o.0) (utc.1) (range.1) (o.2) in
      let found = rest.2 in
      let opens = o.3 in
      let missed = o.4 in
      (
        rest.0,
        start_step window windows (o.0) (o.1) ∙ rest.1,
        found.1,
        found_here window windows (o.0) (rest.0) (o.3) (found.2),
        ground arith,
      )

-- For a validated schedule whose windows are all in UTC, of the session or of the logon, and an
-- instant with 20 days left in 64 bits, the next start is found, it is not before the instant,
-- the schedule is open there, and it is not open at any t from the instant up to it.
pub next_start_lem :
    (here : Zone) (schedule : SessionScheduleConfig) (logon_window : Bool) (now t : ℕ)
    (windows : List SessionWindowSpec)
    → now + 20 * 86400 * 1_000_000_000 < 2 ^ 64
    → validate_session_schedule schedule ≡ ok tt
    → build_window_specs schedule logon_window ≡ some windows
    → All IsUtc windows
    → (opening : ℕ) × (next_start (zones here) schedule logon_window now ≡ some (some opening))
      × (now ≤ opening)
      × (is_within (zones here) schedule logon_window opening ≡ some true)
      × ((held : Bool) × (is_within (zones here) schedule logon_window t ≡ some held)
          × ((leb now t && ltb t opening && held) ≡ false))
unfolding next_start is_within
next_start_lem here schedule logon_window now t windows small valid built utc =
    let range =
      subst AllInRange built (build_window_specs-AllInRange schedule logon_window valid) in
    let found = search_every here now t small windows utc range in
    (
      found.0,
      rw built (ap some (found.1)),
      found.2,
      rw built (ap some (found.3)),
      (is_within_any (zones here) windows t, rw built refl, found.4),
    )
