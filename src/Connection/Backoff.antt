-- ===== src/Connection/Backoff.antt =====
-- `ExponentialBackoffStrategy`: its delays are bounded and double up to the maximum.
use nimblefix.Common.{
  ℕ, zero, suc, ◌+◌, ◌*◌, ◌/◌, ◌^◌, ◌≤◌, ◌<◌, min, List, [], ◌∷◌, ◌≡◌, refl, arith, false,
}
use native.Mathlib.Nat.{pow-suc}
use nimblefix.Connection.{
  ConnectionContext, BackoffStrategy, new_backoff, backoff_on_disconnected, backoff_on_connected,
  next_backoff, previous_backoff, random_jitter, reconnect_jitter_limit, should_give_up,
  effective_failure_count, after,
}

-- A call on the strategy; a disconnect carries what its random draw yields.
pub data BackoffCall : Type 0 where
  drops : (ℕ → ℕ) → ConnectionContext → BackoffCall
  connects : BackoffCall

unfoldable pub backoff_step : BackoffStrategy → BackoffCall → BackoffStrategy
backoff_step s (drops draw context) = (backoff_on_disconnected draw s context).0
backoff_step s connects = backoff_on_connected s

unfoldable pub backoff_run : BackoffStrategy → List BackoffCall → BackoffStrategy
backoff_run s [] = s
backoff_run s (call ∷ calls) = backoff_run (backoff_step s call) calls

-- A draw stays within the limit that it is given.
abbrev pub IsDraw : (ℕ → ℕ) → Type 0
IsDraw draw = (m : ℕ) → draw m ≤ m

-- The initial, the maximal and the current backoff are at most `b`.
abbrev pub IsWithin : ℕ → BackoffStrategy → Type 0
IsWithin b s = (s.initial_ms ≤ b) × (s.max_ms ≤ b) × (s.current_backoff_ms ≤ b)

next_backoff-IsWithin : (b : ℕ) (s : BackoffStrategy) → IsWithin b s → next_backoff s ≤ b
unfolding next_backoff
next_backoff-IsWithin b s h = ground arith

previous_backoff-IsWithin : (b : ℕ) (s : BackoffStrategy) → IsWithin b s → previous_backoff s ≤ b
unfolding previous_backoff
previous_backoff-IsWithin b s h = ground arith

backoff_step-IsWithin :
    (b : ℕ) (s : BackoffStrategy) (call : BackoffCall)
    → IsWithin b s
    → IsWithin b (backoff_step s call)
unfolding backoff_step backoff_on_disconnected backoff_on_connected
backoff_step-IsWithin b s (drops draw context) h =
    let e = next_backoff-IsWithin b s h in ground arith
backoff_step-IsWithin b s connects h = ground arith

backoff_run-IsWithin :
    (b : ℕ) (s : BackoffStrategy) (calls : List BackoffCall)
    → IsWithin b s
    → IsWithin b (backoff_run s calls)
unfolding backoff_run
backoff_run-IsWithin b s [] h = h
backoff_run-IsWithin b s (call ∷ calls) h =
    backoff_run-IsWithin b (backoff_step s call) calls (backoff_step-IsWithin b s call h)

random_jitter-le : (draw : ℕ → ℕ) (m : ℕ) → IsDraw draw → random_jitter draw m ≤ m
unfolding random_jitter
random_jitter-le draw m h = let e = h m in ground arith

delay-IsWithin :
    (b : ℕ) (s : BackoffStrategy) (draw : ℕ → ℕ) (context : ConnectionContext)
    → IsWithin b s
    → IsDraw draw
    → (backoff_on_disconnected draw s context).1.delay ≤ b + b / 4
unfolding backoff_on_disconnected reconnect_jitter_limit
delay-IsWithin b s draw context h fair =
    let next = next_backoff-IsWithin b s h in
    let previous = previous_backoff-IsWithin b s h in
    let jitter = random_jitter-le draw (previous_backoff s / 4) fair in ground arith

-- After any calls, with any draws, the delay for a disconnect whose draw keeps its limit is at
-- most five quarters of a bound on the initial and the maximal backoff.
pub backoff_run-delay :
    (b initial_ms max_ms max_retries : ℕ) (calls : List BackoffCall) (draw : ℕ → ℕ)
    (context : ConnectionContext)
    → initial_ms ≤ b
    → max_ms ≤ b
    → IsDraw draw
    → (backoff_on_disconnected draw
        (backoff_run (new_backoff initial_ms max_ms max_retries) calls)
        context).1.delay
      ≤ b + b / 4
unfolding new_backoff
backoff_run-delay b initial_ms max_ms max_retries calls draw context hi hm fair =
    delay-IsWithin b _ draw context (backoff_run-IsWithin b _ calls (hi, hm, omega arith)) fair

unfoldable pub drop_repeatedly : (ℕ → ℕ) → ConnectionContext → ℕ → BackoffStrategy → BackoffStrategy
drop_repeatedly draw context = after (λ s. (backoff_on_disconnected draw s context).0)

-- The backoff after `n + 1` disconnects.
abbrev pub IsDoubled : ℕ → ℕ → ℕ → BackoffStrategy → Type 0
IsDoubled initial_ms max_ms n s =
    (s.current_backoff_ms ≡ min (initial_ms * 2 ^ n) max_ms)
    × (s.initial_ms ≡ initial_ms)
    × (s.max_ms ≡ max_ms)
    × (s.max_retries ≡ 0)

doubled_power : (a n : ℕ) → a * 2 ^ suc n ≡ a * 2 ^ n * 2
doubled_power a n = rw (pow-suc 2 n) (omega arith)

power_pos : (a n : ℕ) → 0 < a → 0 < a * 2 ^ n
power_pos a zero h = omega arith
power_pos a (suc n) h = let rest = power_pos a n h in let e = doubled_power a n in omega arith

pub no_give_up :
    (context : ConnectionContext) (attempt_count max_retries : ℕ)
    → max_retries ≡ 0
    → should_give_up context attempt_count max_retries ≡ false
unfolding should_give_up
no_give_up context attempt_count max_retries h = rw h refl

on_disconnected-IsDoubled :
    (initial_ms max_ms n : ℕ) (draw : ℕ → ℕ) (context : ConnectionContext) (s : BackoffStrategy)
    → 0 < initial_ms
    → initial_ms ≤ max_ms
    → IsDoubled initial_ms max_ms n s
    → IsDoubled initial_ms max_ms (suc n) (backoff_on_disconnected draw s context).0
unfolding backoff_on_disconnected next_backoff
on_disconnected-IsDoubled initial_ms max_ms n draw context s hi hm h =
    let positive = power_pos initial_ms n hi in
    rw (no_give_up context s.attempt_count s.max_retries (h.3), doubled_power initial_ms n)
      (ground arith)

drop_repeatedly-IsDoubled :
    (initial_ms max_ms n : ℕ) (draw : ℕ → ℕ) (context : ConnectionContext)
    → 0 < initial_ms
    → initial_ms ≤ max_ms
    → IsDoubled initial_ms max_ms n
        (drop_repeatedly draw context (suc n) (new_backoff initial_ms max_ms 0))
unfolding drop_repeatedly after backoff_on_disconnected new_backoff next_backoff should_give_up
    effective_failure_count
drop_repeatedly-IsDoubled initial_ms max_ms zero draw context hi hm = ground arith
drop_repeatedly-IsDoubled initial_ms max_ms (suc n) draw context hi hm =
    on_disconnected-IsDoubled initial_ms max_ms n draw context _ hi hm
      (drop_repeatedly-IsDoubled initial_ms max_ms n draw context hi hm)

delay-IsDoubled :
    (initial_ms max_ms n : ℕ) (draw : ℕ → ℕ) (context : ConnectionContext) (s : BackoffStrategy)
    → 0 < initial_ms
    → initial_ms ≤ max_ms
    → IsDraw draw
    → IsDoubled initial_ms max_ms n s
    → let delay = (backoff_on_disconnected draw s context).1.delay in
      let doubled = initial_ms * 2 ^ n in
      (min (doubled * 2) max_ms ≤ delay)
      × (delay ≤ min (doubled * 2) max_ms + min doubled max_ms / 4)
unfolding backoff_on_disconnected next_backoff previous_backoff reconnect_jitter_limit
delay-IsDoubled initial_ms max_ms n draw context s hi hm fair h =
    let positive = power_pos initial_ms n hi in
    let jitter = random_jitter-le draw (previous_backoff s / 4) fair in
    rw (no_give_up context s.attempt_count s.max_retries (h.3)) (ground arith)

-- Without a limit of retries, and with a positive initial backoff of at most the maximum, the
-- delay after n + 2 disconnects in a row is the initial backoff doubled n + 1 times, cut at the
-- maximum, plus a jitter of at most a quarter of the backoff before, for every draw that keeps
-- its limit.
pub drop_repeatedly-delay :
    (initial_ms max_ms n : ℕ) (draw : ℕ → ℕ) (context : ConnectionContext)
    → 0 < initial_ms
    → initial_ms ≤ max_ms
    → IsDraw draw
    → let s = drop_repeatedly draw context (suc n) (new_backoff initial_ms max_ms 0) in
      let delay = (backoff_on_disconnected draw s context).1.delay in
      let doubled = initial_ms * 2 ^ n in
      (min (doubled * 2) max_ms ≤ delay)
      × (delay ≤ min (doubled * 2) max_ms + min doubled max_ms / 4)
drop_repeatedly-delay initial_ms max_ms n draw context hi hm fair =
    delay-IsDoubled initial_ms max_ms n draw context _ hi hm fair
      (drop_repeatedly-IsDoubled initial_ms max_ms n draw context hi hm)
