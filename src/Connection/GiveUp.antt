-- ===== src/Connection/GiveUp.antt =====
-- When the strategies give up.
use nimblefix.Common.{ℕ, zero, suc, ◌^◌, ◌<◌, min, ◌≡◌, arith, leb}
use nimblefix.Connection.{
  ConnectionContext, PrimaryStrategy, RoundRobinStrategy, new_backoff, new_primary, new_round_robin,
  backoff_on_disconnected, primary_on_disconnected, round_robin_on_disconnected, should_give_up,
  effective_failure_count, after,
}
use nimblefix.Connection.Backoff.{drop_repeatedly}

unfoldable pub primary_drops : ConnectionContext → ℕ → PrimaryStrategy → PrimaryStrategy
primary_drops context = after (λ s. (primary_on_disconnected s context).0)

unfoldable pub round_robin_drops : ConnectionContext → ℕ → RoundRobinStrategy → RoundRobinStrategy
round_robin_drops context = after (λ s. (round_robin_on_disconnected s context).0)

-- `n` attempts have been made, at most `retries` of them.
abbrev HasAttempts : ℕ → ℕ → ℕ → ℕ → Type 0
HasAttempts retries n max_retries attempt_count =
    (max_retries ≡ retries) × (attempt_count ≡ min n retries)

module _ (retries : ℕ) (context : ConnectionContext) (positive : 0 < retries)
    (small : retries < 2 ^ 32) (unknown : context.consecutive_failures ≡ 0) where
  backoff-HasAttempts :
      (initial_ms max_ms n : ℕ) (draw : ℕ → ℕ)
      → let s = drop_repeatedly draw context n (new_backoff initial_ms max_ms retries) in
        HasAttempts retries n s.max_retries s.attempt_count
  unfolding drop_repeatedly after new_backoff backoff_on_disconnected should_give_up
      effective_failure_count
  backoff-HasAttempts initial_ms max_ms zero draw = ground arith
  backoff-HasAttempts initial_ms max_ms (suc n) draw =
      ground (arith, backoff-HasAttempts initial_ms max_ms n draw)

  primary-HasAttempts :
      (delay_ms n : ℕ)
      → let s = primary_drops context n (new_primary delay_ms retries) in
        HasAttempts retries n s.max_retries s.attempt_count
  unfolding primary_drops after new_primary primary_on_disconnected should_give_up
      effective_failure_count
  primary-HasAttempts delay_ms zero = ground arith
  primary-HasAttempts delay_ms (suc n) = ground (arith, primary-HasAttempts delay_ms n)

  round_robin-HasAttempts :
      (delay_ms n : ℕ)
      → let s = round_robin_drops context n (new_round_robin delay_ms retries) in
        HasAttempts retries n s.max_retries s.attempt_count
  unfolding round_robin_drops after new_round_robin round_robin_on_disconnected should_give_up
      effective_failure_count
  round_robin-HasAttempts delay_ms zero = ground arith
  round_robin-HasAttempts delay_ms (suc n) = ground (arith, round_robin-HasAttempts delay_ms n)

  should_give_up_lem :
      (n max_retries attempt_count : ℕ)
      → HasAttempts retries n max_retries attempt_count
      → should_give_up context attempt_count max_retries ≡ leb retries n
  unfolding should_give_up effective_failure_count
  should_give_up_lem n max_retries attempt_count h = ground arith

  -- With an unknown failure count and a positive limit of retries below 2 ^ 32, each of the
  -- three strategies answers its first disconnects, as many as the limit, with a retry, and
  -- gives up on every later one.
  pub give_up_lem :
      (initial_ms max_ms delay_ms n : ℕ) (draw : ℕ → ℕ)
      → ((backoff_on_disconnected draw
            (drop_repeatedly draw context n (new_backoff initial_ms max_ms retries))
            context).1.give_up
          ≡ leb retries n)
        × ((primary_on_disconnected
              (primary_drops context n (new_primary delay_ms retries))
              context).1.give_up
            ≡ leb retries n)
        × ((round_robin_on_disconnected
              (round_robin_drops context n (new_round_robin delay_ms retries))
              context).1.give_up
            ≡ leb retries n)
  unfolding backoff_on_disconnected primary_on_disconnected round_robin_on_disconnected
  give_up_lem initial_ms max_ms delay_ms n draw =
      let a = should_give_up_lem n _ _ (backoff-HasAttempts initial_ms max_ms n draw) in
      let b = should_give_up_lem n _ _ (primary-HasAttempts delay_ms n) in
      let c = should_give_up_lem n _ _ (round_robin-HasAttempts delay_ms n) in
      (rw a (ground arith), rw b (ground arith), rw c (ground arith))
