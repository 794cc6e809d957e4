-- ===== src/Connection.antt =====
-- src/runtime/connection_strategy.cpp and include/public/nimblefix/runtime/connection_strategy.h:
-- when and where an initiator reconnects. A strategy object is a record and its methods return the
-- new record.
pub mod Backoff
pub mod GiveUp
pub mod RoundRobin
mod Examples
use Prim.Native.String.{String}
use nimblefix.Common.{
  ℕ, zero, suc, ◌+◌, ◌-◌, ◌*◌, ◌/◌, ◌%◌, ◌^◌, min, Bool, true, false, not, ◌&&◌, Option, none, some,
  List, [], ◌∷◌, ◌==◌, leb, if◌then◌else◌, get_or, length,
}

pub record ConnectionEndpoint : Type 0 where
  pub host : String
  pub port : ℕ

-- Delays are in milliseconds.
pub record ConnectionDecision : Type 0 where
  pub delay : ℕ
  pub next_endpoint : Option ConnectionEndpoint
  pub give_up : Bool

pub record ConnectionContext : Type 0 where
  pub session_id : ℕ
  pub consecutive_failures : ℕ
  pub last_connected_duration : ℕ
  pub primary_endpoint : ConnectionEndpoint
  pub alternate_endpoints : List ConnectionEndpoint

abbrev pub giving_up : ConnectionDecision
giving_up = record { delay = 0; next_endpoint = none; give_up = true }

-- The integer division by `kReconnectJitterDivisor`.
unfoldable pub reconnect_jitter_limit : ℕ → ℕ
reconnect_jitter_limit backoff_ms = backoff_ms / 4

-- `draw m` is the number that `std::uniform_int_distribution(0, m)` yields at this call.
unfoldable pub random_jitter : (ℕ → ℕ) → ℕ → ℕ
random_jitter draw max_jitter_ms = if max_jitter_ms == 0 then 0 else draw max_jitter_ms

unfoldable pub effective_failure_count : ConnectionContext → ℕ → ℕ
effective_failure_count context attempt_count =
    if context.consecutive_failures == 0 then attempt_count else context.consecutive_failures

unfoldable pub should_give_up : ConnectionContext → ℕ → ℕ → Bool
unfolding effective_failure_count
should_give_up context attempt_count max_retries =
    not (max_retries == 0) && leb max_retries (effective_failure_count context attempt_count)

-- `ExponentialBackoffStrategy`.
pub record BackoffStrategy : Type 0 where
  pub initial_ms : ℕ
  pub max_ms : ℕ
  pub max_retries : ℕ
  pub current_backoff_ms : ℕ
  pub attempt_count : ℕ

unfoldable pub new_backoff : ℕ → ℕ → ℕ → BackoffStrategy
new_backoff initial_ms max_ms max_retries = record {
  initial_ms = initial_ms;
  max_ms = max_ms;
  max_retries = max_retries;
  current_backoff_ms = 0;
  attempt_count = 0;
}

-- The local variable `previous_backoff`.
unfoldable pub previous_backoff : BackoffStrategy → ℕ
previous_backoff s = if s.current_backoff_ms == 0 then s.initial_ms else s.current_backoff_ms

-- The local variable `next_backoff`; the product is one of 64-bit numbers and cannot wrap.
unfoldable pub next_backoff : BackoffStrategy → ℕ
next_backoff s =
    if s.current_backoff_ms == 0 then s.initial_ms else min (s.current_backoff_ms * 2) s.max_ms

unfoldable pub backoff_on_disconnected :
    (ℕ → ℕ) → BackoffStrategy → ConnectionContext → BackoffStrategy × ConnectionDecision
unfolding should_give_up random_jitter reconnect_jitter_limit previous_backoff next_backoff
backoff_on_disconnected draw s context =
    if should_give_up context s.attempt_count s.max_retries then (s, giving_up) else (
      record s {
        current_backoff_ms = next_backoff s;
        attempt_count = (s.attempt_count + 1) % 2 ^ 32;
      },
      record {
        delay = next_backoff s + random_jitter draw (reconnect_jitter_limit (previous_backoff s));
        next_endpoint = none;
        give_up = false;
      },
    )

unfoldable pub backoff_on_connected : BackoffStrategy → BackoffStrategy
backoff_on_connected s = record s { current_backoff_ms = 0; attempt_count = 0 }

-- `AlwaysStartOnPrimaryStrategy`.
pub record PrimaryStrategy : Type 0 where
  pub delay_ms : ℕ
  pub max_retries : ℕ
  pub attempt_count : ℕ

unfoldable pub new_primary : ℕ → ℕ → PrimaryStrategy
new_primary delay_ms max_retries = record {
  delay_ms = delay_ms;
  max_retries = max_retries;
  attempt_count = 0;
}

unfoldable pub primary_on_disconnected :
    PrimaryStrategy → ConnectionContext → PrimaryStrategy × ConnectionDecision
unfolding should_give_up
primary_on_disconnected s context =
    if should_give_up context s.attempt_count s.max_retries then (s, giving_up) else (
      record s { attempt_count = (s.attempt_count + 1) % 2 ^ 32 },
      record { delay = s.delay_ms; next_endpoint = some context.primary_endpoint; give_up = false },
    )

unfoldable pub primary_on_connected : PrimaryStrategy → PrimaryStrategy
primary_on_connected s = record s { attempt_count = 0 }

-- `RoundRobinStrategy`.
pub record RoundRobinStrategy : Type 0 where
  pub delay_ms : ℕ
  pub max_retries : ℕ
  pub attempt_count : ℕ
  pub current_index : ℕ

unfoldable pub new_round_robin : ℕ → ℕ → RoundRobinStrategy
new_round_robin delay_ms max_retries = record {
  delay_ms = delay_ms;
  max_retries = max_retries;
  attempt_count = 0;
  current_index = 0;
}

-- The local variable `endpoint_count`, a conversion to 32 bits.
unfoldable pub endpoint_count : ConnectionContext → ℕ
endpoint_count context = (length context.alternate_endpoints + 1) % 2 ^ 32

-- The local variable `selected_index`.
unfoldable pub selected_index : ConnectionContext → ℕ → ℕ
unfolding endpoint_count
selected_index context current_index =
    if endpoint_count context == 0 then 0 else current_index % endpoint_count context

-- The primary endpoint at 0, the alternates after it.
unfoldable pub endpoint_at : ConnectionContext → ℕ → ConnectionEndpoint
endpoint_at context index =
    if index == 0
    then context.primary_endpoint
    else get_or context.alternate_endpoints (index - 1) context.primary_endpoint

unfoldable pub round_robin_on_disconnected :
    RoundRobinStrategy → ConnectionContext → RoundRobinStrategy × ConnectionDecision
unfolding should_give_up endpoint_count selected_index endpoint_at
round_robin_on_disconnected s context =
    if should_give_up context s.attempt_count s.max_retries then (s, giving_up) else (
      record s {
        current_index =
            if endpoint_count context == 0
            then 0
            else (selected_index context s.current_index + 1) % endpoint_count context;
        attempt_count = (s.attempt_count + 1) % 2 ^ 32;
      },
      record {
        delay = s.delay_ms;
        next_endpoint = some (endpoint_at context (selected_index context s.current_index));
        give_up = false;
      },
    )

unfoldable pub round_robin_on_connected : RoundRobinStrategy → RoundRobinStrategy
round_robin_on_connected s = record s { attempt_count = 0; current_index = 0 }

-- The state after `n` disconnects with the same context.
unfoldable pub after {ℓ} : {S : Type ℓ} → (S → S) → ℕ → S → S
after f zero s = s
after f (suc n) s = f (after f n s)
