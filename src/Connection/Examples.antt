-- ===== src/Connection/Examples.antt =====
-- Runs of the strategies and instances of the theorems.
use Prim.Native.String.{String}
use nimblefix.Common.{
  ℕ, ◌*◌, ◌+◌, ◌/◌, ◌%◌, ◌^◌, ◌≤◌, min, some, List, [], ◌∷◌, ◌≡◌, refl, arith, leb, get_or, length,
}
use nimblefix.Connection.{
  ConnectionEndpoint, ConnectionContext, new_backoff, new_primary, new_round_robin,
  backoff_on_disconnected, primary_on_disconnected, round_robin_on_disconnected,
}
use nimblefix.Connection.Backoff.{
  BackoffCall, drops, connects, drop_repeatedly, drop_repeatedly-delay,
}
use nimblefix.Connection.GiveUp.{primary_drops, round_robin_drops, give_up_lem}
use nimblefix.Connection.RoundRobin.{endpoints, round_robin_lem}

abbrev host_at : String → ConnectionEndpoint
host_at name = record { host = name; port = 9876 }

abbrev three_hosts : ConnectionContext
three_hosts = record {
  session_id = 7;
  consecutive_failures = 0;
  last_connected_duration = 0;
  primary_endpoint = host_at "a";
  alternate_endpoints = host_at "b" ∷ host_at "c" ∷ [];
}

abbrev half : ℕ → ℕ
half m = m / 2

half-le : (m : ℕ) → half m ≤ m
half-le m = omega arith

abbrev some_calls : List BackoffCall
some_calls = drops half three_hosts ∷ drops half three_hosts ∷ connects ∷ []

drop_repeatedly-delay_example :
    let s = drop_repeatedly half three_hosts 4 (new_backoff 1000 30000 0) in
    let delay = (backoff_on_disconnected half s three_hosts).1.delay in
    let doubled = 1000 * 2 ^ 3 in
    (min (doubled * 2) 30000 ≤ delay) × (delay ≤ min (doubled * 2) 30000 + min doubled 30000 / 4)
drop_repeatedly-delay_example =
    drop_repeatedly-delay 1000 30000 3 half three_hosts (omega arith) (omega arith) half-le

give_up_lem_example :
    ((backoff_on_disconnected half
        (drop_repeatedly half three_hosts 3 (new_backoff 1000 30000 3))
        three_hosts).1.give_up
      ≡ leb 3 3)
    × ((primary_on_disconnected
          (primary_drops three_hosts 3 (new_primary 500 3))
          three_hosts).1.give_up
        ≡ leb 3 3)
    × ((round_robin_on_disconnected
          (round_robin_drops three_hosts 3 (new_round_robin 500 3))
          three_hosts).1.give_up
        ≡ leb 3 3)
give_up_lem_example =
    give_up_lem 3 three_hosts (omega arith) (omega arith) refl 1000 30000 500 3 half

round_robin_lem_example :
    let s = round_robin_drops three_hosts 5 (new_round_robin 500 0) in
    (round_robin_on_disconnected s three_hosts).1.next_endpoint
    ≡ some (
        get_or
          (endpoints three_hosts)
          (5 % length (endpoints three_hosts))
          three_hosts.primary_endpoint)
round_robin_lem_example = round_robin_lem three_hosts (omega arith) 500 5
