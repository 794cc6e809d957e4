-- ===== src/Connection/RoundRobin.antt =====
-- `RoundRobinStrategy` visits the endpoints in turn.
use nimblefix.Common.{
  ℕ, zero, suc, ◌+◌, ◌%◌, ◌^◌, ◌<◌, ◌≡◌, refl, sym, ap, subst, arith, ◌==◌, some, get_or, length,
  ◌∷◌, List, if◌then◌else◌,
}
use native.Mathlib.Nat.{mod-add-mod, mod-mod, zero-mod}
use nimblefix.Connection.{
  ConnectionContext, ConnectionEndpoint, RoundRobinStrategy, new_round_robin,
  round_robin_on_disconnected, endpoint_count, selected_index, endpoint_at, after,
}
use nimblefix.Connection.Backoff.{no_give_up}
use nimblefix.Connection.GiveUp.{round_robin_drops}

-- The endpoints in the order of their indices.
abbrev pub endpoints : ConnectionContext → List ConnectionEndpoint
endpoints context = context.primary_endpoint ∷ context.alternate_endpoints

pub endpoint_at_lem :
    (context : ConnectionContext) (i : ℕ)
    → endpoint_at context i ≡ get_or (endpoints context) i context.primary_endpoint
unfolding endpoint_at
endpoint_at_lem context zero = refl
endpoint_at_lem context (suc i) = ground arith

module _ (context : ConnectionContext) (small : length (endpoints context) < 2 ^ 32) where
  endpoint_count_lem : endpoint_count context ≡ length (endpoints context)
  unfolding endpoint_count
  endpoint_count_lem = omega arith

  selected_index_lem : (i : ℕ) → selected_index context i ≡ i % length (endpoints context)
  unfolding selected_index
  selected_index_lem i = rw endpoint_count_lem (ground arith)

  next_index :
      (i : ℕ)
      → (if endpoint_count context == 0
          then 0
          else (selected_index context i + 1) % endpoint_count context)
        ≡ (i + 1) % length (endpoints context)
  next_index i =
      rw (selected_index_lem i, endpoint_count_lem)
        (ground (arith, mod-add-mod i (length (endpoints context)) 1))

  -- A strategy that never gives up, at the index `i`.
  abbrev IsAt : ℕ → RoundRobinStrategy → Type 0
  IsAt i s = (s.current_index ≡ i % length (endpoints context)) × (s.max_retries ≡ 0)

  step-IsAt :
      (i : ℕ) (s : RoundRobinStrategy)
      → IsAt i s
      → IsAt (i + 1) (round_robin_on_disconnected s context).0
  unfolding round_robin_on_disconnected
  step-IsAt i s h =
      rw (no_give_up context s.attempt_count s.max_retries (h.1), next_index s.current_index, h.0)
        (mod-add-mod i (length (endpoints context)) 1, h.1)

  round_robin_drops-IsAt :
      (delay_ms n : ℕ) → IsAt n (round_robin_drops context n (new_round_robin delay_ms 0))
  unfolding round_robin_drops after new_round_robin
  round_robin_drops-IsAt delay_ms zero = (sym (zero-mod (length (endpoints context))), refl)
  round_robin_drops-IsAt delay_ms (suc n) =
      subst (λ m. IsAt m (round_robin_drops context (suc n) (new_round_robin delay_ms 0)))
        (omega arith) (step-IsAt n _ (round_robin_drops-IsAt delay_ms n))

  endpoint_of-IsAt :
      (i : ℕ) (s : RoundRobinStrategy)
      → IsAt i s
      → (round_robin_on_disconnected s context).1.next_endpoint
        ≡ some
            (get_or (endpoints context) (i % length (endpoints context)) context.primary_endpoint)
  unfolding round_robin_on_disconnected
  endpoint_of-IsAt i s h =
      rw
        (
          no_give_up context s.attempt_count s.max_retries (h.1),
          selected_index_lem s.current_index,
          h.0,
          mod-mod i (length (endpoints context)),
        )
        (ap some (endpoint_at_lem context _))

  -- Without a limit of retries, and with fewer than 2 ^ 32 endpoints, disconnect number n,
  -- counted from 0, leads to endpoint n modulo the number of endpoints, the primary one first
  -- and the alternates in order.
  pub round_robin_lem :
      (delay_ms n : ℕ)
      → let s = round_robin_drops context n (new_round_robin delay_ms 0) in
        (round_robin_on_disconnected s context).1.next_endpoint
        ≡ some
            (get_or (endpoints context) (n % length (endpoints context)) context.primary_endpoint)
  round_robin_lem delay_ms n = endpoint_of-IsAt n _ (round_robin_drops-IsAt delay_ms n)
