-- ===== src/Session/Core/Gap.antt =====
-- A gap in the inbound numbers, its recovery, and what later gaps do to it.
use nimblefix.Common.{
  ℕ, zero, suc, ◌+◌, ◌-◌, ◌≤◌, ◌<◌, ◌≡◌, ◌≢◌, refl, ap, subst, ◌∙◌, none, some, true, List, [], ◌∷◌,
  arith, max,
}
use nimblefix.Status.{err, invalid_argument}
use nimblefix.Session.State.{SessionCore, ResendRange, resend_processing, u32_max}
use nimblefix.Session.Core.{observe_inbound_seq, is_live}
use nimblefix.Session.Core.Step.{Call, observes, step, run}

-- The calls that observe `n`, `n + 1`, …: `k` of them.
abbrev pub observing : ℕ → ℕ → List Call
observing n zero = []
observing n (suc k) = observes n ∷ observing (n + 1) k

-- The session as it is while the range up to `e` is being filled.
record Filling (c : SessionCore) (n e : ℕ) : Type 0 where
  in_resend : c.state ≡ resend_processing
  expects : c.next_in_seq ≡ n
  pending : (b : ℕ) × (c.pending_resend ≡ some (record { begin_seq = b; end_seq = e }))

observe-inside :
    (c : SessionCore) (n e : ℕ)
    → Filling c n e
    → n < e
    → e < u32_max
    → (observe_inbound_seq c n).0 ≡ record c { next_in_seq = n + 1 }
unfolding observe_inbound_seq
observe-inside c n e f h k = ground arith

observe-last :
    (c : SessionCore) (e : ℕ)
    → Filling c e e
    → e < u32_max
    → (observe_inbound_seq c e).0 ≡ record c {
      next_in_seq = e + 1;
      pending_resend = none;
      state = c.resume_state;
      resend_completed = true;
    }
unfolding observe_inbound_seq
observe-last c e f k = ground arith

run-observes :
    (c : SessionCore) (n : ℕ) (calls : List Call)
    → run c (observes n ∷ calls) ≡ run (observe_inbound_seq c n).0 calls
unfolding run step
run-observes c n calls = refl

run-nil : (c : SessionCore) → run c [] ≡ c
unfolding run
run-nil c = refl

-- Before the last missing number the session stays in resend processing and only counts.
run-inside :
    (c : SessionCore) (n e k : ℕ)
    → Filling c n e
    → n + k ≤ e
    → e < u32_max
    → run c (observing n k) ≡ record c { next_in_seq = n + k }
run-inside c n e zero f h b = ground (arith, run-nil c)
run-inside c n e (suc k) f h b =
    rw (run-observes, observe-inside c n e f (omega arith) b)
      (run-inside (record c { next_in_seq = n + 1 }) (n + 1) e k
          (record { in_resend = f.in_resend; expects = refl; pending = f.pending }) (omega arith) b
        ∙ ap (λ m. record c { next_in_seq = m }) (omega arith))

run-filled :
    (c : SessionCore) (n e k : ℕ)
    → Filling c n e
    → n + k ≡ e
    → e < u32_max
    → run c (observing n (suc k)) ≡ record c {
      next_in_seq = e + 1;
      pending_resend = none;
      state = c.resume_state;
      resend_completed = true;
    }
run-filled c n e zero f h b =
    let e' : n ≡ e = omega arith in
    rw (run-observes, run-nil, e') (observe-last c e (subst (λ m. Filling c m e) e' f) b)
run-filled c n e (suc k) f h b =
    rw (run-observes, observe-inside c n e f (omega arith) b)
      (run-filled (record c { next_in_seq = n + 1 }) (n + 1) e k
        (record { in_resend = f.in_resend; expects = refl; pending = f.pending }) (omega arith) b)

-- The session right after a gap was found.
abbrev pub after_gap : SessionCore → ℕ → SessionCore
after_gap c s = record c {
  pending_resend = some (record { begin_seq = c.next_in_seq; end_seq = s - 1 });
  resume_state = c.state;
  state = resend_processing;
}

observe-gap :
    (c : SessionCore) (s : ℕ)
    → is_live c.state ≡ true
    → c.state ≢ resend_processing
    → c.next_in_seq < s
    → observe_inbound_seq c s ≡ (after_gap c s, err invalid_argument)
unfolding observe_inbound_seq
observe-gap c s live fresh h = ground arith

-- When a live session that is not recovering sees the number `s` above the expected one, and then
-- the missing numbers in order, it returns to the state in which it was, expecting `s`, with
-- nothing pending and the completion flag set.
pub run-gap :
    (c : SessionCore) (s : ℕ)
    → is_live c.state ≡ true
    → c.state ≢ resend_processing
    → c.next_in_seq < s
    → s ≤ u32_max
    → run c (observes s ∷ observing c.next_in_seq (s - c.next_in_seq)) ≡ record c {
      next_in_seq = s;
      pending_resend = none;
      resume_state = c.state;
      resend_completed = true;
    }
run-gap c s live fresh h b =
    let rounds : s - c.next_in_seq ≡ suc (s - 1 - c.next_in_seq) = omega arith in
    rw (run-observes, observe-gap c s live fresh h, rounds)
      (run-filled (after_gap c s) c.next_in_seq (s - 1) (s - 1 - c.next_in_seq)
          (record { in_resend = refl; expects = refl; pending = (c.next_in_seq, refl) })
          (omega arith) (omega arith)
        ∙ ap
            (λ m. record c {
              next_in_seq = m;
              pending_resend = none;
              resume_state = c.state;
              resend_completed = true;
            })
            (omega arith))

-- While fewer than the missing numbers have come, the session is still in resend processing, with
-- the same pending range, and has handed nothing back.
pub run-gap_partial :
    (c : SessionCore) (s k : ℕ)
    → is_live c.state ≡ true
    → c.state ≢ resend_processing
    → c.next_in_seq + k < s
    → s ≤ u32_max
    → run c (observes s ∷ observing c.next_in_seq k)
      ≡ record (after_gap c s) { next_in_seq = c.next_in_seq + k }
run-gap_partial c s k live fresh h b =
    rw (run-observes, observe-gap c s live fresh (omega arith))
      (run-inside (after_gap c s) c.next_in_seq (s - 1) k
        (record { in_resend = refl; expects = refl; pending = (c.next_in_seq, refl) }) (omega arith)
        (omega arith))

-- A further gap found while a range is pending only moves the end of the range up, as far as the
-- number that showed it: the state to resume, the expected number and the start stay.
pub observe-second_gap :
    (c : SessionCore) (r : ResendRange) (s : ℕ)
    → c.state ≡ resend_processing
    → c.pending_resend ≡ some r
    → c.next_in_seq < s
    → observe_inbound_seq c s ≡ (
      record c {
        pending_resend = some (record { begin_seq = r.begin_seq; end_seq = max r.end_seq (s - 1) });
      },
      err invalid_argument,
    )
unfolding observe_inbound_seq
observe-second_gap c r s e p h = ground arith
