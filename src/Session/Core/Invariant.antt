-- ===== src/Session/Core/Invariant.antt =====
-- What holds of a session core after any sequence of calls.
use nimblefix.Common.{◌≤◌, ◌<◌, ◌≡◌, ◌≢◌, refl, ◌∙◌, Option, none, some, List, [], ◌∷◌, arith, All}
use nimblefix.Session.State.{
  SessionCore, SessionConfig, ResendRange, recovering, closed, new, u32_max,
}
use nimblefix.Session.Core.Step.{
  Call, step, run, connects, restores, advances, observes, begins_recovery,
}

-- A pending range is not empty and has no sequence number 0.
abbrev pub RangeOk : Option ResendRange → Type 0
RangeOk none = Unit {0}
RangeOk (some r) = (0 < r.begin_seq) × (r.begin_seq ≤ r.end_seq)

pub record IsValid (c : SessionCore) : Type 0 where
  pub in_positive : 0 < c.next_in_seq
  pub in_bounded : c.next_in_seq ≤ u32_max
  pub out_positive : 0 < c.next_out_seq
  pub out_bounded : c.next_out_seq ≤ u32_max
  pub range_ok : RangeOk c.pending_resend
  pub resumes : c.resume_state ≢ recovering
  pub warm : c.warmup_remaining ≤ c.warmup_total

-- The arguments are `std::uint32_t` values, and an observed number is not the largest one.
abbrev pub Fits : Call → Type 0
Fits (observes n) = n < u32_max
Fits (advances n) = n ≤ u32_max
Fits (restores i o) = (i ≤ u32_max) × (o ≤ u32_max)
Fits _ = Unit {0}

pub new-IsValid : (config : SessionConfig) → IsValid (new config)
unfolding new
new-IsValid config = ground arith

pub step-IsValid : (c : SessionCore) (call : Call) → Fits call → IsValid c → IsValid (step c call).0
unfolding step
step-IsValid c connects f v = ground arith
step-IsValid c _ f v = ground arith

pub run-IsValid :
    (c : SessionCore) (calls : List Call) → All Fits calls → IsValid c → IsValid (run c calls)
unfolding run
run-IsValid c [] f v = v
run-IsValid c (call ∷ calls) f v = run-IsValid (step c call).0 calls f.1 (step-IsValid c call f.0 v)

-- Whatever methods that change a session core are called on a new one, SetDayCutConfig included
-- and only the setter of the borrowed transport profile left out, with numbers of 32 bits and
-- observed numbers below the largest one: its sequence numbers stay positive and within 32 bits,
-- its pending range stays non-empty and without number 0, it never resumes into recovery, and no
-- more warm-up messages remain than were set.
pub run-new-IsValid :
    (config : SessionConfig) (calls : List Call) → All Fits calls → IsValid (run (new config) calls)
run-new-IsValid config calls f = run-IsValid (new config) calls f (new-IsValid config)

-- A closed session stays closed and keeps its outbound number, whatever is called on it but the
-- start of a recovery.
pub step-closed :
    (c : SessionCore) (call : Call)
    → c.state ≡ closed
    → call ≢ begins_recovery
    → ((step c call).0.state ≡ closed) × ((step c call).0.next_out_seq ≡ c.next_out_seq)
unfolding step
step-closed c connects e n = ground arith
step-closed c begins_recovery e n = absurd (n refl)
step-closed c _ e n = ground arith

-- A closed session stays closed and keeps its outbound number, whatever is called on it in any
-- order, but the start of a recovery.
pub run-closed :
    (c : SessionCore) (calls : List Call)
    → c.state ≡ closed
    → All (λ call. call ≢ begins_recovery) calls
    → ((run c calls).state ≡ closed) × ((run c calls).next_out_seq ≡ c.next_out_seq)
unfolding run
run-closed c [] e n = (e, refl)
run-closed c (call ∷ calls) e n =
    let (still, kept) = step-closed c call e n.0 in
    let (ends, same) = run-closed (step c call).0 calls still n.1 in (ends, same ∙ kept)
