-- ===== src/Session/Core/Errors.antt =====
-- What a refused call leaves behind, and when a call is refused.
use nimblefix.Common.{
  ℕ, ◌-◌, ◌<◌, ◌≡◌, ◌≢◌, max, some, none, subst, Option-cases, refl, ◌⊎◌, inl, inr, true, arith,
  ltb, ltb→lt, Bool-cases,
}
use nimblefix.Status.{err, ErrorCode}
use nimblefix.Session.State.{SessionCore, ResendRange, resend_processing, same_state}
use nimblefix.Session.Core.{observe_inbound_seq, is_live, detect_gap}
use nimblefix.Session.Core.Step.{Call, step, connects, observes}

-- The range of missing numbers is started, or the pending one grows to the new end.
abbrev pub RecordsGap : SessionCore → ℕ → SessionCore → Type 0
RecordsGap c last c' =
    ((range : ResendRange) × (c.pending_resend ≡ some range)
      × (c.state ≡ resend_processing)
      × (c' ≡ record c {
        pending_resend =
            some (record { begin_seq = range.begin_seq; end_seq = max range.end_seq last });
      }))
    ⊎ (((c.pending_resend ≡ none) ⊎ (c.state ≢ resend_processing))
        × (c' ≡ record c {
          pending_resend = some (record { begin_seq = c.next_in_seq; end_seq = last });
          resume_state = c.state;
          state = resend_processing;
        }))

-- The one way in which a call may fail and still change the object.
abbrev pub ReportsGap : SessionCore → Call → SessionCore → Type 0
ReportsGap c call c' =
    (n : ℕ) × (call ≡ observes n)
    × (is_live c.state ≡ true)
    × (c.next_in_seq < n)
    × RecordsGap c (n - 1) c'

detect_gap-RecordsGap : (c : SessionCore) (last : ℕ) → RecordsGap c last (detect_gap c last)
unfolding detect_gap
detect_gap-RecordsGap c last = elim (Option-cases c.pending_resend) [
  | inl fresh ↦ inr (inl fresh, rw fresh refl)
  | inr (range, pending) ↦ elim (Bool-cases (same_state c.state resend_processing)) [
    | inl busy ↦ inl (range, pending, ground arith, rw (pending, busy) (ground arith))
    | inr idle ↦ inr (inr (λ e. ground arith), rw (pending, idle) refl)
  ]
]

observe-error :
    (c : SessionCore) (n : ℕ) {e : ErrorCode}
    → (observe_inbound_seq c n).1 ≡ err e
    → ((observe_inbound_seq c n).0 ≡ c) ⊎ ReportsGap c (observes n) (observe_inbound_seq c n).0
unfolding observe_inbound_seq
observe-error c n h = elim (Bool-cases (is_live c.state)) [
  | inl live ↦ elim (Bool-cases (ltb c.next_in_seq n)) [
    | inl gap ↦ inr (
      n,
      refl,
      live,
      ltb→lt _ _ gap,
      subst (RecordsGap c (n - 1)) (ground arith) (detect_gap-RecordsGap c (n - 1)),
    )
    | inr no_gap ↦ inl (ground arith)
  ]
  | inr dead ↦ inl (ground arith)
]

-- Every call that fails leaves the session as it was, except the report of a gap: an inbound
-- number n above the expected one, in a live state. That one changes three members at most. If a
-- range is pending in resend processing, its end becomes n - 1 where that is larger. Otherwise
-- the range from the expected number to n - 1 becomes pending, the state is kept as the one to
-- resume, and the session enters resend processing.
pub step-error :
    (c : SessionCore) (call : Call) {e : ErrorCode}
    → (step c call).1 ≡ err e
    → ((step c call).0 ≡ c) ⊎ ReportsGap c call (step c call).0
unfolding step
step-error c (observes n) h = observe-error c n h
step-error c connects h = inl (ground arith)
step-error c _ h = inl (ground arith)
