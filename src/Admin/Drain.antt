-- ===== src/Admin/Drain.antt =====
-- The loop of `DrainDeferredGapFrames` ends after as many rounds as there are deferred frames: a round
-- leaves the frames as they are, or a resend is pending after it.
mod Waits
use nimblefix.Common.{
  ℕ, zero, suc, ◌+◌, ◌≤◌, ◌<◌, Bool, true, false, Option, none, some, ◌≡◌, ◌⊎◌, inl, inr, refl, sym,
  ap, subst, ◌∙◌, arith, List, [], ◌∷◌, drop, length, ltb, if◌then◌else◌,
}
use nimblefix.Status.{Result, ok, err}
use nimblefix.Session.State.{ResendRange, u32_max}
use nimblefix.Session.Core.{
  allocate_outbound_seq, record_outbound_activity, record_inbound_activity,
}
use nimblefix.Session.Core.Invariant.{IsValid}
use nimblefix.Action.{Action, ◌>>=◌, gets, pure, on_option, proceed}
use nimblefix.Action.Keeps.{
  Ensures, Keeps, Ensures-bind, Ensures-weaken, Keeps-pure, Keeps-update, Ensures-if, Keeps-gets,
}
use nimblefix.Admin.Data.{Environment, Protocol, DecodedMessage, ProtocolEvent, no_event}
use nimblefix.Admin.Stored.{on_session}
use nimblefix.Admin.Sequence.{on_gap, ask_for, is_present}
use nimblefix.Admin.Inbound.{on_inbound}
use nimblefix.Admin.Calls.{
  deferred_frame, visit_decoded, visit_deferred, stop_drain, after_visit, at_deferred, drain_from,
  drain_deferred_gap_frames, Drained, merge_event, first_unless,
}
use nimblefix.Admin.Keeps.{Encodes, Steps, Restarts, LoadsFit}
use nimblefix.Admin.Keeps.Sent.{Keeps-build_resend_request_frame}
use nimblefix.Admin.Keeps.Inbound.{Ensures-on_inbound}
use nimblefix.Admin.Keeps.Called.{Keeps-visit_deferred}
use nimblefix.Admin.Numbers.{
  IsSound, Encodes-IsSound, Steps-IsSound, Transports-IsSound, Restarts-IsSound,
}
use nimblefix.Admin.Drain.Waits.{
  Holds, IsWaiting, HoldsOrWaits, Steps-Holds, Restarts-Holds, Ensures-on_gap,
}

drop-end : {A : Type 0} (n : ℕ) (xs : List A) → length xs ≤ n → drop n xs ≡ []
drop-end zero [] h = refl
drop-end zero (x ∷ xs) h = absurd (omega arith)
drop-end (suc n) [] h = refl
drop-end (suc n) (x ∷ xs) h = drop-end n xs (omega arith)

first_unless-end :
    (b : Bool) (n : ℕ) (frames : List (List ℕ))
    → length frames ≤ n
    → first_unless b (drop n frames) ≡ none
first_unless-end b n frames h = ap (first_unless b) (drop-end n frames h)

first_unless-waiting : (b : Bool) (frames : List (List ℕ)) → b ≡ true → first_unless b frames ≡ none
first_unless-waiting true [] h = refl
first_unless-waiting true (f ∷ fs) h = refl
first_unless-waiting false fs h = absurd (ground arith)

module _ {S A B : Type 0} (Q : S → Type 0) where
  -- What a value is made of does not change the state.
  Ensures-then-pure :
      {P : S → Type 0} (m : Action S A) (f : A → B)
      → Ensures P Q m
      → Ensures P Q (m >>= λ a. pure (f a))
  unfolding ◌>>=◌ pure
  Ensures-then-pure m f k = record { at = λ s h. finish (m s) (k.at s h) }
    where
      finish : (out : S × Result A) → Q out.0 → Q (proceed out.1 (λ a. pure (f a)) out.0).0
      finish (s, ok a) h = h
      finish (s, err e) h = h

module _ {S : Type 0} (env : Environment S) where
  module _ (loads : LoadsFit env.methods)
      (decodes : (frame : List ℕ) (d : DecodedMessage)
        → env.codec.decode frame ≡ ok d
        → d.msg_seq_num < u32_max) where
    Ensures-visit_deferred :
        (frames : List (List ℕ)) (frame : List ℕ) (t : ℕ)
        → Ensures (Holds frames) (HoldsOrWaits frames) (visit_deferred env frame t)
    unfolding visit_deferred
    Ensures-visit_deferred frames frame t = by_result (env.codec.decode frame) refl
      where
        held : (p : Protocol S) → Holds frames p → HoldsOrWaits frames p
        held p h = inl h.1

        by_result :
            (r : Result DecodedMessage)
            → env.codec.decode frame ≡ r
            → Ensures (Holds frames) (HoldsOrWaits frames) (visit_decoded env t r)
        by_result (err e) q = Ensures-weaken held (Keeps-pure none)
        by_result (ok d) q =
            Ensures-bind _ _ held (Keeps-gets (λ p. p.session.next_in_seq)) λ next_in.
              Ensures-if (ltb d.msg_seq_num next_in) _ _
                (λ _. Ensures-weaken held (Keeps-pure none))
                λ _. Ensures-then-pure (HoldsOrWaits frames) (on_inbound env d t) some (
                  Ensures-on_inbound env (Steps-Holds frames) held (Ensures-on_gap env frames) d t
                    (decodes frame d q) (λ _. Restarts-Holds env frames loads))

    -- At a frame that is not there the loop stops, whatever the fuel.
    drain_from-stop :
        (fuel index t : ℕ) (event : ProtocolEvent) (p : Protocol S)
        → deferred_frame p index ≡ none
        → drain_from env fuel index t event p ≡ stop_drain index event (ok tt) p
    unfolding drain_from
    drain_from-stop zero index t event p e = refl
    drain_from-stop (suc fuel) index t event p e =
        ap (at_deferred env index t event (drain_from env fuel (index + 1) t) p) e

    module _ (rest rest' : ProtocolEvent → Protocol S → Drained S) where
      after_visit-ext :
          (index : ℕ) (event : ProtocolEvent) (r : Result (Option ProtocolEvent)) (q : Protocol S)
          → ((e : ProtocolEvent) → rest e q ≡ rest' e q)
          → after_visit index event r rest q ≡ after_visit index event r rest' q
      after_visit-ext index event (err e) q same = refl
      after_visit-ext index event (ok none) q same = same event
      after_visit-ext index event (ok (some inner)) q same =
          let merged = merge_event event inner in
          ap (λ x. if inner.disconnect then stop_drain index merged (ok tt) q else x) (same merged)

      at_deferred-ext :
          (index t : ℕ) (event : ProtocolEvent) (p : Protocol S) (o : Option (List ℕ))
          → ((frame : List ℕ) (e : ProtocolEvent)
              → let q = (visit_deferred env frame t p).0 in rest e q ≡ rest' e q)
          → at_deferred env index t event rest p o ≡ at_deferred env index t event rest' p o
      at_deferred-ext index t event p none same = refl
      at_deferred-ext index t event p (some frame) same =
          after_visit-ext (index + 1) event (visit_deferred env frame t p).1
            (visit_deferred env frame t p).0 (same frame)

    ended :
        (p : Protocol S) (index : ℕ)
        → length p.deferred_gap_frames ≤ index
        → deferred_frame p index ≡ none
    ended p index h =
        first_unless-end (is_present p.session.pending_resend) index p.deferred_gap_frames h

    shorter : {a b : List (List ℕ)} {n : ℕ} → a ≡ b → length b ≤ n → length a ≤ n
    shorter {n = n} e h = subst (λ x. length x ≤ n) (sym e) h

    -- Two fuels that are enough lead to the same.
    drain_from-enough :
        (fuel fuel' index t : ℕ) (event : ProtocolEvent) (p : Protocol S)
        → IsSound p
        → length p.deferred_gap_frames ≤ index + fuel
        → length p.deferred_gap_frames ≤ index + fuel'
        → drain_from env fuel index t event p ≡ drain_from env fuel' index t event p
    unfolding drain_from
    drain_from-enough zero fuel' index t event p sound h h' =
        sym (drain_from-stop fuel' index t event p (ended p index (omega arith)))
    drain_from-enough (suc fuel) zero index t event p sound h h' =
        drain_from-stop (suc fuel) index t event p (ended p index (omega arith))
    drain_from-enough (suc fuel) (suc fuel') index t event p sound h h' =
        at_deferred-ext (drain_from env fuel (index + 1) t) (drain_from env fuel' (index + 1) t)
          index t event p (deferred_frame p index)
          λ frame e.
            let q = (visit_deferred env frame t p).0 in
            let visited =
              (Ensures-visit_deferred p.deferred_gap_frames frame t).at p (sound, refl) in
            let kept =
              (Keeps-visit_deferred env Steps-IsSound (Restarts-IsSound env loads)
                  Transports-IsSound decodes frame t).at
                p sound in
            elim visited [
              | inl same ↦
                  drain_from-enough fuel fuel' (index + 1) t e q kept (shorter same (omega arith))
                    (shorter same (omega arith))
              | inr waits ↦
                  drain_from-stop fuel (index + 1) t e q (first_unless-waiting _ _ waits)
                  ∙ sym (drain_from-stop fuel' (index + 1) t e q (first_unless-waiting _ _ waits))
            ]

    -- From a valid session, the loop over the deferred frames ends within as many rounds as
    -- there are frames at its start: any fuel from that count on leads to the same state,
    -- event and status. The store loads numbers of 32 bits and frames decode to numbers below
    -- the largest one.
    pub drain_deferred_gap_frames-ends :
        (fuel t : ℕ) (event : ProtocolEvent) (p : Protocol S)
        → IsValid p.session
        → length p.deferred_gap_frames ≤ fuel
        → drain_from env fuel 0 t event p ≡ drain_deferred_gap_frames env t event p
    unfolding drain_deferred_gap_frames
    drain_deferred_gap_frames-ends fuel t event p sound enough =
        drain_from-enough fuel (length p.deferred_gap_frames) 0 t event p sound (omega arith)
          (omega arith)
