-- ===== src/Admin/Drain/Waits.antt =====
-- What a round of the loop over deferred frames leaves: the frames as they are, or a session that
-- waits for a resend, since `OnInbound` defers a frame only where it asks for the numbers before it.
use nimblefix.Common.{ℕ, true, Option, none, some, ◌≡◌, ◌⊎◌, inl, inr, refl, ap, arith, List}
use nimblefix.Session.State.{ResendRange}
use nimblefix.Session.Core.{
  allocate_outbound_seq, record_outbound_activity, record_inbound_activity,
}
use nimblefix.Action.{◌>>=◌, gets, pure, on_option}
use nimblefix.Action.Keeps.{Ensures, Keeps, Ensures-bind, Keeps-pure, Keeps-update}
use nimblefix.Admin.Data.{Environment, Protocol, DecodedMessage, no_event}
use nimblefix.Admin.Stored.{on_session}
use nimblefix.Admin.Sequence.{on_gap, ask_for, is_present}
use nimblefix.Admin.Keeps.{Encodes, Steps, Restarts, LoadsFit}
use nimblefix.Admin.Keeps.Sent.{Keeps-build_resend_request_frame}
use nimblefix.Admin.Numbers.{IsSound, Encodes-IsSound, Steps-IsSound, Restarts-IsSound}

abbrev pub Holds : {S : Type 0} → List (List ℕ) → Protocol S → Type 0
Holds frames p = IsSound p × (p.deferred_gap_frames ≡ frames)

abbrev pub IsWaiting : {S : Type 0} → Protocol S → Type 0
IsWaiting p = is_present p.session.pending_resend ≡ true

abbrev pub HoldsOrWaits : {S : Type 0} → List (List ℕ) → Protocol S → Type 0
HoldsOrWaits frames p = (p.deferred_gap_frames ≡ frames) ⊎ IsWaiting p

module _ {S : Type 0} where
  Encodes-Holds : (frames : List (List ℕ)) → Encodes {S = S} (Holds frames)
  Encodes-Holds frames =
      let e = Encodes-IsSound in
      record {
        stores = λ p s h. (e.stores p s h.0, h.1);
        allocates = λ p h. (e.allocates p h.0, h.1);
        records_out = λ p t h. (e.records_out p t h.0, h.1);
      }

  pub Steps-Holds : (frames : List (List ℕ)) → Steps {S = S} (Holds frames)
  Steps-Holds frames =
      let s = Steps-IsSound in
      record {
        encodes = Encodes-Holds frames;
        records_in = λ p t h. (s.records_in p t h.0, h.1);
        observes = λ p n fits h. (s.observes p n fits h.0, h.1);
        advances = λ p n fits h. (s.advances p n fits h.0, h.1);
        settles = λ p id h. (s.settles p id h.0, h.1);
        logs_out = λ p h. (s.logs_out p h.0, h.1);
        accepts = λ p h. (s.accepts p h.0, h.1);
        notes_test = λ p id t h. (s.notes_test p id t h.0, h.1);
        notes_logout = λ p t h. (s.notes_logout p t h.0, h.1);
      }

  pub Restarts-Holds :
      (env : Environment S) (frames : List (List ℕ))
      → LoadsFit env.methods
      → Restarts env (Holds frames)
  Restarts-Holds env frames loads =
      let r = Restarts-IsSound env loads in
      record {
        restores = λ p i o hi ho h. (r.restores p i o hi ho h.0, h.1);
        fits = λ p h. r.fits p h.0;
        loads = loads;
      }

  Encodes-IsWaiting : Encodes {S = S} IsWaiting
  unfolding allocate_outbound_seq record_outbound_activity
  Encodes-IsWaiting = record {
    stores = λ p s h. h;
    allocates = λ p h. ground arith;
    records_out = λ p t h. h;
  }

module _ {S : Type 0} (env : Environment S) where
  -- Once a gap is known, the session waits.
  Keeps-ask_for :
      (d : DecodedMessage) (t : ℕ) (range : ResendRange) → Keeps IsWaiting (ask_for env d t range)
  Keeps-ask_for d t range =
      Ensures-bind _ _ (λ p h. h)
        (Keeps-build_resend_request_frame env Encodes-IsWaiting range.begin_seq range.end_seq t)
        λ frame. Ensures-bind _ _ (λ p h. h) (Keeps-update _ (λ p h. h)) λ _. Keeps-pure _

  pub Ensures-on_gap :
      (frames : List (List ℕ)) (d : DecodedMessage) (t : ℕ)
      → Ensures (Holds frames) (HoldsOrWaits frames) (on_gap env d t)
  unfolding on_gap on_session gets pure ◌>>=◌ record_inbound_activity
  Ensures-on_gap frames d t = record {
    at = λ p h.
        at_range (record p { session = record p.session { last_inbound_ns = t } })
          p.session.pending_resend refl h.1;
  }
    where
      at_range :
          (q : Protocol S) (o : Option ResendRange)
          → q.session.pending_resend ≡ o
          → q.deferred_gap_frames ≡ frames
          → HoldsOrWaits frames (on_option o (pure no_event) (ask_for env d t) q).0
      at_range q none e h = inl h
      at_range q (some range) e h = inr ((Keeps-ask_for d t range).at q (ap is_present e))
