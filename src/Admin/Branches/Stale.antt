-- ===== src/Admin/Branches/Stale.antt =====
-- A message that was received before.
use nimblefix.Common.{
  ℕ, ◌<◌, Bool, true, false, not, ◌||◌, Option, none, ◌≡◌, refl, ap, ◌∙◌, if◌then◌else◌,
}
use nimblefix.Status.{ok}
use nimblefix.Session.State.{active}
use nimblefix.Session.Core.{record_inbound_activity}
use nimblefix.Action.{Action, ◌>>=◌, pure, bind-ok}
use nimblefix.Admin.Data.{
  DecodedMessage, Environment, Protocol, ProtocolEvent, no_event, is_sequence_reset,
}
use nimblefix.Admin.Stored.{on_session}
use nimblefix.Admin.Frames.Success.{Saves, on_store-OnlyStores}
use nimblefix.Admin.Stored.{commit_inbound_persistence}
use nimblefix.Admin.Sequence.{on_stale}
use nimblefix.Admin.Inbound.{on_inbound}
use nimblefix.Admin.Branches.{IsRoutine, on_inbound-sequence, on_sequence-stale}

-- The protocol after a message that only counts as activity.
abbrev pub heard : {S : Type 0} → Protocol S → ℕ → Option S → Protocol S
heard p t o = record p { session = record p.session { last_inbound_ns = t }; store = o }

module _ {S : Type 0} (env : Environment S) (saves : Saves env.methods) where
  pub commit_inbound_persistence-ok :
      (d : DecodedMessage) (t : ℕ) (p : Protocol S)
      → (o : Option S) × (commit_inbound_persistence env d t p ≡ (heard p t o, ok tt))
  unfolding commit_inbound_persistence on_session record_inbound_activity ◌>>=◌
  commit_inbound_persistence-ok d t p =
      on_store-OnlyStores _ (heard p t p.store) (λ s. saves.inbound s _ _)

  -- For an active, initialized session with a store that saves, a message that is no Logon or
  -- SequenceReset, passes the header checks, and is below the expected number does nothing if
  -- it is a possible duplicate or stale numbers are tolerated: the event is empty, and only the
  -- activity and the store change.
  pub on_inbound-duplicate :
      (d : DecodedMessage) (t : ℕ) (p : Protocol S)
      → IsRoutine env d t
      → p.initialization_error ≡ none
      → p.session.state ≡ active
      → d.msg_seq_num < p.session.next_in_seq
      → is_sequence_reset d.msg_type ≡ false
      → (d.poss_dup || not env.config.validation_policy.reject_on_stale_msg_seq_num) ≡ true
      → (o : Option S) × (on_inbound env d t p ≡ (heard p t o, ok no_event))
  unfolding on_stale pure
  on_inbound-duplicate d t p routine start live low plain tolerated =
      let (o, committed) = commit_inbound_persistence-ok d t p in
      let nothing : Unit {0} → Action (Protocol S) ProtocolEvent = (λ _. pure no_event) in
      (
        o,
        on_inbound-sequence env d t p routine start
            ∙ on_sequence-stale env d t p routine live low
            ∙ ap (λ (m : Action (Protocol S) ProtocolEvent). m p)
                (second_branch _ _ _ _ _ plain tolerated)
            ∙ bind-ok (commit_inbound_persistence env d t) nothing {s = p} committed,
      )
    where
      second_branch :
          {A : Type 0} (a b : Bool) (x y z : A)
          → a ≡ false
          → b ≡ true
          → (if a then x else if b then y else z) ≡ y
      second_branch a b x y z ha hb = simp (ha, hb) refl
