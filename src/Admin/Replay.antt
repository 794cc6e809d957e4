-- ===== src/Admin/Replay.antt =====
-- `ReplayOutbound` and `ReplayCounterpartyExpectedRange` of src/session/admin_protocol.cpp: the
-- answer to a request for frames that were sent before. A position in the loaded records is the list
-- of those from it on.
pub mod Pieces
pub mod Covered
use nimblefix.Common.{
  ℕ, zero, suc, ◌+◌, ◌-◌, ◌%◌, ◌^◌, Bool, true, false, ◌||◌, Option, none, some, List, [], ◌∷◌,
  ◌++◌, ◌==◌, ltb, leb, if◌then◌else◌,
}
use nimblefix.Status.{Result, Status, ok, err}
use nimblefix.Store.Record.{MessageRecord, is_admin}
use nimblefix.Session.State.{u32_max}
use nimblefix.Session.Replay.{next_record, skip_record}
use nimblefix.Action.{Action, pure, give, gets, ◌>>=◌, ◌>>◌, on_option}
use nimblefix.Admin.Data.{EncodedFrame, ProtocolEvent, Environment, Protocol}
use nimblefix.Admin.Frames.{build_gap_fill_frame}

-- `++seq`.
abbrev pub next_seq : ℕ → ℕ
next_seq seq = (seq + 1) % 2 ^ 32

-- The inner loop: past the numbers without a record, or with an administrative one. The fuel is the
-- count of the numbers up to the end.
unfoldable pub skip_gap : ℕ → ℕ → ℕ → List MessageRecord → ℕ × List MessageRecord
skip_gap zero bounded_end seq records = (seq, records)
skip_gap (suc fuel) bounded_end seq records =
    if ltb bounded_end seq then (seq, records) else elim (next_record seq records) [
      | none ↦ skip_gap fuel bounded_end (next_seq seq) records
      | some r ↦ elim (is_admin r) [
        | true ↦ skip_gap fuel bounded_end (next_seq seq) (skip_record seq records)
        | false ↦ (seq, records)
      ]
    ]

abbrev pub application_of : Option MessageRecord → Option MessageRecord
application_of none = none
application_of (some r) = if is_admin r then none else some r

-- The record that is replayed under the number, if there is one.
abbrev pub replayable : ℕ → List MessageRecord → Option MessageRecord
replayable seq records = application_of (next_record seq records)

-- `next_out_seq - 1U`, which wraps at 0.
abbrev pub last_sent : ℕ → ℕ
last_sent next_out = if next_out == 0 then u32_max else next_out - 1

-- `bounded_end`.
abbrev pub bound_end : ℕ → ℕ → ℕ
bound_end end_seq next_out =
    if end_seq == 0 || leb next_out end_seq then last_sent next_out else end_seq

module _ {S : Type 0} (env : Environment S) where
  -- The loop, with the frames that it adds. The fuel is the count of the numbers up to the end.
  unfoldable pub replay_from :
      ℕ → ℕ → ℕ → List MessageRecord → ℕ → Action (Protocol S) (List EncodedFrame)
  unfolding pure give ◌>>=◌ skip_gap build_gap_fill_frame
  replay_from zero bounded_end seq records timestamp_ns = pure []
  replay_from (suc fuel) bounded_end seq records timestamp_ns =
      if ltb bounded_end seq
      then pure []
      else on_option (replayable seq records)
          (let (after, rest) = skip_gap (bounded_end + 1 - seq) bounded_end seq records in
            do
              frame ← build_gap_fill_frame env seq after timestamp_ns
              frames ← replay_from fuel bounded_end after rest timestamp_ns
              pure (frame ∷ frames))
          (λ r. do
            frame ← give (env.codec.replay r)
            frames ←
                replay_from fuel bounded_end (next_seq seq) (skip_record seq records) timestamp_ns
            pure (frame ∷ frames))

  -- `LoadOutboundRangeViews`; without a store there is nothing to replay.
  abbrev pub load_range : ℕ → ℕ → Protocol S → Option (Result (List MessageRecord))
  load_range begin_seq end_seq p = elim p.store [
    | none ↦ none
    | some s ↦
        some (env.methods.load_outbound_range s p.session.config.session_id begin_seq end_seq)
  ]

  unfoldable pub replay_outbound : ℕ → ℕ → ℕ → Action (Protocol S) (List EncodedFrame)
  unfolding pure give gets ◌>>=◌ replay_from
  replay_outbound begin_seq end_seq timestamp_ns = do
    next_out ← gets (λ p. p.session.next_out_seq)
    let bounded_end = bound_end end_seq next_out
    loaded ← gets (load_range begin_seq bounded_end)
    on_option loaded (pure []) (λ range.
        if ltb bounded_end begin_seq || bounded_end == 0 then pure [] else (do
          records ← give range
          replay_from (bounded_end + 1 - begin_seq) bounded_end begin_seq records timestamp_ns))

  unfoldable pub replay_counterparty_expected_range :
      ℕ → ℕ → ℕ → ProtocolEvent → Action (Protocol S) ProtocolEvent
  unfolding pure ◌>>=◌ replay_outbound
  replay_counterparty_expected_range counterparty_next_expected pre_logon_next_out timestamp_ns
        event =
      if leb pre_logon_next_out counterparty_next_expected then pure event else (do
        frames ← replay_outbound counterparty_next_expected (pre_logon_next_out - 1) timestamp_ns
        pure (record event { outbound_frames = event.outbound_frames ++ frames }))
