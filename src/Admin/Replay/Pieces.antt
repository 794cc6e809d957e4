-- ===== src/Admin/Replay/Pieces.antt =====
-- `ReplayOutbound` in two steps: which numbers are answered by a gap fill and which by a stored frame,
-- and the encoding of these pieces in their order.
use nimblefix.Common.{
  ℕ, zero, suc, ◌+◌, ◌-◌, true, none, some, ◌≡◌, refl, ◌∙◌, ap, List, [], ◌∷◌, ltb, if◌then◌else◌,
  Bool-cases, Option-cases, inl, inr,
}
use nimblefix.Store.Record.{MessageRecord}
use nimblefix.Session.Replay.{skip_record}
use nimblefix.Common.Int.{pos}
use nimblefix.Session.Core.{record_outbound_activity}
use nimblefix.Action.{Action, pure, give, gets, ◌>>=◌, ◌>>◌}
use nimblefix.Admin.Data.{
  EncodedFrame, Environment, Protocol, sequence_reset, bool_value, int_value,
}
use nimblefix.Admin.Stored.{on_session, persist_recovery_state}
use nimblefix.Admin.Frames.{build_gap_fill_frame, encode_with, finalize_encoded_frame}
use nimblefix.Admin.Replay.{next_seq, skip_gap, replayable, replay_from}

-- A gap fill from a number up to the next one that counts, or a stored frame.
pub data Piece : Type 0 where
  fills : ℕ → ℕ → Piece
  sends : MessageRecord → Piece

unfoldable pub pieces : ℕ → ℕ → ℕ → List MessageRecord → List Piece
unfolding skip_gap
pieces zero bounded_end seq records = []
pieces (suc fuel) bounded_end seq records =
    if ltb bounded_end seq then [] else elim (replayable seq records) [
      | none ↦
          let (after, rest) = skip_gap (bounded_end + 1 - seq) bounded_end seq records in
          fills seq after ∷ pieces fuel bounded_end after rest
      | some r ↦ sends r ∷ pieces fuel bounded_end (next_seq seq) (skip_record seq records)
    ]

module _ {S : Type 0} (env : Environment S) where
  -- SequenceReset-GapFill under a number, with NewSeqNo, as a possible duplicate. It is not stored
  -- as a message; the activity and the numbers are.
  unfoldable pub fill_frame : ℕ → ℕ → ℕ → Action (Protocol S) EncodedFrame
  unfolding pure give ◌>>=◌ on_session record_outbound_activity persist_recovery_state
  fill_frame timestamp_ns from to = do
    bytes ← give (
        env.codec.encode
          (record {
            msg_type = sequence_reset;
            fields = (123, bool_value true) ∷ (36, int_value (pos to)) ∷ (43, bool_value true) ∷ [];
          })
          (record {
            msg_seq_num = from;
            poss_dup = true;
            orig_sending_time = [];
            envelope = record { sender_sub_id = ""; target_sub_id = ""; appl_ver_id = "" };
          }))
    on_session (λ c. record_outbound_activity c timestamp_ns)
    persist_recovery_state env
    pure (record { bytes = bytes; msg_type = sequence_reset; admin = true })

  build_gap_fill_frame-fill :
      (from to t : ℕ) → build_gap_fill_frame env from to t ≡ fill_frame t from to
  unfolding build_gap_fill_frame fill_frame encode_with finalize_encoded_frame pure give gets ◌>>=◌
      on_session record_outbound_activity
  build_gap_fill_frame-fill from to t = refl

  -- The frames of the pieces, up to the first that fails.
  unfoldable pub encode_pieces : ℕ → List Piece → Action (Protocol S) (List EncodedFrame)
  unfolding pure give ◌>>=◌ fill_frame
  encode_pieces timestamp_ns [] = pure []
  encode_pieces timestamp_ns (fills from to ∷ ps) = do
    frame ← fill_frame timestamp_ns from to
    frames ← encode_pieces timestamp_ns ps
    pure (frame ∷ frames)
  encode_pieces timestamp_ns (sends r ∷ ps) = do
    frame ← give (env.codec.replay r)
    frames ← encode_pieces timestamp_ns ps
    pure (frame ∷ frames)

  pub replay_from-pieces :
      (fuel e n t : ℕ) (rs : List MessageRecord)
      → replay_from env fuel e n rs t ≡ encode_pieces t (pieces fuel e n rs)
  unfolding replay_from pieces encode_pieces
  replay_from-pieces zero e n t rs = refl
  replay_from-pieces (suc fuel) e n t rs = elim (Bool-cases (ltb e n)) [
    | inl past ↦ rw past refl
    | inr here ↦ elim (Option-cases (replayable n rs)) [
      | inl gap ↦
          rw (here, gap)
            (let (after, rest) = skip_gap (e + 1 - n) e n rs in
              ap
                (λ m. build_gap_fill_frame env n after t >>= λ frame.
                  m >>= λ frames. pure (frame ∷ frames))
                (replay_from-pieces fuel e after t rest)
              ∙ ap
                  (λ m. m >>= λ frame.
                    encode_pieces t (pieces fuel e after rest) >>= λ frames. pure (frame ∷ frames))
                  (build_gap_fill_frame-fill n after t))
      | inr (r, sent) ↦
          rw (here, sent)
            (ap (λ m. give (env.codec.replay r) >>= λ frame. m >>= λ frames. pure (frame ∷ frames))
              (replay_from-pieces fuel e (next_seq n) t (skip_record n rs)))
    ]
  ]
