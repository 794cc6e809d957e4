-- ===== src/Session/Replay.antt =====
-- src/session/resend_recovery.cpp, `BuildReplayPlan`: which numbers of a resend request are answered
-- by stored messages and which by gap fills. A position in the loaded records is the list of those
-- from it on. The loop takes fuel; `none` means that it ran out.
pub mod Loop
pub mod Chunks
pub mod Right
pub mod Plan
pub mod FromMemory
mod Examples
use nimblefix.Common.{
  ℕ, zero, suc, ◌+◌, ◌-◌, ◌%◌, ◌^◌, Bool, true, false, ◌||◌, List, [], ◌∷◌, ◌++◌, Option, none,
  some, ◌==◌, ltb, leb, if◌then◌else◌,
}
use nimblefix.Status.{Result, ok, err, invalid_argument, ◌>>=◌}
use nimblefix.Store.Record.{
  MessageRecord, SessionRecoveryState, SessionStore, is_admin, is_gap_fill,
}

-- `ReplayActionKind`.
pub data ReplayActionKind : Type 0 where
  replay gap_fill : ReplayActionKind

abbrev pub same_kind : ReplayActionKind → ReplayActionKind → Bool
same_kind replay replay = true
same_kind gap_fill gap_fill = true
same_kind _ _ = false

pub record ReplayChunk : Type 0 where
  pub kind : ReplayActionKind
  pub begin_seq : ℕ
  pub end_seq : ℕ
  pub messages : List MessageRecord

pub record ReplayPlan : Type 0 where
  pub session_id : ℕ
  pub request_begin_seq : ℕ
  pub request_end_seq : ℕ
  pub chunks : List ReplayChunk

abbrev pub no_chunk : ReplayChunk
no_chunk = record { kind = gap_fill; begin_seq = 0; end_seq = 0; messages = [] }

-- The variables of the loop: the chunks of the plan, `current`, and the records not yet met.
pub record Progress : Type 0 where
  pub chunks : List ReplayChunk
  pub current : ReplayChunk
  pub records : List MessageRecord

abbrev pub flush_chunk : Progress → Progress
flush_chunk p =
    if p.current.begin_seq == 0 || p.current.end_seq == 0
    then p
    else record p { chunks = p.chunks ++ (p.current ∷ []); current = no_chunk }

-- `record`: the next record, if it has the number.
abbrev pub next_record : ℕ → List MessageRecord → Option MessageRecord
next_record seq_num [] = none
next_record seq_num (r ∷ rs) = if r.seq_num == seq_num then some r else none

abbrev pub should_gap_fill : Option MessageRecord → Bool
should_gap_fill none = true
should_gap_fill (some r) = is_admin r || is_gap_fill r

abbrev pub next_kind : Option MessageRecord → ReplayActionKind
next_kind r = if should_gap_fill r then gap_fill else replay

-- The records after `++record_index`, if the next one had the number.
abbrev pub skip_record : ℕ → List MessageRecord → List MessageRecord
skip_record seq_num [] = []
skip_record seq_num (r ∷ rs) = if r.seq_num == seq_num then rs else r ∷ rs

-- The message that is added to the chunk, as a list.
abbrev pub replayed : Option MessageRecord → List MessageRecord
replayed none = []
replayed (some r) = if is_admin r || is_gap_fill r then [] else r ∷ []

abbrev pub open_chunk : Progress → ReplayActionKind → ℕ → Progress
open_chunk p kind seq_num = record p {
  current = record {
    kind = kind;
    begin_seq = seq_num;
    end_seq = seq_num;
    messages = p.current.messages;
  };
}

abbrev pub extend_chunk : Progress → ℕ → Progress
extend_chunk p seq_num = record p {
  current = record {
    kind = p.current.kind;
    begin_seq = p.current.begin_seq;
    end_seq = seq_num;
    messages = p.current.messages;
  };
}

-- The first branching of the body: which chunk the number goes to.
unfoldable pub place : Progress → ReplayActionKind → ℕ → Progress
place p kind seq_num =
    if p.current.begin_seq == 0
    then open_chunk p kind seq_num
    else if same_kind p.current.kind kind
    then extend_chunk p seq_num
    else open_chunk (flush_chunk p) kind seq_num

-- The body of the loop.
unfoldable pub visit : Progress → ℕ → Progress
visit p seq_num =
    let found = next_record seq_num p.records in
    let placed = place p (next_kind found) seq_num in
    record {
      chunks = placed.chunks;
      current = record {
        kind = placed.current.kind;
        begin_seq = placed.current.begin_seq;
        end_seq = placed.current.end_seq;
        messages = placed.current.messages ++ replayed found;
      };
      records = skip_record seq_num p.records;
    }

-- `for (seq_num = begin_seq; seq_num <= effective_end_seq; ++seq_num)`, over `std::uint32_t`.
unfoldable pub visit_all : ℕ → ℕ → ℕ → Progress → Option Progress
visit_all zero seq_num end_seq p = none
visit_all (suc fuel) seq_num end_seq p =
    let rest = visit_all fuel ((seq_num + 1) % 2 ^ 32) end_seq (visit p seq_num) in
    if leb seq_num end_seq then rest else some p

abbrev pub start : List MessageRecord → Progress
start rs = record { chunks = []; current = no_chunk; records = rs }

-- The end of the function.
abbrev pub finish : ℕ → ℕ → ℕ → Option Progress → Option (Result ReplayPlan)
finish session_id begin_seq end_seq none = none
finish session_id begin_seq end_seq (some p) = some (
    ok (record {
      session_id = session_id;
      request_begin_seq = begin_seq;
      request_end_seq = end_seq;
      chunks = (flush_chunk p).chunks;
    }))

module _ {S : Type 0} (store : SessionStore S) where
  -- From the load on, with the effective end.
  unfoldable pub build_from_records : ℕ → S → ℕ → ℕ → ℕ → Option (Result ReplayPlan)
  build_from_records fuel s session_id begin_seq end_seq =
      if ltb end_seq begin_seq
      then some (err invalid_argument)
      else elim (store.load_outbound_range s session_id begin_seq end_seq) [
        | ok rs ↦ finish session_id begin_seq end_seq (visit_all fuel begin_seq end_seq (start rs))
        | err e ↦ some (err e)
      ]

  -- The end 0 stands for the last number that was sent.
  unfoldable pub build_open_ended : ℕ → S → ℕ → ℕ → Option (Result ReplayPlan)
  unfolding build_from_records
  build_open_ended fuel s session_id begin_seq = elim (store.load_recovery_state s session_id) [
    | ok state ↦
        if leb state.next_out_seq 1
        then some (
            ok (record {
              session_id = session_id;
              request_begin_seq = begin_seq;
              request_end_seq = 0;
              chunks = [];
            }))
        else build_from_records fuel s session_id begin_seq (state.next_out_seq - 1)
    | err e ↦ some (err e)
  ]

  unfoldable pub build_replay_plan : ℕ → S → ℕ → ℕ → ℕ → Option (Result ReplayPlan)
  build_replay_plan fuel s session_id begin_seq end_seq =
      if session_id == 0
      then some (err invalid_argument)
      else if begin_seq == 0
      then some (err invalid_argument)
      else if end_seq == 0
      then build_open_ended fuel s session_id begin_seq
      else build_from_records fuel s session_id begin_seq end_seq
