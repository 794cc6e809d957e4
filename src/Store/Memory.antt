-- ===== src/Store/Memory.antt =====
-- src/store/memory_store.cpp and include/public/nimblefix/store/memory_store.h: the store that keeps
-- its records in memory, their payloads one after another in an arena per session. `reserve` has no
-- visible effect. Sessions stand in an association list.
pub mod View
pub mod Outbound
pub mod Inbound
pub mod Rollover
pub mod Calls
pub mod InOrder
mod Examples
use nimblefix.Common.{
  ℕ, ◌+◌, Bool, true, false, ◌||◌, List, [], ◌∷◌, ◌++◌, Option, none, some, ◌==◌, ltb, leb, ◌&&◌,
  if◌then◌else◌, length, take, drop,
}
use nimblefix.Common.Assoc.{lookup, insert, erase, map_values, or_default}
use nimblefix.Status.{Result, Status, ok, err, invalid_argument, not_found, ◌>>=◌}
use nimblefix.Store.Record.{MessageRecord, SessionRecoveryState, SessionStore}

pub record StoredMessageRecord : Type 0 where
  pub seq_num : ℕ
  pub timestamp_ns : ℕ
  pub flags : ℕ
  pub payload_offset : ℕ
  pub payload_size : ℕ
  pub body_start_offset : ℕ

pub record SessionData : Type 0 where
  pub outbound : List StoredMessageRecord
  pub inbound : List StoredMessageRecord
  pub payload_arena : List ℕ
  pub recovery : SessionRecoveryState
  pub has_recovery : Bool

pub record MemoryStore : Type 0 where
  pub sessions : List (ℕ × SessionData)

-- The default `SessionData`.
abbrev pub no_data : SessionData
no_data = record {
  outbound = [];
  inbound = [];
  payload_arena = [];
  recovery = record {
    session_id = 0;
    next_in_seq = 1;
    next_out_seq = 1;
    last_inbound_ns = 0;
    last_outbound_ns = 0;
    active = false;
  };
  has_recovery = false;
}

abbrev pub empty : MemoryStore
empty = record { sessions = [] }

-- `sessions_[session_id]`, as it is read.
abbrev pub session : MemoryStore → ℕ → SessionData
session m session_id = or_default (lookup session_id m.sessions) no_data

abbrev pub put_session : MemoryStore → ℕ → SessionData → MemoryStore
put_session m session_id d = record { sessions = insert session_id d m.sessions }

abbrev pub validate_record_view : MessageRecord → Status
validate_record_view r =
    if r.session_id == 0
    then err invalid_argument
    else if r.seq_num == 0
    then err invalid_argument
    else ok tt

-- `MakeStoredRecord`, less the growth of the arena.
abbrev pub make_stored_record : List ℕ → MessageRecord → StoredMessageRecord
make_stored_record arena r = record {
  seq_num = r.seq_num;
  timestamp_ns = r.timestamp_ns;
  flags = r.flags;
  payload_offset = length arena;
  payload_size = length r.payload;
  body_start_offset = r.body_start_offset;
}

-- `MaterializeRecord` and `ViewRecord`.
abbrev pub materialize_record : ℕ → List ℕ → StoredMessageRecord → MessageRecord
materialize_record session_id arena s = record {
  session_id = session_id;
  seq_num = s.seq_num;
  timestamp_ns = s.timestamp_ns;
  flags = s.flags;
  payload = take s.payload_size (drop s.payload_offset arena);
  body_start_offset = s.body_start_offset;
}

-- `UpsertBySequence`: the place is that of `std::lower_bound`.
unfoldable pub upsert_by_sequence :
    StoredMessageRecord → List StoredMessageRecord → List StoredMessageRecord
upsert_by_sequence s [] = s ∷ []
upsert_by_sequence s (x ∷ xs) =
    let rest = upsert_by_sequence s xs in
    if ltb x.seq_num s.seq_num
    then x ∷ rest
    else if x.seq_num == s.seq_num
    then s ∷ xs
    else s ∷ x ∷ xs

abbrev pub add_outbound : SessionData → MessageRecord → SessionData
add_outbound d r = record d {
  outbound = upsert_by_sequence (make_stored_record d.payload_arena r) d.outbound;
  payload_arena = d.payload_arena ++ r.payload;
}

abbrev pub add_inbound : SessionData → MessageRecord → SessionData
add_inbound d r = record d {
  inbound = d.inbound ++ (make_stored_record d.payload_arena r ∷ []);
  payload_arena = d.payload_arena ++ r.payload;
}

-- A store after a validation: unchanged on an error.
abbrev pub after : Status → MemoryStore → MemoryStore → MemoryStore × Status
after (ok _) changed m = (changed, ok tt)
after (err e) changed m = (m, err e)

-- `SaveOutbound` and `SaveOutboundView`.
unfoldable pub save_outbound : MemoryStore → MessageRecord → MemoryStore × Status
save_outbound m r =
    after (validate_record_view r)
      (put_session m r.session_id (add_outbound (session m r.session_id) r)) m

-- `SaveInbound` and `SaveInboundView`.
unfoldable pub save_inbound : MemoryStore → MessageRecord → MemoryStore × Status
save_inbound m r =
    after (validate_record_view r)
      (put_session m r.session_id (add_inbound (session m r.session_id) r)) m

-- The loop of the three outbound loads, with its `continue` and `break`.
unfoldable pub collect_outbound : ℕ → List ℕ → ℕ → ℕ → List StoredMessageRecord → List MessageRecord
collect_outbound session_id arena begin_seq end_seq [] = []
collect_outbound session_id arena begin_seq end_seq (s ∷ ss) =
    let rest = collect_outbound session_id arena begin_seq end_seq ss in
    if ltb s.seq_num begin_seq
    then rest
    else if ltb end_seq s.seq_num
    then []
    else materialize_record session_id arena s ∷ rest

abbrev pub is_bad_range : ℕ → ℕ → Bool
is_bad_range begin_seq end_seq = begin_seq == 0 || end_seq == 0 || ltb end_seq begin_seq

-- `LoadOutboundRange` and both overloads of `LoadOutboundRangeViews`.
unfoldable pub load_outbound_range : MemoryStore → ℕ → ℕ → ℕ → Result (List MessageRecord)
load_outbound_range m session_id begin_seq end_seq =
    if is_bad_range begin_seq end_seq
    then err invalid_argument
    else elim (lookup session_id m.sessions) [
      | none ↦ ok []
      | some d ↦ ok (collect_outbound session_id d.payload_arena begin_seq end_seq d.outbound)
    ]

unfoldable pub collect_inbound : ℕ → List ℕ → ℕ → ℕ → List StoredMessageRecord → List MessageRecord
collect_inbound session_id arena begin_seq end_seq [] = []
collect_inbound session_id arena begin_seq end_seq (s ∷ ss) =
    let rest = collect_inbound session_id arena begin_seq end_seq ss in
    if leb begin_seq s.seq_num && leb s.seq_num end_seq
    then materialize_record session_id arena s ∷ rest
    else rest

-- `std::stable_sort` by number, as an insertion sort that puts an element before its equals.
unfoldable pub insert_stable : MessageRecord → List MessageRecord → List MessageRecord
insert_stable r [] = r ∷ []
insert_stable r (x ∷ xs) =
    let rest = insert_stable r xs in if ltb x.seq_num r.seq_num then x ∷ rest else r ∷ x ∷ xs

unfoldable pub stable_sort : List MessageRecord → List MessageRecord
stable_sort [] = []
stable_sort (r ∷ rs) = insert_stable r (stable_sort rs)

unfoldable pub load_inbound_range : MemoryStore → ℕ → ℕ → ℕ → Result (List MessageRecord)
load_inbound_range m session_id begin_seq end_seq =
    if is_bad_range begin_seq end_seq
    then err invalid_argument
    else elim (lookup session_id m.sessions) [
      | none ↦ ok []
      | some d ↦
          ok (stable_sort (collect_inbound session_id d.payload_arena begin_seq end_seq d.inbound))
    ]

-- `ReserveAdditionalSessionStorage` creates the session's entry.
unfoldable pub reserve_additional_session_storage : MemoryStore → ℕ → MemoryStore
reserve_additional_session_storage m session_id = put_session m session_id (session m session_id)

abbrev pub set_recovery : SessionData → SessionRecoveryState → SessionData
set_recovery d state = record d { recovery = state; has_recovery = true }

unfoldable pub save_recovery_state : MemoryStore → SessionRecoveryState → MemoryStore × Status
save_recovery_state m state =
    if state.session_id == 0
    then (m, err invalid_argument)
    else (put_session m state.session_id (set_recovery (session m state.session_id) state), ok tt)

unfoldable pub save_inbound_view_and_recovery_state :
    MemoryStore → MessageRecord → SessionRecoveryState → MemoryStore × Status
save_inbound_view_and_recovery_state m r state =
    after (validate_record_view r)
      (put_session m r.session_id (set_recovery (add_inbound (session m r.session_id) r) state)) m

-- A failed save ends the combined call; otherwise the recovery state is saved.
unfoldable pub then_save_recovery_state :
    MemoryStore × Status → SessionRecoveryState → MemoryStore × Status
then_save_recovery_state (m, ok _) state = save_recovery_state m state
then_save_recovery_state (m, err e) state = (m, err e)

-- `SessionStore::SaveOutboundViewAndRecoveryState`, which the class inherits.
unfoldable pub save_outbound_view_and_recovery_state :
    MemoryStore → MessageRecord → SessionRecoveryState → MemoryStore × Status
save_outbound_view_and_recovery_state m r state = then_save_recovery_state (save_outbound m r) state

unfoldable pub load_recovery_state : MemoryStore → ℕ → Result SessionRecoveryState
load_recovery_state m session_id = elim (lookup session_id m.sessions) [
  | none ↦ err not_found
  | some d ↦ if d.has_recovery then ok d.recovery else err not_found
]

unfoldable pub reset_session : MemoryStore → ℕ → MemoryStore × Status
reset_session m session_id = (record { sessions = erase session_id m.sessions }, ok tt)

-- `compact_records` of `Rollover`: the payloads that the records show are copied behind `fresh`.
unfoldable pub compact_records :
    List ℕ → List ℕ → List StoredMessageRecord → List ℕ × List StoredMessageRecord
compact_records arena fresh [] = (fresh, [])
compact_records arena fresh (s ∷ ss) =
    let fresh' = fresh ++ take s.payload_size (drop s.payload_offset arena) in
    let (final, rest) = compact_records arena fresh' ss in
    (final, record s { payload_offset = length fresh } ∷ rest)

unfoldable pub rollover_session : SessionData → SessionData
unfolding compact_records
rollover_session d =
    let (arena, out) = compact_records d.payload_arena [] d.outbound in
    let (arena', inb) = compact_records d.payload_arena arena d.inbound in
    record d { outbound = out; inbound = inb; payload_arena = arena' }

unfoldable pub rollover : MemoryStore → MemoryStore × Status
rollover m = (record { sessions = map_values rollover_session m.sessions }, ok tt)

-- The memory store as a `SessionStore`.
instance abbrev pub memory_session_store : SessionStore MemoryStore
memory_session_store = record {
  load_outbound_range = load_outbound_range;
  load_recovery_state = load_recovery_state;
}
