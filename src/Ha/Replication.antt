-- ===== src/Ha/Replication.antt =====
-- The snapshots of `HaController` and `InMemoryHaTransport`, in src/runtime/ha.cpp.
use nimblefix.Common.{
  ℕ, max, Bool, false, ◌||◌, Option, none, some, List, [], ◌∷◌, ◌++◌, ◌==◌, if◌then◌else◌,
}
use nimblefix.Status.{Result, Status, ok, err, invalid_argument, not_found}
use nimblefix.Ha.{SessionSequenceState, HaStateSnapshot, HaController}

-- What `TakeSnapshot` reads of the engine for one session.
pub record LiveSession : Type 0 where
  pub session_id : ℕ
  pub next_in_seq : ℕ
  pub next_out_seq : ℕ
  pub last_inbound_ns : ℕ
  pub last_outbound_ns : ℕ

abbrev pub live_state : LiveSession → SessionSequenceState
live_state s = record {
  session_id = s.session_id;
  next_inbound_seq = s.next_in_seq;
  next_outbound_seq = s.next_out_seq;
  last_activity_ns = max s.last_inbound_ns s.last_outbound_ns;
}

abbrev pub fresh_state : ℕ → SessionSequenceState
fresh_state id = record {
  session_id = id;
  next_inbound_seq = 1;
  next_outbound_seq = 1;
  last_activity_ns = 0;
}

abbrev pub map_live : List LiveSession → List SessionSequenceState
map_live [] = []
map_live (s ∷ rest) = live_state s ∷ map_live rest

-- `std::any_of` with the test on the id.
unfoldable pub has_session : ℕ → List SessionSequenceState → Bool
has_session id [] = false
has_session id (s ∷ rest) = s.session_id == id || has_session id rest

-- The loop over the counterparties, by their session ids.
unfoldable pub add_missing : List SessionSequenceState → List ℕ → List SessionSequenceState
unfolding has_session
add_missing states [] = states
add_missing states (id ∷ ids) =
    let skipped = add_missing states ids in
    let added = add_missing (states ++ (fresh_state id ∷ [])) ids in
    if has_session id states then skipped else added

-- `engine` is none when it has no configuration, and otherwise the sessions that
-- `QuerySessionSnapshots` returns and the ids of the configured counterparties.
unfoldable pub take_snapshot :
    ℕ → HaController → Option (List LiveSession × List ℕ) → Result HaStateSnapshot
unfolding add_missing
take_snapshot clock c none = err invalid_argument
take_snapshot clock c (some (live, ids)) = ok (record {
  snapshot_timestamp_ns = clock;
  generation = c.generation;
  sessions = add_missing (map_live live) ids;
})

-- `booted` says whether the engine has a configuration. The second component is the snapshot that
-- the engine is told of.
unfoldable pub apply_snapshot :
    Bool → HaController → HaStateSnapshot → HaController × Option HaStateSnapshot × Status
apply_snapshot booted c snapshot =
    if booted
    then (
      record c {
        last_applied_snapshot = some snapshot;
        last_applied_generation = snapshot.generation;
      },
      some snapshot,
      ok tt,
    )
    else (c, none, err invalid_argument)

-- `InMemoryHaTransport::latest_`.
abbrev pub Transport : Type 0
Transport = Option HaStateSnapshot

-- The function that `replicator` returns.
unfoldable pub replicate : Transport → HaStateSnapshot → Transport × Status
replicate latest snapshot = (some snapshot, ok tt)

-- The function that `receiver` returns.
unfoldable pub receive : Transport → Result HaStateSnapshot
receive none = err not_found
receive (some snapshot) = ok snapshot
