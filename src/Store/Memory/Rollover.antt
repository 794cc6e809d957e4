-- ===== src/Store/Memory/Rollover.antt =====
-- `Rollover`: compaction of the arenas changes no record that a client can load.
use nimblefix.Common.{
  ℕ, ◌+◌, ◌≡◌, refl, sym, ap, ap₂, ◌∙◌, List, [], ◌∷◌, ◌++◌, arith, All, length, take, drop,
  length-append, append_assoc, append-nil, drop-append, take-append, length-take-drop, Option-cases,
  inl, inr, subst,
}
use nimblefix.Common.Assoc.{lookup, lookup-map_values}
use nimblefix.Store.Memory.{
  StoredMessageRecord, SessionData, MemoryStore, session, materialize_record, compact_records,
  rollover_session, rollover,
}
use nimblefix.Store.Memory.View.{
  view, outbound_view, inbound_view, Fits, StoredFrom, IsValid, AllValid, Fits-append,
}

-- The bytes that a record shows, and those of a list of records.
abbrev pub bytes : List ℕ → StoredMessageRecord → List ℕ
bytes arena s = take s.payload_size (drop s.payload_offset arena)

abbrev pub live_bytes : List ℕ → List StoredMessageRecord → List ℕ
live_bytes arena [] = []
live_bytes arena (s ∷ ss) = bytes arena s ++ live_bytes arena ss

compact-arena :
    (arena fresh : List ℕ) (ss : List StoredMessageRecord)
    → (compact_records arena fresh ss).0 ≡ fresh ++ live_bytes arena ss
unfolding compact_records
compact-arena arena fresh [] = rw append-nil
compact-arena arena fresh (s ∷ ss) =
    compact-arena arena (fresh ++ bytes arena s) ss
    ∙ append_assoc fresh (bytes arena s) (live_bytes arena ss)

-- A record moved to its bytes shows them still.
moved :
    (session_id : ℕ) (arena fresh rest : List ℕ) (s : StoredMessageRecord)
    → Fits arena s
    → materialize_record session_id
        (fresh ++ (bytes arena s ++ rest))
        (record s { payload_offset = length fresh })
      ≡ materialize_record session_id arena s
moved session_id arena fresh rest s h =
    let shown : take s.payload_size (bytes arena s ++ rest) ≡ bytes arena s =
      ap (λ k. take k (bytes arena s ++ rest))
        (sym (length-take-drop s.payload_offset s.payload_size arena h))
      ∙ take-append (bytes arena s) rest in
    ap
      (λ p. record {
        session_id = session_id;
        seq_num = s.seq_num;
        timestamp_ns = s.timestamp_ns;
        flags = s.flags;
        payload = p;
        body_start_offset = s.body_start_offset;
      })
      (rw drop-append shown)

compact-view :
    (session_id : ℕ) (arena fresh tail : List ℕ) (ss : List StoredMessageRecord)
    → All (Fits arena) ss
    → view session_id
        ((compact_records arena fresh ss).0 ++ tail)
        (compact_records arena fresh ss).1
      ≡ view session_id arena ss
unfolding compact_records
compact-view session_id arena fresh tail [] h = refl
compact-view session_id arena fresh tail (s ∷ ss) h =
    ap₂ ◌∷◌
      (ap
          (λ a.
            materialize_record session_id (a ++ tail) (record s { payload_offset = length fresh }))
          (compact-arena arena fresh (s ∷ ss))
        ∙ rw (append_assoc, append_assoc)
            (moved session_id arena fresh (live_bytes arena ss ++ tail) s h.0))
      (compact-view session_id arena (fresh ++ bytes arena s) tail ss h.1)

compact-Fits :
    (arena fresh : List ℕ) (ss : List StoredMessageRecord)
    → All (Fits arena) ss
    → All (Fits (compact_records arena fresh ss).0) (compact_records arena fresh ss).1
unfolding compact_records
compact-Fits arena fresh [] h = tt
compact-Fits arena fresh (s ∷ ss) h = (
  omega (
    arith,
    ap length (compact-arena arena fresh (s ∷ ss)),
    length-append fresh (bytes arena s ++ live_bytes arena ss),
    length-append (bytes arena s) (live_bytes arena ss),
    length-take-drop s.payload_offset s.payload_size arena h.0,
  ),
  compact-Fits arena (fresh ++ bytes arena s) ss h.1,
)

compact-StoredFrom :
    (arena fresh : List ℕ) (n : ℕ) (ss : List StoredMessageRecord)
    → StoredFrom n ss
    → StoredFrom n (compact_records arena fresh ss).1
unfolding compact_records
compact-StoredFrom arena fresh n [] o = tt
compact-StoredFrom arena fresh n (s ∷ ss) o =
    (o.0, compact-StoredFrom arena (fresh ++ bytes arena s) (s.seq_num + 1) ss o.1)

-- A compacted arena ends with what a later compaction appends.
compact-extends :
    (arena fresh : List ℕ) (ss : List StoredMessageRecord)
    → All (Fits arena) ss
    → All (Fits (fresh ++ live_bytes arena ss)) (compact_records arena fresh ss).1
compact-extends arena fresh ss h =
    subst (λ a. All (Fits a) (compact_records arena fresh ss).1) (compact-arena arena fresh ss)
      (compact-Fits arena fresh ss h)

module _ (session_id : ℕ) (d : SessionData) (v : IsValid d) where
  -- The arena that `outbound` leaves to `inbound`.
  abbrev first : List ℕ
  first = (compact_records d.payload_arena [] d.outbound).0

  second-arena :
      (compact_records d.payload_arena first d.inbound).0
      ≡ first ++ live_bytes d.payload_arena d.inbound
  second-arena = compact-arena d.payload_arena first d.inbound

  pub rollover_session-outbound :
      outbound_view session_id (rollover_session d) ≡ outbound_view session_id d
  unfolding rollover_session
  rollover_session-outbound =
      ap (λ a. view session_id a (compact_records d.payload_arena [] d.outbound).1) second-arena
      ∙ compact-view session_id d.payload_arena [] (live_bytes d.payload_arena d.inbound) d.outbound
          v.outbound_fits

  pub rollover_session-inbound :
      inbound_view session_id (rollover_session d) ≡ inbound_view session_id d
  unfolding rollover_session
  rollover_session-inbound =
      ap (λ a. view session_id a (compact_records d.payload_arena first d.inbound).1)
        (sym (append-nil _))
      ∙ compact-view session_id d.payload_arena first [] d.inbound v.inbound_fits

  pub rollover_session-IsValid : IsValid (rollover_session d)
  unfolding rollover_session
  rollover_session-IsValid = record {
    outbound_fits =
        subst (λ a. All (Fits a) (compact_records d.payload_arena [] d.outbound).1)
          (sym second-arena)
          (Fits-append first (live_bytes d.payload_arena d.inbound) _
            (compact-Fits d.payload_arena [] d.outbound v.outbound_fits));
    inbound_fits = compact-Fits d.payload_arena first d.inbound v.inbound_fits;
    ordered = compact-StoredFrom d.payload_arena [] 1 d.outbound v.ordered;
  }

  -- Exactly the payloads of the records are left.
  pub rollover_session-arena :
      (rollover_session d).payload_arena
      ≡ live_bytes d.payload_arena d.outbound ++ live_bytes d.payload_arena d.inbound
  unfolding rollover_session
  rollover_session-arena =
      second-arena
      ∙ ap (λ a. a ++ live_bytes d.payload_arena d.inbound)
          (compact-arena d.payload_arena [] d.outbound)

session-rollover :
    (m : MemoryStore) (session_id : ℕ)
    → session (rollover m).0 session_id ≡ rollover_session (session m session_id)
unfolding rollover
session-rollover m session_id = elim (Option-cases (lookup session_id m.sessions)) [
  | inl e ↦ rw (lookup-map_values, e) (unfold rollover_session in refl)
  | inr (d, e) ↦ rw (lookup-map_values, e)
]

-- Rolling a valid store over keeps it valid, keeps every session's outbound and inbound records
-- with their payloads and its recovery state, and leaves in each arena only the payloads of the
-- outbound records followed by those of the inbound ones.
pub rollover_lem :
    (m : MemoryStore) (session_id : ℕ)
    → AllValid m
    → let d = session m session_id in
      let d' = session (rollover m).0 session_id in
      IsValid d'
      × (outbound_view session_id d' ≡ outbound_view session_id d)
      × (inbound_view session_id d' ≡ inbound_view session_id d)
      × (d'.recovery ≡ d.recovery)
      × (d'.has_recovery ≡ d.has_recovery)
      × (d'.payload_arena
          ≡ live_bytes d.payload_arena d.outbound ++ live_bytes d.payload_arena d.inbound)
rollover_lem m session_id v =
    let d = session m session_id in
    rw (session-rollover m session_id) (
      rollover_session-IsValid session_id d (v session_id),
      rollover_session-outbound session_id d (v session_id),
      rollover_session-inbound session_id d (v session_id),
      unfold rollover_session in refl,
      unfold rollover_session in refl,
      rollover_session-arena session_id d (v session_id),
    )
