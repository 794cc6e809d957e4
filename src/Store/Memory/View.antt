-- ===== src/Store/Memory/View.antt =====
-- The records of a session as its clients see them, and the invariant of the arena.
use nimblefix.Common.{
  ℕ, subst, sym, ◌==◌, Bool-cases, inl, inr, ◌+◌, ◌≤◌, ◌≡◌, refl, ap, ap₂, ◌∙◌, List, [], ◌∷◌, ◌++◌,
  map, leb, ◌&&◌, if◌then◌else◌, arith, All, length, take-drop-append, drop-append, take-length,
  length-append,
}
use nimblefix.Common.Assoc.{lookup-insert}
use nimblefix.Store.Record.{MessageRecord}
use nimblefix.Store.Memory.{
  StoredMessageRecord, SessionData, make_stored_record, materialize_record, MemoryStore, session,
  put_session,
}

-- The records with their payloads.
abbrev pub view : ℕ → List ℕ → List StoredMessageRecord → List MessageRecord
view session_id arena = map (materialize_record session_id arena)

abbrev pub outbound_view : ℕ → SessionData → List MessageRecord
outbound_view session_id d = view session_id d.payload_arena d.outbound

abbrev pub inbound_view : ℕ → SessionData → List MessageRecord
inbound_view session_id d = view session_id d.payload_arena d.inbound

-- The payload of a stored record lies inside the arena.
abbrev pub Fits : List ℕ → StoredMessageRecord → Type 0
Fits arena s = s.payload_offset + s.payload_size ≤ length arena

-- The numbers rise strictly along the list, from `n` on.
abbrev pub StoredFrom : ℕ → List StoredMessageRecord → Type 0
StoredFrom n [] = Unit {0}
StoredFrom n (s ∷ ss) = (n ≤ s.seq_num) × StoredFrom (s.seq_num + 1) ss

pub record IsValid (d : SessionData) : Type 0 where
  pub outbound_fits : All (Fits d.payload_arena) d.outbound
  pub inbound_fits : All (Fits d.payload_arena) d.inbound
  pub ordered : StoredFrom 1 d.outbound

pub materialize-append :
    (session_id : ℕ) (arena more : List ℕ) (s : StoredMessageRecord)
    → Fits arena s
    → materialize_record session_id (arena ++ more) s ≡ materialize_record session_id arena s
materialize-append session_id arena more s h =
    ap
      (λ bytes. record {
        session_id = session_id;
        seq_num = s.seq_num;
        timestamp_ns = s.timestamp_ns;
        flags = s.flags;
        payload = bytes;
        body_start_offset = s.body_start_offset;
      })
      (take-drop-append s.payload_offset s.payload_size arena more h)

pub materialize-make :
    (arena : List ℕ) (r : MessageRecord)
    → materialize_record r.session_id (arena ++ r.payload) (make_stored_record arena r) ≡ r
materialize-make arena r =
    ap (λ bytes. record r { payload = bytes }) (rw drop-append (take-length r.payload))

pub view-append :
    (session_id : ℕ) (arena more : List ℕ) (ss : List StoredMessageRecord)
    → All (Fits arena) ss
    → view session_id (arena ++ more) ss ≡ view session_id arena ss
view-append session_id arena more [] h = refl
view-append session_id arena more (s ∷ ss) h =
    ap₂ ◌∷◌ (materialize-append session_id arena more s h.0)
      (view-append session_id arena more ss h.1)

pub Fits-append :
    (arena more : List ℕ) (ss : List StoredMessageRecord)
    → All (Fits arena) ss
    → All (Fits (arena ++ more)) ss
Fits-append arena more [] h = tt
Fits-append arena more (s ∷ ss) h =
    (omega (arith, length-append arena more), Fits-append arena more ss h.1)

pub Fits-make :
    (arena : List ℕ) (r : MessageRecord) → Fits (arena ++ r.payload) (make_stored_record arena r)
Fits-make arena r = omega (arith, length-append arena r.payload)

-- The records with numbers in a range, in their order.
abbrev pub within : ℕ → ℕ → List MessageRecord → List MessageRecord
within begin_seq end_seq [] = []
within begin_seq end_seq (r ∷ rs) =
    let rest = within begin_seq end_seq rs in
    if leb begin_seq r.seq_num && leb r.seq_num end_seq then r ∷ rest else rest

-- Every session of the store is valid.
abbrev pub AllValid : MemoryStore → Type 0
AllValid m = (session_id : ℕ) → IsValid (session m session_id)

pub session-put_session :
    (m : MemoryStore) (k j : ℕ) (d : SessionData)
    → session (put_session m k d) j ≡ (if k == j then d else session m j)
session-put_session m k j d = ground (arith, lookup-insert k j d m.sessions)

-- A valid session put into a valid store.
pub put_session-AllValid :
    (m : MemoryStore) (k : ℕ) (d : SessionData)
    → IsValid d
    → AllValid m
    → AllValid (put_session m k d)
put_session-AllValid m k d vd vm j = elim (Bool-cases (k == j)) [
  | inl same ↦ subst IsValid (sym (session-put_session m k j d ∙ rw same)) vd
  | inr other ↦ subst IsValid (sym (session-put_session m k j d ∙ rw other)) (vm j)
]
