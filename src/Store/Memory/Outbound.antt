-- ===== src/Store/Memory/Outbound.antt =====
-- Outbound records: what a save changes and what a load returns.
use nimblefix.Common.{
  ℕ, ◌+◌, ◌≤◌, ◌<◌, ◌≡◌, ◌≢◌, refl, ap, ◌∙◌, List, [], ◌∷◌, ◌==◌, ◌&&◌, if◌then◌else◌, arith, All,
  some, Bool-cases, ==_iff, inl, inr, Option-cases,
}
use nimblefix.Common.Assoc.{lookup}
use nimblefix.Status.{ok, err, invalid_argument}
use nimblefix.Store.Record.{MessageRecord, find}
use nimblefix.Store.Memory.{
  StoredMessageRecord, SessionData, MemoryStore, session, put_session, make_stored_record,
  materialize_record, upsert_by_sequence, add_outbound, save_outbound, collect_outbound,
  load_outbound_range, is_bad_range,
}
use nimblefix.Store.Memory.View.{
  view, outbound_view, StoredFrom, IsValid, AllValid, within, materialize-make, view-append,
  Fits-append, Fits-make, session-put_session,
}

upsert-StoredFrom :
    (n : ℕ) (s : StoredMessageRecord) (ss : List StoredMessageRecord)
    → n ≤ s.seq_num
    → StoredFrom n ss
    → StoredFrom n (upsert_by_sequence s ss)
unfolding upsert_by_sequence
upsert-StoredFrom n s [] h o = (h, tt)
upsert-StoredFrom n s (x ∷ xs) h o = ground (arith, upsert-StoredFrom (x.seq_num + 1) s xs)

upsert-All :
    (P : StoredMessageRecord → Type 0) (s : StoredMessageRecord) (ss : List StoredMessageRecord)
    → P s
    → All P ss
    → All P (upsert_by_sequence s ss)
unfolding upsert_by_sequence
upsert-All P s [] p h = (p, tt)
upsert-All P s (x ∷ xs) p h = ground (arith, upsert-All P s xs)

-- On lists of records: an upsert of `s` is found under its own number, and all else as before.
find-upsert :
    (session_id : ℕ) (arena : List ℕ) (s : StoredMessageRecord) (ss : List StoredMessageRecord)
    (n : ℕ)
    → find n (view session_id arena (upsert_by_sequence s ss)) ≡ (
        if s.seq_num == n
        then some (materialize_record session_id arena s)
        else find n (view session_id arena ss))
unfolding find upsert_by_sequence
find-upsert session_id arena s [] n = refl
find-upsert session_id arena s (x ∷ xs) n = ground (arith, find-upsert session_id arena s xs n)

pub find-add_outbound :
    (d : SessionData) (r : MessageRecord) (n : ℕ)
    → IsValid d
    → find n (outbound_view r.session_id (add_outbound d r))
      ≡ (if r.seq_num == n then some r else find n (outbound_view r.session_id d))
find-add_outbound d r n v =
    find-upsert r.session_id (add_outbound d r).payload_arena (make_stored_record d.payload_arena r)
      d.outbound n
    ∙ rw (
      materialize-make d.payload_arena r,
      view-append r.session_id d.payload_arena r.payload d.outbound v.outbound_fits,
    )

pub add_outbound-IsValid :
    (d : SessionData) (r : MessageRecord) → 0 < r.seq_num → IsValid d → IsValid (add_outbound d r)
add_outbound-IsValid d r h v = record {
  outbound_fits =
      upsert-All _ _ d.outbound (Fits-make d.payload_arena r)
        (Fits-append d.payload_arena r.payload d.outbound v.outbound_fits);
  inbound_fits = Fits-append d.payload_arena r.payload d.inbound v.inbound_fits;
  ordered = upsert-StoredFrom 1 _ d.outbound h v.ordered;
}

within-above :
    (session_id : ℕ) (arena : List ℕ) (b e n : ℕ) (ss : List StoredMessageRecord)
    → StoredFrom n ss
    → e < n
    → within b e (view session_id arena ss) ≡ []
within-above session_id arena b e n [] o h = refl
within-above session_id arena b e n (s ∷ ss) o h =
    ground (arith, within-above session_id arena b e (s.seq_num + 1) ss)

-- The loop's early end loses nothing, since the numbers rise.
collect-within :
    (session_id : ℕ) (arena : List ℕ) (b e n : ℕ) (ss : List StoredMessageRecord)
    → StoredFrom n ss
    → collect_outbound session_id arena b e ss ≡ within b e (view session_id arena ss)
unfolding collect_outbound
collect-within session_id arena b e n [] o = refl
collect-within session_id arena b e n (s ∷ ss) o = ground (
  arith,
  collect-within session_id arena b e (s.seq_num + 1) ss,
  within-above session_id arena b e (s.seq_num + 1) ss,
)

-- The outbound records of a session, in the order of their numbers.
abbrev pub outbound_records : MemoryStore → ℕ → List MessageRecord
outbound_records m session_id = outbound_view session_id (session m session_id)

load_session :
    (m : MemoryStore) (session_id b e : ℕ)
    → let d = session m session_id in
      load_outbound_range m session_id b e ≡ (
        if is_bad_range b e
        then err invalid_argument
        else ok (collect_outbound session_id d.payload_arena b e d.outbound))
unfolding load_outbound_range collect_outbound
load_session m session_id b e = elim (Option-cases (lookup session_id m.sessions)) [
  | inl e' ↦ rw e'
  | inr (d, e') ↦ rw e'
]

-- A load from a valid store is refused exactly when the range has a bound 0 or is inverted, and
-- otherwise returns the session's outbound records whose numbers lie in the range, in order.
pub load_outbound_range_lem :
    (m : MemoryStore) (session_id b e : ℕ)
    → AllValid m
    → load_outbound_range m session_id b e ≡ (
        if is_bad_range b e
        then err invalid_argument
        else ok (within b e (outbound_records m session_id)))
load_outbound_range_lem m session_id b e v =
    load_session m session_id b e
    ∙ rw (
        collect-within session_id (session m session_id).payload_arena b e 1
          (session m session_id).outbound (v session_id).ordered)

pub save_outbound-ok :
    (m : MemoryStore) (r : MessageRecord)
    → r.session_id ≢ 0
    → r.seq_num ≢ 0
    → save_outbound m r
      ≡ (put_session m r.session_id (add_outbound (session m r.session_id) r), ok tt)
unfolding save_outbound
save_outbound-ok m r p q = ground arith

find-added :
    (m : MemoryStore) (r : MessageRecord) (session_id n : ℕ)
    → AllValid m
    → find n (
        outbound_view session_id (
          if r.session_id == session_id
          then add_outbound (session m r.session_id) r
          else session m session_id))
      ≡ (if r.session_id == session_id && r.seq_num == n
          then some r
          else find n (outbound_records m session_id))
find-added m r session_id n v = elim (Bool-cases (r.session_id == session_id)) [
  | inl same ↦
      let e : r.session_id ≡ session_id = (==_iff _ _).0 same in
      rw (same, ← e) (find-add_outbound (session m r.session_id) r n (v r.session_id))
  | inr other ↦ rw other
]

-- Saving a record with a session and a number makes it the one that is found under that session
-- and number; every other session and number keeps what it had.
pub find-save_outbound :
    (m : MemoryStore) (r : MessageRecord) (session_id n : ℕ)
    → AllValid m
    → r.session_id ≢ 0
    → r.seq_num ≢ 0
    → find n (outbound_records (save_outbound m r).0 session_id) ≡ (
        if r.session_id == session_id && r.seq_num == n
        then some r
        else find n (outbound_records m session_id))
find-save_outbound m r session_id n v p q = rw (save_outbound-ok m r p q) (
    ap (λ d. find n (outbound_view session_id d))
      (session-put_session m r.session_id session_id (add_outbound (session m r.session_id) r))
    ∙ find-added m r session_id n v)
