-- ===== src/Store/Memory/InOrder.antt =====
-- A valid memory store loads its outbound records in order, as replay needs.
use nimblefix.Common.{
  ℕ, ◌+◌, ◌≤◌, ◌≡◌, sym, ◌∙◌, Bool, List, [], ◌∷◌, arith, All, if◌then◌else◌, subst,
}
use nimblefix.Status.{ok, err, invalid_argument}
use nimblefix.Store.Record.{MessageRecord, RisingFrom, LoadsInOrder}
use nimblefix.Store.Memory.{
  StoredMessageRecord, MemoryStore, session, load_outbound_range, is_bad_range,
  memory_session_store,
}
use nimblefix.Store.Memory.View.{view, StoredFrom, AllValid, within}
use nimblefix.Store.Memory.Outbound.{outbound_records, load_outbound_range_lem}

within-RisingFrom :
    (session_id : ℕ) (arena : List ℕ) (b e m n : ℕ) (ss : List StoredMessageRecord)
    → StoredFrom n ss
    → m ≤ n
    → RisingFrom m (within b e (view session_id arena ss))
within-RisingFrom session_id arena b e m n [] o h = tt
within-RisingFrom session_id arena b e m n (s ∷ ss) o h = ground (
  arith,
  within-RisingFrom session_id arena b e m (s.seq_num + 1) ss,
  within-RisingFrom session_id arena b e (s.seq_num + 1) (s.seq_num + 1) ss,
)

within-from_begin :
    (session_id : ℕ) (arena : List ℕ) (b e n : ℕ) (ss : List StoredMessageRecord)
    → StoredFrom n ss
    → RisingFrom b (within b e (view session_id arena ss))
within-from_begin session_id arena b e n [] o = tt
within-from_begin session_id arena b e n (s ∷ ss) o = ground (
  arith,
  within-from_begin session_id arena b e (s.seq_num + 1) ss,
  within-RisingFrom session_id arena b e (s.seq_num + 1) (s.seq_num + 1) ss,
)

within-bounded : (b e : ℕ) (rs : List MessageRecord) → All (λ r. r.seq_num ≤ e) (within b e rs)
within-bounded b e [] = tt
within-bounded b e (r ∷ rs) = ground (arith, within-bounded b e rs)

result_of_if :
    (bad : Bool) (x y : List MessageRecord)
    → (if bad then err invalid_argument else ok x) ≡ ok y
    → x ≡ y
result_of_if bad x y h = ground arith

loaded-within :
    (m : MemoryStore) (session_id b e : ℕ) (rs : List MessageRecord)
    → AllValid m
    → load_outbound_range m session_id b e ≡ ok rs
    → within b e (outbound_records m session_id) ≡ rs
loaded-within m session_id b e rs v h =
    result_of_if (is_bad_range b e) _ rs (sym (load_outbound_range_lem m session_id b e v) ∙ h)

pub AllValid-LoadsInOrder : (m : MemoryStore) → AllValid m → LoadsInOrder memory_session_store m
AllValid-LoadsInOrder m v = record {
  rising = λ session_id b e rs h.
      subst (RisingFrom b) (loaded-within m session_id b e rs v h) (
        within-from_begin session_id _ b e 1 (session m session_id).outbound
          (v session_id).ordered);
  bounded = λ session_id b e rs h.
      subst (All (λ r. r.seq_num ≤ e)) (loaded-within m session_id b e rs v h)
        (within-bounded b e (outbound_records m session_id));
}
