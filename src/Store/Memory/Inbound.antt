-- ===== src/Store/Memory/Inbound.antt =====
-- Inbound records: appended as they come, loaded in a stable order.
use nimblefix.Common.{
  ℕ, ◌≤◌, ◌≡◌, ◌≢◌, refl, ap, ◌∙◌, List, [], ◌∷◌, ◌++◌, ◌==◌, if◌then◌else◌, arith, All-append,
  Bool, Bool-cases, inl, inr, Option-cases, ==_iff, subst, sym,
}
use mathlib.Core.List.{map-append}
use nimblefix.Common.Assoc.{lookup}
use nimblefix.Status.{ok, err, invalid_argument}
use nimblefix.Store.Record.{MessageRecord}
use nimblefix.Store.Memory.{
  StoredMessageRecord, SessionData, MemoryStore, session, put_session, make_stored_record,
  add_inbound, save_inbound, collect_inbound, insert_stable, stable_sort, load_inbound_range,
  is_bad_range,
}
use nimblefix.Store.Memory.View.{
  view, inbound_view, IsValid, AllValid, within, materialize-make, view-append, Fits-append,
  Fits-make, session-put_session,
}

-- The numbers never fall along the list, from `n` on.
abbrev pub Ordered : ℕ → List MessageRecord → Type 0
Ordered n [] = Unit {0}
Ordered n (r ∷ rs) = (n ≤ r.seq_num) × Ordered r.seq_num rs

-- The records with number `n`, in their order.
unfoldable pub numbered : ℕ → List MessageRecord → List MessageRecord
numbered n [] = []
numbered n (r ∷ rs) = let rest = numbered n rs in if r.seq_num == n then r ∷ rest else rest

insert-Ordered :
    (n : ℕ) (r : MessageRecord) (rs : List MessageRecord)
    → n ≤ r.seq_num
    → Ordered n rs
    → Ordered n (insert_stable r rs)
unfolding insert_stable
insert-Ordered n r [] h o = (h, tt)
insert-Ordered n r (x ∷ xs) h o = ground (arith, insert-Ordered x.seq_num r xs)

sort-Ordered : (rs : List MessageRecord) → Ordered 0 (stable_sort rs)
unfolding stable_sort
sort-Ordered [] = tt
sort-Ordered (r ∷ rs) = insert-Ordered 0 r (stable_sort rs) (omega arith) (sort-Ordered rs)

numbered-insert :
    (n : ℕ) (r : MessageRecord) (rs : List MessageRecord)
    → numbered n (insert_stable r rs)
      ≡ (if r.seq_num == n then r ∷ numbered n rs else numbered n rs)
unfolding insert_stable numbered
numbered-insert n r [] = refl
numbered-insert n r (x ∷ xs) = ground (arith, numbered-insert n r xs)

numbered-sort : (n : ℕ) (rs : List MessageRecord) → numbered n (stable_sort rs) ≡ numbered n rs
unfolding stable_sort
numbered-sort n [] = refl
numbered-sort n (r ∷ rs) =
    numbered-insert n r (stable_sort rs) ∙ rw (numbered-sort n rs) (unfold numbered in refl)

collect-within :
    (session_id : ℕ) (arena : List ℕ) (b e : ℕ) (ss : List StoredMessageRecord)
    → collect_inbound session_id arena b e ss ≡ within b e (view session_id arena ss)
unfolding collect_inbound
collect-within session_id arena b e [] = refl
collect-within session_id arena b e (s ∷ ss) =
    ground (arith, collect-within session_id arena b e ss)

-- The inbound records of a session, as they came.
abbrev pub inbound_records : MemoryStore → ℕ → List MessageRecord
inbound_records m session_id = inbound_view session_id (session m session_id)

load_session :
    (m : MemoryStore) (session_id b e : ℕ)
    → load_inbound_range m session_id b e ≡ (
        if is_bad_range b e
        then err invalid_argument
        else ok (stable_sort (within b e (inbound_records m session_id))))
load_session m session_id b e = elim (Option-cases (lookup session_id m.sessions)) [
  | inl n ↦ unfold load_inbound_range stable_sort in rw n
  | inr (d, n) ↦
      unfold load_inbound_range in rw (n, collect-within session_id d.payload_arena b e d.inbound)
]

ok_of_if :
    (bad : Bool) (x y : List MessageRecord)
    → (if bad then err invalid_argument else ok x) ≡ ok y
    → x ≡ y
ok_of_if bad x y h = ground arith

-- What a load of inbound records returns is in rising order of the numbers, holds for each number
-- exactly the records of the session in the range, and keeps those of one number as they came.
pub load_inbound_range_lem :
    (m : MemoryStore) (session_id b e n : ℕ) {rs : List MessageRecord}
    → load_inbound_range m session_id b e ≡ ok rs
    → Ordered 0 rs × (numbered n rs ≡ numbered n (within b e (inbound_records m session_id)))
load_inbound_range_lem m session_id b e n {rs} h =
    let loaded = within b e (inbound_records m session_id) in
    let same : stable_sort loaded ≡ rs =
      ok_of_if (is_bad_range b e) (stable_sort loaded) rs
        (sym (load_session m session_id b e) ∙ h) in
    (
      subst (Ordered 0) same (sort-Ordered loaded),
      subst (λ l. numbered n l ≡ numbered n loaded) same (numbered-sort n loaded),
    )

pub add_inbound-view :
    (d : SessionData) (r : MessageRecord)
    → IsValid d
    → inbound_view r.session_id (add_inbound d r) ≡ inbound_view r.session_id d ++ (r ∷ [])
add_inbound-view d r v =
    map-append _ d.inbound (make_stored_record d.payload_arena r ∷ [])
    ∙ rw (
      view-append r.session_id d.payload_arena r.payload d.inbound v.inbound_fits,
      materialize-make d.payload_arena r,
    )

pub add_inbound-IsValid :
    (d : SessionData) (r : MessageRecord) → IsValid d → IsValid (add_inbound d r)
add_inbound-IsValid d r v = record {
  outbound_fits = Fits-append d.payload_arena r.payload d.outbound v.outbound_fits;
  inbound_fits =
      All-append _ d.inbound _ (Fits-append d.payload_arena r.payload d.inbound v.inbound_fits)
        (Fits-make d.payload_arena r, tt);
  ordered = v.ordered;
}

save_inbound-ok :
    (m : MemoryStore) (r : MessageRecord)
    → r.session_id ≢ 0
    → r.seq_num ≢ 0
    → save_inbound m r
      ≡ (put_session m r.session_id (add_inbound (session m r.session_id) r), ok tt)
unfolding save_inbound
save_inbound-ok m r p q = ground arith

-- Saving an inbound record with a session and a number appends it to the records of that session
-- and changes those of no other.
pub save_inbound_lem :
    (m : MemoryStore) (r : MessageRecord) (session_id : ℕ)
    → AllValid m
    → r.session_id ≢ 0
    → r.seq_num ≢ 0
    → inbound_records (save_inbound m r).0 session_id ≡ (
        if r.session_id == session_id
        then inbound_records m session_id ++ (r ∷ [])
        else inbound_records m session_id)
save_inbound_lem m r session_id v p q = rw (save_inbound-ok m r p q) (
    ap (inbound_view session_id)
      (session-put_session m r.session_id session_id (add_inbound (session m r.session_id) r))
    ∙ added)
  where
    added :
        inbound_view session_id (
          if r.session_id == session_id
          then add_inbound (session m r.session_id) r
          else session m session_id)
        ≡ (if r.session_id == session_id
            then inbound_records m session_id ++ (r ∷ [])
            else inbound_records m session_id)
    added = elim (Bool-cases (r.session_id == session_id)) [
      | inl same ↦
          let e : r.session_id ≡ session_id = (==_iff _ _).0 same in
          rw (same, ← e) (add_inbound-view (session m r.session_id) r (v r.session_id))
      | inr other ↦ rw other
    ]
