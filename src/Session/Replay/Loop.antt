-- ===== src/Session/Replay/Loop.antt =====
-- The loop of `BuildReplayPlan` terminates below the largest number and produces `chunks_from`; at
-- the largest number it never ends.
use nimblefix.Common.{
  ℕ, zero, suc, ◌+◌, ◌≤◌, ◌<◌, ◌≡◌, refl, ◌∙◌, true, false, List, [], ◌∷◌, ◌++◌, Option, none, some,
  ◌==◌, if◌then◌else◌, arith, append_assoc, Bool-cases, inl, inr, ◌%◌, ◌^◌, le→leb, leb,
}
use nimblefix.Store.Record.{MessageRecord}
use nimblefix.Session.State.{u32_max}
use nimblefix.Session.Replay.{
  ReplayActionKind, extend_chunk, same_kind, ReplayChunk, Progress, next_record, next_kind,
  skip_record, flush_chunk, start, place, visit, visit_all,
}
use nimblefix.Session.Replay.Chunks.{extend, single, chunks_from}

-- An open chunk.
abbrev IsOpen : ReplayChunk → Type 0
IsOpen c = (0 < c.begin_seq) × (0 < c.end_seq)

-- Where a number goes while a chunk is open.
abbrev placed : Progress → ReplayActionKind → ℕ → Progress
placed p kind n = if same_kind p.current.kind kind then extend_chunk p n else record p {
  chunks = p.chunks ++ (p.current ∷ []);
  current = record { kind = kind; begin_seq = n; end_seq = n; messages = [] };
}

place-open :
    (p : Progress) (kind : ReplayActionKind) (n : ℕ)
    → IsOpen p.current
    → place p kind n ≡ placed p kind n
unfolding place
place-open p kind n h =
    let b : (p.current.begin_seq == 0) ≡ false = ground arith in
    let e : (p.current.end_seq == 0) ≡ false = ground arith in rw (b, e) refl

visit-open :
    (p : Progress) (n : ℕ)
    → IsOpen p.current
    → let found = next_record n p.records in
      visit p n ≡ (
        if same_kind p.current.kind (next_kind found)
        then record {
          chunks = p.chunks;
          current = extend p.current n found;
          records = skip_record n p.records;
        }
        else record {
          chunks = p.chunks ++ (p.current ∷ []);
          current = single n found;
          records = skip_record n p.records;
        })
unfolding visit
visit-open p n h =
    let found = next_record n p.records in
    elim (Bool-cases (same_kind p.current.kind (next_kind found))) [
      | inl same ↦ rw (place-open p (next_kind found) n h, same)
      | inr other ↦ rw (place-open p (next_kind found) n h, other)
    ]

pub visit-start :
    (rs : List MessageRecord) (n : ℕ)
    → visit (start rs) n
      ≡ record { chunks = []; current = single n (next_record n rs); records = skip_record n rs }
unfolding visit place
visit-start rs n = refl

-- What the loop has produced when it stops.
record Ends (p : Progress) (n k : ℕ) (r : Option Progress) : Type 0 where
  final : Progress
  ended : r ≡ some final
  produced : (flush_chunk final).chunks ≡ p.chunks ++ chunks_from p.current n k p.records

visit_all-Ends :
    (fuel n k e : ℕ) (p : Progress)
    → k < fuel
    → n + k ≡ e + 1
    → e < u32_max
    → 0 < n
    → IsOpen p.current
    → Ends p n k (visit_all fuel n e p)
unfolding visit_all
visit_all-Ends zero n k e p hf hk he hn o = absurd (omega arith)
visit_all-Ends (suc fuel) n zero e p hf hk he hn o =
    let past : leb n e ≡ false = ground arith in
    let b : (p.current.begin_seq == 0) ≡ false = ground arith in
    let z : (p.current.end_seq == 0) ≡ false = ground arith in
    rw past (record { final = p; ended = refl; produced = rw (b, z) (unfold chunks_from in refl) })
visit_all-Ends (suc fuel) n (suc k) e p hf hk he hn o =
    let inside : leb n e ≡ true = le→leb n e (omega arith) in
    let next : (n + 1) % 2 ^ 32 ≡ n + 1 = omega arith in
    let found = next_record n p.records in
    elim (Bool-cases (same_kind p.current.kind (next_kind found))) [
      | inl same ↦
          let p' : Progress = record {
            chunks = p.chunks;
            current = extend p.current n found;
            records = skip_record n p.records;
          } in
          let visited : visit p n ≡ p' = visit-open p n o ∙ rw same in
          let ih : Ends p' (n + 1) k (visit_all fuel (n + 1) e p') =
            visit_all-Ends fuel (n + 1) k e p' (omega arith) (omega arith) he (omega arith)
              (o.0, hn) in
          rw (inside, next, visited)
            (record {
              final = ih.final;
              ended = ih.ended;
              produced = ih.produced ∙ (unfold chunks_from in rw same);
            })
      | inr other ↦
          let p' : Progress = record {
            chunks = p.chunks ++ (p.current ∷ []);
            current = single n found;
            records = skip_record n p.records;
          } in
          let visited : visit p n ≡ p' = visit-open p n o ∙ rw other in
          let ih : Ends p' (n + 1) k (visit_all fuel (n + 1) e p') =
            visit_all-Ends fuel (n + 1) k e p' (omega arith) (omega arith) he (omega arith)
              (hn, hn) in
          rw (inside, next, visited)
            (record {
              final = ih.final;
              ended = ih.ended;
              produced =
                  ih.produced
                  ∙ (append_assoc p.chunks (p.current ∷ []) _ ∙ (unfold chunks_from in rw other));
            })
    ]

visit_all-first :
    (fuel b e : ℕ) (rs : List MessageRecord)
    → b ≤ e
    → e < u32_max
    → visit_all (suc fuel) b e (start rs)
      ≡ visit_all fuel (b + 1) e (record {
        chunks = [];
        current = single b (next_record b rs);
        records = skip_record b rs;
      })
unfolding visit_all
visit_all-first fuel b e rs h he =
    let inside : leb b e ≡ true = le→leb b e h in
    let next : (b + 1) % 2 ^ 32 ≡ b + 1 = omega arith in rw (inside, next, visit-start)

-- The loop over `b` to `e`, from the start.
pub visit_all-start :
    (fuel b k e : ℕ) (rs : List MessageRecord)
    → k + 1 < fuel
    → b + k ≡ e
    → e < u32_max
    → 0 < b
    → (final : Progress) × (visit_all fuel b e (start rs) ≡ some final)
      × ((flush_chunk final).chunks
          ≡ chunks_from (single b (next_record b rs)) (b + 1) k (skip_record b rs))
visit_all-start zero b k e rs hf hk he hb = absurd (omega arith)
visit_all-start (suc fuel) b k e rs hf hk he hb =
    let p : Progress = record {
      chunks = [];
      current = single b (next_record b rs);
      records = skip_record b rs;
    } in
    let ends : Ends p (b + 1) k (visit_all fuel (b + 1) e p) =
      visit_all-Ends fuel (b + 1) k e p (omega arith) (omega arith) he (omega arith) (hb, hb) in
    (ends.final, visit_all-first fuel b e rs (omega arith) he ∙ ends.ended, ends.produced)

-- With the largest number as its end the loop goes round for ever: no fuel is enough.
pub visit_all-endless :
    (fuel n : ℕ) (p : Progress) → n ≤ u32_max → visit_all fuel n u32_max p ≡ none
unfolding visit_all
visit_all-endless zero n p h = refl
visit_all-endless (suc fuel) n p h =
    let inside : leb n u32_max ≡ true = le→leb n u32_max h in
    rw inside (visit_all-endless fuel ((n + 1) % 2 ^ 32) (visit p n) (omega arith))
