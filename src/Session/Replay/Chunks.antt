-- ===== src/Session/Replay/Chunks.antt =====
-- The chunks that the loop produces, as a recursion, and what is right about them.
use nimblefix.Common.{
  ℕ, zero, suc, ◌+◌, ◌-◌, ◌≤◌, ◌≡◌, refl, false, List, [], ◌∷◌, ◌++◌, Option, if◌then◌else◌, arith,
  length, Bool-cases, inl, inr,
}
use nimblefix.Store.Record.{MessageRecord, find}
use nimblefix.Session.Replay.{
  replay, gap_fill, same_kind, ReplayChunk, next_record, next_kind, skip_record, replayed,
}

-- The chunk with one more number.
abbrev pub extend : ReplayChunk → ℕ → Option MessageRecord → ReplayChunk
extend c n found = record {
  kind = c.kind;
  begin_seq = c.begin_seq;
  end_seq = n;
  messages = c.messages ++ replayed found;
}

-- A chunk of one number.
abbrev pub single : ℕ → Option MessageRecord → ReplayChunk
single n found = record {
  kind = next_kind found;
  begin_seq = n;
  end_seq = n;
  messages = replayed found;
}

-- The chunks from the current one on, with `k` numbers left from `n` on.
unfoldable pub chunks_from : ReplayChunk → ℕ → ℕ → List MessageRecord → List ReplayChunk
chunks_from c n zero rs = c ∷ []
chunks_from c n (suc k) rs =
    let found = next_record n rs in
    let rest = skip_record n rs in
    let joined = chunks_from (extend c n found) (n + 1) k rest in
    let split = c ∷ chunks_from (single n found) (n + 1) k rest in
    if same_kind c.kind (next_kind found) then joined else split

-- The chunks follow one another without a hole from `b` to `e`.
abbrev pub Covers : ℕ → ℕ → List ReplayChunk → Type 0
Covers b e [] = b ≡ e + 1
Covers b e (c ∷ cs) = (c.begin_seq ≡ b) × (b ≤ c.end_seq) × Covers (c.end_seq + 1) e cs

-- No chunk could be joined with the next one.
abbrev pub Alternates : List ReplayChunk → Type 0
Alternates [] = Unit {0}
Alternates (c ∷ []) = Unit {0}
Alternates (c ∷ d ∷ cs) = (same_kind c.kind d.kind ≡ false) × Alternates (d ∷ cs)

-- The stored messages with the `k` numbers from `n` on that may be replayed, in order.
unfoldable pub replayable : List MessageRecord → ℕ → ℕ → List MessageRecord
replayable rs n zero = []
replayable rs n (suc k) = replayed (find n rs) ++ replayable rs (n + 1) k

-- A chunk holds exactly the replayable messages of its range: none of them if it is a gap fill,
-- one for every number if it is a replay.
pub record IsRight (rs : List MessageRecord) (c : ReplayChunk) : Type 0 where
  pub exact : c.messages ≡ replayable rs c.begin_seq (c.end_seq + 1 - c.begin_seq)
  pub filled : c.kind ≡ gap_fill → c.messages ≡ []
  pub complete : c.kind ≡ replay → length c.messages ≡ c.end_seq + 1 - c.begin_seq

pub chunks_from-Covers :
    (c : ReplayChunk) (n k b e : ℕ) (rs : List MessageRecord)
    → c.begin_seq ≡ b
    → b ≤ c.end_seq
    → c.end_seq + 1 ≡ n
    → n + k ≡ e + 1
    → Covers b e (chunks_from c n k rs)
unfolding chunks_from
chunks_from-Covers c n zero b e rs hb hc hn hk = (hb, hc, omega arith)
chunks_from-Covers c n (suc k) b e rs hb hc hn hk =
    elim (Bool-cases (same_kind c.kind (next_kind (next_record n rs)))) [
      | inl same ↦ rw same (
          chunks_from-Covers (extend c n (next_record n rs)) (n + 1) k b e (skip_record n rs) hb
            (omega arith) refl (omega arith))
      | inr other ↦ rw other (
        hb,
        hc,
        chunks_from-Covers (single n (next_record n rs)) (n + 1) k (c.end_seq + 1) e
            (skip_record n rs) (omega arith) (omega arith) refl (omega arith),
      )
    ]
