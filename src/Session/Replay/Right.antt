-- ===== src/Session/Replay/Right.antt =====
-- Each chunk that the loop produces holds exactly the messages of its range.
use nimblefix.Common.{
  ℕ, zero, suc, ◌+◌, ◌-◌, ◌≤◌, ◌<◌, ◌≡◌, refl, sym, ap, ◌∙◌, true, false, List, [], ◌∷◌, ◌++◌,
  Option, none, some, arith, All, length, length-append, append_assoc, append-nil, Bool-cases, inl,
  inr,
}
use nimblefix.Store.Record.{MessageRecord, find, RisingFrom}
use nimblefix.Session.Replay.{
  ReplayActionKind, replay, gap_fill, same_kind, ReplayChunk, next_record, next_kind, skip_record,
  replayed,
}
use nimblefix.Session.Replay.Chunks.{extend, single, chunks_from, replayable, IsRight, Alternates}

find-below : (m n : ℕ) (rs : List MessageRecord) → RisingFrom n rs → m < n → find m rs ≡ none
unfolding find
find-below m n [] o h = refl
find-below m n (r ∷ rs) o h = ground (arith, find-below m (r.seq_num + 1) rs)

pub next-find : (n : ℕ) (rs : List MessageRecord) → RisingFrom n rs → next_record n rs ≡ find n rs
unfolding find
next-find n [] o = refl
next-find n (r ∷ rs) o = ground (arith, find-below n (r.seq_num + 1) rs)

RisingFrom-le : (m n : ℕ) (rs : List MessageRecord) → m ≤ n → RisingFrom n rs → RisingFrom m rs
RisingFrom-le m n [] h o = tt
RisingFrom-le m n (r ∷ rs) h o = (omega arith, o.1)

pub skip-RisingFrom :
    (n : ℕ) (rs : List MessageRecord) → RisingFrom n rs → RisingFrom (n + 1) (skip_record n rs)
skip-RisingFrom n [] o = tt
skip-RisingFrom n (r ∷ rs) o = ground (arith, RisingFrom-le (n + 1) (r.seq_num + 1) rs)

pub find-skip : (m n : ℕ) (rs : List MessageRecord) → n < m → find m (skip_record n rs) ≡ find m rs
unfolding find
find-skip m n [] h = refl
find-skip m n (r ∷ rs) h = ground arith

replayed-gap : (found : Option MessageRecord) → next_kind found ≡ gap_fill → replayed found ≡ []
replayed-gap none h = refl
replayed-gap (some r) h = ground arith

length-replayed :
    (found : Option MessageRecord) → next_kind found ≡ replay → length (replayed found) ≡ 1
length-replayed none h = cc
length-replayed (some r) h = ground arith

same_kind-eq : (a b : ReplayActionKind) → same_kind a b ≡ true → a ≡ b
same_kind-eq replay replay h = refl
same_kind-eq replay gap_fill h = cc
same_kind-eq gap_fill replay h = cc
same_kind-eq gap_fill gap_fill h = refl

replayable-snoc :
    (rs : List MessageRecord) (b k n : ℕ)
    → b + k ≡ n
    → replayable rs b (suc k) ≡ replayable rs b k ++ replayed (find n rs)
unfolding replayable
replayable-snoc rs b zero n h = let e : b ≡ n = omega arith in rw e (append-nil _)
replayable-snoc rs b (suc k) n h =
    ap (◌++◌ (replayed (find b rs))) (replayable-snoc rs (b + 1) k n (omega arith))
    ∙ sym (append_assoc (replayed (find b rs)) (replayable rs (b + 1) k) (replayed (find n rs)))

module _ (rs : List MessageRecord) where
  extend-IsRight :
      (c : ReplayChunk) (n : ℕ)
      → c.begin_seq ≤ c.end_seq
      → c.end_seq + 1 ≡ n
      → same_kind c.kind (next_kind (find n rs)) ≡ true
      → IsRight rs c
      → IsRight rs (extend c n (find n rs))
  extend-IsRight c n hb hn same r =
      let kinds : c.kind ≡ next_kind (find n rs) = same_kind-eq _ _ same in
      let count : n + 1 - c.begin_seq ≡ suc (c.end_seq + 1 - c.begin_seq) = omega arith in
      record {
        exact =
            rw (r.exact, count)
              (sym (replayable-snoc rs c.begin_seq (c.end_seq + 1 - c.begin_seq) n (omega arith)));
        filled = λ k. rw (r.filled k, replayed-gap (find n rs) (sym kinds ∙ k));
        complete = λ k. omega (
          arith,
          length-append c.messages (replayed (find n rs)),
          r.complete k,
          length-replayed (find n rs) (sym kinds ∙ k),
        );
      }

  single-IsRight : (n : ℕ) → IsRight rs (single n (find n rs))
  single-IsRight n =
      let count : n + 1 - n ≡ 1 = omega arith in
      record {
        exact = rw count (unfold replayable in sym (append-nil _));
        filled = replayed-gap (find n rs);
        complete = λ k. omega (arith, length-replayed (find n rs) k);
      }

  -- Where the rest of the records agrees with all of them, every chunk is right.
  pub chunks_from-IsRight :
      (c : ReplayChunk) (n k : ℕ) (rest : List MessageRecord)
      → c.begin_seq ≤ c.end_seq
      → c.end_seq + 1 ≡ n
      → RisingFrom n rest
      → ((m : ℕ) → n ≤ m → find m rest ≡ find m rs)
      → IsRight rs c
      → All (IsRight rs) (chunks_from c n k rest)
  unfolding chunks_from
  chunks_from-IsRight c n zero rest hb hn o agree r = (r, tt)
  chunks_from-IsRight c n (suc k) rest hb hn o agree r =
      let found : next_record n rest ≡ find n rs = next-find n rest o ∙ agree n (omega arith) in
      let o' : RisingFrom (n + 1) (skip_record n rest) = skip-RisingFrom n rest o in
      let agree' : (m : ℕ) → n + 1 ≤ m → find m (skip_record n rest) ≡ find m rs =
        λ m h. find-skip m n rest (omega arith) ∙ agree m (omega arith) in
      elim (Bool-cases (same_kind c.kind (next_kind (find n rs)))) [
        | inl same ↦
            rw (found, same)
              (chunks_from-IsRight (extend c n (find n rs)) (n + 1) k (skip_record n rest)
                (omega arith) refl o' agree' (extend-IsRight c n hb hn same r))
        | inr other ↦
            rw (found, other)
              (
                r,
                chunks_from-IsRight (single n (find n rs)) (n + 1) k (skip_record n rest)
                    (omega arith) refl o' agree' (single-IsRight n),
              )
      ]

  -- The chunks of a range of `suc k` numbers from `b` on.
  pub range-IsRight :
      (b k : ℕ)
      → RisingFrom b rs
      → All (IsRight rs) (chunks_from (single b (next_record b rs)) (b + 1) k (skip_record b rs))
  range-IsRight b k o = rw (next-find b rs o) (
      chunks_from-IsRight (single b (find b rs)) (b + 1) k (skip_record b rs) (omega arith) refl
        (skip-RisingFrom b rs o) (λ m h. find-skip m b rs (omega arith)) (single-IsRight b))

abbrev StartsWith : ReplayActionKind → List ReplayChunk → Type 0
StartsWith kind [] = ⊥
StartsWith kind (c ∷ cs) = c.kind ≡ kind

cons-Alternates :
    (c : ReplayChunk) (kind : ReplayActionKind) (cs : List ReplayChunk)
    → StartsWith kind cs
    → same_kind c.kind kind ≡ false
    → Alternates cs
    → Alternates (c ∷ cs)
cons-Alternates c kind [] s h a = absurd s
cons-Alternates c kind (d ∷ cs) s h a = (rw s h, a)

chunks_from-StartsWith :
    (c : ReplayChunk) (n k : ℕ) (rs : List MessageRecord) → StartsWith c.kind (chunks_from c n k rs)
unfolding chunks_from
chunks_from-StartsWith c n zero rs = refl
chunks_from-StartsWith c n (suc k) rs =
    elim (Bool-cases (same_kind c.kind (next_kind (next_record n rs)))) [
      | inl same ↦
          rw same
            (chunks_from-StartsWith (extend c n (next_record n rs)) (n + 1) k (skip_record n rs))
      | inr other ↦ rw other
    ]

pub chunks_from-Alternates :
    (c : ReplayChunk) (n k : ℕ) (rs : List MessageRecord) → Alternates (chunks_from c n k rs)
unfolding chunks_from
chunks_from-Alternates c n zero rs = tt
chunks_from-Alternates c n (suc k) rs =
    let found = next_record n rs in
    elim (Bool-cases (same_kind c.kind (next_kind found))) [
      | inl same ↦ rw same (chunks_from-Alternates (extend c n found) (n + 1) k (skip_record n rs))
      | inr other ↦ rw other (
          cons-Alternates c (next_kind found)
            (chunks_from (single n found) (n + 1) k (skip_record n rs))
            (chunks_from-StartsWith (single n found) (n + 1) k (skip_record n rs)) other
            (chunks_from-Alternates (single n found) (n + 1) k (skip_record n rs)))
    ]
