-- ===== src/Admin/Replay/Covered.antt =====
-- The pieces of a replay cover the requested numbers, each with the right answer.
use nimblefix.Common.{
  ℕ, zero, suc, ◌+◌, ◌-◌, ◌≤◌, ◌<◌, min, true, false, Option, none, some, ◌≡◌, refl, sym, ap, subst,
  ◌∙◌, arith, List, [], ◌∷◌, ltb, ge→ltb, ◌==◌, if◌then◌else◌, Bool-cases, Option-cases, inl, inr,
  ◌||◌,
}
use nimblefix.Status.{Result, ok}
use nimblefix.Store.Record.{MessageRecord, is_admin, find, RisingFrom}
use nimblefix.Session.Replay.{next_record, skip_record}
use nimblefix.Session.Replay.Right.{next-find, skip-RisingFrom, find-skip}
use nimblefix.Session.State.{u32_max}
use nimblefix.Action.{Action, pure, give, gets, ◌>>=◌, on_option}
use nimblefix.Admin.Data.{EncodedFrame, Environment, Protocol}
use nimblefix.Admin.Replay.{
  application_of, next_seq, skip_gap, replayable, replay_from, replay_outbound, bound_end,
  load_range,
}
use nimblefix.Admin.Replay.Pieces.{Piece, fills, sends, pieces, encode_pieces, replay_from-pieces}

-- The application record of a number, if it is stored.
abbrev application_record : List MessageRecord → ℕ → Option MessageRecord
application_record rs n = application_of (find n rs)

-- The pieces are the numbers from the first up to the end, in their order: a gap fill is for numbers
-- without an application record, and a frame is the record of its number.
abbrev Matches : (ℕ → Option MessageRecord) → ℕ → ℕ → List Piece → Type 0
Matches record_of n end [] = n ≡ end
Matches record_of n end (fills from to ∷ ps) =
    (from ≡ n)
    × (n < to)
    × ((m : ℕ) → n ≤ m → m < to → record_of m ≡ none)
    × Matches record_of to end ps
Matches record_of n end (sends r ∷ ps) =
    (r.seq_num ≡ n) × (record_of n ≡ some r) × Matches record_of (n + 1) end ps

-- The records from a number on, as the loop leaves them.
pub record Agrees (rs0 : List MessageRecord) (n : ℕ) (rs : List MessageRecord) : Type 0 where
  pub rising : RisingFrom n rs
  pub same : (m : ℕ) → n ≤ m → find m rs ≡ find m rs0

stored :
    (rs0 : List MessageRecord) (n : ℕ) (rs : List MessageRecord)
    → Agrees rs0 n rs
    → find n rs0 ≡ next_record n rs
stored rs0 n rs a = sym (next-find n rs a.rising ∙ a.same n (omega arith))

Agrees-skip :
    (rs0 : List MessageRecord) (n : ℕ) (rs : List MessageRecord)
    → Agrees rs0 n rs
    → Agrees rs0 (n + 1) (skip_record n rs)
Agrees-skip rs0 n rs a = record {
  rising = skip-RisingFrom n rs a.rising;
  same = λ m h. find-skip m n rs (omega arith) ∙ a.same m (omega arith);
}

skip-none : (n : ℕ) (rs : List MessageRecord) → next_record n rs ≡ none → skip_record n rs ≡ rs
skip-none n [] h = refl
skip-none n (r ∷ rs) h = ground arith

next_seq-small : (n e : ℕ) → n ≤ e → e < u32_max → next_seq n ≡ n + 1
next_seq-small n e h small = omega arith

-- What the inner loop passes over.
record Skipped (rs0 : List MessageRecord) (e n : ℕ) (out : ℕ × List MessageRecord) : Type 0 where
  low : n ≤ out.0
  high : out.0 ≤ e + 1
  agrees : Agrees rs0 out.0 out.1
  gap : (m : ℕ) → n ≤ m → m < out.0 → application_record rs0 m ≡ none

module _ (rs0 : List MessageRecord) (e : ℕ) (small : e < u32_max) where
  stays : (n : ℕ) (rs : List MessageRecord) → n ≤ e + 1 → Agrees rs0 n rs → Skipped rs0 e n (n, rs)
  stays n rs h a = record {
    low = omega arith;
    high = h;
    agrees = a;
    gap = λ m l u. absurd (omega arith);
  }

  -- One number more.
  steps :
      (n : ℕ) (out : ℕ × List MessageRecord)
      → application_record rs0 n ≡ none
      → Skipped rs0 e (n + 1) out
      → Skipped rs0 e n out
  steps n out here later = record {
    low = let l = later.low in omega arith;
    high = later.high;
    agrees = later.agrees;
    gap = λ m l u. elim (Bool-cases (ltb n m)) [
      | inl above ↦ later.gap m (ground arith) u
      | inr equal ↦ subst (λ x. application_record rs0 x ≡ none) (ground arith) here
    ];
  }

  passes :
      (n : ℕ) (rs : List MessageRecord)
      → next_record n rs ≡ none
      → Agrees rs0 n rs
      → Agrees rs0 (n + 1) rs
  passes n rs h a = subst (Agrees rs0 (n + 1)) (skip-none n rs h) (Agrees-skip rs0 n rs a)

  skip_gap-Skipped :
      (k n : ℕ) (rs : List MessageRecord)
      → n ≤ e + 1
      → Agrees rs0 n rs
      → Skipped rs0 e n (skip_gap k e n rs)
  unfolding skip_gap
  skip_gap-Skipped zero n rs h a = stays n rs h a
  skip_gap-Skipped (suc k) n rs h a = elim (Bool-cases (ltb e n)) [
    | inl past ↦ rw past (stays n rs h a)
    | inr inside ↦ elim (Option-cases (next_record n rs)) [
      | inl none_here ↦
          rw (inside, none_here, next_seq-small n e (ground arith) small)
            (steps n _ (ap application_of (stored rs0 n rs a ∙ none_here))
              (skip_gap-Skipped k (n + 1) rs (ground arith) (passes n rs none_here a)))
      | inr (r, found) ↦ elim (Bool-cases (is_admin r)) [
        | inl admin ↦
            rw (inside, found, admin, next_seq-small n e (ground arith) small)
              (steps n _
                (ap application_of (stored rs0 n rs a ∙ found)
                  ∙ ap (λ b. if b then none else some r) admin)
                (skip_gap-Skipped k (n + 1) (skip_record n rs) (ground arith)
                  (Agrees-skip rs0 n rs a)))
        | inr plain ↦ rw (inside, found, plain) (stays n rs h a)
      ]
    ]
  ]

  -- A first round goes one number on.
  skip_gap-moves :
      (k n : ℕ) (rs : List MessageRecord)
      → 0 < k
      → n ≤ e
      → Agrees rs0 n rs
      → replayable n rs ≡ none
      → n < (skip_gap k e n rs).0
  unfolding skip_gap
  skip_gap-moves zero n rs pos h a gone = absurd (omega arith)
  skip_gap-moves (suc k) n rs pos h a gone = elim (Option-cases (next_record n rs)) [
    | inl none_here ↦
        rw (ge→ltb e n h, none_here, next_seq-small n e h small)
          (let l = (skip_gap-Skipped k (n + 1) rs (omega arith) (passes n rs none_here a)).low in
            omega arith)
    | inr (r, found) ↦ elim (Bool-cases (is_admin r)) [
      | inl admin ↦
          rw (ge→ltb e n h, found, admin, next_seq-small n e h small)
            (let l =
                (skip_gap-Skipped k (n + 1) (skip_record n rs) (omega arith)
                  (Agrees-skip rs0 n rs a)).low in
              omega arith)
      | inr plain ↦ absurd (kept r plain (ap application_of (sym found) ∙ gone))
    ]
  ]
    where
      kept : (r : MessageRecord) → is_admin r ≡ false → application_of (some r) ≡ none → ⊥
      kept r plain h = ground arith

  pieces-Matches :
      (k n : ℕ) (rs : List MessageRecord)
      → n ≤ e + 1
      → e + 1 ≤ n + k
      → Agrees rs0 n rs
      → Matches (application_record rs0) n (e + 1) (pieces k e n rs)
  unfolding pieces
  pieces-Matches zero n rs h enough a = omega arith
  pieces-Matches (suc k) n rs h enough a = elim (Bool-cases (ltb e n)) [
    | inl past ↦ rw past (ground arith)
    | inr inside ↦
        let here : n ≤ e = ground arith in
        elim (Option-cases (replayable n rs)) [
          | inl gone ↦
              let skipped = skip_gap-Skipped (e + 1 - n) n rs h a in
              let moves = skip_gap-moves (e + 1 - n) n rs (omega arith) here a gone in
              let high = skipped.high in
              rw (inside, gone)
                (refl, moves, skipped.gap, pieces-Matches k _ _ high (omega arith) skipped.agrees)
          | inr (r, found) ↦
              let right = ap application_of (stored rs0 n rs a) ∙ found in
              rw (inside, found, next_seq-small n e here small)
                (
                  numbered n rs r found,
                  right,
                  pieces-Matches k (n + 1) (skip_record n rs) (omega arith) (omega arith)
                      (Agrees-skip rs0 n rs a),
                )
        ]
  ]
    where
      numbered :
          (n : ℕ) (rs : List MessageRecord) (r : MessageRecord)
          → replayable n rs ≡ some r
          → r.seq_num ≡ n
      numbered n [] r q = absurd (ground arith)
      numbered n (x ∷ xs) r q = ground arith

-- The pieces answer the numbers from the first up to the end, in their order: a gap fill is for
-- numbers that have no record or the record of a session message, and any other number has its own
-- record sent.
abbrev pub Covers : List MessageRecord → ℕ → ℕ → List Piece → Type 0
Covers rs n end [] = n ≡ end
Covers rs n end (fills from to ∷ ps) =
    (from ≡ n)
    × (n < to)
    × ((m : ℕ) → n ≤ m → m < to → (r : MessageRecord) → find m rs ≡ some r → is_admin r ≡ true)
    × Covers rs to end ps
Covers rs n end (sends r ∷ ps) =
    (find n rs ≡ some r) × (r.seq_num ≡ n) × (is_admin r ≡ false) × Covers rs (n + 1) end ps

gone_admin :
    (o : Option MessageRecord) (r : MessageRecord)
    → application_of o ≡ none
    → o ≡ some r
    → is_admin r ≡ true
gone_admin o r gone found = kept r (ap application_of (sym found) ∙ gone)
  where
    kept : (r : MessageRecord) → application_of (some r) ≡ none → is_admin r ≡ true
    kept r h = ground arith

sent_found : (o : Option MessageRecord) (r : MessageRecord) → application_of o ≡ some r → o ≡ some r
sent_found none r h = absurd (ground arith)
sent_found (some x) r h = ground arith

sent_plain :
    (o : Option MessageRecord) (r : MessageRecord) → application_of o ≡ some r → is_admin r ≡ false
sent_plain o r sent = kept r (ap application_of (sym (sent_found o r sent)) ∙ sent)
  where
    kept : (r : MessageRecord) → application_of (some r) ≡ some r → is_admin r ≡ false
    kept r h = ground arith

Matches-Covers :
    (rs : List MessageRecord) (n end : ℕ) (ps : List Piece)
    → Matches (application_record rs) n end ps
    → Covers rs n end ps
Matches-Covers rs n end [] h = h
Matches-Covers rs n end (fills from to ∷ ps) (first, moves, gap, rest) = (
  first,
  moves,
  (λ m l u r. gone_admin (find m rs) r (gap m l u)),
  Matches-Covers rs to end ps rest,
)
Matches-Covers rs n end (sends r ∷ ps) (numbered, found, rest) = (
  sent_found (find n rs) r found,
  numbered,
  sent_plain (find n rs) r found,
  Matches-Covers rs (n + 1) end ps rest,
)

-- The end of a requested range, cut at the last number sent; 0 stands for no end.
abbrev pub last_asked : ℕ → ℕ → ℕ
last_asked end_seq next_out = if end_seq == 0 then next_out - 1 else min end_seq (next_out - 1)

bound_end-last_asked :
    (end_seq next_out : ℕ) → 0 < next_out → bound_end end_seq next_out ≡ last_asked end_seq next_out
bound_end-last_asked end_seq next_out h = ground arith

module _ {S : Type 0} (env : Environment S) where
  replay_outbound-bounded :
      (b end_seq e t : ℕ) (p : Protocol S) (rs : List MessageRecord)
      → bound_end end_seq p.session.next_out_seq ≡ e
      → e < u32_max
      → b ≤ e
      → 0 < e
      → load_range env b e p ≡ some (ok rs)
      → RisingFrom b rs
      → (ps : List Piece) × (replay_outbound env b end_seq t p ≡ encode_pieces env t ps p)
        × Covers rs b (e + 1) ps
  unfolding replay_outbound gets give ◌>>=◌
  replay_outbound-bounded b end_seq e t p rs bound fits some_asked positive loaded rising =
      let ps = pieces (e + 1 - b) e b rs in
      (
        ps,
        ap (λ x. body x (load_range env b x p) p) bound
            ∙ ap (λ o. body e o p) loaded
            ∙ ap (λ x. (if x then pure [] else replay_from env (e + 1 - b) e b rs t) p)
                (asked e some_asked positive)
            ∙ ap (λ (m : Action (Protocol S) (List EncodedFrame)). m p)
                (replay_from-pieces env (e + 1 - b) e b t rs),
        Matches-Covers rs b (e + 1) ps (
            pieces-Matches rs e fits (e + 1 - b) b rs (omega arith) (omega arith)
              (record { rising = rising; same = λ m h. refl })),
      )
    where
      body : ℕ → Option (Result (List MessageRecord)) → Action (Protocol S) (List EncodedFrame)
      body e o = on_option o (pure []) (λ range.
          if ltb e b || (e == 0)
          then pure []
          else (give range >>= λ records. replay_from env (e + 1 - b) e b records t))

      asked : (e : ℕ) → b ≤ e → 0 < e → (ltb e b || (e == 0)) ≡ false
      asked e h pos = ground arith

  load_range-stored :
      (b e : ℕ) (p : Protocol S) (s : S) {out : Result (List MessageRecord)}
      → p.store ≡ some s
      → env.methods.load_outbound_range s p.session.config.session_id b e ≡ out
      → load_range env b e p ≡ some out
  load_range-stored b e p s here loaded = rw here (ap some loaded)

  -- For a session with a store and a positive next outbound number of 32 bits, ask for the
  -- numbers from b to an end, cut at the last number sent, where 0 means no end; the range is
  -- not empty and loads with rising numbers from b on. ReplayOutbound then makes, in order, the
  -- frames of a list of pieces that cover exactly these numbers; it fails where a frame, or the
  -- store on the way, does. A gap fill is for a stretch without a stored application message:
  -- SequenceReset under the first number of the stretch, with GapFillFlag, as a possible
  -- duplicate, and with the number behind the stretch as NewSeqNo. Any other number has its
  -- stored message sent.
  pub replay_outbound-Covers :
      (b end_seq t : ℕ) (p : Protocol S) (s : S) (rs : List MessageRecord)
      → let e = last_asked end_seq p.session.next_out_seq in
        0 < p.session.next_out_seq
        → p.session.next_out_seq ≤ u32_max
        → b ≤ e
        → 0 < e
        → p.store ≡ some s
        → env.methods.load_outbound_range s p.session.config.session_id b e ≡ ok rs
        → RisingFrom b rs
        → (ps : List Piece) × (replay_outbound env b end_seq t p ≡ encode_pieces env t ps p)
          × Covers rs b (e + 1) ps
  replay_outbound-Covers b end_seq t p s rs allocated fits some_asked positive here loaded rising =
      let e = last_asked end_seq p.session.next_out_seq in
      replay_outbound-bounded b end_seq e t p rs
        (bound_end-last_asked end_seq p.session.next_out_seq allocated)
        (bounded end_seq p.session.next_out_seq allocated fits) some_asked positive
        (load_range-stored b e p s here loaded) rising
    where
      bounded : (n o : ℕ) → 0 < o → o ≤ u32_max → last_asked n o < u32_max
      bounded n o s h = ground arith
