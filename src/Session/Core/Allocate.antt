-- ===== src/Session/Core/Allocate.antt =====
-- Outbound numbers are handed out in order, and never twice.
use Prim.Native.Nat.add
use nimblefix.Common.{ℕ, zero, suc, ◌+◌, ◌<◌, ◌≡◌, refl, ap, ◌++◌, true, List, [], ◌∷◌, arith}
use nimblefix.Status.{Result, ok, err, invalid_argument}
use nimblefix.Session.State.{SessionCore, u32_max}
use nimblefix.Session.Core.{allocate_outbound_seq, is_live}

-- The results of `k` successive allocations.
unfoldable pub allocate_many : SessionCore → ℕ → List (Result ℕ)
allocate_many c zero = []
allocate_many c (suc k) = let (c', r) = allocate_outbound_seq c in r ∷ allocate_many c' k

-- `n`, `n + 1`, …, as successful results: `k` of them.
abbrev pub ascending : ℕ → ℕ → List (Result ℕ)
ascending n zero = []
ascending n (suc k) = ok n ∷ ascending (n + 1) k

abbrev pub all_refused : ℕ → List (Result ℕ)
all_refused zero = []
all_refused (suc k) = err invalid_argument ∷ all_refused k

exhausted : (c : SessionCore) (j : ℕ) → c.next_out_seq ≡ u32_max → allocate_many c j ≡ all_refused j
unfolding allocate_many allocate_outbound_seq
exhausted c zero h = refl
exhausted c (suc j) h = ground (arith, exhausted c j h)

allocate-below :
    (c : SessionCore)
    → is_live c.state ≡ true
    → c.next_out_seq < u32_max
    → allocate_outbound_seq c ≡ (record c { next_out_seq = c.next_out_seq + 1 }, ok c.next_out_seq)
unfolding allocate_outbound_seq
allocate-below c live h = ground arith

-- In a live state the results count up from the next outbound number, without gaps or repeats, as
-- long as they stay below the largest number; from there on every allocation is refused.
pub allocate_many_lem :
    (c : SessionCore) (k j : ℕ)
    → is_live c.state ≡ true
    → c.next_out_seq + k ≡ u32_max
    → allocate_many c (k + j) ≡ ascending c.next_out_seq k ++ all_refused j
unfolding allocate_many
allocate_many_lem c zero j live h = rw add.zero (exhausted c j (omega arith))
allocate_many_lem c (suc k) j live h =
    rw (add.suc, allocate-below c live (omega arith))
      (ap (◌∷◌ (ok c.next_out_seq))
        (allocate_many_lem (record c { next_out_seq = c.next_out_seq + 1 }) k j live (omega arith)))
