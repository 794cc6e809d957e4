-- ===== src/Store/Record.antt =====
-- include/public/nimblefix/store/session_store.h: stored messages, the recovery state of a session,
-- and what the session layer asks of a store. A view of a message is modelled by the message.
use nimblefix.Common.{
  ℕ, ◌+◌, ◌≤◌, ◌≡◌, Bool, not, List, [], ◌∷◌, bit_and, ◌==◌, All, Option, none, some, if◌then◌else◌,
}
use nimblefix.Status.{Result, ok}

-- `MessageRecord`, and `MessageRecordView` with the bytes that its span shows.
pub record MessageRecord : Type 0 where
  pub session_id : ℕ
  pub seq_num : ℕ
  pub timestamp_ns : ℕ
  pub flags : ℕ
  pub payload : List ℕ
  pub body_start_offset : ℕ

-- `is_admin`, by `MessageRecordFlags::kAdmin`.
abbrev pub is_admin : MessageRecord → Bool
is_admin r = not (bit_and r.flags 1 == 0)

-- `is_gap_fill`, by `MessageRecordFlags::kGapFill`.
abbrev pub is_gap_fill : MessageRecord → Bool
is_gap_fill r = not (bit_and r.flags 4 == 0)

pub record SessionRecoveryState : Type 0 where
  pub session_id : ℕ
  pub next_in_seq : ℕ
  pub next_out_seq : ℕ
  pub last_inbound_ns : ℕ
  pub last_outbound_ns : ℕ
  pub active : Bool

-- The record with number `n`, if there is one.
unfoldable pub find : ℕ → List MessageRecord → Option MessageRecord
find n [] = none
find n (r ∷ rs) = if r.seq_num == n then some r else find n rs

-- The numbers rise along the list, and the first is at least `n`.
abbrev pub RisingFrom : ℕ → List MessageRecord → Type 0
RisingFrom n [] = Unit {0}
RisingFrom n (r ∷ rs) = (n ≤ r.seq_num) × RisingFrom (r.seq_num + 1) rs

-- The part of `SessionStore` that recovery and replay read.
pub record SessionStore (S : Type 0) : Type 0 where
  pub load_outbound_range : S → ℕ → ℕ → ℕ → Result (List MessageRecord)
  pub load_recovery_state : S → ℕ → Result SessionRecoveryState

-- What replay relies on: the loaded records lie in the range, in rising order of their numbers.
pub record LoadsInOrder {S : Type 0} (store : SessionStore S) (s : S) : Type 0 where
  pub rising :
      (session_id begin_seq end_seq : ℕ) (rs : List MessageRecord)
      → store.load_outbound_range s session_id begin_seq end_seq ≡ ok rs
      → RisingFrom begin_seq rs
  pub bounded :
      (session_id begin_seq end_seq : ℕ) (rs : List MessageRecord)
      → store.load_outbound_range s session_id begin_seq end_seq ≡ ok rs
      → All (λ r. r.seq_num ≤ end_seq) rs
