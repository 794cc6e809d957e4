-- ===== src/Admin/Create.antt =====
-- The constructor of `AdminProtocol`. The templates, the decode table and the buffers are the codec's,
-- and the flags of the transport profile are those of the profile that it settles on.
use nimblefix.Common.{ℕ, Bool, false, Option, none, some, []}
use nimblefix.Status.{Result, Status, ok, err, ErrorCode, not_found}
use nimblefix.Store.Record.{SessionRecoveryState}
use nimblefix.Session.State.{new}
use nimblefix.Session.Core.{set_warmup_count, restore_sequence_state}
use nimblefix.Admin.Data.{Environment, Protocol}
use nimblefix.Admin.Validate.Messages.{validate_logon_fields}

-- The first error that is noted stays.
abbrev pub note_error : Option ErrorCode → Status → Option ErrorCode
note_error (some e) status = some e
note_error none (ok x) = none
note_error none (err e) = some e

module _ {S : Type 0} where
  -- What is loaded of the session.
  abbrev pub restore_first : Result SessionRecoveryState → Protocol S → Protocol S
  restore_first (err not_found) p = p
  restore_first (err e) p = record p {
    initialization_error = note_error p.initialization_error (err e);
  }
  restore_first (ok r) p =
      let (c, status) = restore_sequence_state p.session r.next_in_seq r.next_out_seq in
      record p { session = c; initialization_error = note_error p.initialization_error status }

  abbrev pub restore_from : Environment S → Option S → Protocol S → Protocol S
  restore_from env none p = p
  restore_from env (some s) p =
      restore_first (env.methods.load_recovery_state s p.session.config.session_id) p

  unfoldable pub new_protocol : Environment S → (ℕ → Bool) → ℕ → Option S → Protocol S
  unfolding new set_warmup_count restore_sequence_state validate_logon_fields
  new_protocol env is_encode_managed_tag warmup_message_count store =
      restore_from env store (record {
        session = set_warmup_count (new env.config.session) warmup_message_count;
        store = store;
        outstanding_test_request_id = "";
        logout_sent = false;
        test_request_sent_ns = 0;
        logout_sent_ns = 0;
        initialization_error =
            note_error none (validate_logon_fields is_encode_managed_tag env.config.logon_fields);
        deferred_gap_frames = [];
      })
