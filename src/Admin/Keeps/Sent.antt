-- ===== src/Admin/Keeps/Sent.antt =====
-- What the sending of frames keeps.
use Prim.Native.String.{String}
use nimblefix.Common.{ℕ, Bool, true, false, Option, none, some, List, arith}
use nimblefix.Status.{Result, Status}
use nimblefix.Store.Record.{MessageRecord}
use nimblefix.Session.State.{SessionCore}
use nimblefix.Session.Core.{allocate_outbound_seq}
use nimblefix.Action.Keeps.{Keeps, keeps_rules, Keeps-pure}
use nimblefix.Admin.Data.{
  MsgType, Environment, Protocol, EncodeOptions, OutboundMessage, SessionSendEnvelope,
  DecodedMessage,
}
use nimblefix.Admin.Stored.{
  on_session, on_store, store_result, ensure_initialized, persist_recovery_state, store_outbound,
}
use nimblefix.Admin.Frames.{
  sequence_number, finalize_encoded_frame, encode_with, encode_admin, build_logon_frame,
  build_heartbeat_frame, build_test_request_frame, build_resend_request_frame, build_gap_fill_frame,
  build_reject_frame, leave_for_logout, admin_begin_logout, reject_inbound,
}
use nimblefix.Admin.Keeps.{Encodes, Steps}

module _ {S A : Type 0} {P : Protocol S → Type 0} where
  pub Keeps-on_session :
      (f : SessionCore → SessionCore × Result A)
      → ((p : Protocol S) → P p → P (record p { session = (f p.session).0 }))
      → Keeps P (on_session f)
  unfolding on_session
  Keeps-on_session f k = record { at = k }

module _ {S : Type 0} {P : Protocol S → Type 0} (encodes : Encodes P) where
  pub Keeps-on_store : (f : S → S × Status) → Keeps P (on_store f)
  unfolding on_store
  Keeps-on_store f = record { at = λ p h. at_store p p.store h }
    where
      at_store : (p : Protocol S) (o : Option S) → P p → P (store_result f p o).0
      at_store p none h = h
      at_store p (some s) h = encodes.stores p _ h

module _ {S : Type 0} {P : Protocol S → Type 0} (steps : Steps P) where
  pub Keeps-ensure_initialized : Keeps P ensure_initialized
  unfolding ensure_initialized
  Keeps-ensure_initialized = record { at = λ p h. ground arith }

  pub Keeps-leave_for_logout : Keeps P leave_for_logout
  unfolding leave_for_logout on_session
  Keeps-leave_for_logout = record { at = λ p h. ground (arith, steps.logs_out p h) }

module _ {S : Type 0} (env : Environment S) {P : Protocol S → Type 0} (encodes : Encodes P) where
  pub Keeps-persist_recovery_state : Keeps P (persist_recovery_state env)
  unfolding persist_recovery_state
  Keeps-persist_recovery_state = record { at = λ p h. (Keeps-on_store encodes _).at p h }

  pub Keeps-store_outbound : (r : MessageRecord) → Keeps P (store_outbound env r)
  Keeps-store_outbound r = record { at = λ p h. (Keeps-on_store encodes _).at p h }

  pub Keeps-finalize_encoded_frame :
      (m : MsgType) (admin : Bool) (t : ℕ) (persist dup : Bool) (extra n : ℕ) (bytes : List ℕ)
      → Keeps P (finalize_encoded_frame env m admin t persist dup extra n bytes)
  unfolding finalize_encoded_frame
  Keeps-finalize_encoded_frame m admin t persist dup extra n bytes = search (
    keeps_rules, Keeps-on_session, Keeps-store_outbound, Keeps-persist_recovery_state,
    encodes.records_out,
  )

  pub Keeps-sequence_number : (b : Bool) (n : ℕ) → Keeps P (sequence_number env b n)
  Keeps-sequence_number true n = Keeps-on_session allocate_outbound_seq encodes.allocates
  Keeps-sequence_number false n = Keeps-pure n

  pub Keeps-encode_with :
      (encode : EncodeOptions → Result (List ℕ)) (m : MsgType) (admin : Bool) (t : ℕ)
      (persist dup allocate : Bool) (extra n : ℕ) (e : SessionSendEnvelope)
      → Keeps P (encode_with env encode m admin t persist dup allocate extra n e)
  unfolding encode_with
  Keeps-encode_with encode m admin t persist dup allocate extra n e =
      search (keeps_rules, Keeps-sequence_number, Keeps-finalize_encoded_frame)

  pub Keeps-encode_admin : (m : OutboundMessage) (t : ℕ) → Keeps P (encode_admin env m t)
  unfolding encode_admin
  Keeps-encode_admin m t = search (keeps_rules, Keeps-encode_with)

  pub Keeps-build_logon_frame : (t : ℕ) (b : Bool) → Keeps P (build_logon_frame env t b)
  unfolding build_logon_frame
  Keeps-build_logon_frame t b = search (keeps_rules, Keeps-encode_admin)

  pub Keeps-build_heartbeat_frame : (t : ℕ) (id : String) → Keeps P (build_heartbeat_frame env t id)
  unfolding build_heartbeat_frame
  Keeps-build_heartbeat_frame t id = search (keeps_rules, Keeps-encode_admin)

  pub Keeps-build_test_request_frame :
      (t : ℕ) (id : String) → Keeps P (build_test_request_frame env t id)
  unfolding build_test_request_frame
  Keeps-build_test_request_frame t id = search (keeps_rules, Keeps-encode_admin)

  pub Keeps-build_resend_request_frame :
      (b e t : ℕ) → Keeps P (build_resend_request_frame env b e t)
  unfolding build_resend_request_frame
  Keeps-build_resend_request_frame b e t = search (keeps_rules, Keeps-encode_admin)

  pub Keeps-build_gap_fill_frame : (b n t : ℕ) → Keeps P (build_gap_fill_frame env b n t)
  unfolding build_gap_fill_frame
  Keeps-build_gap_fill_frame b n t = search (keeps_rules, Keeps-encode_with)

  pub Keeps-build_reject_frame :
      (n : ℕ) (m : MsgType) (tag reason : ℕ) (text : String) (t : ℕ)
      → Keeps P (build_reject_frame env n m tag reason text t)
  unfolding build_reject_frame
  Keeps-build_reject_frame n m tag reason text t = search (keeps_rules, Keeps-encode_admin)

module _ {S : Type 0} (env : Environment S) {P : Protocol S → Type 0} (steps : Steps P) where
  pub Keeps-admin_begin_logout : (text : String) (t : ℕ) → Keeps P (admin_begin_logout env text t)
  unfolding admin_begin_logout
  Keeps-admin_begin_logout text t =
      search
        (
          keeps_rules,
          Keeps-ensure_initialized,
          Keeps-leave_for_logout,
          Keeps-encode_admin env steps.encodes,
          steps.notes_logout,
        )
        depth 12

  pub Keeps-reject_inbound :
      (d : DecodedMessage) (tag reason : ℕ) (text : String) (t : ℕ) (b : Bool)
      → Keeps P (reject_inbound env d tag reason text t b)
  unfolding reject_inbound
  Keeps-reject_inbound d tag reason text t b =
      search (keeps_rules, Keeps-admin_begin_logout, Keeps-build_reject_frame env steps.encodes)
