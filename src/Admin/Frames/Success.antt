-- ===== src/Admin/Frames/Success.antt =====
-- The encoding of a session message where the store saves and the codec encodes.
use nimblefix.Common.{
  ℕ, ◌+◌, Bool, true, false, Option, none, some, ◌≡◌, ◌≢◌, refl, ap, ◌∙◌, arith, List, [],
  if◌then◌else◌, ◌==◌,
}
use nimblefix.Status.{Result, Status, ok}
use nimblefix.Store.Record.{MessageRecord, SessionRecoveryState}
use nimblefix.Session.State.{SessionCore, u32_max}
use nimblefix.Session.Core.{is_live, allocate_outbound_seq, record_outbound_activity}
use nimblefix.Action.{Action, ◌>>=◌, pure, give, gets, bind-ok}
use nimblefix.Admin.Data.{
  Environment, Protocol, ProtocolStore, MsgType, EncodeOptions, OutboundMessage, EncodedFrame,
  no_envelope,
}
use nimblefix.Admin.Stored.{
  on_session, on_store, store_result, persist_recovery_state, store_outbound, record_flags,
}
use nimblefix.Admin.Frames.{finalize_encoded_frame, sequence_number, encode_with, encode_admin}

-- Every save succeeds.
pub record Saves {S : Type 0} (methods : ProtocolStore S) : Type 0 where
  pub recovery : (s : S) (r : SessionRecoveryState) → (methods.save_recovery_state s r).1 ≡ ok tt
  pub outbound :
      (s : S) (m : MessageRecord) (r : SessionRecoveryState)
      → (methods.save_outbound_and_recovery s m r).1 ≡ ok tt
  pub inbound :
      (s : S) (m : MessageRecord) (r : SessionRecoveryState)
      → (methods.save_inbound_and_recovery s m r).1 ≡ ok tt

-- Only the store changes, and it succeeds.
abbrev pub OnlyStores : {S : Type 0} → Action (Protocol S) (Unit {0}) → Protocol S → Type 0
OnlyStores {S = S} m p = (o : Option S) × (m p ≡ (record p { store = o }, ok tt))

module _ {S : Type 0} where
  pub on_store-OnlyStores :
      (f : S → S × Status) (p : Protocol S)
      → ((s : S) → (f s).1 ≡ ok tt)
      → OnlyStores (on_store f) p
  unfolding on_store
  on_store-OnlyStores f p k = at p p.store refl
    where
      at :
          (q : Protocol S) (o : Option S)
          → q.store ≡ o
          → (o' : Option S) × (store_result f q o ≡ (record q { store = o' }, ok tt))
      at q none e = (none, ap (λ x. (record q { store = x }, ok tt)) e)
      at q (some s) e = (some (f s).0, ap (λ x. (record q { store = some (f s).0 }, x)) (k s))

both_then :
    {A : Type 0} (a b : Bool) (x y z : A)
    → a ≡ true
    → b ≡ false
    → (if a then (if b then x else y) else z) ≡ y
both_then true false x y z ha hb = refl
both_then true true x y z ha hb = absurd (ground arith)
both_then false b x y z ha hb = absurd (ground arith)

unequal : (n : ℕ) → n ≢ u32_max → (n == u32_max) ≡ false
unequal n h = ground arith

-- A number is given in a live state, until they are used up.
allocate_outbound_seq-ok :
    (c : SessionCore)
    → is_live c.state ≡ true
    → c.next_out_seq ≢ u32_max
    → allocate_outbound_seq c ≡ (record c { next_out_seq = c.next_out_seq + 1 }, ok c.next_out_seq)
unfolding allocate_outbound_seq
allocate_outbound_seq-ok c live room = both_then _ _ _ _ _ live (unequal c.next_out_seq room)

-- The options of a session message under a number.
abbrev pub options_of : ℕ → EncodeOptions
options_of n = record {
  msg_seq_num = n;
  poss_dup = false;
  orig_sending_time = [];
  envelope = no_envelope;
}

module _ {S : Type 0} where
  -- The session after a frame was sent.
  abbrev pub after_frame : Protocol S → ℕ → Option S → Protocol S
  after_frame p t o = record p {
    session = record p.session { next_out_seq = p.session.next_out_seq + 1; last_outbound_ns = t };
    store = o;
  }

  -- The session after a number was taken.
  abbrev numbered : Protocol S → Protocol S
  numbered p = record p { session = record p.session { next_out_seq = p.session.next_out_seq + 1 } }

module _ {S : Type 0} (env : Environment S) (saves : Saves env.methods) where
  pub persist_recovery_state-OnlyStores :
      (p : Protocol S) → OnlyStores (persist_recovery_state env) p
  unfolding persist_recovery_state
  persist_recovery_state-OnlyStores p = on_store-OnlyStores _ p (λ s. saves.recovery s _)

  store_outbound-OnlyStores :
      (r : MessageRecord) (p : Protocol S) → OnlyStores (store_outbound env r) p
  store_outbound-OnlyStores r p = on_store-OnlyStores _ p (λ s. saves.outbound s r _)

  allocated_lem :
      (p : Protocol S)
      → is_live p.session.state ≡ true
      → p.session.next_out_seq ≢ u32_max
      → sequence_number env true 0 p ≡ (numbered p, ok p.session.next_out_seq)
  unfolding on_session
  allocated_lem p live room =
      ap (λ (out : SessionCore × Result ℕ). (record p { session = out.0 }, out.1))
        (allocate_outbound_seq-ok p.session live room)

  finalized_lem :
      (m : MsgType) (t n : ℕ) (bytes : List ℕ) (p : Protocol S)
      → (o : Option S) × (finalize_encoded_frame env m true t true false 0 n bytes p ≡ (
        record p { session = record p.session { last_outbound_ns = t }; store = o },
        ok (record { bytes = bytes; msg_type = m; admin = true }),
      ))
  unfolding finalize_encoded_frame on_session gets pure record_outbound_activity
  finalized_lem m t n bytes p =
      let q : Protocol S = record p { session = record p.session { last_outbound_ns = t } } in
      let r : MessageRecord = record {
        session_id = p.session.config.session_id;
        seq_num = n;
        timestamp_ns = t;
        flags = record_flags true false 0;
        payload = bytes;
        body_start_offset = env.codec.body_start_offset bytes;
      } in
      let (o, saved) = store_outbound-OnlyStores r q in
      let frame : EncodedFrame = record { bytes = bytes; msg_type = m; admin = true } in
      (o, bind-ok (store_outbound env r) (λ _. pure frame) {s = q} saved)

  pub encode_admin-ok :
      (m : OutboundMessage) (t : ℕ) (bytes : List ℕ) (p : Protocol S)
      → is_live p.session.state ≡ true
      → p.session.next_out_seq ≢ u32_max
      → env.codec.encode m (options_of p.session.next_out_seq) ≡ ok bytes
      → (o : Option S) × (encode_admin env m t p
          ≡ (after_frame p t o, ok (record { bytes = bytes; msg_type = m.msg_type; admin = true })))
  unfolding encode_admin encode_with give
  encode_admin-ok m t bytes p live room encodes =
      let finish : ℕ → List ℕ → Action (Protocol S) EncodedFrame =
        (λ n bytes. finalize_encoded_frame env m.msg_type true t true false 0 n bytes) in
      let attempt : ℕ → Action (Protocol S) (List ℕ) =
        (λ n. give (env.codec.encode m (options_of n))) in
      let n = p.session.next_out_seq in
      let (o, finalized) = finalized_lem m.msg_type t n bytes (numbered p) in
      (
        o,
        bind-ok (sequence_number env true 0) (λ n. attempt n >>= finish n) {s = p}
              (allocated_lem p live room)
            ∙ bind-ok (attempt n) (finish n) {s = numbered p} (ap (λ x. (numbered p, x)) encodes)
            ∙ finalized,
      )
