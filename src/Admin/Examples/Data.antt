-- ===== src/Admin/Examples/Data.antt =====
-- A session over a small codec and store.
use nimblefix.Common.{
  ℕ, ◌<◌, true, false, none, some, ◌≡◌, refl, arith, List, [], ◌∷◌, ltb, if◌then◌else◌,
}
use nimblefix.Status.{Result, ok, err, format_error, not_found}
use nimblefix.Store.Record.{MessageRecord}
use nimblefix.Session.State.{SessionCore, SessionConfig, active, disconnected, new, u32_max}
use nimblefix.Admin.Data.{
  MsgType, application, FieldValue, DecodedMessage, AdminProtocolConfig, ValidationPolicy,
  ignore_unknown, ignore_malformed, Codec, Dictionary, ProtocolStore, Environment, Protocol,
}
use nimblefix.Admin.Frames.Success.{Saves}
use nimblefix.Admin.Keeps.{LoadsFit}

abbrev policy : ValidationPolicy
policy = record {
  enforce_comp_ids = true;
  require_default_appl_ver_id_on_logon = false;
  require_orig_sending_time_on_poss_dup = false;
  reject_on_stale_msg_seq_num = true;
  require_known_app_message_type = false;
  require_required_fields_on_app_messages = false;
  reject_unknown_fields = false;
  reject_duplicate_fields = false;
  reject_tag_without_value = false;
  reject_incorrect_data_format = false;
  reject_fields_out_of_order = false;
  reject_invalid_group_structure = false;
  unknown_field_action = ignore_unknown;
  malformed_field_action = ignore_malformed;
  validate_enum_values = false;
}

abbrev seller : SessionConfig
seller = record {
  session_id = 7;
  key = record {
    begin_string = "FIX.4.4";
    sender_comp_id = "SELL";
    target_comp_id = "BUY";
    sender_location_id = none;
    target_location_id = none;
    session_qualifier = none;
  };
  profile_id = 1001;
  default_appl_ver_id = "";
  heartbeat_interval_seconds = 30;
  is_initiator = false;
}

abbrev pub desk : AdminProtocolConfig
desk = record {
  session = seller;
  begin_string = "FIX.4.4";
  sender_comp_id = "SELL";
  target_comp_id = "BUY";
  default_appl_ver_id = "";
  requires_default_appl_ver_id = false;
  supports_next_expected_msg_seq_num = false;
  supported_app_msg_types = [];
  heartbeat_interval_seconds = 30;
  sending_time_threshold_seconds = 0;
  logon_fields = [];
  application_messages_available = true;
  reset_seq_num_on_logon = false;
  reset_seq_num_on_logout = false;
  reset_seq_num_on_disconnect = false;
  refresh_on_logon = false;
  send_next_expected_msg_seq_num = false;
  validation_policy = policy;
  validation_callback = none;
}

-- A message from the counterparty.
abbrev pub from_buyer : MsgType → ℕ → List (ℕ × FieldValue) → DecodedMessage
from_buyer kind n fields = record {
  begin_string = "FIX.4.4";
  msg_type = kind;
  sender_comp_id = "BUY";
  target_comp_id = "SELL";
  default_appl_ver_id = "";
  sending_time = [];
  orig_sending_time = [];
  msg_seq_num = n;
  poss_dup = false;
  fields = fields;
  raw = n ∷ [];
  validation_issue = none;
}

-- A frame is its number; a decoded one is an order.
abbrev decode_frame : List ℕ → Result DecodedMessage
decode_frame [] = err format_error
decode_frame (n ∷ bytes) =
    if ltb n u32_max then ok (from_buyer (application "D") n []) else err format_error

abbrev small_codec : Codec
small_codec = record {
  encode = λ m o. ok (o.msg_seq_num ∷ []);
  encode_body = λ m o. ok (o.msg_seq_num ∷ []);
  body_start_offset = λ bytes. 0;
  replay = λ r. ok (record { bytes = r.payload; msg_type = application "8"; admin = false });
  decode = decode_frame;
}

abbrev pub open_dictionary : Dictionary
open_dictionary = record {
  has_message = λ s. true;
  enum_issue = λ d. none;
  missing_field = λ d. none;
}

-- A store that keeps the sent messages and gives them all.
abbrev small_store : ProtocolStore (List MessageRecord)
small_store = record {
  refresh = λ s. (s, ok tt);
  load_recovery_state = λ s id. err not_found;
  load_outbound_range = λ s id b e. ok s;
  save_recovery_state = λ s r. (s, ok tt);
  save_outbound_and_recovery = λ s m r. (m ∷ s, ok tt);
  save_inbound_and_recovery = λ s m r. (s, ok tt);
  reset_session = λ s id. ([], ok tt);
}

abbrev pub here : Environment (List MessageRecord)
here = record {
  config = desk;
  codec = small_codec;
  dictionary = open_dictionary;
  methods = small_store;
}

pub small_store-Saves : Saves small_store
small_store-Saves = record {
  recovery = λ s r. refl;
  outbound = λ s m r. refl;
  inbound = λ s m r. refl;
}

pub small_store-LoadsFit : LoadsFit small_store
small_store-LoadsFit = record {
  next_in = λ s id r h. absurd (ground arith);
  next_out = λ s id r h. absurd (ground arith);
}

pub decode_frame-fits :
    (frame : List ℕ) (d : DecodedMessage) → decode_frame frame ≡ ok d → d.msg_seq_num < u32_max
decode_frame-fits [] d h = absurd (ground arith)
decode_frame-fits (n ∷ bytes) d h = ground arith

abbrev pub sent_record : ℕ → ℕ → MessageRecord
sent_record n flags = record {
  session_id = 7;
  seq_num = n;
  timestamp_ns = 0;
  flags = flags;
  payload = n ∷ [];
  body_start_offset = 0;
}

-- An active session that expects 5 and sends 8.
abbrev trading : SessionCore
trading = record {
  config = seller;
  state = active;
  resume_state = disconnected;
  next_in_seq = 5;
  next_out_seq = 8;
  last_inbound_ns = 1_000_000_000;
  last_outbound_ns = 2_000_000_000;
  pending_resend = none;
  resend_completed = false;
  warmup_remaining = 0;
  warmup_total = 0;
  day_cut_config = (new seller).day_cut_config;
  last_day_cut_date = (new seller).last_day_cut_date;
}

abbrev pub at_desk : Protocol (List MessageRecord)
at_desk = record {
  session = trading;
  store = some (sent_record 2 0 ∷ sent_record 3 1 ∷ sent_record 5 0 ∷ []);
  outstanding_test_request_id = "";
  logout_sent = false;
  test_request_sent_ns = 0;
  logout_sent_ns = 0;
  initialization_error = none;
  deferred_gap_frames = (6 ∷ []) ∷ (5 ∷ []) ∷ [];
}
