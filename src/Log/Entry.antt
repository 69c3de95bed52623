-- ===== src/Log/Entry.antt =====
-- logger_write of src/logger.c.
use udp_secure_transfer.Prelude.{
  ℕ, Bool, true, false, ◌||◌, Option, none, some, List, [], ◌∷◌, ◌++◌,
}
use udp_secure_transfer.Prelude.{if◌then◌else◌, codes}
use udp_secure_transfer.Log.{LogInt, unset, nonnegative, negative, Output, json_escape}
use udp_secure_transfer.Log.{write_string_field, write_int_field, write_pid_field}
use udp_secure_transfer.Log.{write_bool_field}

-- The texts that logger_open stored.
pub record Logger : Type 0 where
  pub role : List ℕ
  pub schema_version : List ℕ
  pub protocol : List ℕ
  pub transport : List ℕ
  pub flow_id : List ℕ
  pub session_id : List ℕ
  pub scenario : List ℕ

-- `none` is a NULL text. A `pid` of 0 or less is 0 here.
pub record LogEvent : Type 0 where
  pub schema_version : Option (List ℕ)
  pub protocol : Option (List ℕ)
  pub transport : Option (List ℕ)
  pub flow_id : Option (List ℕ)
  pub session_id : Option (List ℕ)
  pub scenario : Option (List ℕ)
  pub connection_id : Option (List ℕ)
  pub level : Option (List ℕ)
  pub event : Option (List ℕ)
  pub peer : Option (List ℕ)
  pub state : Option (List ℕ)
  pub packet_type : Option (List ℕ)
  pub result : Option (List ℕ)
  pub sha1 : Option (List ℕ)
  pub error_code : Option (List ℕ)
  pub wire_hex : Option (List ℕ)
  pub message : Option (List ℕ)
  pub direction : Option (List ℕ)
  pub packet_uid : Option (List ℕ)
  pub method : Option (List ℕ)
  pub path : Option (List ℕ)
  pub header_summary : Option (List ℕ)
  pub frame_type : Option (List ℕ)
  pub handshake_phase : Option (List ℕ)
  pub packet_code : LogInt
  pub seq : LogInt
  pub ack : LogInt
  pub window_size : LogInt
  pub retransmit_count : LogInt
  pub stream_id : LogInt
  pub stream_offset : LogInt
  pub status_code : LogInt
  pub packet_id : LogInt
  pub payload_length : LogInt
  pub bytes : LogInt
  pub attempt : LogInt
  pub port : LogInt
  pub security_encrypted : LogInt
  pub security_mac_valid : LogInt
  pub security_replay : LogInt
  pub pid : ℕ

-- The entry that a NULL event stands for: no texts, packet_code 0, and the rest unset.
abbrev pub empty_event : LogEvent
empty_event = record {
  schema_version = none;
  protocol = none;
  transport = none;
  flow_id = none;
  session_id = none;
  scenario = none;
  connection_id = none;
  level = none;
  event = none;
  peer = none;
  state = none;
  packet_type = none;
  result = none;
  sha1 = none;
  error_code = none;
  wire_hex = none;
  message = none;
  direction = none;
  packet_uid = none;
  method = none;
  path = none;
  header_summary = none;
  frame_type = none;
  handshake_phase = none;
  packet_code = nonnegative 0;
  seq = unset;
  ack = unset;
  window_size = unset;
  retransmit_count = unset;
  stream_id = unset;
  stream_offset = unset;
  status_code = unset;
  packet_id = unset;
  payload_length = unset;
  bytes = unset;
  attempt = unset;
  port = unset;
  security_encrypted = unset;
  security_mac_valid = unset;
  security_replay = unset;
  pid = 0;
}

-- A call of one of the functions that write a field, with the key and the value.
pub data Field : Type 0 where
  string_field : List ℕ → Option (List ℕ) → Field
  int_field : List ℕ → LogInt → Field
  bool_field : List ℕ → LogInt → Field

unfoldable pub write_field : Output → Field → Output
write_field o (string_field key value) = write_string_field o key value
write_field o (int_field key value) = write_int_field o key value
write_field o (bool_field key value) = write_bool_field o key value

-- The calls one after the other.
unfoldable pub write_fields : Output → List Field → Output
unfolding write_field
write_fields o [] = o
write_fields o (field ∷ fields) = write_fields (write_field o field) fields

-- `text ? text : fallback`
abbrev pub or_else : Option (List ℕ) → List ℕ → Option (List ℕ)
or_else none fallback = some fallback
or_else (some text) fallback = some text

abbrev pub string_fields : List ℕ → Logger → LogEvent → List Field
string_fields time logger event =
    string_field (codes "time") (some time)
    ∷ string_field (codes "schema_version") (or_else event.schema_version logger.schema_version)
    ∷ string_field (codes "protocol") (or_else event.protocol logger.protocol)
    ∷ string_field (codes "transport") (or_else event.transport logger.transport)
    ∷ string_field (codes "role") (some logger.role)
    ∷ string_field (codes "flow_id") (or_else event.flow_id logger.flow_id)
    ∷ string_field (codes "session_id") (or_else event.session_id logger.session_id)
    ∷ string_field (codes "scenario") (or_else event.scenario logger.scenario)
    ∷ string_field (codes "connection_id") event.connection_id
    ∷ string_field (codes "level") (or_else event.level (codes "INFO"))
    ∷ string_field (codes "event") (or_else event.event (codes "EVENT"))
    ∷ string_field (codes "peer") (or_else event.peer [])
    ∷ string_field (codes "state") event.state
    ∷ string_field (codes "packet_type") event.packet_type
    ∷ string_field (codes "result") event.result
    ∷ string_field (codes "sha1") event.sha1
    ∷ string_field (codes "error_code") event.error_code
    ∷ string_field (codes "wire_hex") event.wire_hex
    ∷ string_field (codes "message") event.message
    ∷ string_field (codes "direction") event.direction
    ∷ string_field (codes "packet_uid") event.packet_uid
    ∷ string_field (codes "method") event.method
    ∷ string_field (codes "path") event.path
    ∷ string_field (codes "header_summary") event.header_summary
    ∷ string_field (codes "frame_type") event.frame_type
    ∷ string_field (codes "handshake_phase") event.handshake_phase
    ∷ []

abbrev pub int_fields : LogEvent → List Field
int_fields event =
    int_field (codes "packet_code") event.packet_code
    ∷ int_field (codes "seq") event.seq
    ∷ int_field (codes "ack") event.ack
    ∷ int_field (codes "window_size") event.window_size
    ∷ int_field (codes "retransmit_count") event.retransmit_count
    ∷ int_field (codes "stream_id") event.stream_id
    ∷ int_field (codes "stream_offset") event.stream_offset
    ∷ int_field (codes "status_code") event.status_code
    ∷ int_field (codes "packet_id") event.packet_id
    ∷ int_field (codes "payload_length") event.payload_length
    ∷ int_field (codes "bytes") event.bytes
    ∷ int_field (codes "attempt") event.attempt
    ∷ int_field (codes "port") event.port
    ∷ []

abbrev pub security_fields : LogEvent → List Field
security_fields event =
    bool_field (codes "encrypted") event.security_encrypted
    ∷ bool_field (codes "mac_valid") event.security_mac_valid
    ∷ bool_field (codes "replay") event.security_replay
    ∷ string_field (codes "handshake_phase") event.handshake_phase
    ∷ []

abbrev is_set : LogInt → Bool
is_set unset = false
is_set (nonnegative n) = true
is_set (negative n) = true

abbrev is_some : Option (List ℕ) → Bool
is_some none = false
is_some (some text) = true

-- The object of the security fields, where one of them is set.
unfoldable pub write_security : Output → LogEvent → Output
unfolding write_fields
write_security o event =
    let inner = write_fields (record { first = true; text = [] }) (security_fields event) in
    if is_set event.security_encrypted
      || is_set event.security_mac_valid
      || is_set event.security_replay
      || is_some event.handshake_phase
    then record {
      first = false;
      text =
          o.text
          ++ ((if o.first then [] else 44 ∷ [])
              ++ (json_escape (some (codes "security")) ++ (58 ∷ 123 ∷ (inner.text ++ 125 ∷ []))));
    }
    else o

-- The entry between `{` and the line end.
unfoldable pub entry_text : List ℕ → Logger → LogEvent → List ℕ
unfolding write_fields write_security write_pid_field
entry_text time logger event =
    let o =
      write_fields (record { first = true; text = 123 ∷ [] }) (string_fields time logger event) in
    let secured = write_security (write_fields o (int_fields event)) event in
    (write_pid_field secured (codes "pid") event.pid).text ++ 125 ∷ []

event_of : Option LogEvent → LogEvent
event_of none = empty_event
event_of (some event) = event

-- What is appended to the file. Without a logger, or without its file, that is nothing; `time` is
-- the text of timestamp_now.
unfoldable pub logger_write : List ℕ → Option Logger → Option LogEvent → List ℕ
unfolding event_of entry_text
logger_write time none event = []
logger_write time (some logger) event = entry_text time logger (event_of event) ++ 10 ∷ []
