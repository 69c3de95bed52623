-- ===== src/Tests/Log.antt =====
-- An entry of the log, and a packet uid.
use udp_secure_transfer.Prelude.{ℕ, ◌≡◌, some, List, [], ◌∷◌, ◌++◌, codes}
use udp_secure_transfer.Log.{nonnegative}
use udp_secure_transfer.Log.Entry.{Logger, LogEvent, empty_event, logger_write}
use udp_secure_transfer.Log.Line.{IsText, logger_write-IsText}

abbrev server_log : Logger
server_log = record {
  role = codes "server";
  schema_version = codes "2";
  protocol = codes "udp-basic";
  transport = codes "udp";
  flow_id = [];
  session_id = [];
  scenario = [];
}

-- The message has a quotation mark and a line end.
abbrev odd_event : LogEvent
odd_event = record empty_event { message = some (34 ∷ 10 ∷ []); port = nonnegative 9000 }

logger_write-IsText_example :
    (line : List ℕ) × (logger_write (codes "now") (some server_log) (some odd_event)
      ≡ line ++ 10 ∷ [])
    × IsText line
logger_write-IsText_example = logger_write-IsText (codes "now") server_log (some odd_event)
