-- ===== src/Http/Middleware.antt =====
-- internal/adapter/handler/middleware: the request's ID (requestid.go) and what Logging and Tracing count
-- of a response (logging.go). Recovery is in Http/Response.
use event_driven_notificatio.Prelude.{ℕ, ◌+◌, String, Option, none, some, str_eq, if◌then◌else◌}

-- RequestID: the header's text, or a new one.
unfoldable pub request_id : String → String → String
request_id header fresh = if str_eq header "" then fresh else header

-- GetRequestID, from the value in the context
unfoldable pub get_request_id : Option String → String
get_request_id none = ""
get_request_id (some id) = id

-- responseWriter
pub record ResponseWriter : Type 0 where
  pub status_code : ℕ
  pub bytes : ℕ

-- as Logging and Tracing make it
abbrev pub new_writer : ResponseWriter
new_writer = record { status_code = 200; bytes = 0 }

-- WriteHeader
unfoldable pub write_header : ℕ → ResponseWriter → ResponseWriter
write_header code w = record w { status_code = code }

-- Write, by the number of bytes that the ResponseWriter below has taken
unfoldable pub write : ℕ → ResponseWriter → ResponseWriter
write n w = record w { bytes = w.bytes + n }
