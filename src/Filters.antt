-- ===== src/Filters.antt =====
-- src/common/filters: what a client is told of an exception. Logging and the time of an answer are
-- left out.
use mesyaf_market.Prelude.{ℕ, Bool, Option, none, some, String, leb, if◌then◌else◌}

-- The response of an HttpException, as `typeof` sees it; an object by its key `error`, which may be
-- no text.
pub data Payload : Type 0 where
  text : String → Payload
  object : (error : Option String) → Payload
  other : Payload

-- An HttpException, with getStatus and getResponse, or anything else that was thrown.
pub data Exception : Type 0 where
  http : (status : ℕ) (response : Payload) → Exception
  unknown : Exception

-- What the filters use of the language: toUpperCase, then `_` for each run of spaces; and whether a
-- text has more than spaces.
pub record TextOps : Type 0 where
  pub code_of : String → String
  pub is_blank : String → Bool

-- The body of an answer to an HTTP request.
pub record ErrorBody : Type 0 where
  pub request_id : Option String
  pub status_code : ℕ
  pub code : String
  pub path : String
  pub message : Payload

abbrev status_of : Exception → ℕ
status_of (http status response) = status
status_of unknown = 500

abbrev message_of : Exception → Payload
message_of (http status response) = response
message_of unknown = text "Internal server error"

-- `a ?? b` on the request's id and the header
abbrev first_id : Option String → Option String → Option String
first_id none b = b
first_id (some a) b = some a

module _ (ops : TextOps) where
  abbrev payload_code : Payload → String
  payload_code (text s) = ops.code_of s
  payload_code (object (some e)) = ops.code_of e
  payload_code (object none) = "HTTP_ERROR"
  payload_code other = "HTTP_ERROR"

  -- GlobalExceptionFilter.normalizeCode
  unfoldable pub normalize_code : ℕ → Payload → String
  normalize_code status payload =
      if leb 500 status then "INTERNAL_SERVER_ERROR" else payload_code payload

  -- GlobalExceptionFilter.catch: the ids of the request and of the response's header, the path.
  unfoldable pub catch_http : Exception → Option String → Option String → String → ErrorBody
  unfolding normalize_code
  catch_http e request_id header path = record {
    request_id = first_id request_id header;
    status_code = status_of e;
    code = normalize_code (status_of e) (message_of e);
    path = path;
    message = message_of e;
  }

-- What a handler of a socket throws: a WsException with its error, an HttpException with its
-- message, or anything else.
pub data WsFailure : Type 0 where
  ws : (error : String) → WsFailure
  http_failure : (message : String) → WsFailure
  unknown_failure : WsFailure

abbrev ws_message : WsFailure → String
ws_message (ws e) = e
ws_message (http_failure m) = m
ws_message unknown_failure = "Internal server error"

-- GlobalWsExceptionFilter.normalizeCode
abbrev ws_code : TextOps → String → String
ws_code ops m = if ops.is_blank m then "WS_INTERNAL_ERROR" else ops.code_of m

-- GlobalWsExceptionFilter.catch: the code and the message that are emitted.
unfoldable pub catch_ws : TextOps → WsFailure → String × String
catch_ws ops e = (ws_code ops (ws_message e), ws_message e)
