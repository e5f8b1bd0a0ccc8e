-- ===== src/Http.antt =====
-- What every request passes: src/common/middleware/correlation-id.middleware.ts on its way in, and
-- src/common/filters/http-exception.filter.ts when it throws.
pub mod Replies
use backend_assessment_chall.Prelude.{
  Bool, List, Option, [], false, if◌then◌else◌, ltb, none, some, ℕ, ◌∷◌,
}
use backend_assessment_chall.Prelude.Text.{Text, codes}
use backend_assessment_chall.World.{
  Exception, HttpError, http_exception, known_request, plain_error,
}

-- A header: not there, one value, or an array.
pub data HeaderValue : Type 0 where
  absent : HeaderValue
  single : Text → HeaderValue
  several : List Text → HeaderValue

-- The request and the response after the middleware, in what concerns the id.
pub record Correlated : Type 0 where
  pub correlation_id : Text
  pub request_header : HeaderValue
  pub response_header : Text

-- `Array.isArray(incoming) ? incoming[0] : incoming`
abbrev pub first_value : HeaderValue → Option Text
first_value absent = none
first_value (single value) = some value
first_value (several []) = none
first_value (several (value ∷ values)) = some value

-- `a || b`
abbrev pub or_text : Option Text → Text → Text
or_text none other = other
or_text (some []) other = other
or_text (some (c ∷ cs)) other = c ∷ cs

-- `genReqId` of src/common/logger/pino-logger.config.ts, which comes first: the id that pino puts on
-- the request, given a fresh UUID.
unfoldable pub gen_req_id : HeaderValue → Text → Text
gen_req_id incoming uuid = or_text (first_value incoming) uuid

-- `CorrelationIdMiddleware.use`, given the id that pino has put on the request and a fresh UUID.
unfoldable pub correlate : Option Text → HeaderValue → Text → Correlated
correlate pino_id incoming uuid =
    let id : Text = or_text pino_id (or_text (first_value incoming) uuid) in
    record { correlation_id = id; request_header = single id; response_header = id }

pub data Message : Type 0 where
  text : Text → Message
  texts : List Text → Message

-- What `getResponse` returns: a string, or an object that may have the two fields.
pub data Response : Type 0 where
  plain : Text → Response
  fields : Option Message → Option Text → Response

-- What was thrown: an HttpException with its status, name, message and response; another Error
-- with its name, message and stack; or a value that is no Error.
pub data Thrown : Type 0 where
  http : ℕ → Text → Text → Response → Thrown
  native_error : Text → Text → Text → Thrown
  value : Thrown

pub record UnifiedErrorResponse : Type 0 where
  pub status_code : ℕ
  pub message : Message
  pub error : Text
  pub correlation_id : Text
  pub timestamp : ℕ

pub data LogLevel : Type 0 where
  warn error : LogLevel

pub record LogLine : Type 0 where
  pub level : LogLevel
  pub correlation_id : Text
  pub status_code : ℕ
  pub stack : Option Text
  pub msg : Text

-- `??`
abbrev pub or_else : {A : Type 0} → Option A → A → A
or_else none other = other
or_else (some a) other = a

abbrev pub status_of : Thrown → ℕ
status_of (http status name message response) = status
status_of _ = 500

-- The status that an exception class of @nestjs/common stands for, and 500 for what is no
-- HttpException.
abbrev pub status_of_exception : Exception → ℕ
status_of_exception (http_exception HttpError.bad_request m) = 400
status_of_exception (http_exception HttpError.unauthorized m) = 401
status_of_exception (http_exception HttpError.forbidden m) = 403
status_of_exception (http_exception HttpError.not_found m) = 404
status_of_exception (http_exception HttpError.conflict m) = 409
status_of_exception (http_exception HttpError.too_many_requests m) = 429
status_of_exception (known_request code) = 500
status_of_exception (plain_error m) = 500

abbrev pub message_of : Thrown → Message
message_of (http status name message (plain res)) = text res
message_of (http status name message (fields m e)) = or_else m (text message)
message_of (native_error name message stack) = text message
message_of value = text (codes "Internal server error")

abbrev pub error_of : Thrown → Text
error_of (http status name message (plain res)) = name
error_of (http status name message (fields m e)) = or_else e name
error_of (native_error name message stack) = name
error_of value = codes "Internal Server Error"

-- `isKnownClientError`
abbrev pub is_known_client_error : Thrown → Bool
is_known_client_error (http status name message response) = ltb status 500
is_known_client_error _ = false

abbrev pub stack_of : Option Text → Thrown → Option Text
stack_of http_stack (http status name message response) = http_stack
stack_of http_stack (native_error name message stack) = some stack
stack_of http_stack value = none

-- `HttpExceptionFilter.catch`: the body that is sent with its status, and the line that is logged.
-- Given are the request's id, the time, the stack of an HttpException, and the text that status
-- and message make in the log.
unfoldable pub catch_exception :
    (ℕ → Message → Text) → Option Text → ℕ → Option Text → Thrown → UnifiedErrorResponse × LogLine
catch_exception log_message correlation_id now http_stack thrown =
    let id : Text = or_else correlation_id (codes "unknown") in
    let known : Bool = is_known_client_error thrown in
    (
      record {
        status_code = status_of thrown;
        message = message_of thrown;
        error = error_of thrown;
        correlation_id = id;
        timestamp = now;
      },
      record {
        level = if known then warn else error;
        correlation_id = id;
        status_code = status_of thrown;
        stack = if known then none else stack_of http_stack thrown;
        msg = log_message (status_of thrown) (message_of thrown);
      },
    )
