-- ===== src/Http/Errors.antt =====
-- The exception filter: src/shared/filters/all-exceptions.filter.ts. Texts that are only handed on are
-- strings, and a stack is a text; `now` is the reading of the clock.
pub mod Discreet
use base_api_nest_js.Base.{
  ℕ, Bool, true, false, not, ◌==◌, leb, String, Option, none, some, List, [], ◌∷◌, if◌then◌else◌,
  str_eq,
}

-- The field `message` of an exception's response.
pub data MessageField : Type 0 where
  no_message : MessageField
  message_text : String → MessageField
  message_list : List String → MessageField

-- HttpException.getResponse
pub data HttpResponse : Type 0 where
  response_text : String → HttpResponse
  response_object : (message : MessageField) (error : Option String) → HttpResponse

-- What a handler may throw: the classes that the filter tells apart, each error with its message and
-- its stack, and a value that is no error.
pub data Exception : Type 0 where
  http_exception :
      (status : ℕ) (response : HttpResponse) (message : String) (stack : Option String) → Exception
  prisma_known : (code : String) (message : String) (stack : Option String) → Exception
  prisma_validation : (message : String) (stack : Option String) → Exception
  other_error : (message : String) (stack : Option String) → Exception
  other_value : String → Exception

pub record NormalizedError : Type 0 where
  pub status_code : ℕ
  pub error : String
  pub message : String
  pub details : Option (List String)

-- STATUS_TEXT[status]
unfoldable pub status_text : ℕ → Option String
status_text status =
    if status == 400
    then some "Bad Request"
    else if status == 401
    then some "Unauthorized"
    else if status == 403
    then some "Forbidden"
    else if status == 404
    then some "Not Found"
    else if status == 409
    then some "Conflict"
    else if status == 422
    then some "Unprocessable Entity"
    else if status == 429
    then some "Too Many Requests"
    else if status == 500
    then some "Internal Server Error"
    else if status == 503
    then some "Service Unavailable"
    else none

abbrev pub or_else : Option String → String → String
or_else none d = d
or_else (some s) d = s

-- `obj.error ?? STATUS_TEXT[status] ?? 'Error'`
abbrev pub label_of : Option String → ℕ → String
label_of (some error) status = error
label_of none status = or_else (status_text status) "Error"

abbrev pub normalized : ℕ → String → String → Option (List String) → NormalizedError
normalized status_code error message details = record {
  status_code = status_code;
  error = error;
  message = message;
  details = details;
}

unfoldable pub from_http_exception : ℕ → HttpResponse → String → NormalizedError
unfolding status_text
from_http_exception status (response_text res) own =
    normalized status (or_else (status_text status) "Error") res none
from_http_exception status (response_object (message_list messages) error) own =
    normalized status (label_of error status) "Validation failed" (some messages)
from_http_exception status (response_object (message_text message) error) own =
    normalized status (label_of error status) message none
from_http_exception status (response_object no_message error) own =
    normalized status (label_of error status) own none

-- `STATUS_TEXT[status]` where the table has the status.
abbrev pub plain : ℕ → String → NormalizedError
plain status message = normalized status (or_else (status_text status) "undefined") message none

unfoldable pub from_prisma_known : String → NormalizedError
unfolding status_text
from_prisma_known code =
    if str_eq code "P2002"
    then plain 409 "A record with the provided unique field already exists"
    else if str_eq code "P2025"
    then plain 404 "Record not found"
    else if str_eq code "P2003"
    then plain 409 "Foreign key constraint violated"
    else if str_eq code "P2014"
    then plain 400 "Invalid relation in the request"
    else plain 500 "Database error"

unfoldable pub normalize : Exception → NormalizedError
unfolding from_http_exception from_prisma_known
normalize (http_exception status response message stack) =
    from_http_exception status response message
normalize (prisma_known code message stack) = from_prisma_known code
normalize (prisma_validation message stack) =
    normalized 400 "Bad Request" "Invalid database query" none
normalize (other_error message stack) = plain 500 "An unexpected error occurred"
normalize (other_value value) = plain 500 "An unexpected error occurred"

-- `exception instanceof Error && { stack: exception.stack }`
abbrev pub stack_of : Exception → Option String
stack_of (http_exception status response message stack) = stack
stack_of (prisma_known code message stack) = stack
stack_of (prisma_validation message stack) = stack
stack_of (other_error message stack) = stack
stack_of (other_value value) = none

-- The part of the request that the filter reads.
pub record FailedRequest : Type 0 where
  pub url : String
  pub method : String
  pub id : Option String

pub record ErrorAnswer : Type 0 where
  pub status_code : ℕ
  pub error : String
  pub message : String
  pub details : Option (List String)
  pub timestamp : ℕ
  pub path : String
  pub request_id : Option String
  pub stack : Option String

-- `request.id && { requestId: request.id }`: an empty id is left out.
abbrev pub id_shown : Option String → Option String
id_shown none = none
id_shown (some id) = if str_eq id "" then none else some id

-- What AllExceptionsFilter.catch answers, and whether it logs the exception; `production` is the test of
-- NODE_ENV.
unfoldable pub catch : Bool → ℕ → FailedRequest → Exception → ErrorAnswer × Bool
unfolding normalize
catch production now request exception =
    let n = normalize exception in
    (
      record {
        status_code = n.status_code;
        error = n.error;
        message = n.message;
        details = n.details;
        timestamp = now;
        path = request.url;
        request_id = id_shown request.id;
        stack = if not production then stack_of exception else none;
      },
      leb 500 n.status_code,
    )
