-- ===== src/Apperrors/Defs.antt =====
-- The error values, their constructors, and what a client is sent.
use opendeploy.Common.{
  ℕ, Bool, true, false, Option, none, some, List, [], String, ◌==◌, if◌then◌else◌,
}

pub data ErrorCode : Type 0 where
  internal_error not_found already_exists invalid_input unauthorized forbidden conflict : ErrorCode
  capability_unavailable rate_limited : ErrorCode
  invalid_credentials token_expired token_invalid session_not_found : ErrorCode
  module_not_found module_installed module_not_installed module_enabled module_disabled : ErrorCode
  module_busy : ErrorCode
  site_not_found site_domain_taken site_already_exists : ErrorCode
  agent_unavailable agent_timeout : ErrorCode

pub ErrorCode-discrete : Discrete ErrorCode
ErrorCode-discrete = hlevel

-- AppError without its cause and its random ErrorID
pub record AppError : Type 0 where
  pub http_status : ℕ
  pub error_code : ErrorCode
  pub error_message : String
  pub details : String
  pub advice : String
  pub context : List (String × String)

-- An `error`: a plain text, a text that wraps a cause by `%w`, an AppError, and an AppError with a
-- cause.
pub data GoError : Type 0 where
  plain : String → GoError
  wrapped : String → GoError → GoError
  app_error : AppError → GoError
  app_error_caused : AppError → GoError → GoError

-- recommendation
unfoldable pub recommendation : ℕ → String
recommendation status =
    if status == 400
    then "Check the submitted fields and try again."
    else if status == 401
    then "Sign in again and retry the request."
    else if status == 403
    then "Ask an administrator for the required permission."
    else if status == 404
    then "Refresh the page and verify that the resource still exists."
    else if status == 409
    then "Refresh the current state, resolve the conflict, and retry."
    else if status == 503
    then "Check the OpenDeploy Agent and retry when it is healthy."
    else if status == 501
    then "Select the local server or a feature supported by the remote Agent."
    else if status == 504
    then "Check Agent connectivity and retry the operation."
    else "Retry once; if the problem persists, use the error ID to inspect server logs."

-- New
abbrev pub new_error : ℕ → ErrorCode → String → AppError
new_error status code message = record {
  http_status = status;
  error_code = code;
  error_message = message;
  details = message;
  advice = recommendation status;
  context = [];
}

abbrev pub app : ℕ → ErrorCode → String → GoError
app status code message = app_error (new_error status code message)

-- Wrap
abbrev pub app_caused : ℕ → ErrorCode → String → GoError → GoError
app_caused status code message cause = app_error_caused (new_error status code message) cause

-- WithContext
abbrev pub with_context : AppError → List (String × String) → AppError
with_context e fields = record e { context = fields }

-- Unwrap, of AppError and of fmt's wrapping error
unfoldable pub unwrap : GoError → Option GoError
unwrap (plain s) = none
unwrap (wrapped s cause) = some cause
unwrap (app_error a) = none
unwrap (app_error_caused a cause) = some cause

-- errors.As(err, &appErr): the first AppError of the chain
unfoldable pub find_app : GoError → Option GoError
find_app (plain s) = none
find_app (wrapped s cause) = find_app cause
find_app (app_error a) = some (app_error a)
find_app (app_error_caused a cause) = some (app_error_caused a cause)

-- Internal
unfoldable pub internal : String → GoError → GoError
internal message cause = elim (find_app cause) [
  | some existing ↦ existing
  | none ↦ app_caused 500 internal_error message cause
]

-- AsAppError
unfoldable pub as_app_error : GoError → GoError
as_app_error e = elim (find_app e) [
  | some existing ↦ existing
  | none ↦ internal "an unexpected error occurred" e
]

-- the constructors for common cases; a name that Sprintf puts into the text is joined by the caller
abbrev pub invalid : String → GoError
invalid message = app 400 invalid_input message

abbrev pub missing : String → GoError
missing text = app 404 not_found text

abbrev pub exists_already : String → GoError
exists_already text = app 409 already_exists text

abbrev pub refused : String → GoError
refused message = app 403 forbidden message

abbrev pub agent_down : GoError → GoError
agent_down cause = app_caused 503 agent_unavailable "agent is unavailable" cause

abbrev has_code : AppError → ErrorCode → Bool
has_code a code = elim (ErrorCode-discrete a.error_code code) [ yes p ↦ true | no p ↦ false ]

-- IsAppError
unfoldable pub is_app_error : GoError → ErrorCode → Bool
is_app_error e code = elim (find_app e) [
  | some existing ↦ elim existing [
    | plain s ↦ false
    | wrapped s cause ↦ false
    | app_error a ↦ has_code a code
    | app_error_caused a cause ↦ has_code a code
  ]
  | none ↦ false
]

-- what WriteHTTP sends: the AppError that AsAppError finds, as the status and the fields of the envelope
abbrev fields_of : GoError → AppError
fields_of (plain s) = new_error 500 internal_error s
fields_of (wrapped s cause) = new_error 500 internal_error s
fields_of (app_error a) = a
fields_of (app_error_caused a cause) = a

pub record Response : Type 0 where
  pub status : ℕ
  pub code : ErrorCode
  pub message : String
  pub sent_details : String
  pub sent_advice : String
  pub sent_context : List (String × String)

abbrev pub envelope : AppError → Response
envelope a = record {
  status = a.http_status;
  code = a.error_code;
  message = a.error_message;
  sent_details = a.details;
  sent_advice = a.advice;
  sent_context = a.context;
}

-- WriteHTTP, without its log line; AsAppError always finds an AppError
unfoldable pub write_http : GoError → Response
write_http e = envelope (fields_of (as_app_error e))
