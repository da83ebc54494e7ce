-- ===== src/Server/Errors.antt =====
-- errors.go and the default error handler of server.go: the answers for a handler's error.
use cartridge.Prelude.{ℕ, ◌≡◌, arith, String, Bool, nat_beq, if◌then◌else◌}
use cartridge.Middleware.Chain.{Request, Response, json, page, text}

-- A *fiber.Error with its code, or another error, by what Error() gives.
pub data HandlerError : Type 0 where
  fiber_error : ℕ → String → HandlerError
  other : String → HandlerError

unfoldable pub status_of : HandlerError → ℕ
status_of (fiber_error code m) = code
status_of (other m) = 500

-- A fiber.ErrorHandler, by what the client is answered, with Fiber's own answer where the handler
-- returns an error.
abbrev pub ErrorHandler : Type 0
ErrorHandler = Request → HandlerError → Response

unfoldable pub message_of : HandlerError → String
message_of (fiber_error code m) = m
message_of (other m) = m

unfoldable pub error_code_name : ℕ → String
error_code_name code =
    if nat_beq code 400
    then "Bad Request"
    else if nat_beq code 401
    then "Unauthorized"
    else if nat_beq code 403
    then "Forbidden"
    else if nat_beq code 404
    then "Not Found"
    else if nat_beq code 405
    then "Method Not Allowed"
    else if nat_beq code 429
    then "Too Many Requests"
    else if nat_beq code 500
    then "Internal Server Error"
    else if nat_beq code 502
    then "Bad Gateway"
    else if nat_beq code 503
    then "Service Unavailable"
    else "Error"

unfoldable pub default_error_handler : Bool → Request → HandlerError → Response
default_error_handler is_dev r e =
    if r.accepts_json
    then json (status_of e) (error_code_name (status_of e)) (message_of e)
    else page (status_of e) (error_code_name (status_of e)) (if is_dev then message_of e else "")

-- The handler of a server that was given none.
unfoldable pub create_default_error_handler : Request → HandlerError → Response
create_default_error_handler r e =
    if r.accepts_json
    then json (status_of e) "internal_server_error" (message_of e)
    else text (status_of e) (message_of e)

abbrev pub status : Response → ℕ
status (json code error message) = code
status (page code title message) = code
status (text code message) = code

abbrev pub shows : Response → String
shows (json code error message) = message
shows (page code title message) = message
shows (text code message) = message

-- Both handlers answer with the code of a Fiber error and with 500 for any other, to a request for
-- JSON and to one for a page. The one of errors.go keeps the error's text from a page outside of
-- development; the one of server.go shows it in every answer.
pub error_handlers_agree :
    (is_dev : Bool) (r : Request) (e : HandlerError)
    → (status (default_error_handler is_dev r e) ≡ status (create_default_error_handler r e))
      × (status (default_error_handler is_dev r e) ≡ status_of e)
      × (shows (create_default_error_handler r e) ≡ message_of e)
      × (shows (default_error_handler is_dev r e)
          ≡ (if r.accepts_json then message_of e else if is_dev then message_of e else ""))
unfolding default_error_handler create_default_error_handler
error_handlers_agree is_dev r e = ground arith

pub create_default_error_handler-status :
    (r : Request) (e : HandlerError) → status (create_default_error_handler r e) ≡ status_of e
unfolding create_default_error_handler
create_default_error_handler-status r e = ground arith
