-- ===== src/HttpApi/Handler.antt =====
-- internal/httpapi/handler.go: what a request is answered, and the state that requests share. The
-- answers of the provider, of the contexts and of the HTTP server are given.
pub mod Decision
pub mod Admission
use joy_pi_health.Prelude.{
  ℕ, suc, ◌+◌, ◌-◌, Bool, true, false, not, ◌&&◌, ◌||◌, Option, none, some, List, [], ◌∷◌, ◌++◌,
  ltb, ◌==◌, if◌then◌else◌,
}
use joy_pi_health.Result.{Result, ok, err}
use joy_pi_health.Text.{Text, bytes, text_eq, is_empty}
use joy_pi_health.Errors.{Error, plain, no_useful_snapshot, deadline_exceeded, canceled, is}
use joy_pi_health.Snapshot.{maximum_size}
use joy_pi_health.Snapshot.Json.{json_object, json_string}
use joy_pi_health.Snapshot.Encode.{Encoded, is_valid_body, encoded_length}

abbrev pub snapshot_path : Text
snapshot_path = bytes "/v1/snapshot"

abbrev pub maximum_admitted_requests : ℕ
maximum_admitted_requests = 8

abbrev pub maximum_error_size : ℕ
maximum_error_size = 2048

abbrev pub method_get : Text
method_get = bytes "GET"

-- What is read of an `http.Request`. The `int64` length is its bit pattern.
pub record Request : Type 0 where
  pub escaped_path : Text
  pub method : Text
  pub raw_query : Text
  pub transfer_encoding : List Text
  pub content_length : ℕ

-- `closes` is `request.Close`.
pub record Response : Type 0 where
  pub status : ℕ
  pub headers : List (Text × Text)
  pub body : Text
  pub closes : Bool

-- The error documents, by their codes.
pub data ErrorCode : Type 0 where
  invalid_request temporarily_unavailable internal_error : ErrorCode

abbrev code_text : ErrorCode → Text
code_text invalid_request = bytes "invalid_request"
code_text temporarily_unavailable = bytes "temporarily_unavailable"
code_text internal_error = bytes "internal_error"

abbrev message_text : ErrorCode → Text
message_text invalid_request = bytes "The request is invalid."
message_text temporarily_unavailable = bytes "No useful snapshot is currently available."
message_text internal_error = bytes "The service encountered an internal error."

unfoldable pub error_body : ErrorCode → Text
error_body code = json_object (
    (
      bytes "error",
      json_object (
          (bytes "code", json_string (code_text code))
          ∷ (bytes "message", json_string (message_text code))
          ∷ []),
    )
    ∷ [])

-- `admission` by the number of its tokens; `notified` is that `fatalOnce` is done.
pub record Handler : Type 0 where
  pub slots : ℕ
  pub failed : Bool
  pub notified : Bool
  pub fatal_calls : ℕ

abbrev pub new_handler : Handler
new_handler = record { slots = 0; failed = false; notified = false; fatal_calls = 0 }

unfoldable pub common_headers : List (Text × Text)
common_headers =
    (bytes "Content-Type", bytes "application/json")
    ∷ (bytes "Cache-Control", bytes "no-store")
    ∷ []

abbrev pub write_error : List (Text × Text) → Bool → ℕ → ErrorCode → Response
write_error extra closes status code = record {
  status = status;
  headers = extra ++ common_headers;
  body = error_body code;
  closes = closes;
}

abbrev pub success : Encoded → Response
success e = record { status = 200; headers = common_headers; body = e.body; closes = false }

abbrev is_nil : List Text → Bool
is_nil [] = true
is_nil (t ∷ ts) = false

-- The tests on the request alone; `none` lets it pass.
unfoldable pub screen : Request → Option Response
screen r =
    if not (text_eq r.escaped_path snapshot_path)
    then some (write_error [] false 404 invalid_request)
    else if not (text_eq r.method method_get)
    then some (write_error ((bytes "Allow", method_get) ∷ []) false 405 invalid_request)
    else if not (is_empty r.raw_query)
    then some (write_error [] false 400 invalid_request)
    else if not (is_nil r.transfer_encoding) || not (r.content_length == 0)
    then some (write_error ((bytes "Connection", bytes "close") ∷ []) true 400 invalid_request)
    else none

-- The failure flag, before admission.
unfoldable pub enter : Handler → Option Response
enter h = if h.failed then some (write_error [] false 503 temporarily_unavailable) else none

-- The `select` on the admission channel.
unfoldable pub admit : Handler → Option Handler
admit h =
    if ltb h.slots maximum_admitted_requests then some (record h { slots = h.slots + 1 }) else none

unfoldable pub release : Handler → Handler
release h = record h { slots = h.slots - 1 }

unfoldable pub set_failed : Handler → Handler
set_failed h = record h { failed = true }

-- `fatalOnce.Do`.
unfoldable pub call_fatal : Handler → Handler
call_fatal h = record h {
  notified = true;
  fatal_calls = if h.notified then h.fatal_calls else h.fatal_calls + 1;
}

-- The flag is set and the response written; the third part is that `fatalOnce.Do` comes next.
unfoldable pub write_internal_error : Handler → Handler × Option Response × Bool
unfolding set_failed
write_internal_error h = (set_failed h, some (write_error [] false 500 internal_error), true)

-- The provider's call: it returns, or panics.
pub data Provided : Type 0 where
  returned : Result Error Encoded → Provided
  provider_panic : Provided

unfoldable pub call_provider : Provided → Result Error Encoded
call_provider (returned r) = r
call_provider provider_panic = err (plain (bytes "snapshot provider panic"))

-- What is met behind the call: the request's context, the provider, the request's deadline.
pub record Answer : Type 0 where
  pub request_over : Bool
  pub provided : Provided
  pub deadline_over : Bool

-- The errors that are no defect.
abbrev pub is_expected : Error → Bool
is_expected e = is e no_useful_snapshot || is e deadline_exceeded || is e canceled

-- From the provider's answer to the response; there is none for a request that is over. The third part is
-- that `fatalOnce.Do` comes behind the response.
unfoldable pub conclude : Handler → Answer → Handler × Option Response × Bool
unfolding write_internal_error call_provider
conclude h a =
    if a.request_over
    then (h, none, false)
    else if h.failed
    then (h, some (write_error [] false 500 internal_error), false)
    else elim (call_provider a.provided) [
      | err e ↦
          if is_expected e
          then (h, some (write_error [] false 503 temporarily_unavailable), false)
          else write_internal_error h
      | ok encoded ↦
          if a.deadline_over
          then (h, some (write_error [] false 503 temporarily_unavailable), false)
          else if not (is_valid_body encoded) || ltb maximum_size (encoded_length encoded)
          then write_internal_error h
          else (h, some (success encoded), false)
    ]

-- The deferred function of `ServeHTTP` after a panic, up to its `fatalOnce.Do`: a response unless one was
-- begun.
unfoldable pub recover : Handler → Bool → Handler × Option Response
unfolding set_failed
recover h committed =
    (set_failed h, if committed then none else some (write_error [] false 500 internal_error))

-- `fatalOnce.Do`, where it comes.
unfoldable pub settle : Bool → Handler → Handler
unfolding call_fatal
settle owed h = if owed then call_fatal h else h

-- `serveHTTP` from its first test to its end, with nothing in between from other requests.
unfoldable pub serve_http : Handler → Request → Answer → Handler × Option Response
unfolding screen enter admit release conclude settle
serve_http h r a = elim (screen r) [
  | some response ↦ (h, some response)
  | none ↦ elim (enter h) [
    | some response ↦ (h, some response)
    | none ↦ elim (admit h) [
      | none ↦ (h, some (write_error [] false 503 temporarily_unavailable))
      | some h1 ↦ (release (settle (conclude h1 a).2 (conclude h1 a).0), (conclude h1 a).1)
    ]
  ]
]
