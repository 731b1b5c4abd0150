-- ===== src/Http.antt =====
-- What the HTTP layer makes of results: src/common/filters/global-exception.filter.ts,
-- src/common/interceptors/response-transform.interceptor.ts and correlation-id.interceptor.ts.
pub mod Laws
use generic_iam.Prelude.{
  ℕ, Text, Bool, true, false, Option, none, some, text_or, leb, if◌then◌else◌,
}
use generic_iam.Errors.{
  Exception, Message, bad_request, unauthorized, forbidden, not_found, conflict, query_failed,
  type_error, Result, ok, err, plain,
}

-- The status of an HttpException of Nest; anything else is an internal error.
unfoldable pub status_of : Exception → ℕ
status_of (bad_request m) = 400
status_of (unauthorized m) = 401
status_of (forbidden m) = 403
status_of (not_found m) = 404
status_of (conflict m) = 409
status_of (query_failed e) = 500
status_of type_error = 500

unfoldable pub message_of : Exception → Message
message_of (bad_request m) = m
message_of (unauthorized m) = m
message_of (forbidden m) = m
message_of (not_found m) = m
message_of (conflict m) = m
message_of (query_failed e) = plain "Internal server error"
message_of type_error = plain "Internal server error"

pub record ErrorBody : Type 0 where
  pub code : ℕ
  pub message : Message
  pub details : Option Message

pub data Envelope (A : Type 0) : Type 0 where
  success : A → Text → Envelope A
  failure : ErrorBody → Text → Envelope A

pub record Response (A : Type 0) : Type 0 where
  pub status : ℕ
  pub envelope : Envelope A
  -- the level of the line that the filter logs: an error, or a warning
  pub logged_error : Bool

abbrev details_of : Exception → Option Message
details_of (query_failed e) = none
details_of type_error = none
details_of (bad_request m) = some m
details_of (unauthorized m) = some m
details_of (forbidden m) = some m
details_of (not_found m) = some m
details_of (conflict m) = some m

-- The correlation id is the request's own, or a new one.
unfoldable pub correlation_id : Option Text → Text → Text
correlation_id header fresh = text_or header fresh

-- GlobalExceptionFilter.catch
unfoldable pub catch : {A : Type 0} → Exception → Text → Response A
unfolding status_of message_of
catch e id = record {
  status = status_of e;
  envelope =
      failure (record { code = status_of e; message = message_of e; details = details_of e }) id;
  logged_error = leb 500 (status_of e);
}

-- The answer to a request: the data in an envelope, or the error.
unfoldable pub respond : {A : Type 0} → ℕ → Text → Result A → Response A
unfolding catch
respond status id (ok a) = record { status = status; envelope = success a id; logged_error = false }
respond status id (err e) = catch e id
