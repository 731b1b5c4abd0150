-- ===== src/Http/Laws.antt =====
-- Laws of the envelopes of src/common/filters and src/common/interceptors.
use generic_iam.Prelude.{ℕ, Text, ◌≡◌, refl, Bool, true, false, arith, leb, ltb}
use generic_iam.Errors.{
  Exception, Result, ok, err, query_failed, type_error, bad_request, unauthorized, forbidden,
  not_found, conflict,
}
use generic_iam.Http.{status_of, catch, respond, Envelope, success, failure}

abbrev pub is_success : {A : Type 0} → Envelope A → Bool
is_success (success a id) = true
is_success (failure e id) = false

abbrev pub is_ok : {A : Type 0} → Result A → Bool
is_ok (ok a) = true
is_ok (err e) = false

abbrev pub id_of : {A : Type 0} → Envelope A → Text
id_of (success a id) = id
id_of (failure e id) = id

error_status : (e : Exception) → ltb (status_of e) 400 ≡ false
unfolding status_of
error_status (bad_request m) = refl
error_status (unauthorized m) = refl
error_status (forbidden m) = refl
error_status (not_found m) = refl
error_status (conflict m) = refl
error_status (query_failed e) = refl
error_status type_error = refl

-- For a request with a success status: the envelope is a success exactly if the service returned,
-- exactly then the status is below 400, an error is logged exactly from status 500 on, and the
-- envelope carries the request's correlation id.
pub respond_lem :
    {A : Type 0} (status : ℕ) (id : Text) (r : Result A)
    → ltb status 400 ≡ true
    → ((is_success (respond status id r).envelope ≡ is_ok r)
        × (ltb (respond status id r).status 400 ≡ is_ok r))
      × (((respond status id r).logged_error ≡ leb 500 (respond status id r).status)
          × (id_of (respond status id r).envelope ≡ id))
unfolding respond catch status_of
respond_lem status id (ok a) h = ((refl, h), (ground arith, refl))
respond_lem status id (err e) h = ((refl, error_status e), (refl, refl))
