-- ===== src/Errors.antt =====
-- The exceptions that the services throw, and the result of a call that may throw.
use Prim.Native.String.{String}
use generic_iam.Prelude.{ℕ, Text, ◌≡◌, refl, ◌⊎◌, inl, inr}

-- What a statement that the database rejects reports: the SQLSTATE, and whether the detail names
-- the column `tenant_id` or `user_id`.
pub data ForeignKey : Type 0 where
  on_tenant_id on_user_id on_other : ForeignKey

pub data QueryError : Type 0 where
  -- '23503'
  foreign_key_violation : ForeignKey → QueryError
  -- '23505'
  unique_violation : QueryError
  -- '2201X'
  negative_offset : QueryError
  other_error : ℕ → QueryError

-- A message is a fixed text, or one with a value inside.
pub data Message : Type 0 where
  plain : String → Message
  about : String → Text → String → Message

pub data Exception : Type 0 where
  bad_request unauthorized forbidden not_found conflict : Message → Exception
  query_failed : QueryError → Exception
  type_error : Exception

pub data Result (A : Type 0) : Type 0 where
  ok : A → Result A
  err : Exception → Result A

pub Result-cases :
    {A : Type 0} (r : Result A) → ((a : A) × (r ≡ ok a)) ⊎ ((e : Exception) × (r ≡ err e))
Result-cases (ok a) = inl (a, refl)
Result-cases (err e) = inr (e, refl)
