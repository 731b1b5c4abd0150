-- ===== src/Json.antt =====
-- The values that payloads of events hold.
use Prim.Native.String.{String}
use generic_iam.Prelude.{ℕ, Text, lit, Bool, Option, none, some, ◌==◌, if◌then◌else◌}

mutual
  pub data Json : Type 0 where
    null : Json
    text : Text → Json
    number : ℕ → Json
    boolean : Bool → Json
    object : Fields → Json

  pub data Fields : Type 0 where
    end : Fields
    field : String → Json → Fields → Fields

-- A field that is undefined is not serialised.
abbrev pub optional : String → Option Text → Fields → Fields
optional name none rest = rest
optional name (some t) rest = field name (text t) rest

abbrev pub optional_number : String → Option ℕ → Fields → Fields
optional_number name none rest = rest
optional_number name (some n) rest = field name (number n) rest

abbrev pub optional_flag : String → Option Bool → Fields → Fields
optional_flag name none rest = rest
optional_flag name (some b) rest = field name (boolean b) rest

-- The value of a field of an object: of two fields with one name the later one counts.
abbrev or_value : Option Json → Option Json → Option Json
or_value none b = b
or_value (some a) b = some a

unfoldable pub value_of : Text → Fields → Option Json
value_of name end = none
value_of name (field f v rest) =
    or_value (value_of name rest) (if lit f == name then some v else none)
