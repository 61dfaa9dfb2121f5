-- ===== src/Settings/Fields.antt =====
-- `decode` and `setField` of internal/settings/settings.go: a struct filled from a section. A struct is a
-- table from the names of its variables to typed values.
use greyd_v.Base.{Bytes, Bool, false, not, List, [], ◌∷◌, Option, none, some, Table, lookup}
use greyd_v.Base.Int.{ℤ, pos, eq_ℤ}
use greyd_v.Grey.{parse_int}
use greyd_v.Result.{Result, ok, err, wrong_type, ◌>>=◌}
use greyd_v.Config.Variables.{Value, int_value, str_value, list_value, strings}
use greyd_v.Config.Sections.{Section, get}
use greyd_v.Settings.Schema.{Kind, boolean, number, text, texts, Field}

-- What a field of each kind holds.
pub data Datum : Type 0 where
  boolean_datum : Bool → Datum
  number_datum : ℤ → Datum
  text_datum : Bytes → Datum
  texts_datum : List Bytes → Datum

-- The number of a default, 0 where it has none or is not one.
parsed_or_zero : Option ℤ → ℤ
parsed_or_zero none = pos 0
parsed_or_zero (some i) = i

unfoldable pub default_number : Option Bytes → ℤ
unfolding parsed_or_zero
default_number none = pos 0
default_number (some def) = parsed_or_zero (parse_int def)

abbrev pub default_text : Option Bytes → Bytes
default_text none = []
default_text (some def) = def

abbrev pub boolean_of : ℤ → Datum
boolean_of n = boolean_datum (not (eq_ℤ n (pos 0)))

-- `setField`: the errors "expected 0 or 1", "expected a number", "expected a string" and "expected a
-- list", with the name that `decode` adds.
unfoldable pub set_field : Bytes → Kind → Option Bytes → Option Value → Result Datum
unfolding strings
set_field name boolean def none = ok (boolean_of (default_number def))
set_field name boolean def (some (int_value i)) = ok (boolean_of i)
set_field name boolean def (some (str_value s)) = err (wrong_type name)
set_field name boolean def (some (list_value vs)) = err (wrong_type name)
set_field name number def none = ok (number_datum (default_number def))
set_field name number def (some (int_value i)) = ok (number_datum i)
set_field name number def (some (str_value s)) = err (wrong_type name)
set_field name number def (some (list_value vs)) = err (wrong_type name)
set_field name text def none = ok (text_datum (default_text def))
set_field name text def (some (int_value i)) = err (wrong_type name)
set_field name text def (some (str_value s)) = ok (text_datum s)
set_field name text def (some (list_value vs)) = err (wrong_type name)
set_field name texts def none = ok (texts_datum [])
set_field name texts def (some (int_value i)) = err (wrong_type name)
set_field name texts def (some (str_value s)) = ok (texts_datum (strings (some (str_value s))))
set_field name texts def (some (list_value vs)) = ok (texts_datum (strings (some (list_value vs))))

-- The value of a section that may be nil.
abbrev pub value_in : Bytes → Option Section → Option Value
value_in name none = none
value_in name (some s) = get name s

-- `decode`; what it knows are the names of the fields.
unfoldable pub decode : List Field → Option Section → Result (Table Datum)
unfolding set_field
decode [] sec = ok []
decode (f ∷ fs) sec = do
  d ← set_field f.name f.kind f.def (value_in f.name sec)
  rest ← decode fs sec
  ok ((f.name, d) ∷ rest)

-- The fields of a decoded struct.
abbrev number_or_zero : Option Datum → ℤ
number_or_zero (some (number_datum i)) = i
number_or_zero _ = pos 0

abbrev text_or_empty : Option Datum → Bytes
text_or_empty (some (text_datum s)) = s
text_or_empty _ = []

abbrev boolean_or_false : Option Datum → Bool
boolean_or_false (some (boolean_datum b)) = b
boolean_or_false _ = false

abbrev texts_or_none : Option Datum → List Bytes
texts_or_none (some (texts_datum ss)) = ss
texts_or_none _ = []

abbrev pub number_at : Bytes → Table Datum → ℤ
number_at name t = number_or_zero (lookup name t)

abbrev pub text_at : Bytes → Table Datum → Bytes
text_at name t = text_or_empty (lookup name t)

abbrev pub boolean_at : Bytes → Table Datum → Bool
boolean_at name t = boolean_or_false (lookup name t)

abbrev pub texts_at : Bytes → Table Datum → List Bytes
texts_at name t = texts_or_none (lookup name t)
