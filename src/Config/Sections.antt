-- ===== src/Config/Sections.antt =====
-- internal/config/section.go: a named group of variables. A *Section is its value; what the source
-- changes through a pointer, an operation returns.
use greyd_v.Base.{Bytes, List, [], Option, none, some, Table, lookup, insert, remove}
use greyd_v.Base.Int.{ℤ}
use greyd_v.Config.Order.{order_set, drop_first}
use greyd_v.Config.Variables.{Value, Values, int_value, str_value, list_value}

pub record Section : Type 0 where
  pub name : Bytes
  pub vars : Table Value
  pub order : List Bytes

-- `NewSection`
abbrev pub new_section : Bytes → Section
new_section name = record { name = name; vars = []; order = [] }

-- `Get`
abbrev pub get : Bytes → Section → Option Value
get var s = lookup var s.vars

-- `Set`
unfoldable pub set : Bytes → Value → Section → Section
set var v s = record s { vars = insert var v s.vars; order = order_set var s.vars s.order }

delete_found : Bytes → Section → Option Value → Section
delete_found var s none = s
delete_found var s (some v) = record s { vars = remove var s.vars; order = drop_first var s.order }

-- `Delete`
unfoldable pub delete : Bytes → Section → Section
unfolding delete_found
delete var s = delete_found var s (get var s)

-- `SetInt` and `SetStr`
abbrev pub set_int : Bytes → ℤ → Section → Section
set_int var i s = set var (int_value i) s

abbrev pub set_str : Bytes → Bytes → Section → Section
set_str var text s = set var (str_value text) s

-- `Int`, `Str` and `List`: the value of a variable of the right type, or the default.
abbrev pub as_int : Option Value → ℤ → ℤ
as_int (some (int_value i)) def = i
as_int (some (str_value _)) def = def
as_int (some (list_value _)) def = def
as_int none def = def

abbrev pub as_str : Option Value → Bytes → Bytes
as_str (some (str_value s)) def = s
as_str (some (int_value _)) def = def
as_str (some (list_value _)) def = def
as_str none def = def

abbrev pub as_list : Option Value → Option Values
as_list (some (list_value vs)) = some vs
as_list (some (int_value _)) = none
as_list (some (str_value _)) = none
as_list none = none

abbrev pub int : Bytes → ℤ → Section → ℤ
int var def s = as_int (get var s) def

abbrev pub str : Bytes → Bytes → Section → Bytes
str var def s = as_str (get var s) def

abbrev pub list : Bytes → Section → Option Values
list var s = as_list (get var s)
