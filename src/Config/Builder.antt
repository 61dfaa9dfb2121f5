-- ===== src/Config/Builder.antt =====
-- internal/config/parse/parse.go: the statements of a file applied to a configuration. What the
-- generated parser makes of the text, a list of statements or the first syntax error, is a parameter.
use greyd_v.Base.{
  Bytes, ◌==◌, if◌then◌else◌, Bool, true, false, ◌&&◌, List, [], ◌∷◌, Option, none, some, take,
  drop, length, map, ◌-◌, leb, get_or, insert,
}
use greyd_v.Base.Int.{ℤ}
use greyd_v.Core.{to_lower}
use greyd_v.Grey.{parse_int}
use greyd_v.Result.{Result, ok, err, integer_out_of_range, ◌>>=◌}
use greyd_v.Config.Variables.{Value, Values, int_value, str_value, list_value, no_values, also}
use greyd_v.Config.Sections.{Section, new_section, set}
use greyd_v.Config.{Config, default_section, add_section, add_blacklist, add_whitelist, section}
use greyd_v.Config.Loader.{Parser, add_include}

-- The parse tree of the grammar (GreydConf.g4): the texts of its tokens.
mutual
  pub data Tree : Type 0 where
    int_tree : Bytes → Tree
    str_tree : Bytes → Tree
    list_tree : Trees → Tree

  pub data Trees : Type 0 where
    no_trees : Trees
    more_trees : Tree → Trees → Trees

pub data SectionType : Type 0 where
  of_section of_blacklist of_whitelist : SectionType

pub data Statement : Type 0 where
  one_assignment : Bytes → Tree → Statement
  definition : SectionType → Bytes → List (Bytes × Tree) → Statement
  inclusion : Bytes → Statement

-- The loop that drops a backslash and keeps the character behind it: whether the last one escapes.
unfoldable pub unescape : Bool → Bytes → Bytes
unescape esc [] = []
unescape true (c ∷ cs) = c ∷ unescape false cs
unescape false (c ∷ cs) =
    let escaped = unescape true cs in
    let plain = unescape false cs in if c == 92 then escaped else c ∷ plain

-- `unquote`: 34 is the double quote. Without a backslash the loop changes nothing.
unfoldable pub unquote : Bytes → Bytes
unfolding unescape
unquote s = unescape false (
    if leb 2 (length s) && get_or s 0 0 == 34 && get_or s (length s - 1) 0 == 34
    then take (length s - 2) (drop 1 s)
    else s)

-- `value`: the number of a token is decimal and fits an int64.
number : Option ℤ → Result Value
number none = err integer_out_of_range
number (some i) = ok (int_value i)

unfoldable mutual
  unfolding number

  pub value : Tree → Result Value
  value (int_tree text) = number (parse_int text)
  value (str_tree text) = ok (str_value (unquote text))
  value (list_tree ts) = do vs ← values ts; ok (list_value vs)

  pub values : Trees → Result Values
  values no_trees = ok no_values
  values (more_trees t ts) = do v ← value t; vs ← values ts; ok (also v vs)

-- `assignment` to a section.
unfoldable pub assign : Bytes → Tree → Section → Result Section
unfolding value set
assign name t s = do v ← value t; ok (set (map to_lower name) v s)

unfoldable pub assign_all : List (Bytes × Tree) → Section → Result Section
unfolding assign
assign_all [] s = ok s
assign_all ((name, t) ∷ rest) s = do s' ← assign name t s; assign_all rest s'

abbrev pub add_definition : SectionType → Section → Config → Config
add_definition of_section s c = add_section s c
add_definition of_blacklist s c = add_blacklist s c
add_definition of_whitelist s c = add_whitelist s c

-- `Into` first makes the default section where it is missing.
abbrev pub with_default : Option Section → Config → Config
with_default none c = add_section (new_section default_section) c
with_default (some s) c = c

abbrev pub or_default : Option Section → Section
or_default none = new_section default_section
or_default (some s) = s

-- What a file does that is not in the sections: the home directory, and what a pattern matches.
module _ (home : Option Bytes) (glob : Bytes → List Bytes) where
  -- `statement`; where a change fails, the load fails, and no one sees the configuration again.
  unfoldable pub apply_statement : Statement → Config → Result Config
  unfolding assign_all add_section add_include
  apply_statement (one_assignment name t) c = do
    s ← assign name t (or_default (section default_section c))
    ok (record c { sections = insert default_section s c.sections })
  apply_statement (definition ty name assignments) c = do
    s ← assign_all assignments (new_section (map to_lower name))
    ok (add_definition ty s c)
  apply_statement (inclusion text) c = ok (add_include home glob (unquote text) c)

  unfoldable pub apply_statements : List Statement → Config → Result Config
  apply_statements [] c = ok c
  apply_statements (st ∷ sts) c = do d ← apply_statement st c; apply_statements sts d

  -- `Into`
  unfoldable pub into : (Bytes → Result (List Statement)) → Parser
  into parse_tree c text = do
    statements ← parse_tree text
    apply_statements statements (with_default (section default_section c) c)
