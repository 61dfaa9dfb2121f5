-- ===== src/Config.antt =====
-- internal/config: the configuration table. Sections are named groups of variables; assignments
-- outside a section are kept in the one called "default".
pub mod Variables
pub mod Order
pub mod Sections
pub mod Laws
pub mod Merge
pub mod Invariant
pub mod Loader
pub mod Builder
pub mod Loads
pub mod Parsed
use greyd_v.Base.{
  Bytes, bytes_eq, if◌then◌else◌, Bool, true, false, ◌||◌, not, List, [], ◌∷◌, ◌++◌, Option, none,
  some, Table, lookup, insert, map, codes,
}
use greyd_v.Base.Int.{ℤ, pos, eq_ℤ}
use greyd_v.Memory.{sort_strings}
use Order.{order_set, listed}
use Variables.{Value, Values, str_value, list_value, no_values, clone, strings, append_value}
use Sections.{Section, new_section, get, set, as_int, as_str, as_list}

-- `DefaultSection`
abbrev pub default_section : Bytes
default_section = codes "default"

pub record Config : Type 0 where
  pub sections : Table Section
  pub blacklists : Table Section
  pub whitelists : Table Section
  pub order : List Bytes
  pub processed : List Bytes
  pub includes : List Bytes

-- `New`
abbrev pub new_config : Config
new_config = record {
  sections = [];
  blacklists = [];
  whitelists = [];
  order = [];
  processed = [];
  includes = [];
}

-- `AddSection`
unfoldable pub add_section : Section → Config → Config
add_section s c = record c {
  sections = insert s.name s c.sections;
  order = order_set s.name c.sections c.order;
}

-- `AddBlacklist` and `AddWhitelist`
abbrev pub add_blacklist : Section → Config → Config
add_blacklist s c = record c { blacklists = insert s.name s c.blacklists }

abbrev pub add_whitelist : Section → Config → Config
add_whitelist s c = record c { whitelists = insert s.name s c.whitelists }

-- The name that an empty one stands for.
unfoldable pub section_name : Bytes → Bytes
section_name [] = default_section
section_name (c ∷ cs) = c ∷ cs

-- `Section`, `Blacklist`, `Whitelist`
abbrev pub section : Bytes → Config → Option Section
section name c = lookup (section_name name) c.sections

abbrev pub blacklist : Bytes → Config → Option Section
blacklist name c = lookup name c.blacklists

abbrev pub whitelist : Bytes → Config → Option Section
whitelist name c = lookup name c.whitelists

-- `sortedKeys`, `BlacklistNames`, `WhitelistNames`
abbrev pub sorted_keys : Table Section → List Bytes
sorted_keys m = sort_strings (map (λ p. p.0) m)

abbrev pub blacklist_names : Config → List Bytes
blacklist_names c = sorted_keys c.blacklists

abbrev pub whitelist_names : Config → List Bytes
whitelist_names c = sorted_keys c.whitelists

-- The section that `section` finds or, with `create`, makes: its value.
abbrev pub or_new : Bytes → Option Section → Section
or_new name none = new_section name
or_new name (some s) = s

-- `section` with `create`, as a change of the table.
abbrev pub created : Bytes → Option Section → Config → Config
created n none c = add_section (new_section n) c
created n (some s) c = c

unfoldable pub create_section : Bytes → Config → Config
unfolding section_name add_section
create_section name c = created (section_name name) (section name c) c

-- A change, through its pointer, of the section that `section` with `create` returns.
unfoldable pub change_section : Bytes → (Section → Section) → Config → Config
unfolding section_name create_section
change_section name f c =
    let n = section_name name in
    let made = create_section name c in
    record made { sections = insert n (f (or_new n (lookup n c.sections))) made.sections }

-- A variable's value, or nil where it or the section is missing.
abbrev pub value_in : Bytes → Option Section → Option Value
value_in var none = none
value_in var (some s) = get var s

unfoldable pub value_of : Bytes → Bytes → Config → Option Value
unfolding section_name
value_of var name c = value_in var (section name c)

-- `Int`, `Str`, `Bool`, `List` and `StrList`
abbrev pub int : Bytes → Bytes → ℤ → Config → ℤ
int var name def c = as_int (value_of var name c) def

abbrev pub str : Bytes → Bytes → Bytes → Config → Bytes
str var name def c = as_str (value_of var name c) def

abbrev pub bool : Bytes → Bytes → Bool → Config → Bool
bool var name def c = not (eq_ℤ (int var name (if def then pos 1 else pos 0) c) (pos 0))

abbrev pub list : Bytes → Bytes → Config → Option Values
list var name c = as_list (value_of var name c)

abbrev pub str_list : Bytes → Bytes → Config → List Bytes
str_list var name c = strings (value_of var name c)

-- `SetInt` and `SetStr`
unfoldable pub set_int : Bytes → Bytes → ℤ → Config → Config
unfolding change_section set
set_int var name i c = change_section name (Sections.set_int var i) c

unfoldable pub set_str : Bytes → Bytes → Bytes → Config → Config
unfolding change_section set
set_str var name text c = change_section name (Sections.set_str var text) c

unfoldable pub delete_in : Bytes → Bytes → Option Section → Config → Config
unfolding Sections.delete
delete_in var n none c = c
delete_in var n (some s) c = record c { sections = insert n (Sections.delete var s) c.sections }

-- `Delete`
unfoldable pub delete : Bytes → Bytes → Config → Config
unfolding section_name delete_in
delete var name c = delete_in var (section_name name) (section name c) c

-- The list that `AppendListStr` appends to: a new one where there is none.
abbrev pub list_or_new : Option Value → Values
list_or_new v = elim (as_list v) [ none ↦ no_values | some vs ↦ vs ]

-- `AppendListStr`
unfoldable pub append_list_str : Bytes → Bytes → Bytes → Config → Config
unfolding change_section set append_value
append_list_str var name text c =
    change_section name
      (λ s. set var (list_value (append_value (list_or_new (get var s)) (str_value text))) s) c

-- The body of the inner loop of `Merge`. `Keys` has no variable that is not set (`Tidy`), so that a nil
-- value is never stored.
abbrev pub set_clone : Bytes → Option Value → Section → Section
set_clone k none dst = dst
set_clone k (some v) dst = set k (clone v) dst

unfoldable pub copy_vars : Section → List Bytes → Section → Section
copy_vars src [] dst = dst
copy_vars src (k ∷ ks) dst = copy_vars src ks (set_clone k (get k src) dst)

-- The outer loop: the keys of a nil section are none.
abbrev pub copy_section : Option Section → Section → Section
copy_section none dst = dst
copy_section (some src) dst = copy_vars src src.order dst

unfoldable pub merge_sections : Table Section → List Bytes → Config → Config
unfolding change_section copy_vars
merge_sections from [] c = c
merge_sections from (name ∷ names) c =
    merge_sections from names (change_section name (copy_section (lookup name from)) c)

-- `Merge`
unfoldable pub merge : Config → Config → Config
unfolding merge_sections
merge from c = merge_sections from.sections from.order c
