-- ===== src/Tests/Config.antt =====
-- The configuration on concrete sections and files (internal/config, internal/settings).
use greyd_v.Base.{
  ℕ, Bytes, bytes_eq, if◌then◌else◌, Bool, true, false, List, [], ◌∷◌, Option, none, some, ◌≡◌,
  refl, arith, codes, Table, lookup,
}
use greyd_v.Base.Int.{pos}
use greyd_v.Result.{Result, ok, err}
use greyd_v.Config.Order
use greyd_v.Config.Variables.{Value, int_value, str_value, list_value, no_values, also}
use greyd_v.Config.Laws.{Changes, appended, changed-value_of}
use greyd_v.Config.Merge.{Ordered, prefer, value_of-merge}
use greyd_v.Config.Invariant.{appends_str, Step-Ordered}
use greyd_v.Config.Loader.{load_file}
use greyd_v.Config.Builder.{Statement, one_assignment, inclusion, int_tree, into, unquote}
use greyd_v.Config.Loads.{CanLoad, Within}
use greyd_v.Config.Parsed.{Once, load_file-Once}
use greyd_v.Config.{
  Config, new_config, section, value_of, merge, set_int, set_str, append_list_str, delete, int,
  str_list,
}
use greyd_v.Settings.Schema.{monitor_fields}
use greyd_v.Settings.Fields.{Datum, text_datum, number_datum, decode}
use greyd_v.Settings.Typed.{Reads, decode-Reads}
use greyd_v.Settings.Accepted.{Accepted}
use greyd_v.Settings.{Settings}

abbrev port : Bytes
port = codes "port"

abbrev sync : Bytes
sync = codes "sync"

abbrev hosts : Bytes
hosts = codes "hosts"

-- A section with one variable, which the command line merges in.
abbrev from_flags : Config
from_flags = append_list_str hosts sync (codes "a") new_config

abbrev configured : Config
configured = set_int port sync (pos 1) (append_list_str hosts sync (codes "b") new_config)

nothing-Ordered : Ordered new_config
unfolding lookup
nothing-Ordered = record {
  of_sections = Order.Tidy-nil;
  of_vars = λ n s h. absurd (cc h);
  named = refl;
}

from_flags-Ordered : Ordered from_flags
from_flags-Ordered =
    Step-Ordered new_config from_flags nothing-Ordered (appends_str hosts sync (codes "a"))

Step-Ordered_example : Ordered (append_list_str hosts sync (codes "c") from_flags)
Step-Ordered_example =
    Step-Ordered from_flags (append_list_str hosts sync (codes "c") from_flags) from_flags-Ordered
      (appends_str hosts sync (codes "c"))

value_of-merge_example :
    value_of hosts sync (merge from_flags configured)
    ≡ prefer (value_of hosts sync from_flags) (value_of hosts sync configured)
value_of-merge_example = value_of-merge from_flags configured hosts sync from_flags-Ordered

merged : str_list hosts sync (merge from_flags configured) ≡ codes "a" ∷ []
unfolding greyd_v.Config.Variables.strings value_of lookup merge append_list_str greyd_v.Base.insert
    set_int bytes_eq greyd_v.Config.Variables.clone
merged = refl

not_merged : int port sync (pos 0) (merge from_flags configured) ≡ pos 1
unfolding value_of lookup merge append_list_str greyd_v.Base.insert set_int bytes_eq
not_merged = refl

changed-value_of_example :
    Changes (set_int port sync (pos 3)) port sync (λ _. some (int_value (pos 3)))
    × Changes (set_str port sync hosts) port sync (λ _. some (str_value hosts))
    × Changes (append_list_str port sync hosts) port sync (λ v. some (appended hosts v))
    × Changes (delete port sync) port sync (λ _. none)
changed-value_of_example = changed-value_of port sync hosts (pos 3)

-- The backslash goes and the character behind it stays.
unquoted : unquote (codes "\"a\\\"b\"") ≡ codes "a\"b"
unfolding unquote
unquoted = refl

-- Two files that each include both.
abbrev files : List Bytes
files = codes "a" ∷ codes "b" ∷ []

abbrev glob : Bytes → List Bytes
glob p = files

abbrev statements : Bytes → Result (List Statement)
statements text =
    ok (one_assignment (codes "Port") (int_tree text) ∷ inclusion (codes "\"*\"") ∷ [])

abbrev read_file : Bytes → Option Bytes
read_file path = some (codes "25")

loads : CanLoad files (codes "a") new_config
unfolding Order.listed bytes_eq Order.Distinct
loads = record { known = λ _. refl; fresh = λ _. refl; queued = tt; marked = tt }

matches : (p : Bytes) → Within files (glob p)
unfolding Order.listed bytes_eq
matches p = (refl, (refl, tt))

load_file-Once_example :
    (r : Result Config) × (load_file
        (some (into none glob statements))
        read_file
        2
        (codes "a")
        new_config
      ≡ some r)
    × Once r
unfolding greyd_v.Config.Loads.todo
load_file-Once_example =
    load_file-Once files none glob statements read_file matches 2 (codes "a") new_config loads
      (omega arith)

-- A configuration without any section has the defaults, which are accepted.
abbrev or_blank : Result Settings → Settings
or_blank (ok s) = s
or_blank (err e) = record {
  global = [];
  grey = [];
  sync = [];
  spf = [];
  setup = [];
  monitor = [];
  firewall = [];
  firewall_raw = none;
  database = [];
  database_raw = none;
  blacklists = [];
  whitelists = [];
  warnings = [];
}

abbrev monitored : Table Datum
monitored =
    (codes "bind_address", text_datum (codes "127.0.0.1"))
    ∷ (codes "port", number_datum (pos 80))
    ∷ (codes "interval", number_datum (pos 30))
    ∷ (codes "user", text_datum [])
    ∷ []

decode-Reads_example :
    Reads
      (set_int port (codes "monitor") (pos 80) new_config)
      (codes "monitor")
      monitor_fields
      monitored
unfolding decode lookup set_int greyd_v.Base.insert bytes_eq greyd_v.Settings.Fields.default_number
    greyd_v.Grey.parse_int
decode-Reads_example =
    decode-Reads monitor_fields (codes "monitor")
      (set_int port (codes "monitor") (pos 80) new_config) monitored decodes
  where
    decodes :
        decode monitor_fields
          (section (codes "monitor") (set_int port (codes "monitor") (pos 80) new_config))
        ≡ ok monitored
    decodes = refl
