-- ===== src/Settings.antt =====
-- internal/settings/settings.go: the typed view of the configuration, with its defaults, and what it
-- accepts. The structs that `decode` fills by reflection are tables from the variables' names to typed
-- values.
pub mod Schema
pub mod Fields
pub mod Accepted
pub mod Typed
use greyd_v.Base.{
  ℕ, suc, Bytes, ◌==◌, bytes_eq, if◌then◌else◌, Bool, true, false, ◌&&◌, ◌||◌, not, List, [], ◌∷◌,
  ◌++◌, Option, none, some, map, codes, Table, lookup, insert,
}
use greyd_v.Base.Int.{ℤ, pos, ltb_ℤ, leb_ℤ, eq_ℤ}
use greyd_v.Grey.{parse_int}
use greyd_v.Result.{Result, ok, err, wrong_type, invalid_settings, ◌>>=◌}
use greyd_v.Config.Order.{listed}
use greyd_v.Config.Variables.{Value, int_value, str_value, list_value, strings}
use greyd_v.Config.Sections.{Section, get}
use greyd_v.Config.{
  Config, default_section, section, str, blacklist, whitelist, blacklist_names, whitelist_names,
}
use Fields.{Datum, text_datum, texts_datum, decode, number_at, text_at, boolean_at, texts_at}
use Schema.{
  Kind, boolean, number, text, texts, Field, global_fields, grey_fields, sync_fields, spf_fields,
  setup_fields, monitor_fields, firewall_fields, database_fields,
}

-- A line of `Warnings`: a variable that its section does not know, or low_prio_mx in the default section.
pub data Warning : Type 0 where
  unknown_variable : Bytes → Bytes → Warning
  misplaced_low_prio_mx : Warning

pub record Settings : Type 0 where
  pub global : Table Datum
  pub grey : Table Datum
  pub sync : Table Datum
  pub spf : Table Datum
  pub setup : Table Datum
  pub monitor : Table Datum
  pub firewall : Table Datum
  pub firewall_raw : Option Section
  pub database : Table Datum
  pub database_raw : Option Section
  pub blacklists : Table (Option Section)
  pub whitelists : Table (Option Section)
  pub warnings : List Warning

-- The variables of a section that are no field's, in the section's order.
unfoldable pub unknown_among : Bytes → List Bytes → List Bytes → List Warning
unfolding listed
unknown_among name known [] = []
unknown_among name known (k ∷ ks) =
    let rest = unknown_among name known ks in
    if listed k known then rest else unknown_variable k name ∷ rest

abbrev pub unknown_in : Bytes → List Field → Option Section → List Warning
unknown_in name fields none = []
unknown_in name fields (some s) = unknown_among name (map (λ f. f.name) fields) s.order

-- Whether a line is the one that `filterOut` drops: low_prio_mx as an unknown variable of the default
-- section.
abbrev is_false_warning : Warning → Bool
is_false_warning (unknown_variable k name) =
    bytes_eq k (codes "low_prio_mx") && bytes_eq name default_section
is_false_warning misplaced_low_prio_mx = false

-- `filterOut`
unfoldable pub filter_out : List Warning → List Warning
unfolding bytes_eq
filter_out [] = []
filter_out (w ∷ ws) = let rest = filter_out ws in if is_false_warning w then rest else w ∷ rest

abbrev pub drop_false_warning : Settings → Settings
drop_false_warning s = record s { warnings = filter_out s.warnings }

-- low_prio_mx of the default section, where the grey section has none.
unfoldable pub legacy_low_prio_mx : Config → Settings → Settings
unfolding bytes_eq insert lookup
legacy_low_prio_mx c s =
    let old = str (codes "low_prio_mx") [] [] c in
    if bytes_eq (text_at (codes "low_prio_mx") s.grey) [] && not (bytes_eq old [])
    then record s {
      grey = insert (codes "low_prio_mx") (text_datum old) s.grey;
      warnings = s.warnings ++ (misplaced_low_prio_mx ∷ []);
    }
    else s

-- The loop of `Load` over the sections, with their raw values for the drivers.
unfoldable pub decode_sections : Config → Result Settings
unfolding decode unknown_among
decode_sections c = do
  global ← decode global_fields (section default_section c)
  grey ← decode grey_fields (section (codes "grey") c)
  sync ← decode sync_fields (section (codes "sync") c)
  spf ← decode spf_fields (section (codes "spf") c)
  setup ← decode setup_fields (section (codes "setup") c)
  monitor ← decode monitor_fields (section (codes "monitor") c)
  firewall ← decode firewall_fields (section (codes "firewall") c)
  database ← decode database_fields (section (codes "database") c)
  ok (record {
    global = global;
    grey = grey;
    sync = sync;
    spf = spf;
    setup = setup;
    monitor = monitor;
    firewall = firewall;
    firewall_raw = section (codes "firewall") c;
    database = database;
    database_raw = section (codes "database") c;
    blacklists = map (λ n. (n, blacklist n c)) (blacklist_names c);
    whitelists = map (λ n. (n, whitelist n c)) (whitelist_names c);
    warnings =
        unknown_in default_section global_fields (section default_section c)
        ++ (unknown_in (codes "grey") grey_fields (section (codes "grey") c)
            ++ (unknown_in (codes "sync") sync_fields (section (codes "sync") c)
                ++ (unknown_in (codes "spf") spf_fields (section (codes "spf") c)
                    ++ (unknown_in (codes "setup") setup_fields (section (codes "setup") c)
                        ++ unknown_in (codes "monitor") monitor_fields
                            (section (codes "monitor") c)))));
  })

abbrev between : ℤ → ℤ → ℤ → Bool
between low high i = leb_ℤ low i && leb_ℤ i high

abbrev positive : ℤ → Bool
positive i = ltb_ℤ (pos 0) i

abbrev natural : ℤ → Bool
natural i = leb_ℤ (pos 0) i

abbrev is_port : ℤ → Bool
is_port i = between (pos 0) (pos 65535) i

abbrev pub some_text : List Bytes → Bool
some_text [] = false
some_text (_ ∷ _) = true

-- The checks of `Validate`, in its order.
unfoldable pub checks : Settings → List Bool
unfolding lookup bytes_eq
checks s =
    is_port (number_at (codes "port") s.global)
    ∷ is_port (number_at (codes "config_port") s.global)
    ∷ is_port (number_at (codes "port") s.sync)
    ∷ is_port (number_at (codes "port") s.monitor)
    ∷ positive (number_at (codes "interval") s.monitor)
    ∷ (bytes_eq (text_at (codes "error_code") s.global) (codes "450")
        || bytes_eq (text_at (codes "error_code") s.global) (codes "550"))
    ∷ positive (number_at (codes "max_cons") s.global)
    ∷ natural (number_at (codes "max_cons_black") s.global)
    ∷ natural (number_at (codes "max_cons_per_source") s.global)
    ∷ between (pos 64) (pos 65536) (number_at (codes "max_line_length") s.global)
    ∷ leb_ℤ (pos 1024) (number_at (codes "max_config_frame") s.global)
    ∷ between (pos 0) (pos 10) (number_at (codes "stutter") s.global)
    ∷ natural (number_at (codes "window") s.global)
    ∷ (not (boolean_at (codes "chroot") s.global)
        || not (bytes_eq (text_at (codes "chroot_dir") s.global) []))
    ∷ (not (boolean_at (codes "proxy_protocol_enable") s.global)
        || some_text (texts_at (codes "proxy_protocol_permitted_proxies") s.global))
    ∷ between (pos 0) (pos 100) (number_at (codes "stutter") s.grey)
    ∷ natural (number_at (codes "pass_time") s.grey)
    ∷ positive (number_at (codes "grey_expiry") s.grey)
    ∷ positive (number_at (codes "white_expiry") s.grey)
    ∷ positive (number_at (codes "trap_expiry") s.grey)
    ∷ positive (number_at (codes "max_domains") s.grey)
    ∷ between (pos 1) (pos 255) (number_at (codes "ttl") s.sync)
    ∷ natural (number_at (codes "replay_window") s.sync)
    ∷ positive (number_at (codes "max_entries") s.setup)
    ∷ []

-- How many of them fail.
unfoldable pub failures : List Bool → ℕ
failures [] = 0
failures (b ∷ bs) = if b then failures bs else suc (failures bs)

-- `Validate`, with the number of the errors that it collects.
unfoldable pub validate : Settings → Result Settings
unfolding failures checks
validate s = let n = failures (checks s) in if n == 0 then ok s else err (invalid_settings n)

-- `Load`
unfoldable pub load : Config → Result Settings
unfolding decode_sections legacy_low_prio_mx validate
load c = do
  decoded ← decode_sections c
  validate (drop_false_warning (legacy_low_prio_mx c decoded))

-- `WithoutSyncBind` and `WithoutSyncHosts`
unfoldable pub without_sync_bind : Settings → Settings
unfolding insert
without_sync_bind s = record s { sync = insert (codes "bind_address") (text_datum []) s.sync }

unfoldable pub without_sync_hosts : Settings → Settings
unfolding insert
without_sync_hosts s = record s { sync = insert (codes "hosts") (texts_datum []) s.sync }
