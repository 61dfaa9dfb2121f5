-- ===== src/Settings/Schema.antt =====
-- The variables of greyd.conf(5): the tags of the structs of internal/settings/settings.go, in their
-- order.
use greyd_v.Base.{Bytes, List, [], ◌∷◌, Option, none, some, codes}

-- The kinds of field that `setField` knows.
pub data Kind : Type 0 where
  boolean number text texts : Kind

-- A struct field with its `conf` tag and, where it has one, its `def` tag.
pub record Field : Type 0 where
  pub name : Bytes
  pub kind : Kind
  pub def : Option Bytes

abbrev pub global_fields : List Field
global_fields =
    record { name = codes "debug"; kind = boolean; def = some (codes "0") }
    ∷ record { name = codes "verbose"; kind = boolean; def = some (codes "0") }
    ∷ record { name = codes "daemonize"; kind = boolean; def = some (codes "1") }
    ∷ record { name = codes "syslog_enable"; kind = boolean; def = some (codes "1") }
    ∷ record { name = codes "log_to_file"; kind = text; def = none }
    ∷ record { name = codes "user"; kind = text; def = some (codes "greyd") }
    ∷ record { name = codes "drop_privs"; kind = boolean; def = some (codes "1") }
    ∷ record { name = codes "chroot"; kind = boolean; def = some (codes "1") }
    ∷ record { name = codes "chroot_dir"; kind = text; def = some (codes "/var/empty") }
    ∷ record { name = codes "setrlimit"; kind = boolean; def = some (codes "1") }
    ∷ record { name = codes "sandbox"; kind = boolean; def = some (codes "1") }
    ∷ record { name = codes "sandbox_strict"; kind = boolean; def = some (codes "0") }
    ∷ record { name = codes "max_cons"; kind = number; def = some (codes "800") }
    ∷ record { name = codes "max_cons_black"; kind = number; def = some (codes "800") }
    ∷ record { name = codes "max_cons_per_source"; kind = number; def = some (codes "0") }
    ∷ record { name = codes "max_line_length"; kind = number; def = some (codes "8191") }
    ∷ record { name = codes "hostname"; kind = text; def = none }
    ∷ record { name = codes "bind_address"; kind = text; def = none }
    ∷ record { name = codes "bind_address_ipv6"; kind = text; def = none }
    ∷ record { name = codes "enable_ipv6"; kind = boolean; def = some (codes "0") }
    ∷ record { name = codes "port"; kind = number; def = some (codes "8025") }
    ∷ record { name = codes "config_port"; kind = number; def = some (codes "8026") }
    ∷ record { name = codes "config_socket"; kind = text; def = none }
    ∷ record { name = codes "max_config_frame"; kind = number; def = some (codes "67108864") }
    ∷ record { name = codes "greyd_pidfile"; kind = text; def = none }
    ∷ record { name = codes "greylogd_pidfile"; kind = text; def = none }
    ∷ record { name = codes "stutter"; kind = number; def = some (codes "1") }
    ∷ record { name = codes "window"; kind = number; def = some (codes "0") }
    ∷ record {
      name = codes "banner";
      kind = text;
      def = some (codes "greyd IP-based SPAM blocker");
    }
    ∷ record { name = codes "error_code"; kind = text; def = some (codes "450") }
    ∷ record { name = codes "proxy_protocol_enable"; kind = boolean; def = some (codes "0") }
    ∷ record { name = codes "proxy_protocol_permitted_proxies"; kind = texts; def = none }
    ∷ []

abbrev pub grey_fields : List Field
grey_fields =
    record { name = codes "enable"; kind = boolean; def = some (codes "1") }
    ∷ record { name = codes "user"; kind = text; def = some (codes "greydb") }
    ∷ record { name = codes "traplist_name"; kind = text; def = some (codes "greyd-greytrap") }
    ∷ record {
      name = codes "traplist_message";
      kind = text;
      def = some (codes "Your address %A has mailed to spamtraps here");
    }
    ∷ record { name = codes "whitelist_name"; kind = text; def = some (codes "greyd-whitelist") }
    ∷ record {
      name = codes "whitelist_name_ipv6";
      kind = text;
      def = some (codes "greyd-whitelist-ipv6");
    }
    ∷ record { name = codes "low_prio_mx"; kind = text; def = none }
    ∷ record { name = codes "stutter"; kind = number; def = some (codes "10") }
    ∷ record { name = codes "permitted_domains"; kind = text; def = none }
    ∷ record { name = codes "db_permitted_domains"; kind = boolean; def = some (codes "0") }
    ∷ record { name = codes "pass_time"; kind = number; def = some (codes "1500") }
    ∷ record { name = codes "grey_expiry"; kind = number; def = some (codes "14400") }
    ∷ record { name = codes "white_expiry"; kind = number; def = some (codes "3110400") }
    ∷ record { name = codes "trap_expiry"; kind = number; def = some (codes "86400") }
    ∷ record { name = codes "max_domains"; kind = number; def = some (codes "100000") }
    ∷ []

abbrev pub sync_fields : List Field
sync_fields =
    record { name = codes "enable"; kind = boolean; def = some (codes "0") }
    ∷ record { name = codes "hosts"; kind = texts; def = none }
    ∷ record { name = codes "bind_address"; kind = text; def = none }
    ∷ record { name = codes "port"; kind = number; def = some (codes "8025") }
    ∷ record { name = codes "ttl"; kind = number; def = some (codes "1") }
    ∷ record { name = codes "verify"; kind = boolean; def = some (codes "1") }
    ∷ record { name = codes "key"; kind = text; def = some (codes "/etc/greyd/greyd.key") }
    ∷ record { name = codes "mcast_address"; kind = text; def = some (codes "224.0.1.241") }
    ∷ record { name = codes "replay_window"; kind = number; def = some (codes "64") }
    ∷ []

abbrev pub spf_fields : List Field
spf_fields =
    record { name = codes "enable"; kind = boolean; def = some (codes "1") }
    ∷ record { name = codes "trap_on_softfail"; kind = boolean; def = some (codes "1") }
    ∷ record { name = codes "whitelist_on_pass"; kind = boolean; def = some (codes "0") }
    ∷ []

abbrev pub setup_fields : List Field
setup_fields =
    record { name = codes "lists"; kind = texts; def = none }
    ∷ record { name = codes "curl_path"; kind = text; def = some (codes "/bin/curl") }
    ∷ record { name = codes "curl_proxy"; kind = text; def = none }
    ∷ record { name = codes "max_entries"; kind = number; def = some (codes "10000000") }
    ∷ []

abbrev pub monitor_fields : List Field
monitor_fields =
    record { name = codes "bind_address"; kind = text; def = some (codes "127.0.0.1") }
    ∷ record { name = codes "port"; kind = number; def = some (codes "9143") }
    ∷ record { name = codes "interval"; kind = number; def = some (codes "30") }
    ∷ record { name = codes "user"; kind = text; def = none }
    ∷ []

abbrev pub firewall_fields : List Field
firewall_fields = record { name = codes "driver"; kind = text; def = none } ∷ []

abbrev pub database_fields : List Field
database_fields = record { name = codes "driver"; kind = text; def = none } ∷ []
