-- ===== src/Greydb/Options.antt =====
-- The command line of greydb: `parseArgs` of internal/app/greydb/greydb.go.
use greyd_v.Base.{ℕ, suc, Bytes, ◌==◌, if◌then◌else◌, List, [], ◌∷◌, Option, none, some, codes}
use greyd_v.Result.{Result, ok, err}
use greyd_v.Cli.{Opt, parse}
use greyd_v.Config.{Config, new_config, append_list_str}

pub data EntryType : Type 0 where
  type_white type_traphit type_spamtrap type_domain : EntryType

pub data Action : Type 0 where
  action_list action_summary action_del action_add : Action

pub record Options : Type 0 where
  pub action : Action
  pub typ : EntryType
  pub config_file : Bytes
  pub opts : Config
  pub sync_send : ℕ
  pub keys : List Bytes

-- The switch on a flag.
unfoldable pub apply_opt : Opt → Options → Options
unfolding append_list_str
apply_opt opt o =
    if opt.flag == b'a'
    then record o { action = action_add }
    else if opt.flag == b'd'
    then record o { action = action_del }
    else if opt.flag == b't'
    then record o { typ = type_traphit }
    else if opt.flag == b'T'
    then record o { typ = type_spamtrap }
    else if opt.flag == b'D'
    then record o { typ = type_domain }
    else if opt.flag == b's'
    then record o { action = action_summary }
    else if opt.flag == b'f'
    then record o { config_file = opt.arg }
    else if opt.flag == b'Y'
    then record o {
      opts = append_list_str (codes "hosts") (codes "sync") opt.arg o.opts;
      sync_send = suc o.sync_send;
    }
    else o

unfoldable pub apply_opts : List Opt → Options → Options
unfolding apply_opt
apply_opts [] o = o
apply_opts (opt ∷ opts) o = apply_opts opts (apply_opt opt o)

-- version.DefaultConfig
abbrev default_config : Bytes
default_config = codes "/etc/greyd/greyd.conf"

from_parsed : Result (List Opt × List Bytes) → Option Options
unfolding apply_opts
from_parsed (err e) = none
from_parsed (ok (opts, rest)) =
    some
      (record (apply_opts opts (record {
        action = action_list;
        typ = type_white;
        config_file = default_config;
        opts = new_config;
        sync_send = 0;
        keys = [];
      })) { keys = rest })

-- `parseArgs`: none where the usage is printed.
unfoldable pub parse_args : List Bytes → Option Options
unfolding from_parsed parse
parse_args args = from_parsed (parse (codes "adtTDsf:Y:") args)
